-- ===== src/Executor/Running.antt =====
-- nacl/src/task/executor.rs: `run`, which polls tasks and then rests, for ever.
use na_cl.Common.{
  ℕ, zero, suc, ◌+◌, ◌<◌, ◌≡◌, ◌≢◌, ◌⊎◌, inl, inr, true, false, Option, none, some, List, [], All,
  length, arith,
}
use na_cl.Task.Stealing.{StealerApi}
use na_cl.Executor.{Deps, Core, run_ready_tasks}
use na_cl.Executor.Steps.{IsValid, queue}
use na_cl.Executor.Rounds.{with_worker-IsValid}
use na_cl.Executor.Termination.{IsFrugal, Below, energy, run_ready_tasks_ends}
use na_cl.Executor.Sleep.{Rest, sleep_if_idle, sleep_if_idle_cases, Calms, sleep_if_idle_ends}

module _ (deps : Deps) (api : StealerApi deps.wk) where
  open deps use {wk}
  open api use {Stealer}

  -- One turn of the loop of `run`, with fuel for the loops inside: the executor after it, and the
  -- processor's rest.
  unfoldable pub run_once : ℕ → List Stealer → Core deps → Option (Core deps × Rest wk api)
  run_once fuel ss s = elim (run_ready_tasks deps fuel s) [
    | none ↦ none
    | some t ↦ elim (sleep_if_idle wk api fuel ss t.worker) [
      | none ↦ none
      | some r ↦ some (record t { worker = r.worker }, r)
    ]
  ]

  -- `run` for `n` turns; the stealers are those that exist at each turn.
  unfoldable pub run : ℕ → ℕ → (ℕ → List Stealer) → Core deps → Option (Core deps)
  unfolding run_once
  run zero fuel stealers s = some s
  run (suc n) fuel stealers s = elim (run_once fuel (stealers n) s) [
    | none ↦ none
    | some (t, r) ↦ run n fuel stealers t
  ]

  -- How a turn ends: the processor has halted with nothing to do, or it has stolen something.
  abbrev Rested : Core deps → Rest wk api → Type 0
  Rested t r =
      ((r.halted ≡ true) × (r.interrupts ≡ true) × (queue deps t ≡ []))
      ⊎ ((r.halted ≡ false) × (r.interrupts ≡ false) × (queue deps t ≢ []))

  -- A turn of `run` comes to its end, if the polls of the tasks call few wakers and the retries of
  -- every stealer end: it serves every task that is ready, keeps the maps in agreement, and then
  -- either halts with interrupts enabled and nothing to do, or goes on with stolen work and
  -- interrupts disabled.
  run_once_rests :
      (cost : deps.fut.Future → ℕ) (retries : Stealer → ℕ) (fuel n : ℕ) (ss : List Stealer)
      (s : Core deps)
      → IsFrugal deps cost
      → IsValid deps s
      → Below deps cost n s
      → length (queue deps s) + energy deps cost n s < fuel
      → Calms wk api retries
      → All (λ x. retries x < fuel) ss
      → (t : Core deps) × (r : Rest wk api) × (run_once fuel ss s ≡ some (t, r))
        × IsValid deps t
        × Rested t r
  unfolding run_once
  run_once_rests cost retries fuel n ss s frugal v below enough calm few =
      let (t, p, idle, v') = run_ready_tasks_ends deps cost fuel n s frugal v below enough in
      let (r, q) = sleep_if_idle_ends wk api retries fuel ss t.worker calm few in
      (
        record t { worker = r.worker },
        r,
        rw (p, q, run_once),
        with_worker-IsValid deps t r.worker v',
        (elim (sleep_if_idle_cases wk api fuel ss t.worker r q) [
          | inl (halted, enabled, left, had) ↦ inl (halted, enabled, left)
          | inr (busy, work, flag) ↦ inr (busy, ground (arith, flag, idle), work)
        ]),
      )
