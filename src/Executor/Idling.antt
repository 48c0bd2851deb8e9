-- ===== src/Executor/Idling.antt =====
-- nacl/src/task/executor.rs: the turns of `run` when there is nothing left to do.
use na_cl.Common.{
  ℕ, zero, suc, ◌+◌, ◌≡◌, refl, ◌∙◌, ap, true, false, some, List, [], ◌∷◌, All, arith,
}
use na_cl.Machine.Protocol.{Sure, Sure-mono, Sure-bind}
use na_cl.Task.Interfaces.{is_nil}
use na_cl.Task.Stealing.{StealerApi, empty, is_success}
use na_cl.Executor.{Deps, Core, run_ready_tasks}
use na_cl.Executor.Steps.{queue}
use na_cl.Executor.Rounds.{pop-nil, run_ready_tasks-stop}
use na_cl.Executor.Sleep.{steal_from, steal_any, sleep_if_idle}
use na_cl.Executor.Running.{run_once}
use na_cl.Executor.Turns.{Resting, resting, turn, turns, turn_performs}

module _ (deps : Deps) (api : StealerApi deps.wk) where
  open deps use {tm, wk}
  open api use {Stealer, steal_batch}

  -- A stealer that finds nothing, as the stealer of a queue that is empty.
  abbrev pub IsDry : Stealer → Type 0
  IsDry x = (w : wk.Worker) → wk.entries w ≡ [] → (steal_batch x w).2 ≡ empty

  steal_any-dry :
      (fuel : ℕ) (ss : List Stealer) (w : wk.Worker)
      → All IsDry ss
      → wk.entries w ≡ []
      → (w' : wk.Worker) × (steal_any wk api (suc fuel) ss w ≡ some (w', false))
        × (wk.entries w' ≡ [])
  unfolding steal_any steal_from
  steal_any-dry fuel [] w d h = (w, refl, h)
  steal_any-dry fuel (x ∷ ss) w d h =
      let none_there = d.0 w h in
      let left = api.steal_batch-same x w (ap is_success none_there) ∙ h in
      let (w', e, h') = steal_any-dry fuel ss (steal_batch x w).1 d.1 left in
      (w', rw (none_there, steal_from, steal_any) e, h')

  -- With nothing to steal, a turn that leaves the queue empty halts.
  run_once-dry :
      (fuel : ℕ) (ss : List Stealer) (s t : Core deps)
      → All IsDry ss
      → run_ready_tasks deps (suc fuel) s ≡ some t
      → queue deps t ≡ []
      → (w : wk.Worker) × (run_once deps api (suc fuel) ss s
          ≡ some (record t { worker = w }, record { worker = w; interrupts = true; halted = true }))
        × (wk.entries w ≡ [])
  unfolding run_once sleep_if_idle
  run_once-dry fuel ss s t d ends h =
      let (w, e, h') = steal_any-dry fuel ss t.worker d h in
      let idle : wk.is_empty t.worker ≡ true = wk.is_empty-entries t.worker ∙ ap is_nil h in
      (w, rw (run_once, ends, sleep_if_idle, idle, e) refl, h')

  -- The processor has halted `n` times more, with interrupts enabled; the tasks are those of `s`, and
  -- none of them is ready.
  pub record Idled (s : Core deps) (p : Resting) (n : ℕ) (q : Resting) (u : Core deps)
      : Type 0 where
    pub tasks : u.tasks ≡ s.tasks
    pub none_ready : queue deps u ≡ []
    pub enabled : q.interrupts ≡ true
    pub halts : q.halts ≡ p.halts + n

  -- A turn after which the executor is at `t`, with no task ready, and what follows it.
  turn-Idled :
      (n fuel : ℕ) (stealers : ℕ → List Stealer) (s t : Core deps) (p : Resting)
      → All IsDry (stealers n)
      → run_ready_tasks deps (suc fuel) s ≡ some t
      → queue deps t ≡ []
      → ((u : Core deps) (q : Resting)
          → queue deps u ≡ []
          → q.interrupts ≡ true
          → Sure resting q (turns deps api n (suc fuel) stealers u) (Idled u q n))
      → Sure resting p (turns deps api (suc n) (suc fuel) stealers s) (Idled t p (suc n))
  unfolding turns
  turn-Idled n fuel stealers s t p d ends h later =
      let (w, e, h') = run_once-dry fuel (stealers n) s t d ends h in
      Sure-bind resting p (turn deps api (suc fuel) (stealers n) s) _ _ (Idled t p (suc n))
        (turn_performs deps api (suc fuel) (stealers n) s _ _ p e)
        (λ q u same.
          let halts : q.halts ≡ p.halts + 1 = ap (λ r. r.halts) same.1 in
          Sure-mono resting q (turns deps api n (suc fuel) stealers u) (Idled u q n)
            (Idled t p (suc n))
            (later u q (ap (queue deps) same.0 ∙ h') (ap (λ r. r.interrupts) same.1))
            (λ q' u' g. record {
              tasks = g.tasks ∙ ap (λ c. c.tasks) same.0;
              none_ready = g.none_ready;
              enabled = g.enabled;
              halts = omega (arith, g.halts, halts);
            }))

  -- With an empty queue and nothing to steal, every turn of `run` halts with interrupts enabled.
  pub turns_idle :
      (n fuel : ℕ) (stealers : ℕ → List Stealer) (s : Core deps) (p : Resting)
      → ((k : ℕ) → All IsDry (stealers k))
      → queue deps s ≡ []
      → p.interrupts ≡ true
      → Sure resting p (turns deps api n (suc fuel) stealers s) (Idled s p n)
  unfolding turns
  turns_idle zero fuel stealers s p d h i = record {
    tasks = refl;
    none_ready = h;
    enabled = i;
    halts = omega arith;
  }
  turns_idle (suc n) fuel stealers s p d h i =
      turn-Idled n fuel stealers s s p (d n)
        (run_ready_tasks-stop deps fuel s (pop-nil deps s.worker h)) h
        (λ u q h' i'. turns_idle n fuel stealers u q d h' i')
