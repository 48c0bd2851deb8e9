-- ===== src/Executor/Turns.antt =====
-- nacl/src/task/executor.rs: the turns of `run` as effects on the processor.
use na_cl.Common.{
  ℕ, zero, suc, ◌+◌, ◌≡◌, refl, ◌∙◌, Bool, true, false, if◌then◌else◌, Option, none, some, List,
  Bool-cases, Option-cases, inl, inr, arith,
}
use na_cl.Machine.{
  Effect, Io, ret, spent, ◌>>=◌, ◌>>◌, perform, disable_interrupts, enable_interrupts, halt,
}
use na_cl.Machine.Protocol.{Protocol, Sure, Sure-mono}
use na_cl.Task.Stealing.{StealerApi}
use na_cl.Executor.{Deps, Core, run_ready_tasks}
use na_cl.Executor.Sleep.{Rest, steal_any, sleep_if_idle}
use na_cl.Executor.Running.{run_once}

-- The interrupt flag, and how often the processor was halted.
pub record Resting : Type 0 where
  pub interrupts : Bool
  pub halts : ℕ

-- Interrupts may be enabled and disabled, and the processor may be halted with interrupts enabled:
-- otherwise nothing would wake it again.
abbrev pub Wakes : Resting → Effect → Type 0
Wakes p enable_interrupts = Unit
Wakes p disable_interrupts = Unit
Wakes p halt = p.interrupts ≡ true
Wakes p _ = ⊥

abbrev pub rest_after : Resting → Effect → Resting
rest_after p enable_interrupts = record p { interrupts = true }
rest_after p disable_interrupts = record p { interrupts = false }
rest_after p halt = record p { halts = p.halts + 1 }
rest_after p _ = p

abbrev pub resting : Protocol
resting = record {
  Phase = Resting;
  Allowed = Wakes;
  Answers = λ p e n. Unit;
  next = λ p e n. rest_after p e;
}

module _ (deps : Deps) (api : StealerApi deps.wk) where
  open deps use {wk}
  open api use {Stealer}

  -- What follows the search for tasks to steal.
  unfoldable pub rest_on : Core deps → Option (wk.Worker × Bool) → Io (Core deps)
  rest_on t none = spent
  rest_on t (some (w, true)) = ret (record t { worker = w })
  rest_on t (some (w, false)) = do
    perform enable_interrupts
    perform halt
    ret (record t { worker = w })

  -- `sleep_if_idle`; nothing can interrupt `enable_and_hlt` between its two effects.
  unfoldable pub sleep : ℕ → List Stealer → Core deps → Io (Core deps)
  sleep fuel ss t = do
    perform disable_interrupts
    elim (wk.is_empty t.worker) [
      | true ↦ rest_on t (steal_any wk api fuel ss t.worker)
      | false ↦ do perform enable_interrupts; ret t
    ]

  -- One turn of `run`, and `n` turns; the stealers are those that exist at each turn.
  unfoldable pub turn : ℕ → List Stealer → Core deps → Io (Core deps)
  turn fuel ss s = elim (run_ready_tasks deps fuel s) [ none ↦ spent | some t ↦ sleep fuel ss t ]

  unfoldable pub turns : ℕ → ℕ → (ℕ → List Stealer) → Core deps → Io (Core deps)
  turns zero fuel stealers s = ret s
  turns (suc n) fuel stealers s = turn fuel (stealers n) s >>= turns n fuel stealers

  -- What a turn leaves of the processor, by what is known of its rest.
  abbrev pub rested : Resting → Rest wk api → Resting
  rested p r = record {
    interrupts = r.interrupts;
    halts = if r.halted then p.halts + 1 else p.halts;
  }

  sleep-performs :
      (fuel : ℕ) (ss : List Stealer) (t : Core deps) (r : Rest wk api) (p : Resting)
      → sleep_if_idle wk api fuel ss t.worker ≡ some r
      → Sure resting p
          (sleep fuel ss t)
          (λ q u. (u ≡ record t { worker = r.worker }) × (q ≡ rested p r))
  unfolding sleep rest_on sleep_if_idle
  sleep-performs fuel ss t r p e = elim (Bool-cases (wk.is_empty t.worker)) [
    | inl idle ↦ elim (Option-cases (steal_any wk api fuel ss t.worker)) [
      | inl n ↦ absurd (cc (rw (idle, n, sleep_if_idle) at e))
      | inr ((w, true), q) ↦
          let same : some (record { worker = w; interrupts = false; halted = false }) ≡ some r =
            rw (idle, q, sleep_if_idle) at e in
          rw (idle, q, sleep, rest_on) (tt, λ n a. (ground (arith, same), ground (arith, same)))
      | inr ((w, false), q) ↦
          let same : some (record { worker = w; interrupts = true; halted = true }) ≡ some r =
            rw (idle, q, sleep_if_idle) at e in
          rw (idle, q, sleep, rest_on)
            (tt, λ n a. (tt, λ m b. (refl, λ k c. (ground (arith, same), ground (arith, same)))))
    ]
    | inr busy ↦
        let same : some (record { worker = t.worker; interrupts = true; halted = false }) ≡ some r =
          rw (busy, sleep_if_idle) at e in
        rw (busy, sleep) (tt, λ n a. (tt, λ m b. (ground (arith, same), ground (arith, same))))
  ]

  -- A turn does what `run_once` says: its effects leave the processor as the rest describes it.
  pub turn_performs :
      (fuel : ℕ) (ss : List Stealer) (s t : Core deps) (r : Rest wk api) (p : Resting)
      → run_once deps api fuel ss s ≡ some (t, r)
      → Sure resting p (turn fuel ss s) (λ q u. (u ≡ t) × (q ≡ rested p r))
  unfolding turn run_once
  turn_performs fuel ss s t r p e = elim (Option-cases (run_ready_tasks deps fuel s)) [
    | inl n ↦ absurd (cc (rw (n, run_once) at e))
    | inr (u, m) ↦ elim (Option-cases (sleep_if_idle wk api fuel ss u.worker)) [
      | inl n ↦ absurd (cc (rw (m, n, run_once) at e))
      | inr (r', k) ↦
          let same : some (record u { worker = r'.worker }, r') ≡ some (t, r) =
            rw (m, k, run_once) at e in
          rw (m, turn)
            (Sure-mono resting p (sleep fuel ss u) _ _ (sleep-performs fuel ss u r' p k)
              (λ q x h. (h.0 ∙ ground (arith, same), h.1 ∙ ground (arith, same))))
    ]
  ]
