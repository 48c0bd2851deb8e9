-- ===== src/Executor/Sleep.antt =====
-- nacl/src/task/executor.rs: `sleep_if_idle`, what a processor does when its queue has run dry.
use na_cl.Common.{
  ℕ, zero, suc, ◌≡◌, ◌≢◌, ◌⊎◌, inl, inr, refl, ap, ◌∙◌, Bool, true, false, not, Option, none, some,
  List, [], ◌∷◌, Bool-cases, Option-cases, All, ◌<◌, arith,
}
use na_cl.Task.Interfaces.{WorkerApi, is_nil}
use na_cl.Task.Stealing.{Steal, empty, success, retry, is_success, StealerApi}

module _ (wk : WorkerApi) (api : StealerApi wk) where
  open api use {Stealer, steal_batch}

  -- The closure that `any` runs on one stealer: steal until the outcome is not `Retry`. The fuel
  -- bounds the retries; `none` means that it ran out.
  unfoldable pub steal_from : ℕ → Stealer → wk.Worker → Option (wk.Worker × Bool)
  steal_from zero s w = none
  steal_from (suc fuel) s w =
      let (s', w', outcome) = steal_batch s w in
      elim outcome [
        | empty ↦ some (w', false)
        | success _ ↦ some (w', true)
        | retry ↦ steal_from fuel s' w'
      ]

  -- `stealers().any(…)`: stops at the first success.
  unfoldable pub steal_any : ℕ → List Stealer → wk.Worker → Option (wk.Worker × Bool)
  steal_any fuel [] w = some (w, false)
  steal_any fuel (s ∷ ss) w = elim (steal_from fuel s w) [
    | none ↦ none
    | some (w', found) ↦ elim found [ true ↦ some (w', true) | false ↦ steal_any fuel ss w' ]
  ]

  -- The processor after `sleep_if_idle`; `halted` says that it waited for an interrupt.
  pub record Rest : Type 0 where
    pub worker : wk.Worker
    pub interrupts : Bool
    pub halted : Bool

  -- Interrupts are disabled first; `enable_and_hlt` enables them and waits for one.
  unfoldable pub sleep_if_idle : ℕ → List Stealer → wk.Worker → Option Rest
  sleep_if_idle fuel ss w = elim (wk.is_empty w) [
    | false ↦ some (record { worker = w; interrupts = true; halted = false })
    | true ↦ elim (steal_any fuel ss w) [
      | none ↦ none
      | some (w', stolen) ↦ elim stolen [
        | true ↦ some (record { worker = w'; interrupts = false; halted = false })
        | false ↦ some (record { worker = w'; interrupts = true; halted = true })
      ]
    ]
  ]

  -- A steal that succeeds leaves work in the queue; one that does not leaves the queue as it was.
  is_nil→nil : (l : List ℕ) → is_nil l ≡ true → l ≡ []
  is_nil→nil [] h = refl
  is_nil→nil (x ∷ l) h = cc

  abbrev Stolen : wk.Worker → wk.Worker → Bool → Type 0
  Stolen w w' true = wk.entries w' ≢ []
  Stolen w w' false = wk.entries w' ≡ wk.entries w

  Stolen-step :
      (w v u : wk.Worker) (b : Bool) → wk.entries v ≡ wk.entries w → Stolen v u b → Stolen w u b
  Stolen-step w v u true e h = h
  Stolen-step w v u false e h = h ∙ e

  module _ (fuel : ℕ) (s : Stealer) (w w' : wk.Worker) (b : Bool)
      (e : steal_from (suc fuel) s w ≡ some (w', b)) where
    by_outcome :
        (o : Steal (Unit {0}))
        → (steal_batch s w).2 ≡ o
        → (steal_from fuel (steal_batch s w).0 (steal_batch s w).1 ≡ some (w', b)
            → Stolen (steal_batch s w).1 w' b)
        → Stolen w w' b
    unfolding steal_from
    by_outcome empty q again =
        let same = api.steal_batch-same s w (ap is_success q) in
        let r : some ((steal_batch s w).1, false) ≡ some (w', b) = rw (q, steal_from) at e in
        ground (arith, r, same)
    by_outcome (success u) q again =
        let more = api.steal_batch-some s w (ap is_success q) in
        let r : some ((steal_batch s w).1, true) ≡ some (w', b) = rw (q, steal_from) at e in
        ground (arith, r, more)
    by_outcome retry q again =
        Stolen-step w (steal_batch s w).1 w' b (api.steal_batch-same s w (ap is_success q))
          (again (rw (q, steal_from) at e))

  steal_from-Stolen :
      (fuel : ℕ) (s : Stealer) (w w' : wk.Worker) (b : Bool)
      → steal_from fuel s w ≡ some (w', b)
      → Stolen w w' b
  unfolding steal_from
  steal_from-Stolen zero s w w' b e = absurd (cc)
  steal_from-Stolen (suc fuel) s w w' b e =
      by_outcome fuel s w w' b e (steal_batch s w).2 refl
        (steal_from-Stolen fuel (steal_batch s w).0 (steal_batch s w).1 w' b)

  steal_any-Stolen :
      (fuel : ℕ) (ss : List Stealer) (w w' : wk.Worker) (b : Bool)
      → steal_any fuel ss w ≡ some (w', b)
      → Stolen w w' b
  unfolding steal_any
  steal_any-Stolen fuel [] w w' b e = ground arith
  steal_any-Stolen fuel (s ∷ ss) w w' b e = elim (Option-cases (steal_from fuel s w)) [
    | inl n ↦ absurd (cc (rw (n, steal_any) at e))
    | inr ((v, true), q) ↦
        let r : some (v, true) ≡ some (w', b) = rw (q, steal_any) at e in
        ground (arith, r, steal_from-Stolen fuel s w v true q)
    | inr ((v, false), q) ↦
        Stolen-step w v w' b (steal_from-Stolen fuel s w v false q)
          (steal_any-Stolen fuel ss v w' b (rw (q, steal_any) at e))
  ]

  -- What `sleep_if_idle` leaves: either it halted, and then the queue is empty and interrupts were
  -- enabled while it waited; or there is work in the queue, and interrupts are enabled exactly if
  -- there was work before, so not after a steal.
  pub sleep_if_idle_cases :
      (fuel : ℕ) (ss : List Stealer) (w : wk.Worker) (r : Rest)
      → sleep_if_idle fuel ss w ≡ some r
      → ((r.halted ≡ true)
          × (r.interrupts ≡ true)
          × (wk.entries r.worker ≡ [])
          × (wk.entries w ≡ []))
        ⊎ ((r.halted ≡ false)
            × (wk.entries r.worker ≢ [])
            × (r.interrupts ≡ not (is_nil (wk.entries w))))
  unfolding sleep_if_idle
  sleep_if_idle_cases fuel ss w r e = elim (Bool-cases (wk.is_empty w)) [
    | inl idle ↦ elim (Option-cases (steal_any fuel ss w)) [
      | inl n ↦ absurd (cc (rw (idle, n, sleep_if_idle) at e))
      | inr ((v, b), q) ↦ ground (
        arith,
        wk.is_empty-entries w,
        idle,
        steal_any-Stolen fuel ss w v b q,
        q,
        e,
        is_nil→nil (wk.entries w),
      )
    ]
    | inr busy ↦ ground (arith, wk.is_empty-entries w, busy, e)
  ]

  -- Retries come to an end: a stealer that asks for one has fewer left.
  pub record Calms (retries : Stealer → ℕ) : Type 0 where
    pub calmer :
        (s : Stealer) (w : wk.Worker)
        → (steal_batch s w).2 ≡ retry
        → retries (steal_batch s w).0 < retries s

  steal_from_ends :
      (retries : Stealer → ℕ) (fuel : ℕ) (s : Stealer) (w : wk.Worker)
      → Calms retries
      → retries s < fuel
      → (r : wk.Worker × Bool) × (steal_from fuel s w ≡ some r)
  unfolding steal_from
  steal_from_ends retries zero s w c h = absurd (omega arith)
  steal_from_ends retries (suc fuel) s w c h =
      ended (steal_batch s w).2 refl
        (λ less. steal_from_ends retries fuel (steal_batch s w).0 (steal_batch s w).1 c less)
    where
      ended :
          (o : Steal (Unit {0}))
          → (steal_batch s w).2 ≡ o
          → (retries (steal_batch s w).0 < fuel
              → (r : wk.Worker × Bool) × (steal_from fuel (steal_batch s w).0 (steal_batch s w).1
                  ≡ some r))
          → (r : wk.Worker × Bool) × (steal_from (suc fuel) s w ≡ some r)
      ended empty q again = (((steal_batch s w).1, false), rw (q, steal_from))
      ended (success u) q again = (((steal_batch s w).1, true), rw (q, steal_from))
      ended retry q again =
          let (r, p) = again (omega (arith, c.calmer s w q)) in (r, rw (q, steal_from) p)

  steal_any_ends :
      (retries : Stealer → ℕ) (fuel : ℕ) (ss : List Stealer) (w : wk.Worker)
      → Calms retries
      → All (λ s. retries s < fuel) ss
      → (r : wk.Worker × Bool) × (steal_any fuel ss w ≡ some r)
  unfolding steal_any
  steal_any_ends retries fuel [] w c h = ((w, false), refl)
  steal_any_ends retries fuel (s ∷ ss) w c h =
      let ((v, b), q) = steal_from_ends retries fuel s w c h.0 in
      let (r, p) = steal_any_ends retries fuel ss v c h.1 in stopped v b q r p
    where
      stopped :
          (v : wk.Worker) (b : Bool)
          → steal_from fuel s w ≡ some (v, b)
          → (r : wk.Worker × Bool) → steal_any fuel ss v ≡ some r
          → (r' : wk.Worker × Bool) × (steal_any fuel (s ∷ ss) w ≡ some r')
      stopped v true q r p = ((v, true), rw (q, steal_any))
      stopped v false q r p = (r, rw (q, steal_any) p)

  -- `sleep_if_idle` comes to its end if the retries of every stealer do.
  pub sleep_if_idle_ends :
      (retries : Stealer → ℕ) (fuel : ℕ) (ss : List Stealer) (w : wk.Worker)
      → Calms retries
      → All (λ s. retries s < fuel) ss
      → (r : Rest) × (sleep_if_idle fuel ss w ≡ some r)
  unfolding sleep_if_idle
  sleep_if_idle_ends retries fuel ss w c h =
      let ((v, b), q) = steal_any_ends retries fuel ss w c h in
      elim (Bool-cases (wk.is_empty w)) [
        | inl idle ↦ rested idle v b q
        | inr busy ↦
            (record { worker = w; interrupts = true; halted = false }, rw (busy, sleep_if_idle))
      ]
    where
      rested :
          wk.is_empty w ≡ true
          → (v : wk.Worker) (b : Bool) → steal_any fuel ss w ≡ some (v, b)
          → (r : Rest) × (sleep_if_idle fuel ss w ≡ some r)
      rested idle v true q =
          (record { worker = v; interrupts = false; halted = false }, rw (idle, q, sleep_if_idle))
      rested idle v false q =
          (record { worker = v; interrupts = true; halted = true }, rw (idle, q, sleep_if_idle))
