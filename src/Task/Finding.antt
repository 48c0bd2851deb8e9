-- ===== src/Task/Finding.antt =====
-- nacl/src/task/mod.rs: `find_task`, which looks for a task in the local queue, then in the global
-- one, then in those of other threads.
use na_cl.Common.{
  ℕ, zero, suc, ◌<◌, ◌≡◌, inl, inr, refl, ap, sym, ◌∙◌, true, false, ◌||◌, Option, none, some, List,
  ◌∷◌, Option-cases, arith,
}
use na_cl.Task.Interfaces.{WorkerApi, uncons}
use na_cl.Task.Stealing.{Steal, empty, success, retry, is_retry, is_success}

-- What `find_task` uses of nacl/src/task/crossbeam.rs: the global queue, the stealers, whose steals
-- are collected into one outcome, and how two outcomes are chained.
pub record FindApi (wk : WorkerApi) : Type 1 where
  pub Injector : Type 0
  pub Stealers : Type 0
  pub steal_batch_and_pop : Injector → wk.Worker → Injector × wk.Worker × Steal ℕ
  pub steal_each : Stealers → Stealers × Steal ℕ
  pub or_else : Steal ℕ → Steal ℕ → Steal ℕ
  -- The first success counts; without one, a retry on either side is a retry.
  pub or_else-success :
      (a : Steal ℕ) (x : ℕ) → is_success a ≡ false → or_else a (success x) ≡ success x
  pub or_else-neither :
      (a b : Steal ℕ)
      → is_success a ≡ false
      → is_success b ≡ false
      → or_else a b ≡ (elim (is_retry a || is_retry b) [ true ↦ retry | false ↦ empty ])

module _ (wk : WorkerApi) (api : FindApi wk) where
  open api use {Injector, Stealers, steal_batch_and_pop, steal_each, or_else}

  -- The queues after a search, and the task that was found.
  pub record Search : Type 0 where
    pub found : Option ℕ
    pub local : wk.Worker
    pub global : Injector
    pub others : Stealers

  -- One round of the loop: the outcome, and the queues after it. The others are tried only if the
  -- global queue gives nothing.
  unfoldable pub attempt : wk.Worker → Injector → Stealers → Steal ℕ × Search
  attempt l g s =
      let (g', l', o) = steal_batch_and_pop g l in
      let here : Search = record { found = none; local = l'; global = g'; others = s } in
      let elsewhere : Steal ℕ × Search = (
        or_else o (steal_each s).1,
        record { found = none; local = l'; global = g'; others = (steal_each s).0 },
      ) in
      elim o [ success x ↦ (success x, here) | empty ↦ elsewhere | retry ↦ elsewhere ]

  -- The rounds until one is not a retry, with fuel.
  unfoldable pub search : ℕ → wk.Worker → Injector → Stealers → Option Search
  unfolding attempt
  search zero l g s = none
  search (suc fuel) l g s =
      let (o, r) = attempt l g s in
      elim o [
        | success x ↦ some (record r { found = some x })
        | empty ↦ some r
        | retry ↦ search fuel r.local r.global r.others
      ]

  unfoldable pub find_task : ℕ → wk.Worker → Injector → Stealers → Option Search
  unfolding search
  find_task fuel l g s = elim (wk.pop l) [
    | some (x, l') ↦ some (record { found = some x; local = l'; global = g; others = s })
    | none ↦ search fuel l g s
  ]

  -- Retries come to an end: a round that asks for one leaves fewer.
  pub record Settles (retries : Injector → Stealers → ℕ) : Type 0 where
    pub settles :
        (l : wk.Worker) (g : Injector) (s : Stealers)
        → (attempt l g s).0 ≡ retry
        → retries (attempt l g s).1.global (attempt l g s).1.others < retries g s

  -- From these queues on, rounds that ask for a retry, and then one that gives `r`, in which neither
  -- the global queue nor another thread had a task.
  pub data Exhausted (r : Search) : wk.Worker → Injector → Stealers → Type 0 where
    nothing :
        (l : wk.Worker) (g : Injector) (s : Stealers)
        → (steal_batch_and_pop g l).2 ≡ empty
        → (steal_each s).1 ≡ empty
        → r ≡ (attempt l g s).1
        → Exhausted r l g s
    again :
        (l : wk.Worker) (g : Injector) (s : Stealers)
        → (attempt l g s).0 ≡ retry
        → Exhausted r (attempt l g s).1.local (attempt l g s).1.global (attempt l g s).1.others
        → Exhausted r l g s

  or_else-empty :
      (a b : Steal ℕ) → is_success a ≡ false → or_else a b ≡ empty → (a ≡ empty) × (b ≡ empty)
  or_else-empty (success x) b n e = cc
  or_else-empty empty (success y) n e = absurd (cc (api.or_else-success empty y refl, e))
  or_else-empty empty empty n e = (refl, refl)
  or_else-empty empty retry n e = absurd (cc (api.or_else-neither empty retry refl refl, e))
  or_else-empty retry (success y) n e = absurd (cc (api.or_else-success retry y refl, e))
  or_else-empty retry empty n e = absurd (cc (api.or_else-neither retry empty refl refl, e))
  or_else-empty retry retry n e = absurd (cc (api.or_else-neither retry retry refl refl, e))

  attempt-empty :
      (l : wk.Worker) (g : Injector) (s : Stealers)
      → (attempt l g s).0 ≡ empty
      → Exhausted (attempt l g s).1 l g s
  unfolding attempt
  attempt-empty l g s e = by_outcome (steal_batch_and_pop g l).2 refl
    where
      neither :
          (o : Steal ℕ)
          → (steal_batch_and_pop g l).2 ≡ o
          → is_success o ≡ false
          → or_else o (steal_each s).1 ≡ empty
          → Exhausted (attempt l g s).1 l g s
      neither o p n q =
          let (no_global, nobody) = or_else-empty o (steal_each s).1 n q in
          nothing l g s (p ∙ no_global) nobody refl

      by_outcome :
          (o : Steal ℕ) → (steal_batch_and_pop g l).2 ≡ o → Exhausted (attempt l g s).1 l g s
      by_outcome (success x) p = absurd (cc (rw (p, attempt) at e))
      by_outcome empty p =
          neither empty p refl (ap (λ o. or_else o (steal_each s).1) (sym p) ∙ rw (p, attempt) at e)
      by_outcome retry p =
          neither retry p refl (ap (λ o. or_else o (steal_each s).1) (sym p) ∙ rw (p, attempt) at e)

  search_ends :
      (retries : Injector → Stealers → ℕ) (fuel : ℕ) (l : wk.Worker) (g : Injector) (s : Stealers)
      → Settles retries
      → retries g s < fuel
      → (r : Search) × (search fuel l g s ≡ some r) × (r.found ≡ none → Exhausted r l g s)
  unfolding search
  search_ends retries zero l g s v h = absurd (omega arith)
  search_ends retries (suc fuel) l g s v h = ended (attempt l g s).0 refl (λ less.
      search_ends retries fuel (attempt l g s).1.local (attempt l g s).1.global
        (attempt l g s).1.others v less)
    where
      ended :
          (o : Steal ℕ)
          → (attempt l g s).0 ≡ o
          → (retries (attempt l g s).1.global (attempt l g s).1.others < fuel
              → (r : Search) × (search fuel
                    (attempt l g s).1.local
                    (attempt l g s).1.global
                    (attempt l g s).1.others
                  ≡ some r)
                × (r.found ≡ none
                    → Exhausted r
                        (attempt l g s).1.local
                        (attempt l g s).1.global
                        (attempt l g s).1.others))
          → (r : Search) × (search (suc fuel) l g s ≡ some r) × (r.found ≡ none → Exhausted r l g s)
      ended (success x) e later =
          (record (attempt l g s).1 { found = some x }, rw (e, search), λ n. absurd (cc (n)))
      ended empty e later = ((attempt l g s).1, rw (e, search), λ n. attempt-empty l g s e)
      ended retry e later =
          let (r, p, x) = later (omega (arith, v.settles l g s e)) in
          (r, rw (e, search) p, λ n. again l g s e (x n))

  -- A task at the front of the local queue.
  abbrev pub TakesFront : wk.Worker → Injector → Stealers → Search → Type 0
  TakesFront l g s r =
      (x : ℕ) (q : List ℕ)
      → wk.entries l ≡ x ∷ q
      → (r.found ≡ some x) × (wk.entries r.local ≡ q) × (r.global ≡ g) × (r.others ≡ s)

  -- `find_task` comes to its end if the retries of the queues do; from a local queue that is not
  -- empty it takes the first task, and leaves the other queues alone; and when it finds nothing, its
  -- rounds asked for retries up to a last one, in which neither the global queue nor another thread had
  -- a task, and whose queues it leaves.
  pub find_task_ends :
      (retries : Injector → Stealers → ℕ) (fuel : ℕ) (l : wk.Worker) (g : Injector) (s : Stealers)
      → Settles retries
      → retries g s < fuel
      → (r : Search) × (find_task fuel l g s ≡ some r)
        × TakesFront l g s r
        × (r.found ≡ none → Exhausted r l g s)
  unfolding find_task
  find_task_ends retries fuel l g s v h = elim (Option-cases (wk.pop l)) [
    | inl n ↦
        let (r, p, x) = search_ends retries fuel l g s v h in
        (r, rw (n, find_task) p, λ y q e. absurd (ground (arith, n, e, wk.pop-entries l)), x)
    | inr ((y, l'), p) ↦
        let law : some (y, wk.entries l') ≡ uncons (wk.entries l) = rw p at (wk.pop-entries l) in
        (
          record { found = some y; local = l'; global = g; others = s },
          rw (p, find_task),
          λ x q e.
              let pair : some (y, wk.entries l') ≡ some (x, q) = rw e at law in
              (ground (arith, pair), ground (arith, pair), refl, refl),
          λ n. absurd (cc (n)),
        )
  ]
