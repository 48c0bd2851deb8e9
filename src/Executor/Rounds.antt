-- ===== src/Executor/Rounds.antt =====
-- nacl/src/task/executor.rs: the loop of `run_ready_tasks`, its order and its end.
use mathlib.Core.Option
use na_cl.Common.{
  ℕ, zero, suc, ◌+◌, ◌≡◌, refl, ◌∙◌, ap, sym, inl, inr, Option, none, some, List, [], ◌∷◌, ◌++◌,
  arith, Option-cases, length, append_assoc, append-nil,
}
use native.Mathlib.Nat.{suc-add}
use na_cl.Task.{Task}
use na_cl.Executor.{Deps, Core, run_task, run_ready_tasks}
use na_cl.Executor.Steps.{IsValid, queue}
use na_cl.Executor.Validity.{run_task-missing, run_task-Ran, run_task-IsValid}

module _ (deps : Deps) where
  open deps use {fut, tm, wm, wk}
  open fut use {Future, poll}

  -- The identifiers that a round on `id` adds to the queue: those woken by the poll.
  abbrev woken_by : ℕ → Option (Task Future) → List ℕ
  woken_by id none = []
  woken_by id (some t) = (poll t.future id).2

  abbrev pub woken : Core deps → ℕ → List ℕ
  woken s id = woken_by id (tm.get s.tasks id)

  pub queue-run_task :
      (s : Core deps) (id : ℕ)
      → IsValid deps s
      → queue deps (run_task deps s id) ≡ queue deps s ++ woken s id
  queue-run_task s id v = elim (Option-cases (tm.get s.tasks id)) [
    | inl e ↦ rw (run_task-missing deps s id e, e) (sym (append-nil (wk.entries s.worker)))
    | inr (t, e) ↦ rw e ((run_task-Ran deps s id t v e).queued)
  ]

  -- What `pop` does with a queue that is not empty.
  pub pop-cons :
      (w : wk.Worker) (x : ℕ) (q : List ℕ)
      → wk.entries w ≡ x ∷ q
      → (w' : wk.Worker) × (wk.pop w ≡ some (x, w')) × (wk.entries w' ≡ q)
  pop-cons w x q e = elim (Option-cases (wk.pop w)) [
    | inl n ↦ absurd (ground (arith, n, e, wk.pop-entries w))
    | inr ((y, w'), p) ↦
        let law : some (y, wk.entries w') ≡ some (x, q) = rw (p, e) at (wk.pop-entries w) in
        (w', ground (arith, law, p), ground (arith, law))
  ]

  pub pop-nil : (w : wk.Worker) → wk.entries w ≡ [] → wk.pop w ≡ none
  pop-nil w e = elim (Option-cases (wk.pop w)) [
    | inl n ↦ n
    | inr (r, p) ↦ absurd (ground (arith, p, e, wk.pop-entries w))
  ]

  -- `k` rounds of the loop: the identifiers popped, in order, and the executor after them.
  pub rounds : ℕ → Core deps → Option (List ℕ × Core deps)
  rounds zero s = some ([], s)
  rounds (suc k) s = elim (wk.pop s.worker) [
    | none ↦ none
    | some (id, w) ↦
        Option.map (λ r. (id ∷ r.0, r.1)) (rounds k (run_task deps (record s { worker = w }) id))
  ]

  pub run_ready_tasks-pop :
      (fuel : ℕ) (s : Core deps) (x : ℕ) (w : wk.Worker)
      → wk.pop s.worker ≡ some (x, w)
      → run_ready_tasks deps (suc fuel) s
        ≡ run_ready_tasks deps fuel (run_task deps (record s { worker = w }) x)
  unfolding run_ready_tasks
  run_ready_tasks-pop fuel s x w p = rw (p, run_ready_tasks)

  pub run_ready_tasks-stop :
      (fuel : ℕ) (s : Core deps)
      → wk.pop s.worker ≡ none
      → run_ready_tasks deps (suc fuel) s ≡ some s
  unfolding run_ready_tasks
  run_ready_tasks-stop fuel s p = rw (p, run_ready_tasks)

  pub with_worker-IsValid :
      (s : Core deps) (w : wk.Worker) → IsValid deps s → IsValid deps (record s { worker = w })
  with_worker-IsValid s w v = record { cached = v.cached; kept = v.kept; named = v.named }

  -- What the rounds of the loop over the first entries `xs` of the queue do.
  pub record RoundsOver (xs ys : List ℕ) (s s' : Core deps) : Type 0 where
    pub popped : rounds (length xs) s ≡ some (xs, s')
    pub later : List ℕ
    pub left : queue deps s' ≡ ys ++ later
    pub valid : IsValid deps s'
    pub goes_on :
        (fuel : ℕ) → run_ready_tasks deps (length xs + fuel) s ≡ run_ready_tasks deps fuel s'

  -- First come, first served: if `xs` stand first in the queue, the first rounds of the loop are on
  -- just these, in this order; the entries after them stay in front of all that is woken meanwhile.
  pub served_in_order :
      (xs ys : List ℕ) (s : Core deps)
      → IsValid deps s
      → queue deps s ≡ xs ++ ys
      → (s' : Core deps) × RoundsOver xs ys s s'
  unfolding rounds run_ready_tasks
  served_in_order [] ys s v e = (
    s,
    record {
      popped = refl;
      later = [];
      left = e ∙ sym (append-nil ys);
      valid = v;
      goes_on = λ fuel. ap (λ k. run_ready_tasks deps k s) (omega arith);
    },
  )
  served_in_order (x ∷ xs) ys s v e =
      let (w, p, q) = pop-cons s.worker x (xs ++ ys) e in
      let s₁ : Core deps = record s { worker = w } in
      let v₁ = with_worker-IsValid s w v in
      let s₂ = run_task deps s₁ x in
      let (s', r) =
        served_in_order xs (ys ++ woken s₁ x) s₂ (run_task-IsValid deps s₁ x v₁) (
          queue-run_task s₁ x v₁ ∙ ap (λ l. l ++ woken s₁ x) q ∙ append_assoc xs ys (woken s₁ x)) in
      (
        s',
        record {
          popped = rw (p, r.popped);
          later = woken s₁ x ++ r.later;
          left = r.left ∙ append_assoc ys (woken s₁ x) r.later;
          valid = r.valid;
          goes_on = λ fuel.
              ap (λ k. run_ready_tasks deps k s) (suc-add (length xs) fuel)
              ∙ run_ready_tasks-pop (length xs + fuel) s x w p
              ∙ r.goes_on fuel;
        },
      )
