-- ===== src/Executor/Termination.antt =====
-- nacl/src/task/executor.rs: when `run_ready_tasks` comes to its end.
use na_cl.Common.{
  ℕ, zero, suc, ◌+◌, ◌<◌, ◌≤◌, ◌≡◌, ◌≢◌, refl, ◌∙◌, ap, inl, inr, Option, none, some, List, [],
  ◌==◌, arith, Option-cases, length, length-append, Bool-cases, List-cases, ==_iff,
}
use na_cl.Task.{Task}
use na_cl.Task.Interfaces.{Poll, ready, pending}
use na_cl.Executor.{Deps, Core, run_task, run_ready_tasks}
use na_cl.Executor.Steps.{IsValid, Ran, stored, queue}
use na_cl.Executor.Validity.{run_task-missing, run_task-Ran, run_task-IsValid}
use na_cl.Executor.Rounds.{
  pop-cons, pop-nil, run_ready_tasks-pop, run_ready_tasks-stop, with_worker-IsValid,
}

-- The sum of `g` below `n`.
unfoldable pub total : ℕ → (ℕ → ℕ) → ℕ
total zero g = 0
total (suc n) g = total n g + g n

pub total-same : (n : ℕ) (g h : ℕ → ℕ) → ((i : ℕ) → i < n → g i ≡ h i) → total n g ≡ total n h
unfolding total
total-same zero g h e = refl
total-same (suc n) g h e =
    omega (arith, total-same n g h (λ i lt. e i (omega arith)), e n (omega arith))

-- A change at one index below `n`.
total-change :
    (n : ℕ) (g h : ℕ → ℕ) (k : ℕ)
    → k < n
    → ((i : ℕ) → i ≢ k → g i ≡ h i)
    → total n g + h k ≡ total n h + g k
unfolding total
total-change zero g h k lt e = absurd (omega arith)
total-change (suc n) g h k lt e = elim (Bool-cases (k == n)) [
  | inl q ↦
      let same : total n g ≡ total n h = total-same n g h (λ i below. e i (ground arith)) in
      let at : k ≡ n = (==_iff k n).0 q in rw (at, same) (omega arith)
  | inr q ↦ omega (arith, total-change n g h k (ground arith), e n (ground arith))
]

module _ (deps : Deps) where
  open deps use {fut, tm, wm, wk}
  open fut use {Future, poll}

  -- A bound on the wakers that the polls of a future call, from now to its end.
  pub record IsFrugal (cost : Future → ℕ) : Type 0 where
    pub spends :
        (f : Future) (id : ℕ)
        → let (f', result, wakes) = poll f id in
          (result ≡ ready → length wakes ≤ cost f)
          × (result ≡ pending → length wakes + cost f' ≤ cost f)

  module _ (cost : Future → ℕ) where
    abbrev pub cost_of : Option (Task Future) → ℕ
    cost_of none = 0
    cost_of (some t) = cost t.future

    -- The wakers that the tasks with identifiers below `n` may still call.
    unfoldable pub energy : ℕ → Core deps → ℕ
    energy n s = total n (λ i. cost_of (tm.get s.tasks i))

    -- All tasks have identifiers below `n`.
    abbrev pub Below : ℕ → Core deps → Type 0
    Below n s = (i : ℕ) → tm.get s.tasks i ≢ none → i < n

    module _ (n : ℕ) (s s' : Core deps) (id : ℕ) (t : Task Future) (f : Future) (wakes : List ℕ)
        (e : tm.get s.tasks id ≡ some t) (b : Below n s) where
      Ran-Below : (result : Poll) → Ran deps s s' id t f result wakes → Below n s'
      Ran-Below ready r i h = ground (arith, r.tasks_of i, b i)
      Ran-Below pending r i h = ground (arith, r.tasks_of i, b i, b id)

      Ran-energy :
          (result : Poll)
          → Ran deps s s' id t f result wakes
          → energy n s' + cost t.future
            ≡ energy n s + cost_of (stored deps result (record t { future = f }))
      unfolding energy
      Ran-energy result r =
          let change =
            total-change n (λ i. cost_of (tm.get s'.tasks i)) (λ i. cost_of (tm.get s.tasks i)) id
              (b id (λ q. ground (arith, q, e)))
              (λ i ne. ap cost_of (ground (arith, r.tasks_of i))) in
          let mine : tm.get s'.tasks id ≡ stored deps result (record t { future = f }) =
            ground (arith, r.tasks_of id) in
          rw (e, mine) at change

      -- The rounds still to come do not grow by a round on a task.
      Ran-spends :
          (result : Poll)
          → Ran deps s s' id t f result wakes
          → (result ≡ ready → length wakes ≤ cost t.future)
          → (result ≡ pending → length wakes + cost f ≤ cost t.future)
          → length (queue deps s') + energy n s' ≤ length (queue deps s) + energy n s
      Ran-spends ready r done more = omega (
        arith,
        Ran-energy ready r,
        ap length r.queued,
        length-append (queue deps s) wakes,
        done refl,
      )
      Ran-spends pending r done more = omega (
        arith,
        Ran-energy pending r,
        ap length r.queued,
        length-append (queue deps s) wakes,
        more refl,
      )

    -- What a round keeps and what it spends.
    abbrev RoundSpends : ℕ → Core deps → Core deps → Type 0
    RoundSpends n s s' =
        Below n s' × (length (queue deps s') + energy n s' ≤ length (queue deps s) + energy n s)

    run_task-spends :
        (n : ℕ) (s : Core deps) (id : ℕ)
        → IsFrugal cost
        → IsValid deps s
        → Below n s
        → RoundSpends n s (run_task deps s id)
    run_task-spends n s id fr v b = elim (Option-cases (tm.get s.tasks id)) [
      | inl e ↦ rw (run_task-missing deps s id e) (b, omega arith)
      | inr (t, e) ↦
          let r = run_task-Ran deps s id t v e in
          let spent = fr.spends t.future id in
          (
            Ran-Below n s (run_task deps s id) id t _ _ e b _ r,
            Ran-spends n s (run_task deps s id) id t _ _ e b _ r spent.0 spent.1,
          )
    ]

    energy-queue :
        (n : ℕ) (s : Core deps) (w : wk.Worker) → energy n (record s { worker = w }) ≡ energy n s
    unfolding energy
    energy-queue n s w = refl

    -- The loop comes to its end: if the polls of the tasks call few wakers, the fuel that covers
    -- the entries of the queue and the wakers still to be called is enough, and the loop leaves
    -- the queue empty and the maps in agreement.
    pub run_ready_tasks_ends :
        (fuel n : ℕ) (s : Core deps)
        → IsFrugal cost
        → IsValid deps s
        → Below n s
        → length (queue deps s) + energy n s < fuel
        → (s' : Core deps) × (run_ready_tasks deps fuel s ≡ some s')
          × (queue deps s' ≡ [])
          × IsValid deps s'
    run_ready_tasks_ends zero n s fr v b h = absurd (omega arith)
    run_ready_tasks_ends (suc fuel) n s fr v b h = elim (List-cases (queue deps s)) [
      | inl e ↦ (s, run_ready_tasks-stop deps fuel s (pop-nil deps s.worker e), e, v)
      | inr (x, q, e) ↦
          let (w, p, left) = pop-cons deps s.worker x q e in
          let s₁ : Core deps = record s { worker = w } in
          let v₁ = with_worker-IsValid deps s w v in
          let (b₁, spent) = run_task-spends n s₁ x fr v₁ b in
          let (s', r, done, valid) =
            run_ready_tasks_ends fuel n (run_task deps s₁ x) fr (run_task-IsValid deps s₁ x v₁) b₁
              (omega (arith, spent, ap length left, ap length e, energy-queue n s w)) in
          (s', run_ready_tasks-pop deps fuel s x w p ∙ r, done, valid)
    ]
