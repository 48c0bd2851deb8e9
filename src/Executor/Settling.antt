-- ===== src/Executor/Settling.antt =====
-- nacl/src/task/executor.rs: no task is forgotten by `run_ready_tasks`.
use na_cl.Common.{
  ℕ, zero, suc, ◌+◌, ◌<◌, ◌≡◌, ◌≢◌, ◌⊎◌, inl, inr, refl, sym, ◌∙◌, subst, some, List, [], ◌∷◌, In,
  In-append_left, In-append_right, length, ◌==◌, ==_iff, Option-cases, List-cases, Bool-cases,
  arith,
}
use na_cl.Task.{Task}
use na_cl.Task.Interfaces.{Poll, ready, pending}
use na_cl.Executor.{Deps, Core, run_task, run_ready_tasks}
use na_cl.Executor.Steps.{IsValid, Ran, stored, queue}
use na_cl.Executor.Validity.{run_task-missing, run_task-Ran, run_task-IsValid}
use na_cl.Executor.Rounds.{
  pop-cons, pop-nil, run_ready_tasks-pop, run_ready_tasks-stop, with_worker-IsValid,
}
use na_cl.Executor.Termination.{IsFrugal, Below, energy, run_ready_tasks_ends}

module _ (deps : Deps) where
  open deps use {fut, tm, wm, wk}
  open fut use {Future, poll}

  module _ (Sleeps : Future → Type 0) where
    -- A poll that is pending has called the waker of its own task, or leaves a future that sleeps: it
    -- waits for somebody else.
    pub record IsRestless : Type 0 where
      pub waits :
          (f : Future) (id : ℕ)
          → let (f', result, wakes) = poll f id in result ≡ pending → In id wakes ⊎ Sleeps f'

    -- Every task is in the queue or sleeps.
    abbrev pub IsAwake : Core deps → Type 0
    IsAwake s =
        (i : ℕ) (t : Task Future)
        → tm.get s.tasks i ≡ some t
        → In i (queue deps s) ⊎ Sleeps t.future

    Ran-IsAwake :
        (s s' : Core deps) (id : ℕ) (t : Task Future) (f : Future) (result : Poll) (wakes : List ℕ)
        → Ran deps s s' id t f result wakes
        → (result ≡ pending → In id wakes ⊎ Sleeps f)
        → ((i : ℕ) (u : Task Future)
            → tm.get s.tasks i ≡ some u
            → id ≢ i
            → In i (queue deps s) ⊎ Sleeps u.future)
        → IsAwake s'
    Ran-IsAwake s s' id t f result wakes r more others i u h = elim (Bool-cases (id == i)) [
      | inl q ↦ own ((==_iff id i).0 q) result r more (rw q at (sym (r.tasks_of i) ∙ h))
      | inr q ↦
          let before : tm.get s.tasks i ≡ some u = rw q at (sym (r.tasks_of i) ∙ h) in
          elim (others i u before (λ e. absurd (ground (arith, e, q)))) [
            | inl m ↦ inl (subst (In i) (sym r.queued) (In-append_left i (queue deps s) wakes m))
            | inr z ↦ inr z
          ]
    ]
      where
        own :
            id ≡ i
            → (o : Poll) → Ran deps s s' id t f o wakes
            → (o ≡ pending → In id wakes ⊎ Sleeps f)
            → stored deps o (record t { future = f }) ≡ some u
            → In i (queue deps s') ⊎ Sleeps u.future
        own same ready r more e = cc
        own same pending r more e =
            let kept : f ≡ u.future = cc (e) in
            elim (more refl) [
              | inl m ↦ inl (
                  subst (λ j. In j (queue deps s')) same
                    (subst (In id) (sym r.queued) (In-append_right id (queue deps s) wakes m)))
              | inr z ↦ inr (subst Sleeps kept z)
            ]

    -- A round on an identifier that was popped, where every other task is in the queue or sleeps.
    run_task-IsAwake :
        (s : Core deps) (x : ℕ)
        → IsRestless
        → IsValid deps s
        → ((i : ℕ) (u : Task Future)
            → tm.get s.tasks i ≡ some u
            → x ≢ i
            → In i (queue deps s) ⊎ Sleeps u.future)
        → IsAwake (run_task deps s x)
    run_task-IsAwake s x z v others = elim (Option-cases (tm.get s.tasks x)) [
      | inl e ↦
          rw (run_task-missing deps s x e)
            (λ i u h. others i u h (λ same. absurd (ground (arith, e, h, same))))
      | inr (t, e) ↦
          Ran-IsAwake s (run_task deps s x) x t _ _ _ (run_task-Ran deps s x t v e)
            (z.waits t.future x) others
    ]

    -- The loop leaves every task in the queue or asleep.
    run_ready_tasks-IsAwake :
        (fuel : ℕ) (s s' : Core deps)
        → IsRestless
        → IsValid deps s
        → IsAwake s
        → run_ready_tasks deps fuel s ≡ some s'
        → IsAwake s'
    unfolding run_ready_tasks
    run_ready_tasks-IsAwake zero s s' z v a e = cc
    run_ready_tasks-IsAwake (suc fuel) s s' z v a e = elim (List-cases (queue deps s)) [
      | inl n ↦
          let stop = run_ready_tasks-stop deps fuel s (pop-nil deps s.worker n) in
          let same : s ≡ s' = cc (e, stop) in subst IsAwake same a
      | inr (x, q, n) ↦
          let (w, p, left) = pop-cons deps s.worker x q n in
          let s₁ : Core deps = record s { worker = w } in
          let v₁ = with_worker-IsValid deps s w v in
          run_ready_tasks-IsAwake fuel (run_task deps s₁ x) s' z (run_task-IsValid deps s₁ x v₁)
            (run_task-IsAwake s₁ x z v₁ (λ i u h ne. popped x q w n left i (a i u h) ne))
            (sym (run_ready_tasks-pop deps fuel s x w p) ∙ e)
    ]
      where
        popped :
            (x : ℕ) (q : List ℕ) (w : wk.Worker)
            → queue deps s ≡ x ∷ q
            → wk.entries w ≡ q
            → (i : ℕ) {F : Type 0} → In i (queue deps s) ⊎ F
            → x ≢ i
            → In i (wk.entries w) ⊎ F
        popped x q w n left i (inr f) ne = inr f
        popped x q w n left i (inl m) ne = elim (subst (In i) n m) [
          | inl same ↦ absurd (ne (sym same))
          | inr rest ↦ inl (subst (In i) (sym left) rest)
        ]

    pub run_ready_tasks_settles :
        (cost : Future → ℕ) (fuel n : ℕ) (s : Core deps)
        → IsRestless
        → IsFrugal deps cost
        → IsValid deps s
        → IsAwake s
        → Below deps cost n s
        → length (queue deps s) + energy deps cost n s < fuel
        → (s' : Core deps) × (run_ready_tasks deps fuel s ≡ some s')
          × (queue deps s' ≡ [])
          × ((i : ℕ) (t : Task Future) → tm.get s'.tasks i ≡ some t → Sleeps t.future)
    run_ready_tasks_settles cost fuel n s z fr v a b h =
        let (s', e, idle, v') = run_ready_tasks_ends deps cost fuel n s fr v b h in
        (
          s',
          e,
          idle,
          λ i t g. elim (run_ready_tasks-IsAwake fuel s s' z v a e i t g) [
            | inl m ↦ absurd (subst (In i) idle m)
            | inr asleep ↦ asleep
          ],
        )
