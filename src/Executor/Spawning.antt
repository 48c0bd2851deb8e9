-- ===== src/Executor/Spawning.antt =====
-- nacl/src/task: tasks that are spawned on a new executor run to their end.
use na_cl.Common.{
  ℕ, suc, ◌+◌, ◌%◌, ◌^◌, ◌<◌, ◌≡◌, inl, inr, refl, ap, sym, ◌∙◌, subst, none, some, List, [], ◌∷◌,
  In, In-append_left, In-append_right, length, length-append, ◌==◌, ==_iff, Option-cases,
  Bool-cases, arith,
}
use na_cl.Common.Outcomes.{Outcome, done, ◌>>=◌}
use na_cl.Task
use na_cl.Task.{Task}
use na_cl.Executor.{Deps, Core, new, spawn, run_ready_tasks}
use na_cl.Executor.Steps.{IsValid, queue}
use na_cl.Executor.Validity.{Spawned, spawn_cases, new-IsValid}
use na_cl.Executor.Termination.{IsFrugal, Below, cost_of, energy, total, total-same}
use na_cl.Executor.Settling.{IsRestless, IsAwake, run_ready_tasks_settles}

module _ (deps : Deps) where
  open deps use {fut, tm, wm, wk}
  open fut use {Future, poll}

  -- `executor.spawn(Task::new(f))` for each of some futures, with the counter of identifiers.
  abbrev pub spawn_all : Core deps → ℕ → List Future → Outcome (Core deps × ℕ)
  spawn_all s next [] = done (s, next)
  spawn_all s next (f ∷ fs) =
      let (t, next') = Task.new f next in spawn deps s t >>= λ s'. spawn_all s' next' fs

  module _ (cost : Future → ℕ) where
    abbrev pub cost_all : List Future → ℕ
    cost_all [] = 0
    cost_all (f ∷ fs) = cost f + cost_all fs

    -- The executor after `n` tasks were spawned, whose futures cost `c`.
    record Holds (n c : ℕ) (s : Core deps) : Type 0 where
      valid : IsValid deps s
      awake : IsAwake deps (λ f. ⊥) s
      below : Below deps cost n s
      queued : length (queue deps s) ≡ n
      spent : energy deps cost n s ≡ c

    new-Holds : Holds 0 0 (new deps)
    unfolding new energy total
    new-Holds = record {
      valid = new-IsValid deps;
      awake = λ i t h. absurd (cc (tm.get-new i, h));
      below = λ i h. absurd (h (tm.get-new i));
      queued = ap length wk.entries-new_fifo;
      spent = refl;
    }

    spawn-Holds :
        (n c : ℕ) (s s' : Core deps) (f : Future)
        → Holds n c s
        → Spawned deps s (record { id = n; future = f }) s'
        → Holds (suc n) (c + cost f) s'
    unfolding energy total
    spawn-Holds n c s s' f h p = record {
      valid = p.valid h.valid;
      awake = λ i t g. elim (Bool-cases (n == i)) [
        | inl q ↦ inl (
            subst (In i) (sym p.queued)
              (In-append_right i (queue deps s) (n ∷ []) (inl (sym ((==_iff n i).0 q)))))
        | inr q ↦ elim (h.awake i t (rw q at (sym (p.tasks_of i) ∙ g))) [
          | inl m ↦ inl (subst (In i) (sym p.queued) (In-append_left i (queue deps s) (n ∷ []) m))
          | inr z ↦ inr z
        ]
      ];
      below = λ i k. ground (arith, p.tasks_of i, h.below i);
      queued = omega (arith, h.queued, ap length p.queued, length-append (queue deps s) (n ∷ []));
      spent =
          let old =
            total-same n (λ i. cost_of deps cost (tm.get s'.tasks i))
              (λ i. cost_of deps cost (tm.get s.tasks i))
              (λ i lt. ap (cost_of deps cost) (ground (arith, p.tasks_of i))) in
          let own : cost_of deps cost (tm.get s'.tasks n) ≡ cost f = ground (arith, p.tasks_of n) in
          omega (arith, old, own, h.spent);
    }

    new_id-small : (n : ℕ) → n + 1 < 2 ^ 64 → (n + 1) % 2 ^ 64 ≡ suc n
    new_id-small n few = omega arith

    spawn_all-Holds :
        (fs : List Future) (n c m d : ℕ) (s : Core deps)
        → Holds n c s
        → m ≡ n + length fs
        → d ≡ c + cost_all fs
        → m < 2 ^ 64
        → (s' : Core deps) × (spawn_all s n fs ≡ done (s', m)) × Holds m d s'
    unfolding Task.new Task.new_id
    spawn_all-Holds [] n c m d s h p q few =
        let at : n ≡ m = omega (arith, p) in
        let spent : c ≡ d = omega (arith, q) in (s, rw at, rw (at, spent) at h)
    spawn_all-Holds (f ∷ fs) n c m d s h p q few =
        elim (spawn_cases deps s (record { id = n; future = f })) [
          | inl (stopped, taken) ↦ absurd (omega (arith, h.below n taken))
          | inr (s₁, e, spawned) ↦
              let (s', ends, holds) =
                spawn_all-Holds fs (suc n) (c + cost f) m d s₁ (spawn-Holds n c s s₁ f h spawned)
                  (omega (arith, p)) (omega (arith, q)) few in
              (s', rw (e, new_id-small n (omega (arith, p, few))) ends, holds)
        ]

    -- Fewer than 2^64 tasks are spawned on a new executor, with identifiers from 0 on, whose futures
    -- wake their own task whenever they are pending and call few wakers. Then no `spawn` panics,
    -- `run_ready_tasks` comes to its end, and no task is left: each of them ran until it was ready.
    pub run_ready_tasks_finishes :
        (fuel : ℕ) (fs : List Future)
        → IsRestless deps (λ f. ⊥)
        → IsFrugal deps cost
        → length fs < 2 ^ 64
        → length fs + cost_all fs < fuel
        → (s s' : Core deps) × (spawn_all (new deps) 0 fs ≡ done (s, length fs))
          × (run_ready_tasks deps fuel s ≡ some s')
          × (queue deps s' ≡ [])
          × ((i : ℕ) → tm.get s'.tasks i ≡ none)
    run_ready_tasks_finishes fuel fs restless frugal few enough =
        let (s, spawned, h) =
          spawn_all-Holds fs 0 0 (length fs) (cost_all fs) (new deps) new-Holds (omega arith)
            (omega arith) few in
        let (s', ends, idle, left) =
          run_ready_tasks_settles deps (λ f. ⊥) cost fuel (length fs) s restless frugal h.valid
            h.awake h.below (omega (arith, h.queued, h.spent, enough)) in
        (
          s,
          s',
          spawned,
          ends,
          idle,
          λ i. elim (Option-cases (tm.get s'.tasks i)) [
            | inl e ↦ e
            | inr (t, e) ↦ absurd (left i t e)
          ],
        )
