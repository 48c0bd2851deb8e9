-- ===== src/Executor/Validity.antt =====
-- nacl/src/task/executor.rs: the maps of the executor agree, whatever it does.
use na_cl.Common.{
  ℕ, ◌≡◌, ◌≢◌, refl, inl, inr, ◌⊎◌, none, some, List, [], ◌∷◌, ◌++◌, ◌==◌, if◌then◌else◌, arith,
  Option-cases,
}
use na_cl.Common.Outcomes.{done, panic}
use na_cl.Task.{Task}
use na_cl.Task.Interfaces.{Poll, ready, pending}
use na_cl.Executor.{Deps, Core, new, spawn, run_task}
use na_cl.Executor.Steps.{IsValid, Ran, poll_task-Ran}

module _ (deps : Deps) where
  open deps use {fut, tm, wm, wk}
  open fut use {Future, poll}

  pub new-IsValid : IsValid deps (new deps)
  unfolding new
  new-IsValid = record {
    cached = λ i w h. cc (wm.get-new i);
    kept = λ i w h. absurd (cc (wm.get-new i, h));
    named = λ i t h. cc (tm.get-new i);
  }

  -- A round on a task that no longer exists changes nothing.
  pub run_task-missing :
      (s : Core deps) (id : ℕ) → tm.get s.tasks id ≡ none → run_task deps s id ≡ s
  unfolding run_task
  run_task-missing s id e = rw (e, run_task)

  -- With agreeing maps, a round on a task that exists adds what its poll wakes to the end of the
  -- queue, drops the task and its waker if the poll is ready, and otherwise keeps the new future and
  -- caches the task's own waker; other tasks and wakers stay as they are.
  pub run_task-Ran :
      (s : Core deps) (id : ℕ) (t : Task Future)
      → IsValid deps s
      → tm.get s.tasks id ≡ some t
      → let (f, result, wakes) = poll t.future id in
        Ran deps s (run_task deps s id) id t f result wakes
  unfolding run_task
  run_task-Ran s id t v e = rw (e, run_task) (poll_task-Ran deps s id t (v.cached id))

  Ran-IsValid :
      (s s' : Core deps) (id : ℕ) (t : Task Future) (f : Future) (result : Poll) (wakes : List ℕ)
      → IsValid deps s
      → tm.get s.tasks id ≡ some t
      → Ran deps s s' id t f result wakes
      → IsValid deps s'
  Ran-IsValid s s' id t f ready wakes v e r = record {
    cached = λ i w h. ground (arith, r.cache_of i, v.cached i w);
    kept = λ i w h. ground (arith, r.cache_of i, r.tasks_of i, v.kept i w);
    named = λ i u h. ground (arith, r.tasks_of i, v.named i u);
  }
  Ran-IsValid s s' id t f pending wakes v e r = record {
    cached = λ i w h. ground (arith, r.cache_of i, v.cached i w);
    kept = λ i w h. ground (arith, r.cache_of i, r.tasks_of i, v.kept i w);
    named = λ i u h. ground (arith, r.tasks_of i, v.named i u, v.named id t e);
  }

  -- Every round of the loop keeps the maps in agreement.
  pub run_task-IsValid :
      (s : Core deps) (id : ℕ) → IsValid deps s → IsValid deps (run_task deps s id)
  run_task-IsValid s id v = elim (Option-cases (tm.get s.tasks id)) [
    | inl e ↦ rw (run_task-missing s id e) v
    | inr (t, e) ↦ Ran-IsValid s _ id t _ _ _ v e (run_task-Ran s id t v e)
  ]

  -- The executor after a task is inserted.
  abbrev inserted : Core deps → Task Future → Core deps
  inserted s t = record s { tasks = tm.insert s.tasks t.id t; worker = wk.push s.worker t.id }

  inserted-IsValid :
      (s : Core deps) (t : Task Future) → IsValid deps s → IsValid deps (inserted s t)
  inserted-IsValid s t v = record {
    cached = v.cached;
    kept = λ i w h. ground (arith, tm.get-insert s.tasks t.id t i, v.kept i w);
    named = λ i u h. ground (arith, tm.get-insert s.tasks t.id t i, v.named i u);
  }

  spawn-fresh :
      (s : Core deps) (t : Task Future)
      → tm.get s.tasks t.id ≡ none
      → spawn deps s t ≡ done (inserted s t)
  unfolding spawn
  spawn-fresh s t e = rw (e, spawn)

  spawn-taken :
      (s : Core deps) (t u : Task Future) → tm.get s.tasks t.id ≡ some u → spawn deps s t ≡ panic
  unfolding spawn
  spawn-taken s t u e = rw (e, spawn)

  -- What a successful `spawn` leaves.
  pub record Spawned (s : Core deps) (t : Task Future) (s' : Core deps) : Type 0 where
    pub free : tm.get s.tasks t.id ≡ none
    pub queued : wk.entries s'.worker ≡ wk.entries s.worker ++ (t.id ∷ [])
    pub tasks_of : (j : ℕ) → tm.get s'.tasks j ≡ (if t.id == j then some t else tm.get s.tasks j)
    pub cache : s'.waker_cache ≡ s.waker_cache
    pub valid : IsValid deps s → IsValid deps s'

  inserted-Spawned :
      (s : Core deps) (t : Task Future) → tm.get s.tasks t.id ≡ none → Spawned s t (inserted s t)
  inserted-Spawned s t e = record {
    free = e;
    queued = wk.entries-push s.worker t.id;
    tasks_of = tm.get-insert s.tasks t.id t;
    cache = refl;
    valid = inserted-IsValid s t;
  }

  -- `spawn` either panics, and then a task with the identifier existed, or it stores the task
  -- under a free identifier, queues it last, leaves all else as it was, and keeps the maps in
  -- agreement.
  pub spawn_cases :
      (s : Core deps) (t : Task Future)
      → ((spawn deps s t ≡ panic) × (tm.get s.tasks t.id ≢ none))
        ⊎ ((s' : Core deps) × (spawn deps s t ≡ done s') × Spawned s t s')
  spawn_cases s t = elim (Option-cases (tm.get s.tasks t.id)) [
    | inl e ↦ inr (inserted s t, spawn-fresh s t e, inserted-Spawned s t e)
    | inr (u, e) ↦ inl (spawn-taken s t u e, λ n. cc)
  ]
