-- ===== src/Executor/Steps.antt =====
-- nacl/src/task/executor.rs: what one round of `run_ready_tasks` does.
use na_cl.Common.{
  ℕ, ◌≡◌, ◌≢◌, inl, inr, refl, ◌∙◌, ap, Option, none, some, List, [], ◌∷◌, ◌++◌, append-nil,
  append_assoc, ◌==◌, if◌then◌else◌, arith, Option-cases, Bool-cases, ==_iff, sym,
}
use na_cl.Task.{Task}
use na_cl.Task.Interfaces.{Poll, ready, pending}
use na_cl.Executor.{Deps, Core, new, wake_task, wake_all, cached_waker, finish, poll_task}

module _ (deps : Deps) where
  open deps use {fut, tm, wm, wk}
  open fut use {Future, poll}

  -- The tasks in the queue, the next one first.
  abbrev pub queue : Core deps → List ℕ
  queue s = wk.entries s.worker

  pub queue-new : queue (new deps) ≡ []
  unfolding new
  queue-new = wk.entries-new_fifo

  pub tasks-new : (i : ℕ) → tm.get (new deps).tasks i ≡ none
  unfolding new
  tasks-new i = tm.get-new i

  -- Every cached waker wakes the task that it is cached for, which is a task of the executor, and
  -- a task is stored under its identifier.
  pub record IsValid (s : Core deps) : Type 0 where
    pub cached : (i w : ℕ) → wm.get s.waker_cache i ≡ some w → w ≡ i
    pub kept : (i w : ℕ) → wm.get s.waker_cache i ≡ some w → tm.get s.tasks i ≢ none
    pub named : (i : ℕ) (t : Task Future) → tm.get s.tasks i ≡ some t → t.id ≡ i

  pub entries-wake_all :
      (w : wk.Worker) (ids : List ℕ) → wk.entries (wake_all deps w ids) ≡ wk.entries w ++ ids
  unfolding wake_all wake_task
  entries-wake_all w [] = sym (append-nil (wk.entries w))
  entries-wake_all w (id ∷ ids) =
      rw (entries-wake_all (wk.push w id) ids, wk.entries-push w id)
        (append_assoc (wk.entries w) (id ∷ []) ids)

  -- With a valid cache the poll gets the task's own waker.
  pub cached_waker-own :
      (c : wm.Map) (id : ℕ)
      → ((w : ℕ) → wm.get c id ≡ some w → w ≡ id)
      → ((cached_waker deps c id).0 ≡ id)
        × ((j : ℕ)
            → wm.get (cached_waker deps c id).1 j ≡ (if id == j then some id else wm.get c j))
  unfolding cached_waker
  cached_waker-own c id h = elim (Option-cases (wm.get c id)) [
    | inl e ↦ rw (e, cached_waker) (refl, λ j. wm.get-insert c id id j)
    | inr (w, e) ↦ rw (e, cached_waker) (h w e, λ j. same w e j)
  ]
    where
      same :
          (w : ℕ)
          → wm.get c id ≡ some w
          → (j : ℕ) → wm.get c j ≡ (if id == j then some id else wm.get c j)
      same w e j = elim (Bool-cases (id == j)) [
        | inl q ↦ rw q (ap (wm.get c) (sym ((==_iff id j).0 q)) ∙ e ∙ ap some (h w e))
        | inr q ↦ rw q
      ]

  -- What is stored of a task after a poll: nothing once it is ready, the new future before.
  abbrev pub stored {ℓ} : {A : Type ℓ} → Poll → A → Option A
  stored ready a = none
  stored pending a = some a

  -- A round on task `t`, whose poll gives `f`, `result` and `wakes`: the tasks woken go to the end
  -- of the queue; a task that is ready is dropped with its waker, one that is not is kept with its
  -- new future, and its own waker is cached; the other tasks and wakers stay as they are.
  pub record Ran (s s' : Core deps) (id : ℕ) (t : Task Future) (f : Future) (result : Poll)
      (wakes : List ℕ) : Type 0 where
    pub queued : queue s' ≡ queue s ++ wakes
    pub tasks_of :
        (j : ℕ)
        → tm.get s'.tasks j
          ≡ (if id == j then stored result (record t { future = f }) else tm.get s.tasks j)
    pub cache_of :
        (j : ℕ)
        → wm.get s'.waker_cache j ≡ (if id == j then stored result id else wm.get s.waker_cache j)

  finish-Ran :
      (s : Core deps) (c : wm.Map) (id : ℕ) (t : Task Future) (f : Future) (result : Poll)
      (wakes : List ℕ)
      → ((j : ℕ) → wm.get c j ≡ (if id == j then some id else wm.get s.waker_cache j))
      → Ran s
          (finish deps
            (record s { waker_cache = c; worker = wake_all deps s.worker wakes })
            id
            (record t { future = f })
            result)
          id
          t
          f
          result
          wakes
  unfolding finish
  finish-Ran s c id t f ready wakes h = record {
    queued = entries-wake_all s.worker wakes;
    tasks_of = λ j. tm.get-remove s.tasks id j;
    cache_of = λ j. ground (arith, wm.get-remove c id j, h j);
  }
  finish-Ran s c id t f pending wakes h = record {
    queued = entries-wake_all s.worker wakes;
    tasks_of = λ j. tm.get-insert s.tasks id (record t { future = f }) j;
    cache_of = h;
  }

  pub poll_task-Ran :
      (s : Core deps) (id : ℕ) (t : Task Future)
      → ((w : ℕ) → wm.get s.waker_cache id ≡ some w → w ≡ id)
      → let (f, result, wakes) = poll t.future id in
        Ran s (poll_task deps s id t) id t f result wakes
  unfolding poll_task
  poll_task-Ran s id t h =
      let (own, cache) = cached_waker-own s.waker_cache id h in
      rw own (finish-Ran s _ id t _ _ _ cache)
