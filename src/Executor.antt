-- ===== src/Executor.antt =====
-- nacl/src/task/executor.rs: the tasks of one processor, and the loop that polls them.
pub mod Steps
pub mod Validity
pub mod Rounds
pub mod Sleep
pub mod Running
pub mod Termination
pub mod Settling
pub mod Spawning
pub mod Turns
pub mod Idling
pub mod Halting
pub mod Stranding
pub mod Astray
use na_cl.Common.{ℕ, zero, suc, ◌≡◌, Bool, true, false, Option, none, some, List, [], ◌∷◌}
use na_cl.Common.Outcomes.{Outcome, done, panic}
use na_cl.HashMap.{HashMap}
use na_cl.Task.{Task}
use na_cl.Task.Interfaces.{Poll, ready, pending, FutureApi, WorkerApi}

-- What the executor is built on: futures, its two maps, and the worker queue.
pub record Deps : Type 1 where
  pub fut : FutureApi
  pub tm : HashMap (Task fut.Future)
  pub wm : HashMap ℕ
  pub wk : WorkerApi

module _ (deps : Deps) where
  open deps use {fut, tm, wm, wk}
  open fut use {Future, poll}

  -- `Executor` and the worker queue of its `Cpu`. A cached waker is the task that it pushes.
  pub record Core : Type 0 where
    pub tasks : tm.Map
    pub waker_cache : wm.Map
    pub worker : wk.Worker

  -- `Executor::new` on a new `Cpu`.
  pub new : Core
  new = record { tasks = tm.new; waker_cache = wm.new; worker = wk.new_fifo }

  -- `TaskWaker::wake_task`.
  unfoldable pub wake_task : wk.Worker → ℕ → wk.Worker
  wake_task w id = wk.push w id

  -- The calls of wakers in one poll.
  pub wake_all : wk.Worker → List ℕ → wk.Worker
  wake_all w [] = w
  wake_all w (id ∷ ids) = wake_all (wake_task w id) ids

  -- `insert` returns the value that it replaces: a task with the same identifier is a panic.
  pub spawn : Core → Task Future → Outcome Core
  spawn s t = elim (tm.get s.tasks t.id) [
    | none ↦ done (record s { tasks = tm.insert s.tasks t.id t; worker = wk.push s.worker t.id })
    | some old ↦ panic
  ]

  -- `TaskWaker::new_waker`: a waker is the task that it pushes.
  abbrev pub new_waker : ℕ → ℕ
  new_waker task_id = task_id

  -- `waker_cache.entry(id).or_insert_with(…)`: the waker, and the cache with it.
  pub cached_waker : wm.Map → ℕ → ℕ × wm.Map
  cached_waker c id = elim (wm.get c id) [
    | some w ↦ (w, c)
    | none ↦ (new_waker id, wm.insert c id (new_waker id))
  ]

  -- `Task::poll`, with a waker: the future after it, the result, and the tasks that are woken.
  abbrev pub poll_future : Task Future → ℕ → Future × Poll × List ℕ
  poll_future t waker = poll t.future waker

  -- What the `match` does with a result of `poll`.
  pub finish : Core → ℕ → Task Future → Poll → Core
  finish s id t ready = record s {
    tasks = tm.remove s.tasks id;
    waker_cache = wm.remove s.waker_cache id;
  }
  finish s id t pending = record s { tasks = tm.insert s.tasks id t }

  pub poll_task : Core → ℕ → Task Future → Core
  poll_task s id t =
      let (waker, cache) = cached_waker s.waker_cache id in
      let (f, result, wakes) = poll_future t waker in
      finish (record s { waker_cache = cache; worker = wake_all s.worker wakes }) id
        (record t { future = f }) result

  -- The body of the loop of `run_ready_tasks`, on an identifier that was popped.
  pub run_task : Core → ℕ → Core
  run_task s id = elim (tm.get s.tasks id) [ none ↦ s | some t ↦ poll_task s id t ]

  -- The loop, with fuel; `none` means that the fuel ran out.
  pub run_ready_tasks : ℕ → Core → Option Core
  run_ready_tasks zero s = none
  run_ready_tasks (suc fuel) s = elim (wk.pop s.worker) [
    | none ↦ some s
    | some (id, w) ↦ run_ready_tasks fuel (run_task (record s { worker = w }) id)
  ]
