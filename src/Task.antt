-- ===== src/Task.antt =====
-- nacl/src/task/mod.rs: identifiers of tasks, tasks, and the future that yields once.
pub mod Interfaces
pub mod Stealing
pub mod Ids
pub mod Collector
pub mod Finding
use na_cl.Common.{ℕ, zero, suc, ◌+◌, ◌%◌, ◌^◌, Bool, true, false, List, [], ◌∷◌}
use Interfaces.{Poll, ready, pending, FutureApi}

-- `TaskId::new`: `NEXT_ID.fetch_add(1)` on a `u64`. The identifier, and the counter after it.
unfoldable pub new_id : ℕ → ℕ × ℕ
new_id next = (next, (next + 1) % 2 ^ 64)

-- `Task`: the identifier and the boxed future.
pub record Task (F : Type 0) : Type 0 where
  pub id : ℕ
  pub future : F

-- `Task::new`, with the counter of the identifiers.
unfoldable pub new : {F : Type 0} → F → ℕ → Task F × ℕ
new f next = let (id, next') = new_id next in (record { id = id; future = f }, next')

-- `ayield`: the future that it awaits, by its field.
abbrev pub ayield : Bool
ayield = false

-- `Yield`, by its field, and its `poll` with the waker of task `id`: the field after it, the
-- result, and the wakers that are called.
unfoldable pub yield_poll : Bool → ℕ → Bool × Poll × List ℕ
yield_poll true id = (true, ready, [])
yield_poll false id = (true, pending, id ∷ [])
