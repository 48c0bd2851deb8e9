-- ===== src/Task/Interfaces.antt =====
-- What the executor uses of code that is not its own: the futures that it runs, and the worker
-- queue of nacl/src/task/crossbeam.rs, a copy of the crate `crossbeam-deque`.
use mathlib.Core.Option
use na_cl.Common.{ℕ, ◌≡◌, Bool, true, false, Option, none, some, List, [], ◌∷◌, ◌++◌}

pub data Poll : Type 0 where
  ready pending : Poll

-- `dyn Future<Output = ()>`: a poll with the waker of a task gives the future after it, the
-- result, and the tasks whose wakers the poll calls, in order.
pub record FutureApi : Type 1 where
  pub Future : Type 0
  pub poll : Future → ℕ → Future × Poll × List ℕ

abbrev pub uncons {ℓ} : {A : Type ℓ} → List A → Option (A × List A)
uncons [] = none
uncons (x ∷ xs) = some (x, xs)

abbrev pub is_nil {ℓ} : {A : Type ℓ} → List A → Bool
is_nil [] = true
is_nil (x ∷ xs) = false

-- `Worker<TaskId>` made by `new_fifo`, seen by its owner: `entries` is what it holds, in the
-- order in which `pop` gives it.
pub record WorkerApi : Type 1 where
  pub Worker : Type 0
  pub entries : Worker → List ℕ
  pub new_fifo : Worker
  pub push : Worker → ℕ → Worker
  pub pop : Worker → Option (ℕ × Worker)
  pub is_empty : Worker → Bool
  pub entries-new_fifo : entries new_fifo ≡ []
  pub entries-push : (w : Worker) (x : ℕ) → entries (push w x) ≡ entries w ++ (x ∷ [])
  pub pop-entries : (w : Worker) → Option.map (λ r. (r.0, entries r.1)) (pop w) ≡ uncons (entries w)
  pub is_empty-entries : (w : Worker) → is_empty w ≡ is_nil (entries w)
