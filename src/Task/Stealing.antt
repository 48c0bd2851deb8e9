-- ===== src/Task/Stealing.antt =====
-- What the executor and `find_task` use of the stealing side of nacl/src/task/crossbeam.rs, a copy
-- of the crate `crossbeam-deque`: the outcomes of a steal and how they are chained.
use na_cl.Common.{◌≡◌, ◌≢◌, Bool, true, false, []}
use na_cl.Task.Interfaces.{WorkerApi}

-- `Steal<T>`
pub data Steal {ℓ} (A : Type ℓ) : Type ℓ where
  empty : Steal A
  success : A → Steal A
  retry : Steal A

abbrev pub is_retry {ℓ} : {A : Type ℓ} → Steal A → Bool
is_retry retry = true
is_retry _ = false

abbrev pub is_success {ℓ} : {A : Type ℓ} → Steal A → Bool
is_success (success a) = true
is_success _ = false

-- A stealer of some worker queue; its own value holds what is left there. `steal_batch` pushes
-- what it steals into the queue that it is handed.
pub record StealerApi (wk : WorkerApi) : Type 1 where
  pub Stealer : Type 0
  pub steal_batch : Stealer → wk.Worker → Stealer × wk.Worker × Steal (Unit {0})
  -- Nothing is pushed unless the steal succeeds, and then the queue is not empty.
  pub steal_batch-same :
      (s : Stealer) (w : wk.Worker)
      → is_success (steal_batch s w).2 ≡ false
      → wk.entries (steal_batch s w).1 ≡ wk.entries w
  pub steal_batch-some :
      (s : Stealer) (w : wk.Worker)
      → is_success (steal_batch s w).2 ≡ true
      → wk.entries (steal_batch s w).1 ≢ []
