-- ===== src/Lock.antt =====
-- nacl/src/task/lock.rs: the asynchronous mutex, its futures and its guards, run by any number of
-- contexts (tasks on their executors, and code that spins), one access to shared memory at a time.
pub mod Exclusion
pub mod Isolation
pub mod Waking
pub mod LostWakes
use na_cl.Common.{ℕ, ◌≡◌, Bool, true, false, Option, none, some, ◌==◌, if◌then◌else◌}

-- `futures_util::task::AtomicWaker`, a dependency: it keeps the last waker that was registered,
-- and `wake` takes it out and wakes it. A waker is the number of the context that it wakes.
pub record AtomicWaker : Type 1 where
  pub Slot : Type 0
  pub fresh : Slot
  pub register : Slot → ℕ → Slot
  pub wake : Slot → Slot
  pub woken_by : Slot → Option ℕ
  pub woken_by-fresh : woken_by fresh ≡ none
  pub woken_by-register : (s : Slot) (t : ℕ) → woken_by (register s t) ≡ some t
  pub woken_by-wake : (s : Slot) → woken_by (wake s) ≡ none

-- `compare_exchange(false, true)`: the new value of the flag, and whether the exchange was made.
abbrev pub check : Bool → Bool × Bool
check locked = if locked then (true, false) else (true, true)

-- Which waker a `MutexGuard` refers to: the mutex's own, or the static `NEW_WAKER`.
pub data GuardWaker : Type 0 where
  own : GuardWaker
  new_waker : GuardWaker

-- Where a context stands in the code of this file.
pub data Pc : Type 0 where
  idle : Pc
  polling : Pc  -- `poll`, before the first `check`
  registering : Pc  -- `poll`, before `waker.register`
  rechecking : Pc  -- `poll`, before the second `check`
  pending : Pc  -- the future returned `Poll::Pending`
  spinning : Pc  -- the loop of `lock_or_spin`
  holding : GuardWaker → Pc  -- a guard is alive
  waking : GuardWaker → Pc  -- `drop`, between the store and `waker.wake`

abbrev pub holds : Pc → Bool
holds (holding _) = true
holds _ = false

abbrev pub update {ℓ} : {V : Type ℓ} → (ℕ → V) → ℕ → V → ℕ → V
update f at v i = if at == i then v else f i

-- The executor's mark on a task that a waker has scheduled.
abbrev pub schedule : (ℕ → Bool) → Option ℕ → ℕ → Bool
schedule woken none = woken
schedule woken (some t) = update woken t true

module _ (aw : AtomicWaker) (T : Type 0) where
  open aw use {Slot, fresh, register, wake, woken_by}

  -- The fields of the mutex, the static `NEW_WAKER`, and the contexts.
  pub record System : Type 0 where
    pub inner : T
    pub locked : Bool
    pub waker : Slot
    pub global : Slot
    pub pc : ℕ → Pc
    pub woken : ℕ → Bool

  -- `Mutex::new`, before any context has used it.
  abbrev pub new : T → System
  new v = record {
    inner = v;
    locked = false;
    waker = fresh;
    global = fresh;
    pc = λ _. idle;
    woken = λ _. false;
  }

  -- Context `i` goes on to `p`.
  abbrev pub goto : System → ℕ → Pc → System
  goto s i p = record s { pc = update s.pc i p }

  -- A call of `check` by context `i`, which goes on to `won` or to `lost`.
  abbrev pub try : System → ℕ → Pc → Pc → System
  try s i won lost =
      let (l, ok) = check s.locked in goto (record s { locked = l }) i (if ok then won else lost)

  -- `self.waker.wake()` at the end of a guard's `drop`.
  abbrev pub wake_step : System → ℕ → GuardWaker → System
  wake_step s i own =
      goto (record s { waker = wake s.waker; woken = schedule s.woken (woken_by s.waker) }) i idle
  wake_step s i new_waker =
      goto (record s { global = wake s.global; woken = schedule s.woken (woken_by s.global) }) i
        idle

  -- One access to shared memory by one context. The choice between `lock`, `try_lock` and
  -- `lock_or_spin`, and the time at which a future is polled again, are left open.
  pub data Step (s : System) : System → Type 0 where
    lock : (i : ℕ) → s.pc i ≡ idle → Step s (goto s i polling)
    first_check : (i : ℕ) → s.pc i ≡ polling → Step s (try s i (holding own) registering)
    set_waker :
        (i : ℕ)
        → s.pc i ≡ registering
        → Step s (goto (record s { waker = register s.waker i }) i rechecking)
    second_check : (i : ℕ) → s.pc i ≡ rechecking → Step s (try s i (holding own) pending)
    poll_again :
        (i : ℕ)
        → s.pc i ≡ pending
        → Step s (goto (record s { woken = update s.woken i false }) i polling)
    lock_or_spin : (i : ℕ) → s.pc i ≡ idle → Step s (goto s i spinning)
    spin : (i : ℕ) → s.pc i ≡ spinning → Step s (try s i (holding new_waker) spinning)
    try_lock : (i : ℕ) → s.pc i ≡ idle → Step s (try s i (holding new_waker) idle)
    deref_mut : (i : ℕ) (v : T) → holds (s.pc i) ≡ true → Step s (record s { inner = v })
    unlock :
        (i : ℕ) (g : GuardWaker)
        → s.pc i ≡ holding g
        → Step s (goto (record s { locked = false }) i (waking g))
    wake_waker : (i : ℕ) (g : GuardWaker) → s.pc i ≡ waking g → Step s (wake_step s i g)

  -- The states that steps lead to from `s`, all of which satisfy `P`.
  pub data Reach (P : System → Type 0) (s : System) : System → Type 0 where
    here : Reach P s s
    next : {t u : System} → Reach P s t → Step t u → P u → Reach P s u
