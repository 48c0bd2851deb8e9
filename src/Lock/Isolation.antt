-- ===== src/Lock/Isolation.antt =====
-- nacl/src/task/lock.rs: what other contexts can do while a guard is alive.
use na_cl.Common.{ℕ, ◌≡◌, ◌≢◌, true, arith}
use na_cl.Lock.{AtomicWaker, Pc, GuardWaker, own, new_waker, holds, update, System, Step, Reach}
use na_cl.Lock.Exclusion.{actor, Reach-IsExclusive, IsExclusive}
use na_cl.Lock

module _ (aw : AtomicWaker) (T : Type 0) where
  -- What a guard of context `i` relies on, from `s` to `t`.
  abbrev pub Kept : System aw T → System aw T → ℕ → Type 0
  Kept s t i = (t.inner ≡ s.inner) × (t.locked ≡ true) × (holds (t.pc i) ≡ true)

  Step-Kept :
      {s t : System aw T}
      → IsExclusive aw T s
      → (st : Step aw T s t) (i : ℕ) → holds (s.pc i) ≡ true
      → actor aw T st ≢ i
      → Kept s t i
  Step-Kept v (Step.lock j h) i hi ne = ground (arith, v.flagged i)
  Step-Kept v (Step.first_check j h) i hi ne = ground (arith, v.flagged i)
  Step-Kept v (Step.set_waker j h) i hi ne = ground (arith, v.flagged i)
  Step-Kept v (Step.second_check j h) i hi ne = ground (arith, v.flagged i)
  Step-Kept v (Step.poll_again j h) i hi ne = ground (arith, v.flagged i)
  Step-Kept v (Step.lock_or_spin j h) i hi ne = ground (arith, v.flagged i)
  Step-Kept v (Step.spin j h) i hi ne = ground (arith, v.flagged i)
  Step-Kept v (Step.try_lock j h) i hi ne = ground (arith, v.flagged i)
  Step-Kept v (Step.deref_mut j w h) i hi ne = absurd (ne (v.unique j i h hi))
  Step-Kept v (Step.unlock j g h) i hi ne = absurd (ne (v.unique j i (ground arith) hi))
  Step-Kept v (Step.wake_waker j own h) i hi ne = ground (arith, v.flagged i)
  Step-Kept v (Step.wake_waker j new_waker h) i hi ne = ground (arith, v.flagged i)

  -- While context `i` holds a guard, a step of another context leaves the value as it is, the flag
  -- set, and the guard alive.
  pub guard_isolates :
      {P : System aw T → Type 0} {v : T} {s t : System aw T}
      → Reach aw T P (Lock.new aw T v) s
      → (st : Step aw T s t) (i : ℕ) → holds (s.pc i) ≡ true
      → actor aw T st ≢ i
      → Kept s t i
  guard_isolates r = Step-Kept (Reach-IsExclusive aw T r)
