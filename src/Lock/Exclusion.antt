-- ===== src/Lock/Exclusion.antt =====
-- nacl/src/task/lock.rs: who may touch the value behind the mutex.
use na_cl.Common.{ℕ, ◌≡◌, refl, true, false, arith}
use na_cl.Lock.{
  AtomicWaker, Pc, GuardWaker, holds, update, check, idle, own, new_waker, System, Step, Reach,
}
use na_cl.Lock

module _ (aw : AtomicWaker) (T : Type 0) where
  -- The flag is set while a guard is alive, and one guard is alive at most.
  pub record IsExclusive (s : System aw T) : Type 0 where
    pub flagged : (i : ℕ) → holds (s.pc i) ≡ true → s.locked ≡ true
    pub unique : (i j : ℕ) → holds (s.pc i) ≡ true → holds (s.pc j) ≡ true → i ≡ j

  goto-IsExclusive :
      {s : System aw T} (i : ℕ) (p : Pc)
      → holds p ≡ false
      → IsExclusive s
      → IsExclusive (Lock.goto aw T s i p)
  goto-IsExclusive i p h v = record {
    flagged = λ j hj. ground (arith, v.flagged j);
    unique = λ j k hj hk. ground (arith, v.unique j k);
  }

  try-IsExclusive :
      {s : System aw T} (i : ℕ) (won lost : Pc)
      → holds lost ≡ false
      → IsExclusive s
      → IsExclusive (Lock.try aw T s i won lost)
  try-IsExclusive i won lost h v = record {
    flagged = λ j hj. ground (arith, v.flagged j);
    unique = λ j k hj hk. ground (arith, v.unique j k, v.flagged j, v.flagged k);
  }

  unlock-IsExclusive :
      {s : System aw T} (i : ℕ) (g : GuardWaker)
      → s.pc i ≡ Pc.holding g
      → IsExclusive s
      → IsExclusive (Lock.goto aw T (record s { locked = false }) i (Pc.waking g))
  unlock-IsExclusive i g h v = record {
    flagged = λ j hj. ground (arith, v.unique i j);
    unique = λ j k hj hk. ground (arith, v.unique j k);
  }

  wake_step-IsExclusive :
      {s : System aw T} (i : ℕ) (g : GuardWaker)
      → IsExclusive s
      → IsExclusive (Lock.wake_step aw T s i g)
  wake_step-IsExclusive i own v = record {
    flagged = λ j hj. ground (arith, v.flagged j);
    unique = λ j k hj hk. ground (arith, v.unique j k);
  }
  wake_step-IsExclusive i new_waker v = record {
    flagged = λ j hj. ground (arith, v.flagged j);
    unique = λ j k hj hk. ground (arith, v.unique j k);
  }

  -- Every step keeps the invariant.
  pub Step-IsExclusive : {s t : System aw T} → Step aw T s t → IsExclusive s → IsExclusive t
  Step-IsExclusive (Step.lock i h) v = goto-IsExclusive i Pc.polling refl v
  Step-IsExclusive (Step.first_check i h) v = try-IsExclusive i _ _ refl v
  Step-IsExclusive (Step.set_waker i h) v =
      goto-IsExclusive i _ refl (record { flagged = v.flagged; unique = v.unique })
  Step-IsExclusive (Step.second_check i h) v = try-IsExclusive i _ _ refl v
  Step-IsExclusive (Step.poll_again i h) v =
      goto-IsExclusive i _ refl (record { flagged = v.flagged; unique = v.unique })
  Step-IsExclusive (Step.lock_or_spin i h) v = goto-IsExclusive i _ refl v
  Step-IsExclusive (Step.spin i h) v = try-IsExclusive i _ _ refl v
  Step-IsExclusive (Step.try_lock i h) v = try-IsExclusive i _ _ refl v
  Step-IsExclusive (Step.deref_mut i w h) v = record { flagged = v.flagged; unique = v.unique }
  Step-IsExclusive (Step.unlock i g h) v = unlock-IsExclusive i g h v
  Step-IsExclusive (Step.wake_waker i g h) v = wake_step-IsExclusive i g v

  new-IsExclusive : (v : T) → IsExclusive (Lock.new aw T v)
  new-IsExclusive v = record { flagged = λ i h. cc; unique = λ i j h k. cc }

  -- Every state that steps lead to from a new mutex satisfies the invariant.
  pub Reach-IsExclusive :
      {P : System aw T → Type 0} {v : T} {s : System aw T}
      → Reach aw T P (Lock.new aw T v) s
      → IsExclusive s
  Reach-IsExclusive {v} Reach.here = new-IsExclusive v
  Reach-IsExclusive (Reach.next r st p) = Step-IsExclusive st (Reach-IsExclusive r)

  -- At most one guard of the mutex is alive, in every state that any interleaving of its users
  -- leads to, and the flag is set while one is.
  pub mutual_exclusion :
      {P : System aw T → Type 0} {v : T} {s : System aw T}
      → Reach aw T P (Lock.new aw T v) s
      → (i j : ℕ) → holds (s.pc i) ≡ true
      → holds (s.pc j) ≡ true
      → (i ≡ j) × (s.locked ≡ true)
  mutual_exclusion r i j hi hj =
      ((Reach-IsExclusive r).unique i j hi hj, (Reach-IsExclusive r).flagged i hi)

  -- The context that makes a step.
  abbrev pub actor : {s t : System aw T} → Step aw T s t → ℕ
  actor (Step.lock i h) = i
  actor (Step.first_check i h) = i
  actor (Step.set_waker i h) = i
  actor (Step.second_check i h) = i
  actor (Step.poll_again i h) = i
  actor (Step.lock_or_spin i h) = i
  actor (Step.spin i h) = i
  actor (Step.try_lock i h) = i
  actor (Step.deref_mut i v h) = i
  actor (Step.unlock i g h) = i
  actor (Step.wake_waker i g h) = i
