-- ===== src/Lock/LostWakes.antt =====
-- nacl/src/task/lock.rs: the ways in which a task is left to wait for a mutex that is free.
use na_cl.Common.{ℕ, ◌≡◌, refl, false, none, arith}
use na_cl.Lock.{
  AtomicWaker, Pc, GuardWaker, own, new_waker, update, System, Step, Reach, pending, rechecking,
  holding, waking, idle,
}
use na_cl.Lock.Waking.{WakeIsDue}
use na_cl.Lock

module _ (aw : AtomicWaker) (T : Type 0) where
  open aw use {woken_by, woken_by-register, woken_by-fresh, woken_by-wake, register}

  abbrev pub Anything : System aw T → Type 0
  Anything s = Unit {0}

  Step-global :
      {s t : System aw T} → Step aw T s t → woken_by s.global ≡ none → woken_by t.global ≡ none
  Step-global (Step.lock i h) e = e
  Step-global (Step.first_check i h) e = e
  Step-global (Step.set_waker i h) e = e
  Step-global (Step.second_check i h) e = e
  Step-global (Step.poll_again i h) e = e
  Step-global (Step.lock_or_spin i h) e = e
  Step-global (Step.spin i h) e = e
  Step-global (Step.try_lock i h) e = e
  Step-global (Step.deref_mut i v h) e = e
  Step-global (Step.unlock i g h) e = e
  Step-global (Step.wake_waker i own h) e = e
  Step-global {s} (Step.wake_waker i new_waker h) e = woken_by-wake s.global

  -- No waker is ever registered in `NEW_WAKER`.
  Reach-global :
      {P : System aw T → Type 0} {v : T} {s : System aw T}
      → Reach aw T P (Lock.new aw T v) s
      → woken_by s.global ≡ none
  Reach-global Reach.here = woken_by-fresh
  Reach-global (Reach.next r st p) = Step-global st (Reach-global r)

  -- A task that waits though the mutex is free: it is pending and not scheduled, and no context is
  -- about to wake with the mutex's own waker.
  pub record IsStranded (t : ℕ) (s : System aw T) : Type 0 where
    pub waits : s.pc t ≡ pending
    pub free : s.locked ≡ false
    pub unscheduled : s.woken t ≡ false
    pub forgotten : ¬ WakeIsDue aw T s

  -- The task is not polled, and no guard of a `lock` future has just been dropped.
  abbrev pub Undisturbed : ℕ → System aw T → Type 0
  Undisturbed t s = (s.pc t ≡ pending) × ¬ WakeIsDue aw T s

  Step-unscheduled :
      (t : ℕ) {s u : System aw T}
      → Step aw T s u
      → woken_by s.global ≡ none
      → ¬ WakeIsDue aw T s
      → s.woken t ≡ false
      → u.woken t ≡ false
  Step-unscheduled t (Step.lock i h) e n w = w
  Step-unscheduled t (Step.first_check i h) e n w = w
  Step-unscheduled t (Step.set_waker i h) e n w = w
  Step-unscheduled t (Step.second_check i h) e n w = w
  Step-unscheduled t (Step.poll_again i h) e n w = ground (arith, w)
  Step-unscheduled t (Step.lock_or_spin i h) e n w = w
  Step-unscheduled t (Step.spin i h) e n w = w
  Step-unscheduled t (Step.try_lock i h) e n w = w
  Step-unscheduled t (Step.deref_mut i v h) e n w = w
  Step-unscheduled t (Step.unlock i g h) e n w = w
  Step-unscheduled t (Step.wake_waker i own h) e n w = absurd (n (i, h))
  Step-unscheduled t (Step.wake_waker i new_waker h) e n w = rw e w

  -- What holds from a state on, as long as `t` is undisturbed.
  Reach-unscheduled :
      (t : ℕ) {s z : System aw T}
      → woken_by s.global ≡ none
      → ¬ WakeIsDue aw T s
      → s.woken t ≡ false
      → Reach aw T (Undisturbed t) s z
      → (woken_by z.global ≡ none) × (¬ WakeIsDue aw T z) × (z.woken t ≡ false)
  Reach-unscheduled t e n w Reach.here = (e, n, w)
  Reach-unscheduled t e n w (Reach.next r st p) =
      let (e', n', w') = Reach-unscheduled t e n w r in
      (Step-global st e', p.1, Step-unscheduled t st e' n' w')

  -- The two steps of a guard's `drop`.
  unfoldable pub dropped : System aw T → ℕ → GuardWaker → System aw T
  dropped s i g =
      Lock.wake_step aw T (Lock.goto aw T (record s { locked = false }) i (waking g)) i g

  dropped-Reach :
      {v : T} {s : System aw T} (i : ℕ) (g : GuardWaker)
      → Reach aw T Anything (Lock.new aw T v) s
      → s.pc i ≡ holding g
      → Reach aw T Anything (Lock.new aw T v) (dropped s i g)
  unfolding dropped
  dropped-Reach i g r h =
      Reach.next (Reach.next r (Step.unlock i g h) tt) (Step.wake_waker i g (ground arith)) tt

  -- A guard of `try_lock` or `lock_or_spin` strands a task that waits for it: from every reachable
  -- state in which context `i` holds such a guard, `t` is pending and not scheduled, and nobody is
  -- about to wake with the mutex's own waker, the drop of that guard leads to a state in which the
  -- mutex is free and `t` is pending, not scheduled, and not about to be; and `t` is not scheduled
  -- in any state `z` that any steps lead to from there, as long as `t` is not polled and no guard of a
  -- `lock` future is dropped, on the way and in `z`.
  pub spin_guard_strands :
      {v : T} {s z : System aw T} (i t : ℕ)
      → Reach aw T Anything (Lock.new aw T v) s
      → s.pc i ≡ holding new_waker
      → s.pc t ≡ pending
      → s.woken t ≡ false
      → ¬ WakeIsDue aw T s
      → Reach aw T (Undisturbed t) (dropped s i new_waker) z
      → Reach aw T Anything (Lock.new aw T v) (dropped s i new_waker)
        × IsStranded t (dropped s i new_waker)
        × (z.woken t ≡ false)
  unfolding dropped
  spin_guard_strands {s} i t r h p w n later =
      let left = dropped-Reach i new_waker r h in
      let end : IsStranded t (dropped s i new_waker) = record {
        waits = ground arith;
        free = refl;
        unscheduled = ground (arith, Reach-global r);
        forgotten = λ (j, e). n (j, ground arith);
      } in
      (left, end, (Reach-unscheduled t (Reach-global left) end.forgotten end.unscheduled later).2)

  -- After `u` has registered its waker, found the mutex taken, and `i` has dropped its guard.
  overtaken : System aw T → ℕ → ℕ → System aw T
  overtaken s u i =
      dropped
        (Lock.try aw T (Lock.goto aw T (record s { waker = register s.waker u }) u rechecking) u
          (holding own) pending)
        i own
