-- ===== src/Lock/Waking.antt =====
-- nacl/src/task/lock.rs: when a task that waits for the mutex is woken.
use na_cl.Common.{ℕ, ◌≡◌, ◌≢◌, ◌⊎◌, inl, inr, ap, ◌∙◌, true, false, some, arith}
use na_cl.Lock.{
  AtomicWaker, Pc, GuardWaker, own, new_waker, update, System, Step, Reach, rechecking, pending,
  registering, holding, waking, spinning, polling, idle,
}
use na_cl.Lock

module _ (aw : AtomicWaker) (T : Type 0) where
  open aw use {register, woken_by, woken_by-register, woken_by-fresh}

  -- Only context `t` waits in `poll`, and every guard comes from a `lock` future.
  pub record OneWaiter (t : ℕ) (s : System aw T) : Type 0 where
    pub alone : (i : ℕ) → s.pc i ≡ registering → i ≡ t
    pub no_spin : (i : ℕ) → s.pc i ≢ holding new_waker
    pub no_late : (i : ℕ) → s.pc i ≢ waking new_waker

  -- A context is between its `unlock` and its call of `wake`.
  abbrev pub WakeIsDue : System aw T → Type 0
  WakeIsDue s = (i : ℕ) × (s.pc i ≡ waking own)

  -- The next `wake` wakes `t`.
  abbrev pub Registered : ℕ → System aw T → Type 0
  Registered t s = woken_by s.waker ≡ some t

  -- What is known of `t` while it waits.
  pub record IsAwaited (t : ℕ) (s : System aw T) : Type 0 where
    pub known : (s.pc t ≡ rechecking) ⊎ (s.pc t ≡ pending) → Registered t s ⊎ (s.woken t ≡ true)
    pub due : s.pc t ≡ pending → s.locked ≡ false → (s.woken t ≡ true) ⊎ WakeIsDue s

  -- A step of a context that is not about to wake leaves the wake due that was due.
  still_due :
      (pc : ℕ → Pc) (i : ℕ) (p : Pc)
      → pc i ≢ waking own
      → (j : ℕ) × (pc j ≡ waking own)
      → (j : ℕ) × (update pc i p j ≡ waking own)
  still_due pc i p h (j, e) = (j, ground arith)

  module _ (t : ℕ) (s : System aw T) (a : IsAwaited t s) (i : ℕ) where
    goto-IsAwaited :
        (p : Pc)
        → s.pc i ≢ waking own
        → p ≢ rechecking
        → p ≢ pending
        → IsAwaited t (Lock.goto aw T s i p)
    goto-IsAwaited p h n m = record {
      known = λ w. ground (arith, a.known);
      due = λ e l. ground (arith, a.due, still_due s.pc i p h);
    }

    try-IsAwaited :
        (g : GuardWaker) (lost : Pc)
        → lost ≢ rechecking
        → (lost ≡ pending → s.pc i ≡ rechecking)
        → IsAwaited t (Lock.try aw T s i (holding g) lost)
    try-IsAwaited g lost n r = record {
      known = λ w. ground (arith, a.known);
      due = λ e l. ground arith;
    }

    set_waker-IsAwaited :
        i ≡ t → IsAwaited t (Lock.goto aw T (record s { waker = register s.waker i }) i rechecking)
    set_waker-IsAwaited e = record {
      known = λ w. inl (woken_by-register s.waker i ∙ ap some e);
      due = λ p l. ground arith;
    }

    poll_again-IsAwaited :
        s.pc i ≡ pending
        → IsAwaited t (Lock.goto aw T (record s { woken = update s.woken i false }) i polling)
    poll_again-IsAwaited h = record {
      known = λ w. ground (arith, a.known);
      due = λ p l. ground (arith, a.due, still_due s.pc i polling (ground arith));
    }

    unlock-IsAwaited :
        s.pc i ≡ holding own
        → IsAwaited t (Lock.goto aw T (record s { locked = false }) i (waking own))
    unlock-IsAwaited h = record {
      known = λ w. ground (arith, a.known);
      due = λ p l. inr (i, ground arith);
    }

    wake-IsAwaited : s.pc i ≡ waking own → IsAwaited t (Lock.wake_step aw T s i own)
    wake-IsAwaited h = record {
      known = λ w. ground (arith, a.known);
      due = λ p l. ground (arith, a.known);
    }

  -- Every step keeps what is known of the one context that waits.
  pub Step-IsAwaited :
      (t : ℕ) {s u : System aw T} → OneWaiter t s → IsAwaited t s → Step aw T s u → IsAwaited t u
  Step-IsAwaited t {s} o a (Step.lock i h) =
      goto-IsAwaited t s a i polling (ground arith) (ground arith) (ground arith)
  Step-IsAwaited t {s} o a (Step.first_check i h) =
      try-IsAwaited t s a i own registering (ground arith) (ground arith)
  Step-IsAwaited t {s} o a (Step.set_waker i h) = set_waker-IsAwaited t s a i (o.alone i h)
  Step-IsAwaited t {s} o a (Step.second_check i h) =
      try-IsAwaited t s a i own pending (ground arith) (λ _. h)
  Step-IsAwaited t {s} o a (Step.poll_again i h) = poll_again-IsAwaited t s a i h
  Step-IsAwaited t {s} o a (Step.lock_or_spin i h) =
      goto-IsAwaited t s a i spinning (ground arith) (ground arith) (ground arith)
  Step-IsAwaited t {s} o a (Step.spin i h) =
      try-IsAwaited t s a i new_waker spinning (ground arith) (ground arith)
  Step-IsAwaited t {s} o a (Step.try_lock i h) =
      try-IsAwaited t s a i new_waker idle (ground arith) (ground arith)
  Step-IsAwaited t o a (Step.deref_mut i v h) = record { known = a.known; due = a.due }
  Step-IsAwaited t {s} o a (Step.unlock i own h) = unlock-IsAwaited t s a i h
  Step-IsAwaited t {s} o a (Step.unlock i new_waker h) = absurd (o.no_spin i h)
  Step-IsAwaited t {s} o a (Step.wake_waker i own h) = wake-IsAwaited t s a i h
  Step-IsAwaited t {s} o a (Step.wake_waker i new_waker h) = absurd (o.no_late i h)

  Reach-IsAwaited :
      (t : ℕ) {v : T} {s : System aw T}
      → Reach aw T (OneWaiter t) (Lock.new aw T v) s
      → OneWaiter t s × IsAwaited t s
  Reach-IsAwaited t Reach.here = (
    record { alone = λ i h. cc; no_spin = λ i h. cc; no_late = λ i h. cc },
    record { known = λ w. ground arith; due = λ p l. cc },
  )
  Reach-IsAwaited t (Reach.next r st o) =
      let (o', a) = Reach-IsAwaited t r in (o, Step-IsAwaited t o' a st)

  -- No wake-up is lost with one waiter: as long as only context `t` waits in `poll` and every
  -- guard comes from a `lock` future, whenever `t` is pending and the mutex is free, `t` is
  -- scheduled, or a context is about to call `wake`, which will schedule `t`.
  pub lone_waiter_woken :
      (t : ℕ) {v : T} {s : System aw T}
      → Reach aw T (OneWaiter t) (Lock.new aw T v) s
      → s.pc t ≡ pending
      → s.locked ≡ false
      → (s.woken t ≡ true) ⊎ (WakeIsDue s × Registered t s)
  lone_waiter_woken t {s} r p l = let (o, a) = Reach-IsAwaited t r in ground (arith, a.known, a.due)
