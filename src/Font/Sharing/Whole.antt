-- ===== src/Font/Sharing/Whole.antt =====
-- nacl/src/font/mod.rs: the texts that several contexts print do not mix.
use na_cl.Common.{
  ℕ, ◌≡◌, inl, inr, refl, sym, ◌∙◌, ap, subst, true, false, some, List, [], ◌∷◌, ◌++◌, append-nil,
  append_assoc, if◌then◌else◌, Bool-cases, arith,
}
use na_cl.Common.Outcomes.{done}
use na_cl.HashMap.{HashMap}
use na_cl.Lock.{AtomicWaker, idle, spinning, holding, waking, new_waker, update, holds, System}
use na_cl.Lock
use na_cl.Lock.Exclusion.{IsExclusive, Step-IsExclusive}
use na_cl.Font.Console.{Screen, put}
use na_cl.Font.Console.Terminal.{Terminal, type, type_all}
use na_cl.Font.Console.Refines.{Represents, put_refines}
use na_cl.Font.Sharing.{
  Fbman, Printers, inserted, locked_by, Step, call, spin, write, unlock, wake, Reach, here, next,
  obtained, texts,
}

module _ (aw : AtomicWaker) (hm : HashMap ℕ) (ft : List ℕ) where
  -- Every step is one of the mutex.
  mutex_step :
      {s : Printers aw hm ft} (i : ℕ) {t : Printers aw hm ft}
      → Step aw hm ft s i t
      → Lock.Step aw (Fbman aw hm ft) s.fbman t.fbman
  mutex_step i (call text h) = Lock.Step.lock_or_spin i h
  mutex_step i (spin h) = Lock.Step.spin i h
  mutex_step i (write c cs fb fb' h l e p) = Lock.Step.deref_mut i (some fb') (ap holds h)
  mutex_step i (unlock h l) = Lock.Step.unlock i new_waker h
  mutex_step i (wake h) = Lock.Step.wake_waker i new_waker h

  -- The screen shows the texts so far but for their rest, which is what the context that holds the guard
  -- has left to write.
  pub record IsWhole (n : ℕ) (t : Terminal) (all : List ℕ) (s : Printers aw hm ft) : Type 0 where
    pub exclusive : IsExclusive aw (Fbman aw hm ft) s.fbman
    pub typed : List ℕ
    pub rest : List ℕ
    pub split : all ≡ typed ++ rest
    pub screen : Screen hm ft
    pub shown : s.fbman.inner ≡ some screen
    pub shows : Represents hm ft screen (type_all n t typed)
    pub wide : screen.horiz_chars ≡ n
    pub current :
        (i : ℕ)
        → holds (s.fbman.pc i) ≡ true
        → (s.fbman.pc i ≡ holding new_waker) × (s.left i ≡ rest)
    pub free : s.fbman.locked ≡ false → rest ≡ []
    pub taken : s.fbman.locked ≡ true → (i : ℕ) × (s.fbman.pc i ≡ holding new_waker)

  type_all-append :
      (n : ℕ) (t : Terminal) (xs : List ℕ) (c : ℕ)
      → type_all n t (xs ++ (c ∷ [])) ≡ type n (type_all n t xs) c
  type_all-append n t [] c = refl
  type_all-append n t (x ∷ xs) c = type_all-append n (type n t x) xs c

  module _ {n : ℕ} {t : Terminal} {all : List ℕ} where
    -- A step that writes nothing, and leaves the texts as they are.
    quiet-IsWhole :
        {s : Printers aw hm ft} (i : ℕ) {u : Printers aw hm ft}
        → Step aw hm ft s i u
        → (v : IsWhole n t all s) → u.fbman.inner ≡ s.fbman.inner
        → ((j : ℕ)
            → holds (u.fbman.pc j) ≡ true
            → (u.fbman.pc j ≡ holding new_waker) × (u.left j ≡ v.rest))
        → (u.fbman.locked ≡ false → v.rest ≡ [])
        → (u.fbman.locked ≡ true → (j : ℕ) × (u.fbman.pc j ≡ holding new_waker))
        → IsWhole n t all u
    quiet-IsWhole i st v inner current free taken = record {
      exclusive = Step-IsExclusive aw (Fbman aw hm ft) (mutex_step i st) v.exclusive;
      typed = v.typed;
      rest = v.rest;
      split = v.split;
      screen = v.screen;
      shown = inner ∙ v.shown;
      shows = v.shows;
      wide = v.wide;
      current = current;
      free = free;
      taken = taken;
    }

    write-IsWhole :
        {s : Printers aw hm ft} (i c : ℕ) (cs : List ℕ) (fb fb' : Screen hm ft)
        → (h : s.fbman.pc i ≡ holding new_waker) → s.left i ≡ c ∷ cs
        → s.fbman.inner ≡ some fb
        → put hm ft fb c ≡ done fb'
        → IsWhole n t all s
        → IsWhole n t all
            (record { fbman = record s.fbman { inner = some fb' }; left = update s.left i cs })
    write-IsWhole {s} i c cs fb fb' h l e p v =
        let (screen, put_done, shows, wide) =
          put_refines hm ft v.screen (type_all n t v.typed) c v.shows in
        let same : fb ≡ v.screen = cc in
        let left : v.rest ≡ c ∷ cs = sym (v.current i (ap holds h)).1 ∙ l in
        record {
          exclusive =
              Step-IsExclusive aw (Fbman aw hm ft) (Lock.Step.deref_mut i (some fb') (ap holds h))
                v.exclusive;
          typed = v.typed ++ (c ∷ []);
          rest = cs;
          split = v.split ∙ (ap (◌++◌ v.typed) left ∙ sym (append_assoc v.typed (c ∷ []) cs));
          screen = screen;
          shown = let r = rw same at p in cc;
          shows =
              rw (type_all-append n t v.typed c) (
                subst (λ k. Represents hm ft screen (type k (type_all n t v.typed) c)) v.wide
                  shows);
          wide = wide ∙ v.wide;
          current =
              λ j q. let only = v.exclusive.unique i j (ap holds h) q in ground (arith, only, h);
          free = λ q. absurd (ground (arith, q, v.exclusive.flagged i, h));
          taken = λ q. (i, h);
        }

    -- The lock was free, so nothing was left, and context `i` gets it.
    locked-IsWhole :
        {s : Printers aw hm ft} (i : ℕ) (h : s.fbman.pc i ≡ spinning)
        → s.fbman.locked ≡ false
        → IsWhole n t all s
        → IsWhole n t (all ++ s.left i) (record s { fbman = locked_by aw hm ft s i })
    locked-IsWhole {s} i h free v = record {
      exclusive = Step-IsExclusive aw (Fbman aw hm ft) (Lock.Step.spin i h) v.exclusive;
      typed = v.typed;
      rest = s.left i;
      split =
          ap (λ l. l ++ s.left i)
            (v.split ∙ (ap (◌++◌ v.typed) (v.free free) ∙ append-nil v.typed));
      screen = v.screen;
      shown = v.shown;
      shows = v.shows;
      wide = v.wide;
      current = λ j q. ground (arith, v.exclusive.flagged j, q, free);
      free = λ q. ground (arith, q, free);
      taken = λ q. (i, ground (arith, free));
    }

    spin-IsWhole :
        {s : Printers aw hm ft} (i : ℕ) (h : s.fbman.pc i ≡ spinning)
        → IsWhole n t all s
        → IsWhole n t
            (all ++ (if s.fbman.locked then [] else s.left i))
            (record s { fbman = locked_by aw hm ft s i })
    spin-IsWhole {s} i h v =
        let after = record s { fbman = locked_by aw hm ft s i } in
        let gained : List ℕ = if s.fbman.locked then [] else s.left i in
        elim (Bool-cases s.fbman.locked) [
          | inl busy ↦
              let nothing : all ++ gained ≡ all = rw busy (append-nil all) in
              subst (λ l. IsWhole n t l after) (sym nothing)
                (quiet-IsWhole i (spin h) v refl (λ j q. ground (arith, v.current j, q, busy))
                  (λ q. ground (arith, q, busy))
                  (λ q. let (j, e) = v.taken busy in (j, ground (arith, busy, h, e))))
          | inr free ↦
              let text : all ++ gained ≡ all ++ s.left i = rw free refl in
              subst (λ l. IsWhole n t l after) (sym text) (locked-IsWhole i h free v)
        ]

    -- Every step keeps it, for the texts with what the step adds.
    pub Step-IsWhole :
        {s : Printers aw hm ft} (i : ℕ) {u : Printers aw hm ft} (st : Step aw hm ft s i u)
        → IsWhole n t all s
        → IsWhole n t (all ++ obtained aw hm ft i st) u
    Step-IsWhole i (call text h) v = rw (append-nil all) (
        quiet-IsWhole i (call text h) v refl (λ j q. ground (arith, v.current j, q)) v.free
          (λ l. let (j, e) = v.taken l in (j, ground (arith, h, e))))
    Step-IsWhole i (spin h) v = spin-IsWhole i h v
    Step-IsWhole i (write c cs fb fb' h l e p) v =
        rw (append-nil all) (write-IsWhole i c cs fb fb' h l e p v)
    Step-IsWhole i (unlock h l) v = rw (append-nil all) (
        quiet-IsWhole i (unlock h l) v refl
          (λ j q. ground (arith, v.exclusive.unique i j, v.current j, h, q))
          (λ q. sym (v.current i (ap holds h)).1 ∙ l) (λ q. cc))
    Step-IsWhole i (wake h) v = rw (append-nil all) (
        quiet-IsWhole i (wake h) v refl (λ j q. ground (arith, v.current j, q)) v.free
          (λ l. let (j, e) = v.taken l in (j, ground (arith, h, e))))

  inserted-IsWhole :
      (fb : Screen hm ft) (t : Terminal)
      → Represents hm ft fb t
      → IsWhole fb.horiz_chars t [] (inserted aw hm ft fb)
  inserted-IsWhole fb t r = record {
    exclusive = record { flagged = λ i h. cc; unique = λ i j h k. cc };
    typed = [];
    rest = [];
    split = refl;
    screen = fb;
    shown = refl;
    shows = r;
    wide = refl;
    current = λ i h. cc;
    free = λ h. refl;
    taken = λ h. cc;
  }

  -- In whatever order the contexts that print take their steps, on a screen that shows a terminal:
  -- one context holds a guard of the screen at most; the screen shows the terminal on which the texts
  -- are typed one after another, in the order in which their prints have got the lock, but for what the
  -- context that holds the guard has left of the last one; and nothing is left when the lock is free.
  pub prints-IsWhole :
      (fb : Screen hm ft) (t : Terminal) (s : Printers aw hm ft)
      → Represents hm ft fb t
      → (r : Reach aw hm ft (inserted aw hm ft fb) s)
      → IsWhole fb.horiz_chars t (texts aw hm ft r) s
  prints-IsWhole fb t s h here = inserted-IsWhole fb t h
  prints-IsWhole fb t s h (next {t = u} i r st) = Step-IsWhole i st (prints-IsWhole fb t u h r)
