-- ===== src/Font/Sharing/Ending.antt =====
-- nacl/src/font/mod.rs: a print that has locked the screen comes to its end.
use na_cl.Common.{
  ℕ, suc, ◌≡◌, refl, ◌∙◌, ap, subst, true, false, some, List, [], ◌∷◌, ◌++◌, append-nil, length,
  arith,
}
use na_cl.HashMap.{HashMap}
use na_cl.Lock.{AtomicWaker, holding, new_waker}
use na_cl.Font.Console.{Screen}
use na_cl.Font.Console.Terminal.{Terminal, type_all}
use na_cl.Font.Console.Refines.{Represents, put_refines}
use na_cl.Font.Sharing.{Printers, inserted, write, unlock, Reach, texts, Steps, stop, go_on}
use na_cl.Font.Sharing.Whole.{IsWhole, Step-IsWhole, prints-IsWhole}

module _ (aw : AtomicWaker) (hm : HashMap ℕ) (ft : List ℕ) where
  -- The lock is free, and the screen shows the whole text.
  pub record Finished (n : ℕ) (t : Terminal) (all : List ℕ) (s : Printers aw hm ft) : Type 0 where
    pub free : s.fbman.locked ≡ false
    pub screen : Screen hm ft
    pub shown : s.fbman.inner ≡ some screen
    pub shows : Represents hm ft screen (type_all n t all)

  module _ {n : ℕ} {t : Terminal} {all : List ℕ} where
    -- A step that adds nothing to the texts keeps their invariant.
    quiet :
        {u : Printers aw hm ft} → IsWhole aw hm ft n t (all ++ []) u → IsWhole aw hm ft n t all u
    quiet {u} v = subst (λ l. IsWhole aw hm ft n t l u) (append-nil all) v

    whole_text :
        {u : Printers aw hm ft}
        → u.fbman.locked ≡ false
        → IsWhole aw hm ft n t all u
        → Finished n t all u
    whole_text free v = record {
      free = free;
      screen = v.screen;
      shown = v.shown;
      shows = rw (v.split ∙ (ap (◌++◌ v.typed) (v.free free) ∙ append-nil v.typed)) v.shows;
    }

    -- The context that holds the guard writes the characters that it has left, and frees the lock.
    writes_out :
        (i : ℕ) (cs : List ℕ) (s : Printers aw hm ft)
        → s.fbman.pc i ≡ holding new_waker
        → s.left i ≡ cs
        → IsWhole aw hm ft n t all s
        → (u : Printers aw hm ft) × Steps aw hm ft i s (suc (length cs)) u × Finished n t all u
    writes_out i [] s h l v =
        let v' = quiet (Step-IsWhole aw hm ft i (unlock h l) v) in
        (_, go_on (unlock h l) stop, whole_text refl v')
    writes_out i (c ∷ cs) s h l v =
        let (fb', p, _, _) = put_refines hm ft v.screen (type_all n t v.typed) c v.shows in
        let st = write c cs v.screen fb' h l v.shown p in
        let (u, run, end) =
          writes_out i cs _ h (ground arith) (quiet (Step-IsWhole aw hm ft i st v)) in
        (u, go_on st run, end)

  -- In every state that the contexts that print lead to, on a screen that shows a terminal: if the lock
  -- is taken, a context holds a guard that, without a panic, frees it in as many steps of its own as it
  -- has characters left to write and one more; and then the screen shows the terminal on which all the
  -- texts whose prints have got the lock are typed one after another, in that order.
  pub print_ends :
      (fb : Screen hm ft) (t : Terminal) (s : Printers aw hm ft)
      → Represents hm ft fb t
      → (r : Reach aw hm ft (inserted aw hm ft fb) s) → s.fbman.locked ≡ true
      → (i : ℕ) × (u : Printers aw hm ft) × (s.fbman.pc i ≡ holding new_waker)
        × Steps aw hm ft i s (suc (length (s.left i))) u
        × Finished fb.horiz_chars t (texts aw hm ft r) u
  print_ends fb t s h r busy =
      let v = prints-IsWhole aw hm ft fb t s h r in
      let (i, e) = v.taken busy in
      let (u, run, end) = writes_out i (s.left i) s e refl v in (i, u, e, run, end)
