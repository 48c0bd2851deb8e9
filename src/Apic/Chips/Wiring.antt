-- ===== src/Apic/Chips/Wiring.antt =====
-- nacl/src/arch/x86_64/apic.rs: what `init_ioapic` makes of the I/O APICs of a platform.
use na_cl.Common.{
  In, ℕ, ◌*◌, ◌%◌, ◌^◌, ◌<◌, ◌≤◌, ◌≡◌, ◌≢◌, ◌⊎◌, inl, inr, refl, ◌∙◌, sym, subst, Option, none,
  some, List, [], ◌∷◌,
}
use na_cl.Memory.Mapper.{Mapper}
use na_cl.Machine.{expect}
use na_cl.Machine.Protocol.{Sure, Sure-bind, Sure-expect}
use na_cl.Apic.{IoApicDevice, entry_reg}
use na_cl.Apic.Local.{PlatformInfo, ApicInfo, IoApicInfo, SourceOverride}
use na_cl.Apic.Controllers.{FoundReg, find_pit, init_controllers, init_ioapic}
use na_cl.Apic.Redirection.{Wired, init_one_wires}
use na_cl.Apic.Chips.{Chips, chips}
use na_cl.Apic.Chips.Loop.{located}
use na_cl.Apic.Chips.Found.{IsTimer, count_of, init_one-entry, init_one-some}
use na_cl.Apic.Chips.Platform.{made, Plugged, AllSetUp, found_on, Visited, init_controllers-Visited}

-- An I/O APIC of the platform, with the address that it starts at.
abbrev pub Pair : IoApicInfo → ℕ → List IoApicInfo → List ℕ → Type 0
Pair x a (y ∷ ys) (b ∷ bs) = ((x ≡ y) × (a ≡ b)) ⊎ Pair x a ys bs
Pair x a _ _ = ⊥

Pair-In :
    (x : IoApicInfo) (a : ℕ) (xs : List IoApicInfo) (addrs : List ℕ)
    → Pair x a xs addrs
    → In a addrs
Pair-In x a [] [] i = absurd i
Pair-In x a [] (b ∷ bs) i = absurd i
Pair-In x a (y ∷ ys) [] i = absurd i
Pair-In x a (y ∷ ys) (b ∷ bs) (inl e) = inl e.1
Pair-In x a (y ∷ ys) (b ∷ bs) (inr i) = inr (Pair-In x a ys bs i)

module _ (api : IoApicDevice) (decode : ℕ → Option (ℕ × ℕ)) (overridden bsp : ℕ) where
  -- Entry `j` of the I/O APIC at `a` is that of the timer.
  pub record IsTimerAt (p : Chips api decode) (xs : List IoApicInfo) (addrs : List ℕ) (a j : ℕ)
      : Type 0 where
    pub x : IoApicInfo
    pub paired : Pair x a xs addrs
    pub timer : IsTimer api x.global_system_interrupt_base overridden 0 (count_of api (p a)) j

  later-IsTimerAt :
      (p : Chips api decode) (y : IoApicInfo) (b : ℕ) (ys : List IoApicInfo) (bs : List ℕ) (a j : ℕ)
      → IsTimerAt p ys bs a j
      → IsTimerAt p (y ∷ ys) (b ∷ bs) a j
  later-IsTimerAt p y b ys bs a j t = record { x = t.x; paired = inr t.paired; timer = t.timer }

  abbrev on : Chips api decode → List IoApicInfo → List ℕ → FoundReg → FoundReg
  on p xs addrs before = found_on api decode overridden bsp p xs addrs before

  located-some :
      (a : ℕ) (before : FoundReg) (r : Option ℕ)
      → (before ≢ none) ⊎ (r ≢ none)
      → located a before r ≢ none
  located-some a before none (inl h) = h
  located-some a before none (inr h) = absurd (h refl)
  located-some a before (some r) h = λ e. cc (e)

  -- With an entry for the timer, something is found.
  found_on-some :
      (p : Chips api decode) (xs : List IoApicInfo) (addrs : List ℕ) (before : FoundReg) (a j : ℕ)
      → (before ≢ none) ⊎ IsTimerAt p xs addrs a j
      → on p xs addrs before ≢ none
  found_on-some p [] addrs before a j (inl h) = h
  found_on-some p [] addrs before a j (inr t) = absurd t.paired
  found_on-some p (y ∷ ys) [] before a j (inl h) = h
  found_on-some p (y ∷ ys) [] before a j (inr t) = absurd t.paired
  found_on-some p (y ∷ ys) (b ∷ bs) before a j h = found_on-some p ys bs _ a j (first h)
    where
      r : Option ℕ
      r = (made api decode overridden bsp p y b).1

      here : (t : IsTimerAt p (y ∷ ys) (b ∷ bs) a j) → (t.x ≡ y) × (a ≡ b) → r ≢ none
      here t (e, f) =
          init_one-some api y.global_system_interrupt_base overridden (p b) bsp j
            (rw (e, f) at t.timer)

      first :
          (before ≢ none) ⊎ IsTimerAt p (y ∷ ys) (b ∷ bs) a j
          → (located b before r ≢ none) ⊎ IsTimerAt p ys bs a j
      first (inl h) = inl (located-some b before r (inl h))
      first (inr t) = elim t.paired [
        | inl e ↦ inl (located-some b before r (inr (here t e)))
        | inr i ↦ inr (record { x = t.x; paired = i; timer = t.timer })
      ]

  -- What is found is what was, or the register of the timer's entry.
  found_on-entry :
      (p : Chips api decode) (xs : List IoApicInfo) (addrs : List ℕ) (before : FoundReg) (a r : ℕ)
      → on p xs addrs before ≡ some (a, r)
      → (before ≡ some (a, r)) ⊎ ((j : ℕ) × IsTimerAt p xs addrs a j × (r ≡ entry_reg api j))
  found_on-entry p [] addrs before a r h = inl h
  found_on-entry p (y ∷ ys) [] before a r h = inl h
  found_on-entry p (y ∷ ys) (b ∷ bs) before a r h = elim (found_on-entry p ys bs _ a r h) [
    | inl e ↦ here (made api decode overridden bsp p y b).1 refl e
    | inr (j, t, e) ↦ inr (j, later-IsTimerAt p y b ys bs a j t, e)
  ]
    where
      here :
          (o : Option ℕ)
          → (made api decode overridden bsp p y b).1 ≡ o
          → located b before o ≡ some (a, r)
          → (before ≡ some (a, r))
            ⊎ ((j : ℕ) × IsTimerAt p (y ∷ ys) (b ∷ bs) a j × (r ≡ entry_reg api j))
      here none m e = inl e
      here (some k) m e =
          let (j, t, at) =
            init_one-entry api y.global_system_interrupt_base overridden (p b) bsp k m in
          let same : b ≡ a = cc (e) in
          let reg : k ≡ r = cc (e) in
          inr
            (j, record { x = y; paired = inl (refl, sym same); timer = rw same at t }, sym reg ∙ at)

  AllSetUp-Pair :
      (p q : Chips api decode) (xs : List IoApicInfo) (addrs : List ℕ) (x : IoApicInfo) (a : ℕ)
      → AllSetUp api decode overridden bsp p q xs addrs
      → Pair x a xs addrs
      → q a ≡ (made api decode overridden bsp p x a).0
  AllSetUp-Pair p q [] [] x a h i = absurd i
  AllSetUp-Pair p q [] (b ∷ bs) x a h i = absurd i
  AllSetUp-Pair p q (y ∷ ys) [] x a h i = absurd i
  AllSetUp-Pair p q (y ∷ ys) (b ∷ bs) x a h (inl (e, f)) = rw (e, f) h.0
  AllSetUp-Pair p q (y ∷ ys) (b ∷ bs) x a h (inr i) = AllSetUp-Pair p q ys bs x a h.1 i

  -- The I/O APICs of the platform, before and after: every entry is wired, and the I/O APICs that are
  -- not of the platform are as they were. What is returned is the entry of the timer.
  pub record AllWired (xs : List IoApicInfo) (addrs : List ℕ) (p q : Chips api decode) (r : ℕ × ℕ)
      : Type 0 where
    pub wired :
        (x : IoApicInfo) (a j : ℕ)
        → Pair x a xs addrs
        → j < count_of api (p a)
        → Wired api (p a) (q a) x.global_system_interrupt_base overridden (bsp * 2 ^ 24 % 2 ^ 32) j
    pub others : (a : ℕ) → (In a addrs → ⊥) → q a ≡ p a
    pub entry : ℕ
    pub timer : IsTimerAt p xs addrs r.0 entry
    pub register : r.1 ≡ entry_reg api entry

  Wired-Pair :
      (p q : Chips api decode) (xs : List IoApicInfo) (addrs : List ℕ) (x : IoApicInfo) (a j : ℕ)
      → AllSetUp api decode overridden bsp p q xs addrs
      → Pair x a xs addrs
      → count_of api (p a) ≤ 120
      → j < count_of api (p a)
      → Wired api (p a) (q a) x.global_system_interrupt_base overridden (bsp * 2 ^ 24 % 2 ^ 32) j
  Wired-Pair p q xs addrs x a j h paired small few =
      let base = x.global_system_interrupt_base in
      let wires = init_one_wires api (p a) base overridden bsp (api.reg (p a) 1) none refl small in
      subst (λ d. Wired api (p a) d base overridden (bsp * 2 ^ 24 % 2 ^ 32) j)
        (sym (AllSetUp-Pair p q xs addrs x a h paired)) (wires.0 j few)

  -- On a platform whose I/O APICs start at different addresses and have at most 120 entries each, one
  -- of which is that of the timer's interrupt, `init_ioapic` returns without a panic. Run on the
  -- devices, it gives the entry of the timer the vector of the timer, unmasked, with the processor
  -- that boots for its destination, and masks the others, on every I/O APIC; it returns the I/O APIC
  -- and the register of such an entry.
  pub init_ioapic_wires :
      (info : PlatformInfo) (mapper : Mapper) (apic : ApicInfo) (pit : SourceOverride)
      (addrs : List ℕ) (p : Chips api decode) (a j : ℕ)
      → info.interrupt_model ≡ some apic
      → find_pit apic.interrupt_source_overrides ≡ some pit
      → pit.global_system_interrupt ≡ overridden
      → info.boot_processor ≡ some bsp
      → Plugged api decode mapper apic.io_apics addrs
      → ((b : ℕ) → In b addrs → count_of api (p b) ≤ 120)
      → IsTimerAt p apic.io_apics addrs a j
      → Sure (chips api decode) p (init_ioapic info mapper) (AllWired apic.io_apics addrs p)
  unfolding init_ioapic
  init_ioapic_wires info mapper apic pit addrs p a j model source gsi boot plugged small t =
      let pr = chips api decode in
      let xs = apic.io_apics in
      let found_one = found_on-some p xs addrs none a j (inr t) in
      Sure-expect pr p info.interrupt_model apic _ (AllWired xs addrs p) model (
        Sure-expect pr p (find_pit apic.interrupt_source_overrides) pit _ (AllWired xs addrs p)
          source
          (rw gsi (
            Sure-bind pr p (init_controllers info mapper xs overridden none) expect
              (Visited api decode overridden bsp p xs addrs none) (AllWired xs addrs p)
              (init_controllers-Visited api decode overridden bsp info mapper xs addrs none p boot
                plugged)
              (λ q found v. returned q found v (on p xs addrs none) refl))))
    where
      returned :
          (q : Chips api decode) (found : FoundReg)
          → Visited api decode overridden bsp p apic.io_apics addrs none q found
          → (o : FoundReg) → on p apic.io_apics addrs none ≡ o
          → Sure (chips api decode) q (expect found) (AllWired apic.io_apics addrs p)
      returned q found v none e = absurd (found_on-some p apic.io_apics addrs none a j (inr t) e)
      returned q found v (some (c, r)) e = elim (found_on-entry p apic.io_apics addrs none c r e) [
        | inl none_before ↦ cc (none_before)
        | inr (k, timer, at) ↦
            subst (λ m. Sure (chips api decode) q (expect m) (AllWired apic.io_apics addrs p))
              (sym (v.2 ∙ e))
              (record {
                wired = λ x b i paired few.
                    Wired-Pair p q apic.io_apics addrs x b i v.0 paired
                      (small b (Pair-In x b apic.io_apics addrs paired)) few;
                others = v.1;
                entry = k;
                timer = timer;
                register = at;
              })
      ]
