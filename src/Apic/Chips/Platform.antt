-- ===== src/Apic/Chips/Platform.antt =====
-- nacl/src/arch/x86_64/apic.rs: `init_ioapic` on the I/O APICs of a platform.
use na_cl.Common.{
  In, ℕ, ◌+◌, ◌*◌, ◌/◌, ◌%◌, ◌^◌, ◌≡◌, inl, inr, refl, ◌∙◌, ap, subst, Option, none, some, List, [],
  ◌∷◌,
}
use na_cl.Memory.Mapper.{Mapper, phys_to_virt_ptr}
use na_cl.Machine.{Io, ◌>>=◌, ◌>>◌, expect, perform, sprint}
use na_cl.Machine.Protocol.{Sure, Sure-bind, Sure-mono, Sure-expect}
use na_cl.Apic.{IoApicDevice, read_register, redirect_from, max_redir_count, init_one}
use na_cl.Apic.Local.{PlatformInfo, IoApicInfo}
use na_cl.Apic.Controllers.{ioapic_read, redirect_entries, FoundReg, init_controllers}
use na_cl.Apic.Chips.{Chips, chips, IsAt, Became, ioapic_read-Sure}
use na_cl.Apic.Chips.Loop.{located, Follows, rest-Follows, redirect_entries-Follows}

module _ (api : IoApicDevice) (decode : ℕ → Option (ℕ × ℕ)) where
  -- What `init_one` makes of the I/O APIC at `a`.
  abbrev pub made : ℕ → ℕ → Chips api decode → IoApicInfo → ℕ → api.Device × Option ℕ
  made overridden bsp p x a = init_one api (p a) x.global_system_interrupt_base overridden bsp none

  -- The body of the loop of `init_ioapic` from where the address is known, and what follows it.
  controller-Sure :
      {B : Type 0} (info : PlatformInfo) (a : ℕ) (at : IsAt api decode a) (base overridden bsp : ℕ)
      (before : FoundReg) (p : Chips api decode) (f : FoundReg → Io B)
      (Q : Chips api decode → B → Type 0)
      → info.boot_processor ≡ some bsp
      → ((q : Chips api decode) (found : FoundReg)
          → Follows api decode a at base overridden
              (bsp * 2 ^ 24 % 2 ^ 32)
              before
              p
              (init_one api (p a) base overridden bsp none)
              q
              found
          → Sure (chips api decode) q (f found) Q)
      → Sure
          (chips api decode)
          p
          (do
            ioapicver ← ioapic_read a 1
            perform sprint
            bsp_acpi_id ← expect info.boot_processor
            found' ←
                redirect_entries
                  ((ioapicver / 65536 % 256 + 1) % 256)
                  a
                  base
                  overridden
                  (bsp_acpi_id * 2 ^ 24 % 2 ^ 32)
                  0
                  before
            f found')
          Q
  unfolding init_one read_register
  controller-Sure info a at base overridden bsp before p f Q e later =
      let id = bsp * 2 ^ 24 % 2 ^ 32 in
      let (version, d) = read_register api (p a) 1 in
      let entries_of = λ (n : ℕ) (b : ℕ).
        redirect_entries (max_redir_count api n) a base overridden (b * 2 ^ 24 % 2 ^ 32) 0 before in
      let body =
        λ (n : ℕ). perform sprint >> (expect info.boot_processor >>= λ b. entries_of n b >>= f) in
      Sure-bind (chips api decode) p (ioapic_read a 1) body _ Q
        (ioapic_read-Sure api decode a at p 1)
        (λ q n (h : (n ≡ version) × Became api decode p a d q).
          let count = max_redir_count api n in
          let entries = redirect_entries count a base overridden id 0 before in
          let loop = λ (x : api.Device). redirect_from api count x base overridden id 0 none in
          let counted = λ (v : ℕ).
            Follows api decode a at base overridden id before p
              (redirect_from api (max_redir_count api v) d base overridden id 0 none) in
          let done =
            subst (λ v. Sure (chips api decode) q entries (counted v)) h.0
              (rest-Follows api decode a at base overridden id before entries loop h.1 (
                redirect_entries-Follows api decode a at base overridden id before count 0 none
                  q)) in
          (
            tt,
            λ m y.
                Sure-expect (chips api decode) q info.boot_processor bsp _ Q e
                  (Sure-bind (chips api decode) q entries f (counted version) Q done later),
          ))

  -- The I/O APICs of the platform start at different addresses.
  abbrev pub Plugged : Mapper → List IoApicInfo → List ℕ → Type 0
  Plugged mapper [] [] = Unit
  Plugged mapper (x ∷ xs) (a ∷ addrs) =
      (phys_to_virt_ptr mapper x.address ≡ some a)
      × IsAt api decode a
      × (In a addrs → ⊥)
      × Plugged mapper xs addrs
  Plugged mapper _ _ = ⊥

  module _ (overridden bsp : ℕ) where
    -- What the I/O APICs become, one by one.
    abbrev pub AllSetUp : Chips api decode → Chips api decode → List IoApicInfo → List ℕ → Type 0
    AllSetUp p q (x ∷ xs) (a ∷ addrs) =
        (q a ≡ (made overridden bsp p x a).0) × AllSetUp p q xs addrs
    AllSetUp p q _ _ = Unit

    -- The register that is found last.
    abbrev pub found_on : Chips api decode → List IoApicInfo → List ℕ → FoundReg → FoundReg
    found_on p (x ∷ xs) (a ∷ addrs) before =
        found_on p xs addrs (located a before (made overridden bsp p x a).1)
    found_on p _ _ before = before

    AllSetUp-same :
        (p p' q : Chips api decode) (xs : List IoApicInfo) (addrs : List ℕ)
        → ((k : ℕ) → In k addrs → p' k ≡ p k)
        → AllSetUp p' q xs addrs
        → AllSetUp p q xs addrs
    AllSetUp-same p p' q [] addrs e h = tt
    AllSetUp-same p p' q (x ∷ xs) [] e h = tt
    AllSetUp-same p p' q (x ∷ xs) (a ∷ addrs) e h = (
      h.0
          ∙ ap (λ d. (init_one api d x.global_system_interrupt_base overridden bsp none).0)
              (e a (inl refl)),
      AllSetUp-same p p' q xs addrs (λ k i. e k (inr i)) h.1,
    )

    found_on-same :
        (p p' : Chips api decode) (xs : List IoApicInfo) (addrs : List ℕ) (before : FoundReg)
        → ((k : ℕ) → In k addrs → p' k ≡ p k)
        → found_on p' xs addrs before ≡ found_on p xs addrs before
    found_on-same p p' [] addrs before e = refl
    found_on-same p p' (x ∷ xs) [] before e = refl
    found_on-same p p' (x ∷ xs) (a ∷ addrs) before e =
        let same : p' a ≡ p a = e a (inl refl) in
        found_on-same p p' xs addrs _ (λ k i. e k (inr i))
        ∙ ap
            (λ d. found_on p xs addrs (
              located a before
                (init_one api d x.global_system_interrupt_base overridden bsp none).1))
            same

    -- What the outer loop leaves and finds.
    abbrev pub Visited :
        Chips api decode
        → List IoApicInfo
        → List ℕ
        → FoundReg
        → Chips api decode
        → FoundReg
        → Type 0
    Visited p xs addrs before q found =
        AllSetUp p q xs addrs
        × ((k : ℕ) → (In k addrs → ⊥) → q k ≡ p k)
        × (found ≡ found_on p xs addrs before)

    pub init_controllers-Visited :
        (info : PlatformInfo) (mapper : Mapper) (xs : List IoApicInfo) (addrs : List ℕ)
        (before : FoundReg) (p : Chips api decode)
        → info.boot_processor ≡ some bsp
        → Plugged mapper xs addrs
        → Sure
            (chips api decode)
            p
            (init_controllers info mapper xs overridden before)
            (Visited p xs addrs before)
    unfolding init_controllers
    init_controllers-Visited info mapper [] [] before p e h = (tt, λ k n. refl, refl)
    init_controllers-Visited info mapper [] (a ∷ addrs) before p e h = absurd h
    init_controllers-Visited info mapper (x ∷ xs) [] before p e h = absurd h
    init_controllers-Visited info mapper (x ∷ xs) (a ∷ addrs) before p e h =
        let (mapped, at, fresh, plugged) = h in
        let base = x.global_system_interrupt_base in
        Sure-expect (chips api decode) p (phys_to_virt_ptr mapper x.address) a _
          (Visited p (x ∷ xs) (a ∷ addrs) before) mapped
          (controller-Sure info a at base overridden bsp before p
            (init_controllers info mapper xs overridden) (Visited p (x ∷ xs) (a ∷ addrs) before) e
            (λ q found h'.
              let same : (k : ℕ) → In k addrs → q k ≡ p k =
                λ k i. h'.0.others k (λ z. fresh (subst (λ y. In y addrs) z i)) in
              Sure-mono (chips api decode) q (init_controllers info mapper xs overridden found)
                (Visited q xs addrs found) (Visited p (x ∷ xs) (a ∷ addrs) before)
                (init_controllers-Visited info mapper xs addrs found q e plugged)
                (λ t r g. (
                  (g.1 a fresh ∙ h'.0.here, AllSetUp-same p q t xs addrs same g.0),
                  λ k out. g.1 k (λ i. out (inr i)) ∙ h'.0.others k (λ z. out (inl z)),
                  g.2 ∙ found_on-same p q xs addrs found same ∙ ap (found_on p xs addrs) h'.1,
                ))))
