-- ===== src/Arch/Wiring.antt =====
-- nacl/src/arch/x86_64/apic.rs: on a platform whose tables are complete, the controllers are set up
-- without a panic.
pub mod Entries
use na_cl.Common.{
  In, ℕ, zero, suc, ◌+◌, ◌*◌, ◌/◌, ◌%◌, ◌^◌, ◌<◌, ◌≤◌, ◌≡◌, ◌⊎◌, inl, inr, refl, ap, sym, subst,
  ◌∙◌, true, false, Option, none, some, List, [], ◌∷◌, ◌==◌, Bool-cases, arith,
}
use na_cl.Memory.Mapper.{Mapper, phys_to_virt_ptr}
use na_cl.Machine.{Io, ◌>>=◌, expect, write_volatile}
use na_cl.Machine.Protocol.{Safe, Sure, Sure-bind, Sure-mono}
use na_cl.Machine.Boot.{Setup, boot, is_some}
use na_cl.Machine.Boot.Kept.{Kept}
use na_cl.Machine.Boot.Controllers.{IsPitRegister, init_ioapic-Safe}
use na_cl.Apic.{timer_vector, or_masked}
use na_cl.Apic.Local.{PlatformInfo, ApicInfo, IoApicInfo, SourceOverride, init_lapic}
use na_cl.Apic.Controllers.{
  FoundReg, entry_register, find_pit, redirect_entries, init_controllers, init_ioapic,
}
use na_cl.Time.Calibrate.Ticking.{Clock, Volatile, ticking, observe}
use Entries.{same_address, Steady, Sure-given, Ahead, Settled, written, redirect_entries-Sure}

module _ (l b : ℕ) (v : Volatile) where
  -- The version register of the I/O APIC at `a`, which is read once 1 is selected, counts an entry for
  -- the interrupt.
  abbrev pub Covers : ℕ → ℕ → ℕ → Type 0
  Covers a base overridden =
      (w : ℕ → Option ℕ) (n : ℕ)
      → w a ≡ some 1
      → v w (a + 0x10) n
      → Ahead ((n / 65536 % 256 + 1) % 256) base overridden 0

  -- The interrupt was found, or it is one of an I/O APIC that is still to come.
  abbrev pub Expected : Mapper → List IoApicInfo → ℕ → FoundReg → Type 0
  Expected mapper xs overridden found =
      (is_some found ≡ true)
      ⊎ ((x : IoApicInfo) × In x xs
          × ((a : ℕ)
              → phys_to_virt_ptr mapper x.address ≡ some a
              → Covers a x.global_system_interrupt_base overridden))

  -- What is expected of the I/O APICs from `x` on is still so after `x`, of what is then found.
  Expected-after :
      (mapper : Mapper) (x : IoApicInfo) (xs : List IoApicInfo) (overridden : ℕ)
      (found found' : FoundReg) (p : Clock) (a version : ℕ)
      → Expected mapper (x ∷ xs) overridden found
      → phys_to_virt_ptr mapper x.address ≡ some a
      → v (written p a 1).written (a + 0x10) version
      → ((is_some found ≡ true)
            ⊎ Ahead ((version / 65536 % 256 + 1) % 256) x.global_system_interrupt_base overridden 0
          → is_some found' ≡ true)
      → Expected mapper xs overridden found'
  Expected-after mapper x xs overridden found found' p a version g at read t = elim g [
    | inl s ↦ inl (t (inl s))
    | inr (y, inl same, c) ↦
        let ahead : Covers a x.global_system_interrupt_base overridden =
          subst
            (λ z.
              (a : ℕ)
              → phys_to_virt_ptr mapper z.address ≡ some a
              → Covers a z.global_system_interrupt_base overridden)
            same c a at in
        inl (t (inr (ahead (written p a 1).written version (rw (same_address a) refl) read)))
    | inr (y, inr i, c) ↦ inr (y, i, c)
  ]

  init_controllers-Sure :
      (info : PlatformInfo) (mapper : Mapper) (bsp : ℕ) (xs : List IoApicInfo) (overridden : ℕ)
      (found : FoundReg) (p : Clock)
      → info.boot_processor ≡ some bsp
      → ((x : IoApicInfo) → In x xs → (a : ℕ) × (phys_to_virt_ptr mapper x.address ≡ some a))
      → Expected mapper xs overridden found
      → Steady l b v p
      → Sure
          (ticking l b v)
          p
          (init_controllers info mapper xs overridden found)
          (λ q r. Steady l b v q × (is_some r ≡ true))
  unfolding init_controllers
  init_controllers-Sure info mapper bsp [] overridden found p e f g h =
      (h, elim g [ inl s ↦ s | inr (x, i, c) ↦ absurd i ])
  init_controllers-Sure info mapper bsp (x ∷ xs) overridden found p e f g h =
      let (a, at) = f x (inl refl) in
      let base = x.global_system_interrupt_base in
      let id = bsp * 2 ^ 24 % 2 ^ 32 in
      let q = written p a 1 in
      Sure-given l b v p (phys_to_virt_ptr mapper x.address) a _ _ at (
        tt,
        λ n₁ a₁. (
          tt,
          λ version (c, read). (
            tt,
            λ n₂ a₂.
                let count = (version / 65536 % 256 + 1) % 256 in
                Sure-given l b v q info.boot_processor bsp _ _ e (
                  Sure-bind (ticking l b v) q (redirect_entries count a base overridden id 0 found)
                    _ _ _ (redirect_entries-Sure l b v count a base overridden id 0 found q h)
                    (λ r found' t.
                      init_controllers-Sure info mapper bsp xs overridden found' r e
                        (λ y i. f y (inr i))
                        (Expected-after mapper x xs overridden found found' p a version g at read
                          t.1)
                        t.0)),
          ),
        ),
      )

  -- The tables name the local APIC at `l`, the processor that boots, and an I/O APIC that has an entry
  -- for the interrupt of the timer.
  pub record IsComplete (info : PlatformInfo) (mapper : Mapper) : Type 0 where
    pub apic : ApicInfo
    pub model : info.interrupt_model ≡ some apic
    pub local : phys_to_virt_ptr mapper apic.local_apic_address ≡ some l
    pub bsp : ℕ
    pub boots : info.boot_processor ≡ some bsp
    pub pit : SourceOverride
    pub source : find_pit apic.interrupt_source_overrides ≡ some pit
    pub mapped :
        (x : IoApicInfo)
        → In x apic.io_apics
        → (a : ℕ) × (phys_to_virt_ptr mapper x.address ≡ some a)
    pub wired : Expected mapper apic.io_apics pit.global_system_interrupt none

  pub init_ioapic-Sure :
      (info : PlatformInfo) (mapper : Mapper) (p : Clock)
      → IsComplete info mapper
      → Steady l b v p
      → Sure (ticking l b v) p (init_ioapic info mapper) (λ q r. Steady l b v q)
  unfolding init_ioapic
  init_ioapic-Sure info mapper p c h =
      let gsi = c.pit.global_system_interrupt in
      Sure-given l b v p info.interrupt_model c.apic _ _ c.model (
        Sure-given l b v p (find_pit c.apic.interrupt_source_overrides) c.pit _ _ c.source (
          Sure-bind (ticking l b v) p (init_controllers info mapper c.apic.io_apics gsi none) _ _ _
            (init_controllers-Sure info mapper c.bsp c.apic.io_apics gsi none p c.boots c.mapped
              c.wired h)
            (λ q found t. unwrapped q found t.0 t.1)))
    where
      unwrapped :
          (q : Clock) (found : FoundReg)
          → Steady l b v q
          → is_some found ≡ true
          → Sure (ticking l b v) q (expect found) (λ r x. Steady l b v r)
      unwrapped q none s e = absurd (cc (e))
      unwrapped q (some r) s e = s

  -- On a platform whose tables name the local APIC, the processor that boots, and an I/O APIC that has
  -- an entry for the interrupt of the timer, `init_ioapic` returns without a panic. It changes only
  -- volatile memory, and the register that it gives is that of an entry of an I/O APIC of the platform
  -- whose interrupt is the one that the timer was redirected to.
  pub init_ioapic_completes :
      (info : PlatformInfo) (mapper : Mapper) (p : Setup) (clock : Clock)
      → IsComplete info mapper
      → Steady l b v clock
      → Safe boot p (init_ioapic info mapper) (λ q r. Kept p q × IsPitRegister info mapper r.0 r.1)
        × Sure (ticking l b v) clock (init_ioapic info mapper) (λ q r. Steady l b v q)
  init_ioapic_completes info mapper p clock c h =
      (init_ioapic-Safe info mapper p, init_ioapic-Sure info mapper clock c h)
