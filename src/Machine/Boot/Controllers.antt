-- ===== src/Machine/Boot/Controllers.antt =====
-- nacl/src/arch/x86_64/apic.rs: `init_ioapic` under the protocol of a processor that boots.
use na_cl.Common.{
  In, ℕ, zero, suc, ◌+◌, ◌%◌, ◌^◌, ◌≡◌, refl, none, some, List, [], ◌∷◌, ◌==◌, Bool-cases, inl, inr,
  arith, ◌/◌, ◌*◌,
}
use na_cl.Memory.Mapper.{Mapper, phys_to_virt_ptr}
use na_cl.Machine.{Io, ◌>>◌, expect}
use na_cl.Machine.Protocol.{Safe, Safe-bind, Safe-mono}
use na_cl.Machine.Boot.{Setup, boot, record_write}
use na_cl.Apic.{timer_vector, or_masked}
use na_cl.Apic.Local.{PlatformInfo, IoApicInfo, ApicInfo, SourceOverride}
use na_cl.Apic.Controllers.{
  ioapic_write, ioapic_update, redirect_entries, init_controllers, init_ioapic, FoundReg,
  entry_register, find_pit,
}
use na_cl.Machine.Boot.Kept.{Kept, Kept-refl, Kept-trans, Kept-written, Safe-kept, Safe-expect}
use na_cl.Machine.Boot.Parts.{ioapic_write-Safe, ioapic_update-Safe}

-- What may be found keeps a property `G`, which the register of the overridden interrupt has.
module _ (G : FoundReg → Type 0) where
  abbrev pub Finds : Setup → Setup → FoundReg → Type 0
  Finds p q found = Kept p q × G found

  Finds-after :
      (p r : Setup) (m : Io FoundReg) → Kept p r → Safe boot r m (Finds r) → Safe boot r m (Finds p)
  Finds-after p r m k s =
      Safe-mono boot r m (Finds r) (Finds p) s (λ t found f. (Kept-trans k f.0, f.1))

  redirect_entries-Safe :
      (n a base overridden bsp idx : ℕ) (found : FoundReg) (p : Setup)
      → G found
      → ((j : ℕ) → (j + base) % 2 ^ 32 ≡ overridden → G (some (a, entry_register j)))
      → Safe boot p (redirect_entries n a base overridden bsp idx found) (Finds p)
  unfolding redirect_entries
  redirect_entries-Safe zero a base overridden bsp idx found p g h = (Kept-refl p, g)
  redirect_entries-Safe (suc n) a base overridden bsp idx found p g h =
      let reg = entry_register idx in
      let hit = redirect_entries n a base overridden bsp (idx + 1) (some (a, reg)) in
      let miss = redirect_entries n a base overridden bsp (idx + 1) found in
      elim (Bool-cases ((idx + base) % 2 ^ 32 == overridden)) [
        | inl e ↦
            let matched : (idx + base) % 2 ^ 32 ≡ overridden = ground arith in
            rw e (
              Safe-kept p (ioapic_write a reg timer_vector)
                (λ u. ioapic_write a ((reg + 1) % 256) bsp >> hit) (Finds p)
                (ioapic_write-Safe a reg timer_vector p)
                (λ q u k.
                  Safe-kept q (ioapic_write a ((reg + 1) % 256) bsp) (λ v. hit) (Finds p)
                    (ioapic_write-Safe a ((reg + 1) % 256) bsp q)
                    (λ r v k'. Finds-after p r hit (Kept-trans k k') (
                      redirect_entries-Safe n a base overridden bsp (idx + 1) (some (a, reg)) r
                        (h idx matched) h))))
        | inr e ↦ rw e (
            Safe-kept p (ioapic_update a reg or_masked) (λ u. miss) (Finds p)
              (ioapic_update-Safe a reg or_masked p)
              (λ q u k.
                Finds-after p q miss k
                  (redirect_entries-Safe n a base overridden bsp (idx + 1) found q g h)))
      ]

  init_controllers-Safe :
      (info : PlatformInfo) (mapper : Mapper) (io_apics : List IoApicInfo) (overridden : ℕ)
      (found : FoundReg) (p : Setup)
      → G found
      → ((x : IoApicInfo)
          → In x io_apics
          → (a : ℕ) → phys_to_virt_ptr mapper x.address ≡ some a
          → (j : ℕ) → (j + x.global_system_interrupt_base) % 2 ^ 32 ≡ overridden
          → G (some (a, entry_register j)))
      → Safe boot p (init_controllers info mapper io_apics overridden found) (Finds p)
  unfolding init_controllers phys_to_virt_ptr
  init_controllers-Safe info mapper [] overridden found p g h = (Kept-refl p, g)
  init_controllers-Safe info mapper (x ∷ io_apics) overridden found p g h =
      Safe-expect p (phys_to_virt_ptr mapper x.address) _ _ (λ a e. (
        tt,
        λ n u. (
          tt,
          λ version v. (
            tt,
            λ m w. Safe-expect _ info.boot_processor _ _ (λ bsp e'.
                Safe-bind boot (record p { written = record_write p.written a 1 })
                  (redirect_entries ((version / 65536 % 256 + 1) % 256) a
                    x.global_system_interrupt_base overridden (bsp * 2 ^ 24 % 2 ^ 32) 0 found)
                  (init_controllers info mapper io_apics overridden)
                  (Finds (record p { written = record_write p.written a 1 })) (Finds p)
                  (redirect_entries-Safe ((version / 65536 % 256 + 1) % 256) a
                    x.global_system_interrupt_base overridden (bsp * 2 ^ 24 % 2 ^ 32) 0 found
                    (record p { written = record_write p.written a 1 }) g (h x (inl refl) a e))
                  (λ q found' k.
                    Finds-after p q (init_controllers info mapper io_apics overridden found')
                      (Kept-trans (Kept-written p _) k.0)
                      (init_controllers-Safe info mapper io_apics overridden found' q k.1
                        (λ y i. h y (inr i))))),
          ),
        ),
      ))

-- The register is that of the timer's interrupt on one of the platform's I/O APICs.
pub record IsPitRegister (info : PlatformInfo) (mapper : Mapper) (a reg : ℕ) : Type 0 where
  pub apic : ApicInfo
  pub model : info.interrupt_model ≡ some apic
  pub pit : SourceOverride
  pub source : find_pit apic.interrupt_source_overrides ≡ some pit
  pub io_apic : IoApicInfo
  pub listed : In io_apic apic.io_apics
  pub mapped : phys_to_virt_ptr mapper io_apic.address ≡ some a
  pub entry : ℕ
  pub overridden :
      (entry + io_apic.global_system_interrupt_base) % 2 ^ 32 ≡ pit.global_system_interrupt
  pub register : reg ≡ entry_register entry

abbrev IsFound : PlatformInfo → Mapper → FoundReg → Type 0
IsFound info mapper none = Unit
IsFound info mapper (some (a, reg)) = IsPitRegister info mapper a reg

-- `init_ioapic` leaves what has been set up, and gives the register of the timer's interrupt.
pub init_ioapic-Safe :
    (info : PlatformInfo) (mapper : Mapper) (p : Setup)
    → Safe boot p (init_ioapic info mapper) (λ q r. Kept p q × IsPitRegister info mapper r.0 r.1)
unfolding init_ioapic
init_ioapic-Safe info mapper p = Safe-expect p info.interrupt_model _ _ (λ apic e.
    Safe-expect p (find_pit apic.interrupt_source_overrides) _ _ (λ pit e'.
      Safe-bind boot p (init_controllers info mapper apic.io_apics pit.global_system_interrupt none)
        expect (Finds (IsFound info mapper) p) (λ q r. Kept p q × IsPitRegister info mapper r.0 r.1)
        (init_controllers-Safe (IsFound info mapper) info mapper apic.io_apics
          pit.global_system_interrupt none p tt
          (λ x i a m j h. record {
            apic = apic;
            model = e;
            pit = pit;
            source = e';
            io_apic = x;
            listed = i;
            mapped = m;
            entry = j;
            overridden = h;
            register = refl;
          }))
        (λ q found f. unwrapped q found f)))
  where
    unwrapped :
        (q : Setup) (found : FoundReg)
        → Finds (IsFound info mapper) p q found
        → Safe boot q (expect found) (λ r x. Kept p r × IsPitRegister info mapper x.0 x.1)
    unwrapped q none f = tt
    unwrapped q (some r) f = f
