-- ===== src/Apic/Controllers.antt =====
-- nacl/src/arch/x86_64/apic.rs: `init_ioapic`, over the I/O APICs of the platform.
use na_cl.Common.{
  ℕ, zero, suc, ◌+◌, ◌*◌, ◌/◌, ◌%◌, ◌^◌, Option, none, some, List, [], ◌∷◌, ◌==◌, if◌then◌else◌,
}
use na_cl.Memory.Mapper.{Mapper, phys_to_virt_ptr}
use na_cl.Machine.{
  Io, ret, ◌>>=◌, ◌>>◌, ask, perform, expect, read_volatile, write_volatile, sprint,
}
use na_cl.Apic.{timer_vector, or_masked}
use na_cl.Apic.Local.{PlatformInfo, IoApicInfo, SourceOverride}

-- The methods of `IoApic`, which is given by the address that it starts at.
abbrev pub ioapic_register_at : ℕ → ℕ → Io ℕ
ioapic_register_at p offset = do perform (write_volatile p offset); ret (p + 0x10)

abbrev pub ioapic_read : ℕ → ℕ → Io ℕ
ioapic_read p offset = do window ← ioapic_register_at p offset; ask (read_volatile window)

abbrev pub ioapic_write : ℕ → ℕ → ℕ → Io (Unit {0})
ioapic_write p offset value = do
  window ← ioapic_register_at p offset
  perform (write_volatile window value)

abbrev pub ioapic_update : ℕ → ℕ → (ℕ → ℕ) → Io (Unit {0})
ioapic_update p offset f = do reg ← ioapic_read p offset; ioapic_write p offset (f reg)

-- `interrupt_source_overrides.iter().find(…)`
abbrev pub find_pit : List SourceOverride → Option SourceOverride
find_pit [] = none
find_pit (o ∷ os) = if o.isa_source == 0 then some o else find_pit os

-- `0x10 + idx * 2` on `u8`.
abbrev pub entry_register : ℕ → ℕ
entry_register idx = (0x10 + idx * 2 % 256) % 256

-- `found_reg`: an I/O APIC and a register of it.
abbrev pub FoundReg : Type 0
FoundReg = Option (ℕ × ℕ)

-- The inner loop from `idx` on, with `n` entries left.
unfoldable pub redirect_entries : ℕ → ℕ → ℕ → ℕ → ℕ → ℕ → FoundReg → Io FoundReg
redirect_entries zero p base overridden bsp idx found = ret found
redirect_entries (suc n) p base overridden bsp idx found =
    let reg = entry_register idx in
    let hit = redirect_entries n p base overridden bsp (idx + 1) (some (p, reg)) in
    let miss = redirect_entries n p base overridden bsp (idx + 1) found in
    if (idx + base) % 2 ^ 32 == overridden
    then (do ioapic_write p reg timer_vector; ioapic_write p ((reg + 1) % 256) bsp; hit)
    else (do ioapic_update p reg or_masked; miss)

-- The outer loop.
unfoldable pub init_controllers :
    PlatformInfo → Mapper → List IoApicInfo → ℕ → FoundReg → Io FoundReg
unfolding redirect_entries phys_to_virt_ptr
init_controllers platform_info mapper [] overridden found = ret found
init_controllers platform_info mapper (io_apic ∷ io_apics) overridden found = do
  p ← expect (phys_to_virt_ptr mapper io_apic.address)
  ioapicver ← ioapic_read p 1
  perform sprint
  bsp_acpi_id ← expect platform_info.boot_processor
  found' ←
      redirect_entries ((ioapicver / 65536 % 256 + 1) % 256) p io_apic.global_system_interrupt_base
        overridden (bsp_acpi_id * 2 ^ 24 % 2 ^ 32) 0 found
  init_controllers platform_info mapper io_apics overridden found'

-- `init_ioapic`: the I/O APIC of the timer's interrupt, and its register there.
unfoldable pub init_ioapic : PlatformInfo → Mapper → Io (ℕ × ℕ)
unfolding init_controllers
init_ioapic platform_info mapper = do
  apic ← expect platform_info.interrupt_model
  pit ← expect (find_pit apic.interrupt_source_overrides)
  found ← init_controllers platform_info mapper apic.io_apics pit.global_system_interrupt none
  expect found
