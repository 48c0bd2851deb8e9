-- ===== src/Arch.antt =====
-- nacl/src/arch/x86_64/mod.rs and acpi.rs: the platform is set up in order.
pub mod Wiring
pub mod Completion
pub mod Safety
pub mod Smp
use na_cl.Common.{ℕ, Option, none, some}
use na_cl.Memory.Mapper.{Mapper, new_mapper}
use na_cl.Machine.{
  Io, ret, panicked, spent, act, ◌>>=◌, ◌>>◌, perform, expect, enable_interrupts, sprint,
}
use na_cl.Segments.{SegmentApi, init_segments}
use na_cl.Interrupts.{init_idt}
use na_cl.Apic.Local.{PlatformInfo, init_and_disable_old_pic, init_lapic}
use na_cl.Apic.Controllers.{init_ioapic}
use na_cl.Time.Calibrate.{init_time}

-- What the code uses of the crate `acpi`; `none` stands for an error.
pub record AcpiApi : Type 1 where
  pub Tables : Type 0
  pub from_rsdp : Mapper → ℕ → Option Tables
  pub platform_info : Tables → Option PlatformInfo

module _ (acpi : AcpiApi) where
  open acpi use {Tables, from_rsdp, platform_info}

  abbrev pub get_acpi_tables : ℕ → Mapper → Io Tables
  get_acpi_tables rsdp_addr mapper = expect (from_rsdp mapper rsdp_addr)

  -- The processors are printed if they are known.
  abbrev pub print_processors : Option ℕ → Io (Unit {0})
  print_processors none = ret tt
  print_processors (some id) = do perform sprint; perform sprint

  abbrev pub get_platform_info : Tables → Io PlatformInfo
  get_platform_info tables = do
    info ← expect (platform_info tables)
    print_processors info.boot_processor
    ret info

module _ (segments : SegmentApi) (acpi : AcpiApi) where
  -- `init`, with the address of the stack for double faults, and the fuel of the calibration.
  unfoldable pub init_arch : ℕ → ℕ → ℕ → ℕ → Io (Unit {0})
  unfolding init_segments init_lapic init_ioapic init_time new_mapper
  init_arch fuel stack physical_memory_offset rsdp_addr =
      let mapper = new_mapper physical_memory_offset in
      do
        init_segments segments stack
        init_idt
        tables ← get_acpi_tables acpi rsdp_addr mapper
        info ← get_platform_info acpi tables
        init_and_disable_old_pic
        init_lapic info mapper
        wired ← init_ioapic info mapper
        init_time fuel wired.0 wired.1
        perform enable_interrupts
