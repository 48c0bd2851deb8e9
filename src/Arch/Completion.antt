-- ===== src/Arch/Completion.antt =====
-- nacl/src/arch/x86_64/mod.rs: on a complete platform with a clock that ticks, `init` returns.
use na_cl.Common.{ℕ, ◌<◌, ◌≡◌, Option, none, some}
use na_cl.Memory.Mapper.{Mapper, new_mapper}
use na_cl.Machine.{◌>>=◌, perform, enable_interrupts}
use na_cl.Machine.Protocol.{Sure, Sure-bind}
use na_cl.Segments.{SegmentApi, init_segments}
use na_cl.Apic.Local.{PlatformInfo, init_lapic}
use na_cl.Apic.Controllers.{init_ioapic}
use na_cl.Time.Calibrate.{calibrate_apic_timer, init_time}
use na_cl.Time.Calibrate.Ticking.{Clock, Volatile, ticking, calibrate_apic_timer_ends}
use na_cl.Arch.{AcpiApi, get_platform_info, print_processors, init_arch}
use na_cl.Arch.Wiring.Entries.{Steady, Sure-given, init_lapic-Sure}
use na_cl.Arch.Wiring.{IsComplete, init_ioapic-Sure}

module _ (segments : SegmentApi) (acpi : AcpiApi) (l b : ℕ) (v : Volatile) where
  -- The tables at an address can be read and are complete.
  pub record IsDescribed (mapper : Mapper) (rsdp_addr : ℕ) : Type 0 where
    pub tables : acpi.Tables
    pub read : acpi.from_rsdp mapper rsdp_addr ≡ some tables
    pub info : PlatformInfo
    pub parsed : acpi.platform_info tables ≡ some info
    pub complete : IsComplete l b v info mapper

  print_processors-Sure :
      (o : Option ℕ) (p : Clock)
      → Steady l b v p
      → Sure (ticking l b v) p (print_processors acpi o) (λ q u. Steady l b v q)
  print_processors-Sure none p h = h
  print_processors-Sure (some id) p h = (tt, λ n a. (tt, λ m c. h))

  get_platform_info-Sure :
      (mapper : Mapper) (rsdp_addr : ℕ) (d : IsDescribed mapper rsdp_addr) (p : Clock)
      → Steady l b v p
      → Sure
          (ticking l b v)
          p
          (get_platform_info acpi d.tables)
          (λ q info. Steady l b v q × IsComplete l b v info mapper)
  get_platform_info-Sure mapper rsdp_addr d p h =
      Sure-given l b v p (acpi.platform_info d.tables) d.info _ _ d.parsed (
        Sure-bind (ticking l b v) p (print_processors acpi d.info.boot_processor) _ _
          (λ q info. Steady l b v q × IsComplete l b v info mapper)
          (print_processors-Sure d.info.boot_processor p h) (λ q u s. (s, d.complete)))

  -- From the local APIC on.
  wiring-Sure :
      (fuel : ℕ) (info : PlatformInfo) (mapper : Mapper) (p : Clock)
      → IsComplete l b v info mapper
      → Steady l b v p
      → b < fuel
      → Sure
          (ticking l b v)
          p
          (init_lapic info mapper >>= λ a. init_ioapic info mapper >>= λ wired.
            init_time fuel wired.0 wired.1 >>= λ u. perform enable_interrupts)
          (λ q u. Unit)
  unfolding init_time
  wiring-Sure fuel info mapper p c h enough =
      Sure-bind (ticking l b v) p (init_lapic info mapper) _ _ (λ q u. Unit)
        (init_lapic-Sure l b v info mapper c.apic l p c.model c.local h)
        (λ q u s.
          Sure-bind (ticking l b v) q (init_ioapic info mapper) _ _ (λ q u. Unit)
            (init_ioapic-Sure l b v info mapper q c s)
            (λ r wired t.
              Sure-bind (ticking l b v) r (calibrate_apic_timer fuel wired.0 wired.1) _ _
                (λ q u. Unit)
                (calibrate_apic_timer_ends l b v fuel wired.0 wired.1 r t.0 t.1 enough)
                (λ o u w. (tt, λ n a. tt))))

  -- `init` of the platform returns.
  pub init_arch-Sure :
      (fuel stack physical_memory_offset rsdp_addr : ℕ) (p : Clock)
      → IsDescribed (new_mapper physical_memory_offset) rsdp_addr
      → Steady l b v p
      → b < fuel
      → Sure
          (ticking l b v)
          p
          (init_arch segments acpi fuel stack physical_memory_offset rsdp_addr)
          (λ q u. Unit)
  unfolding init_arch init_segments
  init_arch-Sure fuel stack physical_memory_offset rsdp_addr p d h enough =
      let mapper = new_mapper physical_memory_offset in
      (
        tt,
        λ n₁ a₁. (
          tt,
          λ n₂ a₂. (
            tt,
            λ n₃ a₃. (
              tt,
              λ n₄ a₄. (
                tt,
                λ n₅ a₅. (
                  tt,
                  λ n₆ a₆.
                      Sure-given l b v p (acpi.from_rsdp mapper rsdp_addr) d.tables _ _ d.read (
                        Sure-bind (ticking l b v) p (get_platform_info acpi d.tables) _ _
                          (λ q u. Unit) (get_platform_info-Sure mapper rsdp_addr d p h)
                          (λ q info t. (
                            tt,
                            λ n₇ a₇. (tt, λ n₈ a₈. wiring-Sure fuel info mapper q t.1 t.0 enough),
                          ))),
                ),
              ),
            ),
          ),
        ),
      )
