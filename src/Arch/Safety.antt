-- ===== src/Arch/Safety.antt =====
-- nacl/src/arch/x86_64/mod.rs: `init` keeps the protocol of a processor that boots.
use na_cl.Common.{ℕ, ◌+◌, ◌≡◌, refl, ◌∙◌, true, Option, none, some, List}
use na_cl.Memory.Mapper.{Mapper, new_mapper}
use na_cl.Machine.{Effect, Io, act, ◌>>=◌, perform, enable_interrupts}
use na_cl.Machine.Protocol.{Safe, Safe-bind, Safe-same, Run, Run-Safe}
use na_cl.Machine.Boot.{Setup, boot, Needs, reset, handlers_ready}
use na_cl.Machine.Boot.Kept.{Kept, Safe-expect}
use na_cl.Machine.Boot.Parts.{init_lapic-Safe}
use na_cl.Machine.Boot.Controllers.{init_ioapic-Safe}
use na_cl.Machine.Boot.Calibration.{Calibrated, calibrate_apic_timer-Safe}
use na_cl.Segments.{SegmentApi, init_segments}
use na_cl.Interrupts.{init_idt, as_u8, timer}
use na_cl.Apic.Local.{
  PlatformInfo, init_and_disable_old_pic, init_lapic, apic_timer_periodic, lapic_lvt_timer_reg,
  lapic_timer_initcnt_reg,
}
use na_cl.Apic.Controllers.{init_ioapic}
use na_cl.Time.Calibrate.{init_time, calibrate_apic_timer}
use na_cl.Arch.{AcpiApi, get_acpi_tables, get_platform_info, print_processors, init_arch}

-- A processor that has booted: interrupts are enabled, their handlers can run, and the timer of the
-- local APIC repeats with the ticks that are stored.
pub record Started (q : Setup) : Type 0 where
  pub ready : handlers_ready q ≡ true
  pub enabled : q.interrupts ≡ true
  pub local : ℕ
  pub known : q.lapic ≡ some local
  pub periodic : q.written (local + lapic_lvt_timer_reg) ≡ some (as_u8 timer + apic_timer_periodic)
  pub initial : q.written (local + lapic_timer_initcnt_reg) ≡ some q.ticks

-- The flags of a processor on which only the timer is missing.
record Prepared (q : Setup) : Type 0 where
  gdt : q.gdt ≡ true
  tss : q.tss ≡ true
  idt : q.idt ≡ true
  pics_off : q.pics_off ≡ true

Prepared-ready : (q : Setup) (l : ℕ) → Prepared q → q.lapic ≡ some l → handlers_ready q ≡ true
Prepared-ready q l v e = rw (v.gdt, v.tss, v.idt, v.pics_off, e)

Prepared-Kept : (p q : Setup) → Prepared p → Kept p q → Prepared q
Prepared-Kept p q v k = record {
  gdt = k.gdt ∙ v.gdt;
  tss = k.tss ∙ v.tss;
  idt = k.idt ∙ v.idt;
  pics_off = k.pics_off ∙ v.pics_off;
}

module _ (segments : SegmentApi) (acpi : AcpiApi) where
  Calibrated-Started :
      (p q : Setup) (l ioapic : ℕ)
      → Prepared p
      → p.lapic ≡ some l
      → Calibrated p q l ioapic
      → (handlers_ready q ≡ true) × Started (record q { interrupts = true })
  Calibrated-Started p q l ioapic v e c =
      let known : q.lapic ≡ some l = c.kept.lapic ∙ e in
      let prepared : Prepared q = record {
        gdt = c.kept.gdt ∙ v.gdt;
        tss = c.kept.tss ∙ v.tss;
        idt = c.kept.idt ∙ v.idt;
        pics_off = c.kept.pics_off ∙ v.pics_off;
      } in
      let ready = Prepared-ready q l prepared known in
      (
        ready,
        record {
          ready = ready;
          enabled = refl;
          local = l;
          known = known;
          periodic = c.periodic;
          initial = c.initial;
        },
      )

  -- From the local APIC on.
  wiring-Safe :
      (fuel : ℕ) (info : PlatformInfo) (mapper : Mapper) (p : Setup)
      → Prepared p
      → Safe boot p
          (init_lapic info mapper >>= λ a. init_ioapic info mapper >>= λ wired.
            init_time fuel wired.0 wired.1 >>= λ b. perform enable_interrupts)
          (λ q u. Started q)
  unfolding init_time
  wiring-Safe fuel info mapper p v =
      Safe-bind boot p (init_lapic info mapper) _ _ (λ q u. Started q)
        (init_lapic-Safe info mapper p)
        (λ q u (l, known, k).
          let vq : Prepared q =
            Prepared-Kept (record p { lapic = some l }) q
              (record { gdt = v.gdt; tss = v.tss; idt = v.idt; pics_off = v.pics_off }) k in
          Safe-bind boot q (init_ioapic info mapper) _ _ (λ r w. Started r)
            (init_ioapic-Safe info mapper q)
            (λ r wired f.
              let vr : Prepared r = Prepared-Kept q r vq f.0 in
              let at : r.lapic ≡ some l = f.0.lapic ∙ known in
              Safe-bind boot r (calibrate_apic_timer fuel wired.0 wired.1) _ _ (λ s x. Started s)
                (calibrate_apic_timer-Safe fuel wired.0 wired.1 l r at (Prepared-ready r l vr at))
                (λ s x c.
                  let (ready, started) = Calibrated-Started r s l wired.0 vr at c in
                  (ready, λ n a. started))))

  print_processors-Safe :
      (o : Option ℕ) (p : Setup) → Safe boot p (print_processors acpi o) (λ q u. q ≡ p)
  print_processors-Safe none p = refl
  print_processors-Safe (some id) p = (tt, λ n a. (tt, λ m b. refl))

  get_platform_info-Safe :
      (tables : acpi.Tables) (p : Setup)
      → Safe boot p (get_platform_info acpi tables) (λ q info. q ≡ p)
  get_platform_info-Safe tables p = Safe-expect p (acpi.platform_info tables) _ _ (λ info e.
      Safe-same boot p (print_processors acpi info.boot_processor) _ _
        (print_processors-Safe info.boot_processor p) (λ u. refl))

  abbrev after_segments : ℕ → Mapper → ℕ → Io (Unit {0})
  after_segments fuel mapper rsdp_addr = init_idt >>= λ a.
      get_acpi_tables acpi rsdp_addr mapper >>= λ tables. get_platform_info acpi tables >>= λ info.
      init_and_disable_old_pic >>= λ b. init_lapic info mapper >>= λ c.
      init_ioapic info mapper >>= λ wired.
      init_time fuel wired.0 wired.1 >>= λ d. perform enable_interrupts

  after_segments-Safe :
      (fuel : ℕ) (mapper : Mapper) (rsdp_addr : ℕ) (p : Setup)
      → p.gdt ≡ true
      → p.tss ≡ true
      → Safe boot p (after_segments fuel mapper rsdp_addr) (λ q u. Started q)
  after_segments-Safe fuel mapper rsdp_addr p g t =
      let p₁ : Setup = record p { idt = true } in
      (
        tt,
        λ n a. Safe-expect p₁ (acpi.from_rsdp mapper rsdp_addr) _ _ (λ tables e.
            Safe-same boot p₁ (get_platform_info acpi tables) _ _ (get_platform_info-Safe tables p₁)
              (λ info. (
                tt,
                λ m b. (
                  tt,
                  λ o c.
                      wiring-Safe fuel info mapper (record p₁ { pics_off = true })
                        (record { gdt = g; tss = t; idt = refl; pics_off = refl }),
                ),
              ))),
      )

  -- `init` of the platform enables interrupts only where their handlers can run, and uses the local
  -- APIC only where it is known, whatever the hardware, the tables and the boot loader give; when
  -- it returns, the processor has started.
  pub init_arch_safe :
      (fuel stack physical_memory_offset rsdp_addr : ℕ) (p : Setup)
      → Safe boot p
          (init_arch segments acpi fuel stack physical_memory_offset rsdp_addr)
          (λ q u. Started q)
  unfolding init_arch init_segments
  init_arch_safe fuel stack physical_memory_offset rsdp_addr p =
      let mapper = new_mapper physical_memory_offset in
      let q : Setup = record p { gdt = true; tss = true } in
      let last = after_segments-Safe fuel mapper rsdp_addr q refl refl in
      (tt, λ n a. (tt, λ m b. (tt, λ i c. (tt, λ j d. (tt, λ k e. last)))))

  -- In every run of `init` of the platform from the reset processor, up to any effect, that effect
  -- is one that the protocol allows at that point.
  pub init_arch_runs :
      (fuel stack physical_memory_offset rsdp_addr : ℕ) {q : Setup} {e : Effect}
      {k : ℕ → Io (Unit {0})} {es : List Effect}
      → Run boot reset
          (init_arch segments acpi fuel stack physical_memory_offset rsdp_addr)
          q
          (act e k)
          es
      → Needs q e
  init_arch_runs fuel stack offset rsdp_addr r =
      (Run-Safe boot (λ s u. Started s) (init_arch_safe fuel stack offset rsdp_addr reset) r).0
