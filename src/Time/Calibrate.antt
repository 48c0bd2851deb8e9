-- ===== src/Time/Calibrate.antt =====
-- nacl/src/arch/x86_64/time.rs: the calibration of the timer of the local APIC against the
-- programmable interval timer.
pub mod Ticking
use na_cl.Common.{ℕ, zero, suc, ◌+◌, ◌-◌, ◌/◌, ◌%◌, ◌^◌, ltb, if◌then◌else◌}
use na_cl.Machine.{
  Io, ret, spent, ◌>>=◌, ◌>>◌, ask, perform, port_write, enable_interrupts, disable_interrupts,
  get_timer, store_ticks, sprint,
}
use na_cl.Apic.Local.{
  lapic, lapic_read, lapic_write, apic_masked, apic_timer_periodic, lapic_lvt_timer_reg,
  lapic_timer_initcnt_reg, lapic_timer_currcnt_reg, lapic_timer_div_reg,
}
use na_cl.Apic.Controllers.{ioapic_write}
use na_cl.Interrupts.{cpu_number, as_u8, timer, scratch_timer}
use na_cl.Time.{wrapping_sub}

-- `get_irq_cnt`
abbrev pub get_irq_cnt : Io ℕ
get_irq_cnt = do num ← cpu_number; ask (get_timer num)

-- A loop that reads the counter until it is another than `saved`, with fuel: what it read last.
unfoldable pub wait_irq_after : ℕ → ℕ → Io ℕ
wait_irq_after zero saved = spent
wait_irq_after (suc fuel) saved =
    let again = wait_irq_after fuel saved in
    do curr ← get_irq_cnt; if ltb (wrapping_sub curr saved) 1 then again else ret curr

abbrev pub u32_max : ℕ
u32_max = 0xFFFF_FFFF

-- `divider`, for 100 Hz.
abbrev pub divider : ℕ
divider = 11932

-- Channel 0 of the programmable interval timer is set to the divider.
abbrev pub configure_pit : Io (Unit {0})
configure_pit = do
  perform (port_write 0x43 0b00110100)
  perform (port_write 0x40 (divider % 256))
  perform (port_write 0x40 (divider / 256 % 256))

-- The ticks of the local APIC between two interrupts of the other timer.
unfoldable pub measure : ℕ → ℕ → Io ℕ
unfolding wait_irq_after
measure fuel l = do
  saved_pit_cnt ← get_irq_cnt
  curr_pit_cnt ← wait_irq_after fuel saved_pit_cnt
  lapic_write l lapic_timer_initcnt_reg u32_max
  wait_irq_after fuel curr_pit_cnt
  lapic_write l lapic_lvt_timer_reg apic_masked
  currcnt ← lapic_read l lapic_timer_currcnt_reg
  ret ((u32_max + 2 ^ 32 - currcnt) % 2 ^ 32)

-- `calibrate_apic_timer`, with fuel for each of its two loops.
unfoldable pub calibrate_apic_timer : ℕ → ℕ → ℕ → Io (Unit {0})
unfolding measure
calibrate_apic_timer fuel ioapic pitreg = do
  configure_pit
  l ← lapic
  lapic_write l lapic_lvt_timer_reg (as_u8 scratch_timer)
  lapic_write l lapic_timer_div_reg 3
  perform enable_interrupts
  apic_ticks_in_10ms ← measure fuel l
  perform disable_interrupts
  perform sprint
  perform (store_ticks apic_ticks_in_10ms)
  ioapic_write ioapic pitreg apic_masked
  lapic_write l lapic_lvt_timer_reg (as_u8 timer + apic_timer_periodic)
  lapic_write l lapic_timer_initcnt_reg apic_ticks_in_10ms
  lapic_write l lapic_timer_div_reg 3

-- `init`
unfoldable pub init_time : ℕ → ℕ → ℕ → Io (Unit {0})
unfolding calibrate_apic_timer
init_time fuel ioapic pitreg = calibrate_apic_timer fuel ioapic pitreg
