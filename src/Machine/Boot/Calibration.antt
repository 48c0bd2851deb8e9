-- ===== src/Machine/Boot/Calibration.antt =====
-- nacl/src/arch/x86_64/time.rs: the calibration under the protocol of a processor that boots.
use na_cl.Common.{ℕ, ◌+◌, ◌≡◌, ◌≢◌, refl, sym, subst, true, false, Option, some, arith}
use na_cl.Machine.{
  enable_interrupts, disable_interrupts, store_ticks, sprint, Io, ◌>>=◌, ◌>>◌, perform,
}
use na_cl.Machine.Protocol.{Safe, Safe-same}
use na_cl.Machine.Boot.{Setup, boot, is_some, handlers_ready, record_write}
use na_cl.Machine.Boot.Kept.{Kept, Kept-written, Safe-kept}
use na_cl.Machine.Boot.Parts.{get_irq_cnt-Safe, wait_irq_after-Safe}
use na_cl.Apic.Local.{
  lapic_write, apic_masked, apic_timer_periodic, lapic_lvt_timer_reg, lapic_timer_initcnt_reg,
  lapic_timer_div_reg,
}
use na_cl.Apic.Controllers.{ioapic_write}
use na_cl.Interrupts.{as_u8, timer, scratch_timer}
use na_cl.Time.Calibrate.{get_irq_cnt, wait_irq_after, measure, calibrate_apic_timer, u32_max}

measure-Safe :
    (fuel l : ℕ) (p : Setup)
    → is_some p.lapic ≡ true
    → Safe boot p (measure fuel l) (λ q t. Kept p q)
unfolding measure
measure-Safe fuel l p h = Safe-same boot p get_irq_cnt _ _ (get_irq_cnt-Safe p h) (λ saved.
    Safe-same boot p (wait_irq_after fuel saved) _ _ (wait_irq_after-Safe fuel p saved h) (λ curr.
      let p₁ : Setup = record p {
        written = record_write p.written (l + lapic_timer_initcnt_reg) u32_max;
      } in
      (
        tt,
        λ n a.
            Safe-same boot p₁ (wait_irq_after fuel curr) _ _ (wait_irq_after-Safe fuel p₁ curr h)
              (λ last. (tt, λ m b. (tt, λ currcnt c. Kept-written p _))),
      )))

-- What the calibration leaves: interrupts are disabled, and the rest is set up as before; the timer
-- of the local APIC at `l` repeats with the ticks measured, which are stored, and raises the timer's
-- vector; the last write to the register window of the I/O APIC masked its entry.
pub record Calibrated (p q : Setup) (l ioapic : ℕ) : Type 0 where
  pub kept : Kept (record p { interrupts = false; ticks = q.ticks }) q
  pub periodic : q.written (l + lapic_lvt_timer_reg) ≡ some (as_u8 timer + apic_timer_periodic)
  pub initial : q.written (l + lapic_timer_initcnt_reg) ≡ some q.ticks
  pub divided : q.written (l + lapic_timer_div_reg) ≡ some 3
  pub masked :
      ioapic + 0x10 ≢ l + lapic_lvt_timer_reg
      → ioapic + 0x10 ≢ l + lapic_timer_initcnt_reg
      → ioapic + 0x10 ≢ l + lapic_timer_div_reg
      → q.written (ioapic + 0x10) ≡ some apic_masked

-- The last writes of the calibration, in their order.
abbrev last_writes : (ℕ → Option ℕ) → ℕ → ℕ → ℕ → ℕ → ℕ → Option ℕ
last_writes w l ioapic pitreg ticks =
    record_write
      (record_write
        (record_write (record_write (record_write w ioapic pitreg) (ioapic + 0x10) apic_masked)
          (l + lapic_lvt_timer_reg) (as_u8 timer + apic_timer_periodic))
        (l + lapic_timer_initcnt_reg) ticks)
      (l + lapic_timer_div_reg) 3

finished-Calibrated :
    (p q : Setup) (w : ℕ → Option ℕ) (l ioapic pitreg t : ℕ)
    → Kept (record p { interrupts = true; written = w }) q
    → Calibrated p
        (record q {
          interrupts = false;
          ticks = t;
          written = last_writes q.written l ioapic pitreg t;
        })
        l
        ioapic
finished-Calibrated p q w l ioapic pitreg t k = record {
  kept = record {
    gdt = k.gdt;
    tss = k.tss;
    idt = k.idt;
    pics_off = k.pics_off;
    lapic = k.lapic;
    interrupts = refl;
    ticks = refl;
  };
  periodic = ground arith;
  initial = ground arith;
  divided = ground arith;
  masked = λ a b c. ground arith;
}

is_some-some : {A : Type 0} (o : Option A) (a : A) → o ≡ some a → is_some o ≡ true
is_some-some o a e = rw e

-- What the calibration does once it knows the local APIC.
abbrev with_lapic : ℕ → ℕ → ℕ → ℕ → Io (Unit {0})
with_lapic fuel ioapic pitreg l = do
  lapic_write l lapic_lvt_timer_reg (as_u8 scratch_timer)
  lapic_write l lapic_timer_div_reg 3
  perform enable_interrupts
  apic_ticks_in_10ms ← measure fuel l
  perform disable_interrupts
  perform sprint
  perform (store_ticks apic_ticks_in_10ms)
  ioapic_write ioapic pitreg apic_masked
  lapic_write l lapic_lvt_timer_reg (as_u8 timer + apic_timer_periodic)
  lapic_write l lapic_timer_initcnt_reg apic_ticks_in_10ms
  lapic_write l lapic_timer_div_reg 3

rest-Safe :
    (fuel ioapic pitreg l : ℕ) (p : Setup)
    → p.lapic ≡ some l
    → handlers_ready p ≡ true
    → Safe boot p (with_lapic fuel ioapic pitreg l) (λ q u. Calibrated p q l ioapic)
rest-Safe fuel ioapic pitreg l p e ready =
    let w =
      record_write (record_write p.written (l + lapic_lvt_timer_reg) (as_u8 scratch_timer))
        (l + lapic_timer_div_reg) 3 in
    (
      tt,
      λ n₁ a₁. (
        tt,
        λ n₂ a₂. (
          ready,
          λ n₃ a₃.
              Safe-kept (record p { interrupts = true; written = w }) (measure fuel l) _ _
                (measure-Safe fuel l (record p { interrupts = true; written = w })
                  (is_some-some p.lapic l e))
                (λ q t k. (
                  tt,
                  λ n₄ a₄. (
                    tt,
                    λ n₅ a₅. (
                      tt,
                      λ n₆ a₆. (
                        tt,
                        λ n₇ a₇. (
                          tt,
                          λ n₈ a₈. (
                            tt,
                            λ n₉ a₉. (
                              tt,
                              λ b c. (tt, λ d f. finished-Calibrated p q w l ioapic pitreg t k),
                            ),
                          ),
                        ),
                      ),
                    ),
                  ),
                )),
        ),
      ),
    )

-- On a processor whose handlers are ready, the calibration keeps the protocol.
pub calibrate_apic_timer-Safe :
    (fuel ioapic pitreg l : ℕ) (p : Setup)
    → p.lapic ≡ some l
    → handlers_ready p ≡ true
    → Safe boot p (calibrate_apic_timer fuel ioapic pitreg) (λ q u. Calibrated p q l ioapic)
unfolding calibrate_apic_timer
calibrate_apic_timer-Safe fuel ioapic pitreg l p e ready = (
  tt,
  λ n₁ a₁. (
    tt,
    λ n₂ a₂. (
      tt,
      λ n₃ a₃. (
        is_some-some p.lapic l e,
        λ m at.
            let same : m ≡ l = ground (arith, at, e) in
            subst
              (λ x. Safe boot p (with_lapic fuel ioapic pitreg x) (λ q u. Calibrated p q l ioapic))
              (sym same) (rest-Safe fuel ioapic pitreg l p e ready),
      ),
    ),
  ),
)
