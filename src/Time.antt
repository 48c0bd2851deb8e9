-- ===== src/Time.antt =====
-- nacl/src/arch/x86_64/time.rs: the delays. The registers and the counter that they read change on
-- their own: `read i` is what the read number `i` gives.
pub mod Micros
pub mod Calibrate
pub mod Millis
use na_cl.Common.{
  ℕ, zero, suc, ◌+◌, ◌-◌, ◌*◌, ◌/◌, ◌%◌, ◌^◌, Bool, true, false, Option, none, some, ltb, leb, ◌==◌,
  if◌then◌else◌,
}
use na_cl.Common.Outcomes.{Outcome, done, panic}

-- `-` of `usize` and of `Wrapping<usize>`, which wrap.
abbrev pub wrapping_sub : ℕ → ℕ → ℕ
wrapping_sub a b = (a + 2 ^ 64 - b) % 2 ^ 64

abbrev pub delay_ticks : ℕ → ℕ → ℕ
delay_ticks ticks_per_10ms micros = ticks_per_10ms * micros % 2 ^ 64 / 10000

-- The loop of `udelay` from read `i` on: the number of the read that ends it. `none` means that the
-- fuel ran out.
unfoldable pub spin_ticks : ℕ → (ℕ → ℕ) → ℕ → ℕ → Option ℕ
spin_ticks zero read ticks i = none
spin_ticks (suc fuel) read ticks i = elim (ltb (wrapping_sub (read 0) (read i)) ticks) [
  | true ↦ spin_ticks fuel read ticks (i + 1)
  | false ↦ some i
]

-- `udelay` with `APIC_TICKS_IN_10MS`, on the current count register of the timer.
unfoldable pub udelay : ℕ → (ℕ → ℕ) → ℕ → ℕ → Option ℕ
unfolding spin_ticks
udelay fuel read ticks_per_10ms micros = spin_ticks fuel read (delay_ticks ticks_per_10ms micros) 1

-- The inner loop of `mdelay`, which halts between two reads of the interrupt counter: the number of
-- reads made when it ends.
unfoldable pub wait_irq : ℕ → (ℕ → ℕ) → ℕ → ℕ → Option ℕ
wait_irq zero read curr_irq_cnt i = none
wait_irq (suc fuel) read curr_irq_cnt i = elim (ltb (wrapping_sub (read i) curr_irq_cnt) 1) [
  | true ↦ wait_irq fuel read curr_irq_cnt (i + 1)
  | false ↦ some (i + 1)
]

-- `mdelay`, after `i` reads.
unfoldable pub mdelay : ℕ → (ℕ → ℕ) → ℕ → ℕ → Option ℕ
unfolding wait_irq
mdelay zero read millis i = none
mdelay (suc fuel) read millis i = elim (leb 10 millis) [
  | true ↦ elim (wait_irq fuel read (read i) (i + 1)) [
    | none ↦ none
    | some j ↦ mdelay fuel read (millis - 10) j
  ]
  | false ↦ some i
]

-- `delay`, for a duration in nanoseconds, with the reads of the register and of the counter.
unfoldable pub delay : ℕ → (ℕ → ℕ) → (ℕ → ℕ) → ℕ → ℕ → Outcome (Option ℕ)
unfolding udelay mdelay
delay fuel ticks irqs ticks_per_10ms nanos =
    if ltb (nanos / 1000) 1000
    then done (udelay fuel ticks ticks_per_10ms (nanos / 1000))
    else if ltb (nanos / 1000000) (2 ^ 64)
    then done (mdelay fuel irqs (nanos / 1000000) 0)
    else panic
