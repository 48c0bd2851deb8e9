-- ===== src/Time/Calibrate/Ticking.antt =====
-- nacl/src/arch/x86_64/time.rs: the calibration ends while the interrupt counter ticks.
use na_cl.Common.{
  ℕ, zero, suc, ◌+◌, ◌^◌, ◌<◌, ◌≤◌, ◌≡◌, ◌≢◌, inl, inr, refl, sym, subst, true, false, Option, ltb,
  ◌==◌, if◌then◌else◌, Bool-cases, arith,
}
use na_cl.Machine.{Effect, ret, panicked, ask, get_lapic, get_timer, read_volatile, write_volatile}
use na_cl.Machine.Protocol.{Protocol, Sure, Sure-bind}
use na_cl.Machine.Boot.{record_write}
use na_cl.Interrupts.{cpu_number}
use na_cl.Apic.Local.{
  lapic_id_reg, lapic_timer_initcnt_reg, lapic_lvt_timer_reg, lapic_timer_div_reg,
}
use na_cl.Interrupts.{as_u8, scratch_timer}
use na_cl.Time.{wrapping_sub}
use na_cl.Time.Calibrate.{get_irq_cnt, wait_irq_after, measure, calibrate_apic_timer, u32_max}

-- The interrupt counter of the processor as its last read gave it, how many reads in a row have given
-- that, and the last volatile write to each address.
pub record Clock : Type 0 where
  pub last : ℕ
  pub unchanged : ℕ
  pub written : ℕ → Option ℕ

abbrev pub seen : Clock → ℕ → Clock
seen p n =
    if n == p.last
    then record p { unchanged = p.unchanged + 1 }
    else record p { last = n; unchanged = 0 }

abbrev pub observe : Clock → Effect → ℕ → Clock
observe p (get_timer num) n = seen p n
observe p (write_volatile a x) n = record p { written = record_write p.written a x }
observe p _ n = p

-- The counter is a `usize`, and it is the same as at the last read at most `b` times in a row; when it
-- goes on, it does so by any number of interrupts.
abbrev pub Shows : ℕ → Clock → ℕ → Type 0
Shows b p n = (n < 2 ^ 64) × (n ≡ p.last → p.unchanged < b)

-- What a volatile read at an address can give after the writes.
abbrev pub Volatile : Type 1
Volatile = (ℕ → Option ℕ) → ℕ → ℕ → Type 0

-- The local APIC is at `l`, and its number is below 64.
abbrev pub Ticks : ℕ → ℕ → Volatile → Clock → Effect → ℕ → Type 0
Ticks l b v p get_lapic n = n ≡ l
Ticks l b v p (read_volatile a) n = (a ≡ l + lapic_id_reg → n < 64) × v p.written a n
Ticks l b v p (get_timer num) n = Shows b p n
Ticks l b v p _ n = Unit

abbrev pub ticking : ℕ → ℕ → Volatile → Protocol
ticking l b v = record {
  Phase = Clock;
  Allowed = λ p e. Unit;
  Answers = Ticks l b v;
  next = observe;
}

-- The processor is known by its number, which is found without a panic.
pub cpu_number-Sure :
    (l b : ℕ) (v : Volatile) (p : Clock)
    → Sure (ticking l b v) p cpu_number (λ q n. (q ≡ p) × (n < 64))
cpu_number-Sure l b v p = (tt, λ m a. (tt, λ id c. bounded id (c.0 (omega (arith, a)))))
  where
    bounded :
        (id : ℕ)
        → id < 64
        → Sure
            (ticking l b v)
            p
            (if ltb id 64 then ret id else panicked)
            (λ q n. (q ≡ p) × (n < 64))
    bounded id h = let yes_it_is : ltb id 64 ≡ true = ground (arith, h) in rw yes_it_is (refl, h)

-- After a read, the counter is known.
Read : ℕ → Clock → ℕ → Type 0
Read b q n = (n ≡ q.last) × (q.last < 2 ^ 64) × (q.unchanged ≤ b)

observed :
    (b n : ℕ) (p : Clock) → p.last < 2 ^ 64 → p.unchanged ≤ b → Shows b p n → Read b (seen p n) n
unfolding Read
observed b n p small few h = elim (Bool-cases (n == p.last)) [
  | inl e ↦ let same : n ≡ p.last = ground (arith, e) in rw e (same, small, omega (arith, h.1 same))
  | inr e ↦ rw e (refl, h.0, omega arith)
]

get_irq_cnt-Sure :
    (l b : ℕ) (v : Volatile) (p : Clock)
    → Sure (ticking l b v) p get_irq_cnt (λ q n. (q ≡ seen p n) × Shows b p n)
get_irq_cnt-Sure l b v p =
    Sure-bind (ticking l b v) p cpu_number _ _ (λ q n. (q ≡ seen p n) × Shows b p n)
      (cpu_number-Sure l b v p)
      (λ q num e.
        subst
          (λ r. Sure (ticking l b v) r (ask (get_timer num)) (λ q n. (q ≡ seen p n) × Shows b p n))
          (sym e.0) (tt, λ n a. (refl, a)))

-- Fuel for one read more than the counter can stay the same is enough for the loop to see it go on.
wait_irq_after-Sure :
    (l b : ℕ) (v : Volatile) (fuel saved : ℕ) (p : Clock)
    → Read b p saved
    → b < fuel + p.unchanged
    → Sure (ticking l b v) p (wait_irq_after fuel saved) (Read b)
unfolding wait_irq_after Read
wait_irq_after-Sure l b v zero saved p r h = absurd (omega (arith, r.2, h))
wait_irq_after-Sure l b v (suc fuel) saved p r h =
    let again = wait_irq_after-Sure l b v fuel saved (record p { unchanged = p.unchanged + 1 }) in
    Sure-bind (ticking l b v) p get_irq_cnt _ _ (Read b) (get_irq_cnt-Sure l b v p) (λ q n (e, a).
      subst
        (λ x.
          Sure (ticking l b v) x
            (if ltb (wrapping_sub n saved) 1 then wait_irq_after fuel saved else ret n) (Read b))
        (sym e)
        (elim (Bool-cases (n == p.last)) [
          | inl k ↦
              let same : n ≡ p.last = ground (arith, k) in
              let zero_ticks : ltb (wrapping_sub n saved) 1 ≡ true =
                ground (arith, same, r.0, r.1) in
              let fewer : p.unchanged + 1 ≤ b = omega (arith, a.1 same) in
              rw (k, zero_ticks) (again (r.0, r.1, fewer) (omega (arith, h)))
          | inr k ↦
              let other : n ≢ p.last = λ same. absurd (ground (arith, k, same)) in
              let gone_on : ltb (wrapping_sub n saved) 1 ≡ false =
                ground (arith, other, a.0, r.0, r.1) in
              rw (k, gone_on) (refl, a.0, omega arith)
        ]))

measure-Sure :
    (l b : ℕ) (v : Volatile) (m fuel : ℕ) (p : Clock)
    → p.last < 2 ^ 64
    → p.unchanged ≤ b
    → b < fuel
    → Sure (ticking l b v) p (measure fuel m) (λ q t. Unit)
unfolding measure Read
measure-Sure l b v m fuel p small few enough =
    Sure-bind (ticking l b v) p get_irq_cnt _ _ (λ q t. Unit) (get_irq_cnt-Sure l b v p)
      (λ q saved (e, a).
        let r : Read b q saved =
          subst (λ x. Read b x saved) (sym e) (observed b saved p small few a) in
        Sure-bind (ticking l b v) q (wait_irq_after fuel saved) _ _ (λ q t. Unit)
          (wait_irq_after-Sure l b v fuel saved q r (omega (arith, enough)))
          (λ o curr s. (
            tt,
            λ n c.
                let begun = observe o (write_volatile (m + lapic_timer_initcnt_reg) u32_max) 0 in
                Sure-bind (ticking l b v) begun (wait_irq_after fuel curr) _ _ (λ q t. Unit)
                  (wait_irq_after-Sure l b v fuel curr begun s (omega (arith, enough)))
                  (λ i last t. (tt, λ m d. (tt, λ j f. tt))),
          )))

-- The calibration ends without a panic if the interrupt counter goes on after `b` reads at most and
-- the number of the processor is below 64; fuel for more than `b` reads in each loop is enough.
pub calibrate_apic_timer_ends :
    (l b : ℕ) (v : Volatile) (fuel ioapic pitreg : ℕ) (p : Clock)
    → p.last < 2 ^ 64
    → p.unchanged ≤ b
    → b < fuel
    → Sure (ticking l b v) p (calibrate_apic_timer fuel ioapic pitreg) (λ q u. Unit)
unfolding calibrate_apic_timer
calibrate_apic_timer_ends l b v fuel ioapic pitreg p small few enough = (
  tt,
  λ n₁ a₁. (
    tt,
    λ n₂ a₂. (
      tt,
      λ n₃ a₃. (
        tt,
        λ m a₄. (
          tt,
          λ n₅ a₅. (
            tt,
            λ n₆ a₆. (
              tt,
              λ n₇ a₇.
                  let q =
                    observe
                      (observe p (write_volatile (m + lapic_lvt_timer_reg) (as_u8 scratch_timer)) 0)
                      (write_volatile (m + lapic_timer_div_reg) 3) 0 in
                  Sure-bind (ticking l b v) q (measure fuel m) _ _ (λ q u. Unit)
                    (measure-Sure l b v m fuel q small few enough)
                    (λ o ticks t. (
                      tt,
                      λ k₁ b₁. (
                        tt,
                        λ k₂ b₂. (
                          tt,
                          λ k₃ b₃. (
                            tt,
                            λ k₄ b₄. (tt, λ k₅ b₅. (tt, λ k₆ b₆. (tt, λ k₇ b₇. (tt, λ k₈ b₈. tt)))),
                          ),
                        ),
                      ),
                    )),
            ),
          ),
        ),
      ),
    ),
  ),
)
