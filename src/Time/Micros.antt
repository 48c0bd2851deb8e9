-- ===== src/Time/Micros.antt =====
-- nacl/src/arch/x86_64/time.rs: when `udelay` returns.
use na_cl.Common.{
  ℕ, zero, suc, ◌+◌, ◌-◌, ◌*◌, ◌/◌, ◌^◌, ◌<◌, ◌≤◌, ◌≡◌, ◌⊎◌, inl, inr, subst, false, some, ltb,
  arith, Bool-cases,
}
use na_cl.Time.{wrapping_sub, delay_ticks, spin_ticks, udelay}

-- The ticks of a short delay do not wrap.
delay_ticks-exact : (t m : ℕ) → t < 2 ^ 32 → m ≤ 1000 → delay_ticks t m ≡ t * m / 10000
delay_ticks-exact t m ht hm = let small : t * m ≤ 2 ^ 32 * 1000 = grind arith in omega arith

spin_ticks-first :
    (fuel : ℕ) (read : ℕ → ℕ) (ticks i n : ℕ)
    → spin_ticks fuel read ticks i ≡ some n
    → (i ≤ n)
      × (ticks ≤ wrapping_sub (read 0) (read n))
      × ((j : ℕ) → i ≤ j → j < n → wrapping_sub (read 0) (read j) < ticks)
unfolding spin_ticks
spin_ticks-first zero read ticks i n e = absurd cc
spin_ticks-first (suc fuel) read ticks i n e =
    elim (Bool-cases (ltb (wrapping_sub (read 0) (read i)) ticks)) [
      | inl q ↦
          let (lo, last, before) =
            spin_ticks-first fuel read ticks (i + 1) n (rw (q, spin_ticks) at e) in
          (
            omega arith,
            last,
            λ j hi hj. elim (Bool-cases (ltb i j)) [
              | inl more ↦ before j (ground arith) hj
              | inr same ↦ ground arith
            ],
          )
      | inr q ↦
          let r : some i ≡ some n = rw (q, spin_ticks) at e in
          (ground arith, ground arith, λ j hi hj. ground arith)
    ]

-- If the timer does not reload while `udelay` of at most 1000 microseconds runs, `udelay` returns
-- at the first read by which the timer has gone down by the ticks of the delay, rounded down.
pub udelay_waits :
    (fuel : ℕ) (read : ℕ → ℕ) (t micros n : ℕ)
    → t < 2 ^ 32
    → micros ≤ 1000
    → read 0 < 2 ^ 32
    → ((i : ℕ) → i ≤ n → read i ≤ read 0)
    → udelay fuel read t micros ≡ some n
    → (t * micros / 10000 ≤ read 0 - read n)
      × ((j : ℕ) → 1 ≤ j → j < n → read 0 - read j < t * micros / 10000)
unfolding udelay
udelay_waits fuel read t micros n ht hm small down e =
    let exact = delay_ticks-exact t micros ht hm in
    let (lo, last, before) = spin_ticks-first fuel read (delay_ticks t micros) 1 n e in
    (omega (arith, exact, last, down n), λ j hi hj. omega (arith, exact, before j hi hj, down j))

spin_ticks-ends :
    (fuel : ℕ) (read : ℕ → ℕ) (ticks i k : ℕ)
    → ticks ≤ wrapping_sub (read 0) (read (i + k))
    → k < fuel
    → (n : ℕ) × (spin_ticks fuel read ticks i ≡ some n) × (n ≤ i + k)
unfolding spin_ticks
spin_ticks-ends zero read ticks i k h lt = absurd (omega arith)
spin_ticks-ends (suc fuel) read ticks i zero h lt =
    let here : i + 0 ≡ i = omega arith in
    let h' : ticks ≤ wrapping_sub (read 0) (read i) =
      subst (λ j. ticks ≤ wrapping_sub (read 0) (read j)) here h in
    let stop : ltb (wrapping_sub (read 0) (read i)) ticks ≡ false = ground arith in
    (i, rw (stop, spin_ticks), omega arith)
spin_ticks-ends (suc fuel) read ticks i (suc k) h lt =
    elim (Bool-cases (ltb (wrapping_sub (read 0) (read i)) ticks)) [
      | inl q ↦
          let next : i + suc k ≡ i + 1 + k = omega arith in
          let (n, r, le) =
            spin_ticks-ends fuel read ticks (i + 1) k
              (subst (λ j. ticks ≤ wrapping_sub (read 0) (read j)) next h) (omega arith) in
          (n, rw (q, spin_ticks) r, omega arith)
      | inr q ↦ (i, rw (q, spin_ticks), omega arith)
    ]

-- `udelay` of at most 1000 microseconds returns at read `k + 1` at the latest, if by then the timer
-- has gone down by the ticks of the delay, or has reloaded and stands above the first read.
pub udelay_ends :
    (fuel : ℕ) (read : ℕ → ℕ) (t micros k : ℕ)
    → t < 2 ^ 32
    → micros ≤ 1000
    → read 0 < 2 ^ 32
    → read (1 + k) < 2 ^ 32
    → (read 0 < read (1 + k)) ⊎ (read (1 + k) + t * micros / 10000 ≤ read 0)
    → k < fuel
    → (n : ℕ) × (udelay fuel read t micros ≡ some n) × (n ≤ 1 + k)
unfolding udelay
udelay_ends fuel read t micros k ht hm h₀ hk (inl reload) lt =
    let small : t * micros ≤ 2 ^ 32 * 1000 = grind arith in
    spin_ticks-ends fuel read (delay_ticks t micros) 1 k
      (omega (arith, delay_ticks-exact t micros ht hm)) lt
udelay_ends fuel read t micros k ht hm h₀ hk (inr down) lt =
    spin_ticks-ends fuel read (delay_ticks t micros) 1 k
      (omega (arith, delay_ticks-exact t micros ht hm)) lt

-- `udelay` of at most 1000 microseconds returns at read `k + 1` at the latest, if by then the timer has
-- gone down by the ticks of the delay, or has reloaded and stands above the first read. Unless it
-- reloaded before `udelay` returned, that is at the first read by which the timer has gone down by the
-- ticks of the delay, rounded down.
pub udelay_delays :
    (fuel : ℕ) (read : ℕ → ℕ) (t micros k : ℕ)
    → t < 2 ^ 32
    → micros ≤ 1000
    → read 0 < 2 ^ 32
    → read (1 + k) < 2 ^ 32
    → (read 0 < read (1 + k)) ⊎ (read (1 + k) + t * micros / 10000 ≤ read 0)
    → k < fuel
    → (n : ℕ) × (udelay fuel read t micros ≡ some n)
      × (n ≤ 1 + k)
      × (((i : ℕ) → i ≤ n → read i ≤ read 0)
          → (t * micros / 10000 ≤ read 0 - read n)
            × ((j : ℕ) → 1 ≤ j → j < n → read 0 - read j < t * micros / 10000))
udelay_delays fuel read t micros k ht hm h₀ hk moved lt =
    let (n, e, few) = udelay_ends fuel read t micros k ht hm h₀ hk moved lt in
    (n, e, few, λ down. udelay_waits fuel read t micros n ht hm h₀ down e)
