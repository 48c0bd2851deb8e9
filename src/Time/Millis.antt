-- ===== src/Time/Millis.antt =====
-- nacl/src/arch/x86_64/time.rs: how long `mdelay` waits.
use na_cl.Common.{
  ℕ, zero, suc, ◌+◌, ◌-◌, ◌*◌, ◌/◌, ◌%◌, ◌^◌, ◌<◌, ◌≤◌, ◌≡◌, refl, ap, subst, ◌∙◌, inl, inr, true,
  false, some, ltb, leb, arith, Bool-cases, Option-cases,
}
use na_cl.Common.Outcomes.{done}
use na_cl.Time.{wrapping_sub, wait_irq, mdelay, delay}

-- The interrupt counter as it would be without wrapping, at each read: it does not go down, and
-- there are fewer than 2 ^ 64 interrupts from one read to the next.
pub record Counts (c : ℕ → ℕ) : Type 0 where
  pub mono : (i : ℕ) → c i ≤ c (suc i)
  pub slow : (i : ℕ) → c (suc i) < c i + 2 ^ 64

-- What the reads give.
abbrev pub wrapped : (ℕ → ℕ) → ℕ → ℕ
wrapped c i = c i % 2 ^ 64

-- The test of the loop, after a read at which the count was `cur`.
test-same :
    (c : ℕ → ℕ) (p cur : ℕ)
    → Counts c
    → c p ≡ cur
    → ltb (wrapping_sub (wrapped c (suc p)) (cur % 2 ^ 64)) 1 ≡ true
    → c (suc p) ≡ cur
test-same c p cur v e q = ground (arith, v.mono p, v.slow p)

test-changed :
    (c : ℕ → ℕ) (p cur : ℕ)
    → Counts c
    → c p ≡ cur
    → ltb (wrapping_sub (wrapped c (suc p)) (cur % 2 ^ 64)) 1 ≡ false
    → cur < c (suc p)
test-changed c p cur v e q = ground (arith, v.mono p, v.slow p)

wait_irq-advances :
    (fuel : ℕ) (c : ℕ → ℕ) (p cur j : ℕ)
    → Counts c
    → c p ≡ cur
    → wait_irq fuel (wrapped c) (cur % 2 ^ 64) (suc p) ≡ some j
    → cur < c j
unfolding wait_irq
wait_irq-advances zero c p cur j v e r = absurd cc
wait_irq-advances (suc fuel) c p cur j v e r =
    elim (Bool-cases (ltb (wrapping_sub (wrapped c (suc p)) (cur % 2 ^ 64)) 1)) [
      | inl q ↦
          let r' : wait_irq fuel (wrapped c) (cur % 2 ^ 64) (suc (suc p)) ≡ some j =
            ap (wait_irq fuel (wrapped c) (cur % 2 ^ 64)) (omega arith) ∙ rw (q, wait_irq) at r in
          wait_irq-advances fuel c (suc p) cur j v (test-same c p cur v e q) r'
      | inr q ↦
          let s : some (suc p + 1) ≡ some j = rw (q, wait_irq) at r in
          let at : suc (suc p) ≡ j = ground arith in
          subst (λ k. cur < c k) at (omega (arith, test-changed c p cur v e q, v.mono (suc p)))
    ]

-- If the interrupt counter goes up by less than 2 ^ 64 from read to read, it goes up, from the first
-- read of `mdelay` to the next read after it, by a tenth of the milliseconds, rounded down, or more.
pub mdelay_waits :
    (fuel : ℕ) (c : ℕ → ℕ) (millis i j : ℕ)
    → Counts c
    → mdelay fuel (wrapped c) millis i ≡ some j
    → c i + millis / 10 ≤ c j
unfolding mdelay
mdelay_waits zero c millis i j v e = absurd cc
mdelay_waits (suc fuel) c millis i j v e = elim (Bool-cases (leb 10 millis)) [
  | inl q ↦ elim (Option-cases (wait_irq fuel (wrapped c) (wrapped c i) (i + 1))) [
    | inl n ↦ absurd (cc (rw (q, n, mdelay) at e))
    | inr (k, r) ↦
        let r' : wait_irq fuel (wrapped c) (c i % 2 ^ 64) (suc i) ≡ some k =
          ap (wait_irq fuel (wrapped c) (c i % 2 ^ 64)) (omega arith) ∙ r in
        let up = wait_irq-advances fuel c i (c i) k v refl r' in
        let later = mdelay_waits fuel c (millis - 10) k j v (rw (q, r, mdelay) at e) in
        ground (arith, up, later)
  ]
  | inr q ↦
      let s : some i ≡ some j = rw (q, mdelay) at e in
      let at : i ≡ j = ground arith in subst (λ k. c i + millis / 10 ≤ c k) at (ground arith)
]

-- `mdelay` does the same for a number of milliseconds as for that number rounded down to whole
-- tens.
pub mdelay_rounds_down :
    (fuel : ℕ) (read : ℕ → ℕ) (millis i : ℕ)
    → mdelay fuel read millis i ≡ mdelay fuel read (millis / 10 * 10) i
unfolding mdelay
mdelay_rounds_down zero read millis i = refl
mdelay_rounds_down (suc fuel) read millis i =
    let same : leb 10 (millis / 10 * 10) ≡ leb 10 millis = ground arith in
    elim (Bool-cases (leb 10 millis)) [
      | inl q ↦ elim (Option-cases (wait_irq fuel read (read i) (i + 1))) [
        | inl n ↦ rw (same, q, n, mdelay)
        | inr (k, r) ↦
            let less : (millis - 10) / 10 * 10 ≡ millis / 10 * 10 - 10 = ground arith in
            rw (same, q, r, mdelay)
              (mdelay_rounds_down fuel read (millis - 10) k ∙ ap (λ m. mdelay fuel read m k) less)
      ]
      | inr q ↦ rw (same, q, mdelay)
    ]

wait_irq-ends :
    (fuel : ℕ) (c : ℕ → ℕ) (p cur b : ℕ)
    → Counts c
    → c p ≡ cur
    → cur < c (p + b)
    → b ≤ fuel
    → (j : ℕ) × (wait_irq fuel (wrapped c) (cur % 2 ^ 64) (suc p) ≡ some j)
unfolding wait_irq
wait_irq-ends fuel c p cur zero v e h le =
    let here : p + 0 ≡ p = omega arith in absurd (ground (arith, subst (λ k. cur < c k) here h))
wait_irq-ends zero c p cur (suc b) v e h le = absurd (omega arith)
wait_irq-ends (suc fuel) c p cur (suc b) v e h le =
    elim (Bool-cases (ltb (wrapping_sub (wrapped c (suc p)) (cur % 2 ^ 64)) 1)) [
      | inl q ↦
          let next : p + suc b ≡ suc p + b = omega arith in
          let (j, r) =
            wait_irq-ends fuel c (suc p) cur b v (test-same c p cur v e q)
              (subst (λ k. cur < c k) next h) (omega arith) in
          (j, rw (q, wait_irq) (ap (wait_irq fuel (wrapped c) (cur % 2 ^ 64)) (omega arith) ∙ r))
      | inr q ↦ (suc p + 1, rw (q, wait_irq))
    ]

-- If the interrupt counter goes up by less than 2 ^ 64 from read to read and goes up within any `b`
-- reads, fuel beyond a tenth of the milliseconds and `b` is enough for `mdelay` to end.
pub mdelay_ends :
    (fuel : ℕ) (c : ℕ → ℕ) (b millis i : ℕ)
    → Counts c
    → ((k : ℕ) → c k < c (k + b))
    → millis / 10 + b < fuel
    → (j : ℕ) × (mdelay fuel (wrapped c) millis i ≡ some j)
unfolding mdelay
mdelay_ends zero c b millis i v h lt = absurd (omega arith)
mdelay_ends (suc fuel) c b millis i v h lt = elim (Bool-cases (leb 10 millis)) [
  | inl q ↦
      let (k, r) = wait_irq-ends fuel c i (c i) b v refl (h i) (omega arith) in
      let r' : wait_irq fuel (wrapped c) (wrapped c i) (i + 1) ≡ some k =
        ap (wait_irq fuel (wrapped c) (c i % 2 ^ 64)) (omega arith) ∙ r in
      let (j, s) = mdelay_ends fuel c b (millis - 10) k v h (ground arith) in
      (j, rw (q, r', mdelay) s)
  | inr q ↦ (i, rw (q, mdelay))
]

-- If the interrupt counter goes up by less than 2 ^ 64 from read to read and goes up within any `b`
-- reads, fuel beyond a tenth of the milliseconds and `b` is enough for `mdelay` to end; and from its
-- first read to the next read after it, the counter has gone up by a tenth of the milliseconds, rounded
-- down, or more.
pub mdelay_delays :
    (fuel : ℕ) (c : ℕ → ℕ) (b millis i : ℕ)
    → Counts c
    → ((k : ℕ) → c k < c (k + b))
    → millis / 10 + b < fuel
    → (j : ℕ) × (mdelay fuel (wrapped c) millis i ≡ some j) × (c i + millis / 10 ≤ c j)
mdelay_delays fuel c b millis i v h lt =
    let (j, e) = mdelay_ends fuel c b millis i v h lt in (j, e, mdelay_waits fuel c millis i j v e)

-- `delay` of a millisecond or more, but under ten, returns without a read of the counter.
pub delay_skips :
    (fuel : ℕ) (ticks irqs : ℕ → ℕ) (t nanos : ℕ)
    → 1000000 ≤ nanos
    → nanos < 10000000
    → delay (suc fuel) ticks irqs t nanos ≡ done (some 0)
unfolding delay mdelay
delay_skips fuel ticks irqs t nanos lo hi =
    let not_short : ltb (nanos / 1000) 1000 ≡ false = ground arith in
    let fits : ltb (nanos / 1000000) (2 ^ 64) ≡ true = ground arith in
    let no_round : leb 10 (nanos / 1000000) ≡ false = ground arith in
    rw (not_short, fits, no_round, mdelay)
