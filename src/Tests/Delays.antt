-- ===== src/Tests/Delays.antt =====
-- nacl/src/arch/x86_64/time.rs: delays on concrete clocks.
use na_cl.Common.{ℕ, zero, suc, ◌+◌, ◌-◌, ◌*◌, ◌/◌, ◌<◌, ◌≤◌, ◌≡◌, inl, inr, some, arith}
use na_cl.Time.{udelay, mdelay}
use na_cl.Time.Micros.{udelay_ends, udelay_delays}
use na_cl.Time.Millis.{Counts, wrapped, mdelay_delays}

-- A timer that goes down by one from read to read.
abbrev timer : ℕ → ℕ
timer i = 10 - i

udelay_delays_example :
    (n : ℕ) × (udelay 9 timer 1000 30 ≡ some n)
    × (n ≤ 1 + 2)
    × (((i : ℕ) → i ≤ n → timer i ≤ timer 0)
        → (1000 * 30 / 10000 ≤ timer 0 - timer n)
          × ((j : ℕ) → 1 ≤ j → j < n → timer 0 - timer j < 1000 * 30 / 10000))
udelay_delays_example =
    udelay_delays 9 timer 1000 30 2 (omega arith) (omega arith) (omega arith) (omega arith)
      (inr (omega arith)) (omega arith)

-- A timer that reloads after the first read.
abbrev reloaded : ℕ → ℕ
reloaded zero = 2
reloaded (suc i) = 9 - i

-- It returns at once.
reloaded_at_once : (n : ℕ) × (udelay 1 reloaded 1000 30 ≡ some n) × (n ≤ 1 + 0)
reloaded_at_once =
    udelay_ends 1 reloaded 1000 30 0 (omega arith) (omega arith) (omega arith) (omega arith)
      (inl (omega arith)) (omega arith)

-- An interrupt between every two reads.
abbrev steady : ℕ → ℕ
steady i = i

steady-Counts : Counts steady
steady-Counts = record { mono = λ i. omega arith; slow = λ i. omega arith }

mdelay_delays_example :
    (j : ℕ) × (mdelay 9 (wrapped steady) 25 0 ≡ some j) × (steady 0 + 25 / 10 ≤ steady j)
mdelay_delays_example = mdelay_delays 9 steady 1 25 0 steady-Counts (λ k. omega arith) (omega arith)
