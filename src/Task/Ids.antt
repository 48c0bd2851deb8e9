-- ===== src/Task/Ids.antt =====
-- nacl/src/task/mod.rs: the identifiers that `TaskId::new` gives.
use na_cl.Common.{ℕ, zero, suc, ◌+◌, ◌%◌, ◌^◌, ◌<◌, ◌≡◌, ◌≢◌, arith}
use na_cl.Task.{new_id}

-- The counter after `n` calls, and the identifier that the call after those gives.
pub counter : ℕ → ℕ → ℕ
counter c zero = c
counter c (suc n) = (new_id (counter c n)).1

pub nth_id : ℕ → ℕ → ℕ
nth_id c n = (new_id (counter c n)).0

nth_id-mod : (c n : ℕ) → c < 2 ^ 64 → nth_id c n ≡ (c + n) % 2 ^ 64
unfolding nth_id new_id counter
nth_id-mod c zero h = omega arith
nth_id-mod c (suc n) h = omega (arith, nth_id-mod c n h)

-- Two calls of `TaskId::new` with fewer than 2 ^ 64 calls from the one to the other give different
-- identifiers, from every value of the counter.
pub ids_distinct : (c m n : ℕ) → c < 2 ^ 64 → m < n → n < m + 2 ^ 64 → nth_id c m ≢ nth_id c n
ids_distinct c m n h lt few e = omega (arith, nth_id-mod c m h, nth_id-mod c n h)
