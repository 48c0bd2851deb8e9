-- ===== src/HashMap.antt =====
-- The maps of the crate `hashbrown`, a dependency of nacl/src/task/executor.rs and
-- nacl/src/font/mod.rs: the operations that those files call and what they rely on.
use na_cl.Common.{ℕ, ◌≡◌, ◌==◌, if◌then◌else◌, Option, none, some}

-- `hashbrown::HashMap` with numbers for keys: task identifiers, or code points.
pub record HashMap (V : Type 0) : Type 1 where
  pub Map : Type 0
  pub new : Map
  pub get : Map → ℕ → Option V
  pub insert : Map → ℕ → V → Map
  pub remove : Map → ℕ → Map
  pub get-new : (k : ℕ) → get new k ≡ none
  pub get-insert :
      (m : Map) (k : ℕ) (v : V) (j : ℕ)
      → get (insert m k v) j ≡ (if k == j then some v else get m j)
  pub get-remove : (m : Map) (k j : ℕ) → get (remove m k) j ≡ (if k == j then none else get m j)
