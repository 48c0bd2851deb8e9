-- ===== src/Memory/Frames.antt =====
-- nacl/src/arch/x86_64/memory/mod.rs: the frame allocator over the boot loader's memory map.
pub mod Usable
use na_cl.Common.{
  ℕ, zero, suc, ◌+◌, ◌-◌, ◌*◌, ◌/◌, ◌%◌, ◌^◌, ◌<◌, ◌≡◌, ◌==◌, if◌then◌else◌, Option, none, some,
  List, [], ◌∷◌, ◌++◌,
}
use na_cl.Common.Outcomes.{Outcome, done, panic, ◌>>=◌}

abbrev pub page_size : ℕ
page_size = 4096

-- `limine::memory_map::Entry`: physical addresses in bytes.
pub record Entry : Type 0 where
  pub base : ℕ
  pub length : ℕ
  pub entry_type : ℕ

-- What the allocator uses of the crates `limine` and `x86_64`. `phys_addr_new` panics on an
-- address that is not valid; a frame is given by its start address.
pub record FrameApi : Type 0 where
  pub usable : ℕ
  pub phys_addr_new : ℕ → Outcome ℕ
  pub containing_address : ℕ → ℕ
  pub phys_addr_new-valid : (a : ℕ) → a < 2 ^ 52 → phys_addr_new a ≡ done a
  pub containing_address_lem : (a : ℕ) → containing_address a ≡ a / page_size * page_size

-- The first `n` values of a range from `a` on under `step_by(4096)`.
unfoldable pub pages_from : ℕ → ℕ → List ℕ
pages_from a zero = []
pages_from a (suc n) = a ∷ pages_from (a + page_size) n

-- `(x.base..x.base + x.length).step_by(4096)`, with the addition of `u64`.
unfoldable pub region_pages : Entry → List ℕ
region_pages x =
    let end = (x.base + x.length) % 2 ^ 64 in
    pages_from x.base ((end - x.base + (page_size - 1)) / page_size)

module _ (api : FrameApi) where
  open api use {usable, phys_addr_new, containing_address}

  -- `BootInfoFrameAllocator::init`: the addresses that the iterator has still to yield.
  unfoldable pub init : List Entry → List ℕ
  init [] = []
  init (x ∷ xs) =
      let rest = init xs in if x.entry_type == usable then region_pages x ++ rest else rest

  -- `allocate_frame`: the next frame, and the rest of the iterator.
  unfoldable pub allocate_frame : List ℕ → Outcome (Option ℕ × List ℕ)
  allocate_frame [] = done (none, [])
  allocate_frame (a ∷ rest) = phys_addr_new a >>= λ p. done (some (containing_address p), rest)
