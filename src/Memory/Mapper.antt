-- ===== src/Memory/Mapper.antt =====
-- nacl/src/arch/x86_64/memory/mapper.rs: physical memory seen through its mapping.
use na_cl.Common.{ℕ, ◌+◌, ◌%◌, ◌^◌, Option, none, some, ◌==◌, if◌then◌else◌}

pub record Mapper : Type 0 where
  pub physical_memory_offset : ℕ

-- `Mapper::new`
unfoldable pub new_mapper : ℕ → Mapper
new_mapper offset = record { physical_memory_offset = offset }

unfoldable pub phys_to_virt : Mapper → ℕ → ℕ
phys_to_virt m phys = (m.physical_memory_offset + phys) % 2 ^ 64

-- `phys_to_virt_ptr`: `NonNull::new` refuses 0, and `unwrap` panics then.
unfoldable pub phys_to_virt_ptr : Mapper → ℕ → Option ℕ
unfolding phys_to_virt
phys_to_virt_ptr m phys = let a = phys_to_virt m phys in if a == 0 then none else some a

-- What `PhysicalMapping::new` of the crate `acpi` is given.
pub record PhysicalMapping : Type 0 where
  pub physical_start : ℕ
  pub virtual_start : ℕ
  pub region_length : ℕ
  pub mapped_length : ℕ

unfoldable pub map_physical_region : Mapper → ℕ → ℕ → PhysicalMapping
map_physical_region m physical_address size = record {
  physical_start = physical_address;
  virtual_start = (m.physical_memory_offset + physical_address) % 2 ^ 64;
  region_length = size;
  mapped_length = size;
}
