-- ===== src/Segments.antt =====
-- nacl/src/arch/x86_64/gdt.rs: the descriptor tables, and how they are loaded.
use na_cl.Common.{ℕ, ◌*◌, ◌==◌, if◌then◌else◌}
use na_cl.Machine.{Io, ◌>>◌, perform, load_gdt, set_cs, set_ss, set_ds, load_tss}

abbrev pub double_fault_ist_index : ℕ
double_fault_ist_index = 0

abbrev pub stack_size : ℕ
stack_size = 4096 * 5

-- What the code uses of the crate `x86_64`: addresses, and tables of descriptors, whose
-- `add_entry` gives the selector of the entry that it adds. A task state segment is given by its
-- table of interrupt stacks.
pub record SegmentApi : Type 1 where
  pub Descriptor : Type 0
  pub Table : Type 0
  pub kernel_code_segment : Descriptor
  pub tss_segment : (ℕ → ℕ) → Descriptor
  pub new_table : Table
  pub add_entry : Table → Descriptor → Table × ℕ
  pub empty_stacks : ℕ → ℕ
  pub virt_addr_add : ℕ → ℕ → ℕ

-- `Selectors`
pub record Selectors : Type 0 where
  pub code_selector : ℕ
  pub tss_selector : ℕ

module _ (api : SegmentApi) where
  open api use {
    Table, kernel_code_segment, tss_segment, new_table, add_entry, empty_stacks, virt_addr_add,
  }

  -- `TSS`, with the static stack at an address.
  unfoldable pub tss : ℕ → ℕ → ℕ
  tss stack i =
      if i == double_fault_ist_index then virt_addr_add stack stack_size else empty_stacks i

  -- `GDT`
  unfoldable pub gdt : ℕ → Table × Selectors
  unfolding tss
  gdt stack =
      let (with_code, code_selector) = add_entry new_table kernel_code_segment in
      let (with_tss, tss_selector) = add_entry with_code (tss_segment (tss stack)) in
      (with_tss, record { code_selector = code_selector; tss_selector = tss_selector })

  -- `init`
  unfoldable pub init_segments : ℕ → Io (Unit {0})
  unfolding gdt
  init_segments stack =
      let selectors = (gdt stack).1 in
      do
        perform load_gdt
        perform (set_cs selectors.code_selector)
        perform (set_ss 0)
        perform (set_ds 0)
        perform (load_tss selectors.tss_selector)
