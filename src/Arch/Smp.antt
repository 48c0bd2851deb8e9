-- ===== src/Arch/Smp.antt =====
-- nacl/src/arch/x86_64/smp.rs: what is prepared for the other processors, and where they begin. The
-- module is not compiled at present.
use na_cl.Common.{ℕ, ◌+◌, ◌%◌, ◌^◌, List, [], ◌∷◌}
use na_cl.Machine.{Io, ret, ◌>>=◌, ◌>>◌, perform, sprint}
use na_cl.Apic.Local.{lapic, lapic_id, set_lapic_id}

-- `DtPointer`
pub record DtPointer : Type 0 where
  pub limit : ℕ
  pub base : ℕ

-- The empty `IDT`, and `GDTPTR`.
abbrev pub empty_idt : DtPointer
empty_idt = record { limit = 0; base = 0 }

abbrev pub gdtptr : DtPointer
gdtptr = record { limit = 3; base = 0 }

-- `GDT`, of the flags of the two kernel segments.
abbrev pub ap_gdt : ℕ → ℕ → List ℕ
ap_gdt kernel_code64 kernel_data = 0 ∷ kernel_code64 ∷ kernel_data ∷ []

-- What the boot loader keeps of a processor (`StivaleSmpInfo`).
pub record SmpInfo : Type 0 where
  pub acpi_processor_uid : ℕ
  pub target_stack : ℕ
  pub goto_address : ℕ

-- `AP_STARTED.fetch_add(1)` on a `u16`: the value before, and the value after.
abbrev pub count_started : ℕ → ℕ × ℕ
count_started started = (started, (started + 1) % 2 ^ 16)

-- `ap_init` up to its endless loop: the number it prints, and the counter after it.
unfoldable pub ap_init : SmpInfo → ℕ → Io (ℕ × ℕ)
ap_init info started = do
  l ← lapic
  set_lapic_id l info.acpi_processor_uid
  let (prev, started') = count_started started
  l' ← lapic
  id ← lapic_id l'
  perform sprint
  ret (prev, started')

-- The loop of `init`: each processor gets the start of a stack of its own, from the allocator, and
-- the address of `ap_init`.
unfoldable pub init_smp : (ℕ → ℕ) → ℕ → ℕ → List SmpInfo → List SmpInfo
init_smp leak ap_init_address made [] = []
init_smp leak ap_init_address made (smp ∷ smps) =
    record smp { target_stack = leak made; goto_address = ap_init_address }
    ∷ init_smp leak ap_init_address (made + 1) smps
