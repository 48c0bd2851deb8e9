-- ===== src/Apic/Local.antt =====
-- nacl/src/arch/x86_64/apic.rs: the local APIC, its registers and its initialisation.
use na_cl.Common.{ℕ, zero, suc, ◌+◌, ◌/◌, ◌%◌, Option, List, [], ◌∷◌, ◌==◌, if◌then◌else◌}
use na_cl.Memory.Mapper.{Mapper, phys_to_virt_ptr}
use na_cl.Machine.{
  Io, ret, spent, ◌>>=◌, ◌>>◌, ask, perform, expect, read_volatile, write_volatile, pics_initialize,
  pics_disable, get_lapic, set_lapic, sprint,
}

abbrev pub apic_timer_periodic : ℕ
apic_timer_periodic = 0x20000

abbrev pub apic_masked : ℕ
apic_masked = 0x10000

abbrev pub lapic_id_reg : ℕ
lapic_id_reg = 0x020

abbrev pub lapic_lvt_timer_reg : ℕ
lapic_lvt_timer_reg = 0x320

abbrev pub lapic_lvt_lint0_reg : ℕ
lapic_lvt_lint0_reg = 0x350

abbrev pub lapic_lvt_lint1_reg : ℕ
lapic_lvt_lint1_reg = 0x360

abbrev pub lapic_timer_initcnt_reg : ℕ
lapic_timer_initcnt_reg = 0x380

abbrev pub lapic_timer_currcnt_reg : ℕ
lapic_timer_currcnt_reg = 0x390

abbrev pub lapic_timer_div_reg : ℕ
lapic_timer_div_reg = 0x3E0

-- `Lapic`, by the address that it starts at.
abbrev pub Lapic : Type 0
Lapic = ℕ

-- `lapic`: the static is read without a check that it holds anything.
abbrev pub lapic : Io Lapic
lapic = ask get_lapic

-- `Lapic::register_at`
abbrev pub lapic_register_at : Lapic → ℕ → ℕ
lapic_register_at l offset = l + offset

-- The methods that `common_apic_methods!` gives `Lapic`.
abbrev pub lapic_read : Lapic → ℕ → Io ℕ
lapic_read l offset = ask (read_volatile (lapic_register_at l offset))

abbrev pub lapic_write : Lapic → ℕ → ℕ → Io (Unit {0})
lapic_write l offset value = perform (write_volatile (lapic_register_at l offset) value)

abbrev pub lapic_update : Lapic → ℕ → (ℕ → ℕ) → Io (Unit {0})
lapic_update l offset f = do reg ← lapic_read l offset; lapic_write l offset (f reg)

abbrev pub end_of_interrupt : Lapic → Io (Unit {0})
end_of_interrupt l = lapic_write l 0xB0 0

-- `Lapic::id` and `Lapic::set_id`.
abbrev pub lapic_id : Lapic → Io ℕ
lapic_id l = lapic_read l lapic_id_reg

abbrev pub set_lapic_id : Lapic → ℕ → Io (Unit {0})
set_lapic_id l id = lapic_write l lapic_id_reg id

-- `icr_wait_for_delivery`, with fuel: bit 12 of the command register.
unfoldable pub icr_wait_for_delivery : ℕ → Lapic → Io (Unit {0})
icr_wait_for_delivery zero l = spent
icr_wait_for_delivery (suc fuel) l =
    let again = icr_wait_for_delivery fuel l in
    do icr ← lapic_read l 0x300; if icr / 4096 % 2 == 0 then ret tt else again

abbrev pub init_and_disable_old_pic : Io (Unit {0})
init_and_disable_old_pic = do perform pics_initialize; perform pics_disable

-- `reg | 0x100`
abbrev pub software_enable : ℕ → ℕ
software_enable reg = if reg / 256 % 2 == 1 then reg else reg + 256

-- What the code reads of `acpi::platform::interrupt::Apic` and of `PlatformInfo`.
pub record IoApicInfo : Type 0 where
  pub address : ℕ
  pub global_system_interrupt_base : ℕ

pub record SourceOverride : Type 0 where
  pub isa_source : ℕ
  pub global_system_interrupt : ℕ

pub record ApicInfo : Type 0 where
  pub local_apic_address : ℕ
  pub io_apics : List IoApicInfo
  pub interrupt_source_overrides : List SourceOverride

-- The interrupt model is `none` unless it is `InterruptModel::Apic`; of the processors, the
-- identifier of the one that boots.
pub record PlatformInfo : Type 0 where
  pub interrupt_model : Option ApicInfo
  pub boot_processor : Option ℕ

-- The `for` loop over the three entries of the local vector table.
abbrev pub mask_all : Lapic → List ℕ → Io (Unit {0})
mask_all l [] = ret tt
mask_all l (reg ∷ regs) = do lapic_write l reg apic_masked; mask_all l regs

unfoldable pub init_lapic : PlatformInfo → Mapper → Io (Unit {0})
unfolding phys_to_virt_ptr
init_lapic platform_info mapper = do
  apic ← expect platform_info.interrupt_model
  perform sprint
  start_ptr ← expect (phys_to_virt_ptr mapper apic.local_apic_address)
  lapic_update start_ptr 0xF0 software_enable
  mask_all start_ptr (lapic_lvt_timer_reg ∷ lapic_lvt_lint0_reg ∷ lapic_lvt_lint1_reg ∷ [])
  perform (set_lapic start_ptr)
