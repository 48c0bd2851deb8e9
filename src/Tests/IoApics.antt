-- ===== src/Tests/IoApics.antt =====
-- nacl/src/arch/x86_64/apic.rs: a concrete I/O APIC of 24 entries.
use na_cl.Common.{
  ℕ, ◌+◌, refl, none, some, Option, List, [], ◌∷◌, ◌^◌, inl, inr, ◌==◌, if◌then◌else◌, arith,
}
use na_cl.Memory.Mapper.{new_mapper, phys_to_virt_ptr}
use na_cl.Machine.Protocol.{Sure}
use na_cl.Apic.Local.{PlatformInfo, ApicInfo}
use na_cl.Apic.Controllers.{init_ioapic}
use na_cl.Apic.Chips.{chips}
use na_cl.Apic.Chips.Wiring.{AllWired, init_ioapic_wires}
use na_cl.Tests.Booting.{pit}
use na_cl.Apic.{IoApicDevice, init_one}

-- The selected register, and all registers.
abbrev Chip : Type 0
Chip = ℕ × (ℕ → ℕ)

abbrev write_chip : Chip → ℕ → ℕ → Chip
write_chip (s, regs) offset v =
    if offset == 0 then (v, regs) else (s, λ k. if s == k then v else regs k)

abbrev chip : IoApicDevice
chip = record {
  Device = Chip;
  write_volatile = write_chip;
  read_volatile = λ d offset. d.1 d.0;
  selected = λ d. d.0;
  reg = λ d k. d.1 k;
  selected-select = λ d r h. refl;
  reg-select = λ d r k. refl;
  read-window = λ d. refl;
  low-window = λ d v k h. refl;
  high-window = λ d v k h. refl;
}

abbrev fresh_chip : Chip
fresh_chip = (0, λ k. if k == 1 then 0x17_0020 else 0)

-- The timer's interrupt is number 2.
abbrev started : Chip
started = (init_one chip fresh_chip 0 2 1 none).0

-- Two such chips, the second with the interrupts from 24 on. The timer's interrupt is number 2.
abbrev two_chips : ApicInfo
two_chips = record {
  local_apic_address = 0xFEE0_0000;
  io_apics =
      record { address = 0xFEC0_0000; global_system_interrupt_base = 0 }
      ∷ record { address = 0xFEC1_0000; global_system_interrupt_base = 24 }
      ∷ [];
  interrupt_source_overrides = pit ∷ [];
}

abbrev two_info : PlatformInfo
two_info = record { interrupt_model = some two_chips; boot_processor = some 1 }

abbrev starts : List ℕ
starts = (2 ^ 46 + 0xFEC0_0000) ∷ (2 ^ 46 + 0xFEC1_0000) ∷ []

abbrev decode : ℕ → Option (ℕ × ℕ)
decode x =
    if x == 2 ^ 46 + 0xFEC0_0000
    then some (2 ^ 46 + 0xFEC0_0000, 0)
    else if x == 2 ^ 46 + 0xFEC0_0010
    then some (2 ^ 46 + 0xFEC0_0000, 0x10)
    else if x == 2 ^ 46 + 0xFEC1_0000
    then some (2 ^ 46 + 0xFEC1_0000, 0)
    else if x == 2 ^ 46 + 0xFEC1_0010
    then some (2 ^ 46 + 0xFEC1_0000, 0x10)
    else none

init_ioapic_wires_example :
    Sure
      (chips chip decode)
      (λ a. fresh_chip)
      (init_ioapic two_info (new_mapper (2 ^ 46)))
      (AllWired chip decode 2 1 two_chips.io_apics starts (λ a. fresh_chip))
unfolding phys_to_virt_ptr new_mapper
init_ioapic_wires_example =
    init_ioapic_wires chip decode 2 1 two_info (new_mapper (2 ^ 46)) two_chips pit starts
      (λ a. fresh_chip) (2 ^ 46 + 0xFEC0_0000) 2 refl refl refl refl
      (
        refl,
        record { select = refl; window = refl },
        (λ i. elim i [ inl e ↦ omega (arith, e) | inr n ↦ n ]),
        (refl, record { select = refl; window = refl }, (λ i. i), tt),
      )
      (λ b i. omega arith)
      (record {
        x = record { address = 0xFEC0_0000; global_system_interrupt_base = 0 };
        paired = inl (refl, refl);
        timer = record { lower = omega arith; upper = omega arith; matched = refl };
      })
