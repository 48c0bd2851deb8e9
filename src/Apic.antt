-- ===== src/Apic.antt =====
-- nacl/src/arch/x86_64/apic.rs: the I/O APIC, its registers and the entry of the timer.
pub mod Redirection
pub mod Local
pub mod Controllers
pub mod Chips
use na_cl.Common.{
  ℕ, zero, suc, ◌+◌, ◌*◌, ◌/◌, ◌%◌, ◌^◌, ◌<◌, ◌≤◌, ◌≡◌, Option, none, some, List, [], ◌∷◌, ◌==◌,
  if◌then◌else◌,
}

-- The device, as software sees it through its two addresses: a number written to `IOREGSEL`
-- selects a register, which `IOWIN` reads and writes. Of a register of the redirection table, only
-- the low byte and the bits from 16 on are as they were written.
pub record IoApicDevice : Type 1 where
  pub Device : Type 0
  pub write_volatile : Device → ℕ → ℕ → Device
  pub read_volatile : Device → ℕ → ℕ
  pub selected : Device → ℕ
  pub reg : Device → ℕ → ℕ
  pub selected-select : (d : Device) (r : ℕ) → r < 256 → selected (write_volatile d 0 r) ≡ r
  pub reg-select : (d : Device) (r k : ℕ) → reg (write_volatile d 0 r) k ≡ reg d k
  pub read-window : (d : Device) → read_volatile d 0x10 ≡ reg d (selected d)
  pub low-window :
      (d : Device) (v k : ℕ)
      → 0x10 ≤ selected d
      → reg (write_volatile d 0x10 v) k % 256 ≡ (if selected d == k then v else reg d k) % 256
  pub high-window :
      (d : Device) (v k : ℕ)
      → 0x10 ≤ selected d
      → reg (write_volatile d 0x10 v) k / 65536 ≡ (if selected d == k then v else reg d k) / 65536

-- `InterruptIndex::Timer`
abbrev pub timer_vector : ℕ
timer_vector = 32

-- `v | 1 << 16`
abbrev pub or_masked : ℕ → ℕ
or_masked v = if v / 65536 % 2 == 1 then v else v + 65536

module _ (api : IoApicDevice) where
  open api use {Device, write_volatile, read_volatile}

  -- `register_at`; the address that it gives is that of `IOWIN`.
  unfoldable pub register_at : Device → ℕ → Device
  register_at d offset = write_volatile d 0 offset

  unfoldable pub read_register : Device → ℕ → ℕ × Device
  unfolding register_at
  read_register d offset = let d' = register_at d offset in (read_volatile d' 0x10, d')

  unfoldable pub write_register : Device → ℕ → ℕ → Device
  unfolding register_at
  write_register d offset value = write_volatile (register_at d offset) 0x10 value

  unfoldable pub update_register : Device → ℕ → (ℕ → ℕ) → Device
  unfolding read_register write_register
  update_register d offset f =
      let (v, d') = read_register d offset in write_register d' offset (f v)

  -- `0x10 + idx * 2` on `u8`.
  abbrev pub entry_reg : ℕ → ℕ
  entry_reg idx = (0x10 + idx * 2 % 256) % 256

  -- The body of the loop over the redirection entries, and the register that it found.
  unfoldable pub redirect : Device → ℕ → ℕ → ℕ → ℕ → Device × Option ℕ
  unfolding write_register update_register
  redirect d base overridden bsp idx =
      let reg = entry_reg idx in
      if (idx + base) % 2 ^ 32 == overridden
      then (write_register (write_register d reg timer_vector) ((reg + 1) % 256) bsp, some reg)
      else (update_register d reg or_masked, none)

  abbrev pub or_before : Option ℕ → Option ℕ → Option ℕ
  or_before none before = before
  or_before (some r) before = some r

  -- The loop from `idx` on, with `n` entries left; `found` is `found_reg`.
  unfoldable pub redirect_from : ℕ → Device → ℕ → ℕ → ℕ → ℕ → Option ℕ → Device × Option ℕ
  unfolding redirect
  redirect_from zero d base overridden bsp idx found = (d, found)
  redirect_from (suc n) d base overridden bsp idx found =
      let (d', r) = redirect d base overridden bsp idx in
      redirect_from n d' base overridden bsp (idx + 1) (or_before r found)

  -- `max_redir_count`, from the version register, on `u8`.
  abbrev pub max_redir_count : ℕ → ℕ
  max_redir_count ioapicver = (ioapicver / 65536 % 256 + 1) % 256

  -- What `init_ioapic` does with one I/O APIC, whose first interrupt is `base`.
  unfoldable pub init_one : Device → ℕ → ℕ → ℕ → Option ℕ → Device × Option ℕ
  unfolding read_register redirect_from
  init_one d base overridden bsp_acpi_id found =
      let (ioapicver, d') = read_register d 1 in
      redirect_from (max_redir_count ioapicver) d' base overridden (bsp_acpi_id * 2 ^ 24 % 2 ^ 32) 0
        found
