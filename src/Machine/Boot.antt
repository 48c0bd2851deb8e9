-- ===== src/Machine/Boot.antt =====
-- The protocol of a processor that boots: what must be set up before interrupts are enabled, and
-- before the local APIC is used.
pub mod Kept
pub mod Parts
pub mod Controllers
pub mod Calibration
use na_cl.Common.{
  ℕ, ◌≡◌, ◌≢◌, refl, Bool, true, false, ◌&&◌, Option, none, some, ◌==◌, if◌then◌else◌,
}
use na_cl.Machine.{
  Effect, read_volatile, write_volatile, port_write, load_gdt, load_idt, set_cs, set_ss, set_ds,
  load_tss, pics_initialize, pics_disable, enable_interrupts, disable_interrupts, halt, get_lapic,
  set_lapic, get_timer, set_timer, get_scratch_timer, set_scratch_timer, store_ticks, sprint,
}
use na_cl.Machine.Protocol.{Protocol}

-- What has been set up, the static `LAPIC`, the interrupt flag, the last volatile write to each
-- address, and the static `APIC_TICKS_IN_10MS`.
pub record Setup : Type 0 where
  pub gdt : Bool
  pub tss : Bool
  pub idt : Bool
  pub pics_off : Bool
  pub lapic : Option ℕ
  pub interrupts : Bool
  pub written : ℕ → Option ℕ
  pub ticks : ℕ

abbrev pub is_some {ℓ} : {A : Type ℓ} → Option A → Bool
is_some none = false
is_some (some a) = true

-- Handlers can run: the tables are loaded, the legacy controllers are off, and `lapic` works.
abbrev pub handlers_ready : Setup → Bool
handlers_ready p = p.gdt && p.tss && p.idt && p.pics_off && is_some p.lapic

abbrev pub Needs : Setup → Effect → Type 0
Needs p enable_interrupts = handlers_ready p ≡ true
Needs p get_lapic = is_some p.lapic ≡ true
Needs p halt = p.interrupts ≡ true
Needs p _ = Unit

abbrev pub record_write : (ℕ → Option ℕ) → ℕ → ℕ → ℕ → Option ℕ
record_write w a v b = if a == b then some v else w b

abbrev pub after : Setup → Effect → ℕ → Setup
after p load_gdt n = record p { gdt = true }
after p (load_tss s) n = record p { tss = true }
after p load_idt n = record p { idt = true }
after p pics_initialize n = record p { pics_off = false }
after p pics_disable n = record p { pics_off = true }
after p (set_lapic l) n = record p { lapic = some l }
after p enable_interrupts n = record p { interrupts = true }
after p disable_interrupts n = record p { interrupts = false }
after p (write_volatile a v) n = record p { written = record_write p.written a v }
after p (store_ticks t) n = record p { ticks = t }
after p _ n = p

-- The static gives the pointer that was stored; everything else may give anything.
abbrev pub Given : Setup → Effect → ℕ → Type 0
Given p get_lapic n = p.lapic ≡ some n
Given p _ n = Unit

abbrev pub boot : Protocol
boot = record { Phase = Setup; Allowed = Needs; Answers = Given; next = after }

-- The processor as the boot loader leaves it, as far as this kernel has set anything up.
abbrev pub reset : Setup
reset = record {
  gdt = false;
  tss = false;
  idt = false;
  pics_off = false;
  lapic = none;
  interrupts = false;
  written = λ a. none;
  ticks = 0;
}
