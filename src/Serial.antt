-- ===== src/Serial.antt =====
-- nacl/src/serial.rs: the serial port, initialised by its first user, under interleaved users.
pub mod Ready
pub mod Nesting
use na_cl.Common.{ℕ, suc, ◌+◌, ◌≡◌, Bool, true, false, ◌||◌, ◌==◌, if◌then◌else◌}

-- Where a user stands in `_print` and `serial1`: it has not begun; it was the first to swap
-- `INIT`, or a later one; it holds the guard and initialises the port; it holds the guard.
pub data Pc : Type 0 where
  idle first later initialising holding : Pc

abbrev pub has_guard : Pc → Bool
has_guard initialising = true
has_guard holding = true
has_guard _ = false

-- The user that has to initialise the port and has not done so.
abbrev pub owes : Pc → Bool
owes first = true
owes initialising = true
owes _ = false

-- `INIT`, the lock of `SERIAL1`, the calls of `init` that the port has seen, whether it was ever
-- written before the first, and the users.
pub record System : Type 0 where
  pub init : Bool
  pub locked : Bool
  pub inits : ℕ
  pub raw_write : Bool
  pub pc : ℕ → Pc

abbrev pub start : System
start = record { init = false; locked = false; inits = 0; raw_write = false; pc = λ i. idle }

abbrev pub set_pc : (ℕ → Pc) → ℕ → Pc → ℕ → Pc
set_pc pc i p j = if i == j then p else pc j

-- One access by user `i`. A wait for the lock is a step that is not made yet.
pub data Step (s : System) (i : ℕ) : System → Type 0 where
  swap :
      s.pc i ≡ idle
      → Step s i (record s { init = true; pc = set_pc s.pc i (if s.init then later else first) })
  lock_first :
      s.pc i ≡ first
      → s.locked ≡ false
      → Step s i (record s { locked = true; pc = set_pc s.pc i initialising })
  init_port :
      s.pc i ≡ initialising
      → Step s i (record s { inits = s.inits + 1; pc = set_pc s.pc i holding })
  lock_later :
      s.pc i ≡ later
      → s.locked ≡ false
      → Step s i (record s { locked = true; pc = set_pc s.pc i holding })
  write_fmt : s.pc i ≡ holding → Step s i (record s { raw_write = s.raw_write || s.inits == 0 })
  unlock : s.pc i ≡ holding → Step s i (record s { locked = false; pc = set_pc s.pc i idle })

pub data Reach : System → Type 0 where
  here : Reach start
  next : {s t : System} (i : ℕ) → Reach s → Step s i t → Reach t
