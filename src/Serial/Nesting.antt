-- ===== src/Serial/Nesting.antt =====
-- nacl/src/serial.rs: `_print` on several processors, with interrupts and exceptions whose handlers
-- print too.
pub mod Coherent
pub mod Progress
pub mod Numbered
pub mod Wedged
pub mod Handler
use na_cl.Common.{
  ℕ, zero, suc, ◌+◌, ◌≡◌, ◌≢◌, Bool, true, false, List, [], ◌∷◌, ◌==◌, if◌then◌else◌,
}
use na_cl.Serial
use na_cl.Serial.{idle, System}

-- What a processor does, the innermost call first: a call of `_print` by a user of the port, which has
-- not yet disabled interrupts, or has, or has begun with `serial1`; or a handler. A call that has
-- disabled interrupts keeps the flag that it will restore, as a handler does.
pub data Frame : Type 0 where
  called : ℕ → Frame
  masked : ℕ → Bool → Frame
  inside : ℕ → Bool → Frame
  handling : Bool → Frame

-- The port, the interrupt flag and the calls of each processor, and the next user of the port.
pub record Machine : Type 0 where
  pub port : System
  pub flag : ℕ → Bool
  pub calls : ℕ → List Frame
  pub next : ℕ

abbrev pub start : Machine
start = record { port = Serial.start; flag = λ c. true; calls = λ c. []; next = 0 }

abbrev pub set {ℓ} : {A : Type ℓ} → (ℕ → A) → ℕ → A → ℕ → A
set f c a d = if c == d then a else f d

-- The code that runs may call `_print`: it is not a call of `_print` itself.
abbrev pub MayPrint : List Frame → Type 0
MayPrint [] = Unit
MayPrint (handling b ∷ fs) = Unit
MayPrint (called i ∷ fs) = ⊥
MayPrint (masked i b ∷ fs) = ⊥
MayPrint (inside i b ∷ fs) = ⊥

-- No call of `_print` stands within `without_interrupts`, in the innermost call, and in any.
abbrev pub IsOutside : List Frame → Type 0
IsOutside [] = Unit
IsOutside (handling b ∷ fs) = Unit
IsOutside (called i ∷ fs) = Unit
IsOutside (masked i b ∷ fs) = ⊥
IsOutside (inside i b ∷ fs) = ⊥

-- One step of processor `c`. `without_interrupts` disables interrupts and afterwards restores the
-- flag. An interrupt needs the flag; an exception does not, but here it only comes outside of
-- `without_interrupts`. Their handlers run with interrupts disabled.
pub data Step (m : Machine) (c : ℕ) : Machine → Type 0 where
  print :
      MayPrint (m.calls c)
      → Step m c (record m { calls = set m.calls c (called m.next ∷ m.calls c); next = m.next + 1 })
  mask :
      (i : ℕ) (fs : List Frame)
      → m.calls c ≡ called i ∷ fs
      → Step m c
          (record m { flag = set m.flag c false; calls = set m.calls c (masked i (m.flag c) ∷ fs) })
  begin :
      (i : ℕ) (b : Bool) (fs : List Frame) (port : System)
      → m.calls c ≡ masked i b ∷ fs
      → Serial.Step m.port i port
      → Step m c (record m { port = port; calls = set m.calls c (inside i b ∷ fs) })
  use_port :
      (i : ℕ) (b : Bool) (fs : List Frame) (port : System)
      → m.calls c ≡ inside i b ∷ fs
      → m.port.pc i ≢ idle
      → Serial.Step m.port i port
      → Step m c (record m { port = port })
  unmask :
      (i : ℕ) (b : Bool) (fs : List Frame)
      → m.calls c ≡ inside i b ∷ fs
      → m.port.pc i ≡ idle
      → Step m c (record m { flag = set m.flag c b; calls = set m.calls c fs })
  interrupt :
      m.flag c ≡ true
      → Step m c (record m {
        flag = set m.flag c false;
        calls = set m.calls c (handling true ∷ m.calls c);
      })
  fault :
      IsOutside (m.calls c)
      → Step m c (record m {
        flag = set m.flag c false;
        calls = set m.calls c (handling (m.flag c) ∷ m.calls c);
      })
  iret :
      (b : Bool) (fs : List Frame)
      → m.calls c ≡ handling b ∷ fs
      → Step m c (record m { flag = set m.flag c b; calls = set m.calls c fs })

pub data Reach : Machine → Type 0 where
  here : Reach start
  next : {m n : Machine} (c : ℕ) → Reach m → Step m c n → Reach n

-- A number of steps of processor `c` alone.
pub data Steps (c : ℕ) (m : Machine) : ℕ → Machine → Type 0 where
  stay : Steps c m zero m
  go : {k : ℕ} {n t : Machine} → Steps c m k n → Step n c t → Steps c m (suc k) t

-- An exception on processor `c`, wherever it stands.
abbrev pub raised : Machine → ℕ → Machine
raised m c = record m {
  flag = set m.flag c false;
  calls = set m.calls c (handling (m.flag c) ∷ m.calls c);
}

-- What follows: steps of any processors.
pub data After (m : Machine) : Machine → Type 0 where
  now : After m m
  later_on : {n t : Machine} (d : ℕ) → After m n → Step n d t → After m t
