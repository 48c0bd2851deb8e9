-- ===== src/Machine.antt =====
-- How nacl/src drives the processor and its devices: a program is a tree of the effects that it
-- performs, each with what it does on every answer, so that nothing is assumed of the hardware.
pub mod Protocol
pub mod Boot
use na_cl.Common.{ℕ, zero, suc, Bool, true, false, Option, none, some, List, [], ◌∷◌, if◌then◌else◌}

-- What the kernel does outside its own data: instructions, ports and volatile accesses, and the
-- statics that interrupt handlers share with the code that they interrupt.
pub data Effect : Type 0 where
  read_volatile : ℕ → Effect
  write_volatile : ℕ → ℕ → Effect
  port_write : ℕ → ℕ → Effect
  load_gdt load_idt : Effect
  set_cs set_ss set_ds load_tss : ℕ → Effect
  pics_initialize pics_disable : Effect
  enable_interrupts disable_interrupts : Effect
  halt : Effect
  get_lapic : Effect
  set_lapic : ℕ → Effect
  get_timer : ℕ → Effect
  set_timer : ℕ → ℕ → Effect
  get_scratch_timer : Effect
  set_scratch_timer : ℕ → Effect
  store_ticks : ℕ → Effect
  sprint : Effect

-- A call: it returns, panics, runs out of the fuel of one of its loops, or performs an effect and
-- goes on with the answer. Effects that give nothing have an answer that is not used.
pub data Io (A : Type 0) : Type 0 where
  ret : A → Io A
  panicked : Io A
  spent : Io A
  act : Effect → (ℕ → Io A) → Io A

infixl 5 ◌>>=◌ ◌>>◌
abbrev pub ◌>>=◌ : {A B : Type 0} → Io A → (A → Io B) → Io B
ret a >>= next = next a
panicked >>= next = panicked
spent >>= next = spent
act e k >>= next = act e (λ n. k n >>= next)

abbrev pub ◌>>◌ : {A B : Type 0} → Io A → Io B → Io B
first >> second = first >>= λ _. second

-- An effect whose answer is used, and one whose answer is not.
abbrev pub ask : Effect → Io ℕ
ask e = act e ret

abbrev pub perform : Effect → Io (Unit {0})
perform e = act e (λ _. ret tt)

-- `unwrap` and `expect`.
abbrev pub expect : {A : Type 0} → Option A → Io A
expect none = panicked
expect (some a) = ret a
