-- ===== src/Machine/Boot/Kept.antt =====
-- Parts of the boot sequence in nacl/src/arch/x86_64 that leave what has been set up, and what follows
-- them.
use na_cl.Common.{ℕ, ◌≡◌, refl, ◌∙◌, Option, none, some}
use na_cl.Machine.{Io, ◌>>=◌, expect}
use na_cl.Machine.Protocol.{Safe, Safe-bind}
use na_cl.Machine.Boot.{Setup, boot}

-- Nothing that has been set up changes, but for volatile memory.
pub record Kept (p q : Setup) : Type 0 where
  pub gdt : q.gdt ≡ p.gdt
  pub tss : q.tss ≡ p.tss
  pub idt : q.idt ≡ p.idt
  pub pics_off : q.pics_off ≡ p.pics_off
  pub lapic : q.lapic ≡ p.lapic
  pub interrupts : q.interrupts ≡ p.interrupts
  pub ticks : q.ticks ≡ p.ticks

pub Kept-refl : (p : Setup) → Kept p p
Kept-refl p = record {
  gdt = refl;
  tss = refl;
  idt = refl;
  pics_off = refl;
  lapic = refl;
  interrupts = refl;
  ticks = refl;
}

pub Kept-trans : {p q r : Setup} → Kept p q → Kept q r → Kept p r
Kept-trans a b = record {
  gdt = b.gdt ∙ a.gdt;
  tss = b.tss ∙ a.tss;
  idt = b.idt ∙ a.idt;
  pics_off = b.pics_off ∙ a.pics_off;
  lapic = b.lapic ∙ a.lapic;
  interrupts = b.interrupts ∙ a.interrupts;
  ticks = b.ticks ∙ a.ticks;
}

-- Writes to volatile memory change nothing else.
pub Kept-written : (p : Setup) (w : ℕ → Option ℕ) → Kept p (record p { written = w })
Kept-written p w = record {
  gdt = refl;
  tss = refl;
  idt = refl;
  pics_off = refl;
  lapic = refl;
  interrupts = refl;
  ticks = refl;
}

-- A program that leaves what has been set up, and what follows it.
pub Safe-kept :
    {A B : Type 0} (p : Setup) (m : Io A) (f : A → Io B) (Q : Setup → B → Type 0)
    → Safe boot p m (λ q u. Kept p q)
    → ((q : Setup) (a : A) → Kept p q → Safe boot q (f a) Q)
    → Safe boot p (m >>= f) Q
Safe-kept p m f Q s h = Safe-bind boot p m f (λ q u. Kept p q) Q s h

pub expect-Safe :
    {A : Type 0} (p : Setup) (o : Option A) → Safe boot p (expect o) (λ q a. (q ≡ p) × (o ≡ some a))
expect-Safe p none = tt
expect-Safe p (some a) = (refl, refl)

-- `unwrap` and what follows it.
pub Safe-expect :
    {A B : Type 0} (p : Setup) (o : Option A) (f : A → Io B) (Q : Setup → B → Type 0)
    → ((a : A) → o ≡ some a → Safe boot p (f a) Q)
    → Safe boot p (expect o >>= f) Q
Safe-expect p none f Q h = tt
Safe-expect p (some a) f Q h = h a refl
