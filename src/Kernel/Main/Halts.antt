-- ===== src/Kernel/Main/Halts.antt =====
-- nacl/src/main.rs: how often the processor has been halted since it last did anything else.
use na_cl.Common.{
  ℕ, ◌+◌, ◌<◌, ◌≡◌, refl, ap, ◌∙◌, true, false, inl, inr, ltb, Bool-cases, if◌then◌else◌, arith,
}
use na_cl.Machine.{
  Effect, Io, ret, panicked, spent, act, halt, enable_interrupts, disable_interrupts,
}
use na_cl.Machine.Protocol.{Protocol, Safe, Simulates}
use na_cl.Machine.Boot.{Setup, boot, handlers_ready, is_some}
use na_cl.Interrupts.{cpu_number}
use na_cl.Executor.Turns.{Resting, resting}

-- The halts since the last effect that neither halts nor enables or disables interrupts.
abbrev pub count : ℕ → Effect → ℕ
count k halt = k + 1
count k enable_interrupts = k
count k disable_interrupts = k
count k _ = 0

-- A protocol, and the halts beside its phase.
abbrev pub counted : Protocol → Protocol
counted pr = record {
  Phase = pr.Phase × ℕ;
  Allowed = λ p e. pr.Allowed p.0 e;
  Answers = λ p e n. pr.Answers p.0 e n;
  next = λ p e n. (pr.next p.0 e n, count p.1 e);
}

-- Counting the halts does not change what a program may do.
pub Safe-counted :
    {A : Type 0} (pr : Protocol) (p : pr.Phase) (k : ℕ) (m : Io A) (Q : pr.Phase → A → Type 0)
    → Safe pr p m Q
    → Safe (counted pr) (p, k) m (λ q a. Q q.0 a)
Safe-counted pr p k (ret a) Q s = s
Safe-counted pr p k panicked Q s = tt
Safe-counted pr p k spent Q s = tt
Safe-counted pr p k (act e f) Q s =
    (s.0, λ n a. Safe-counted pr (pr.next p e n) (count k e) (f n) Q (s.1 n a))

-- Reading the number of the processor is such an effect.
pub cpu_number-counted :
    (p : Setup) (k : ℕ)
    → is_some p.lapic ≡ true
    → Safe (counted boot) (p, k) cpu_number (λ q n. (q ≡ (p, 0)) × (n < 64))
cpu_number-counted p k h = (h, λ l a. (tt, λ id b. bounded id))
  where
    bounded :
        (id : ℕ)
        → Safe
            (counted boot)
            (p, 0)
            (if ltb id 64 then ret id else panicked)
            (λ q n. (q ≡ (p, 0)) × (n < 64))
    bounded id = elim (Bool-cases (ltb id 64)) [
      | inl e ↦ rw e (refl, ground arith)
      | inr e ↦ rw e tt
    ]

-- A processor whose handlers are ready goes along with the turns of `run`, and has been halted as often.
abbrev pub WithFlag : Setup → Resting → Setup × ℕ → Type 0
WithFlag p₀ p q = (q.0 ≡ record p₀ { interrupts = p.interrupts }) × (q.1 ≡ p.halts)

pub turns-boot :
    (p₀ : Setup) → handlers_ready p₀ ≡ true → Simulates resting (counted boot) (WithFlag p₀)
turns-boot p₀ ready = record { follows = follow }
  where
    follow :
        (p : Resting) (q : Setup × ℕ) (e : Effect)
        → WithFlag p₀ p q
        → resting.Allowed p e
        → (counted boot).Allowed q e
          × ((n : ℕ)
              → (counted boot).Answers q e n
              → resting.Answers p e n
                × WithFlag p₀ (resting.next p e n) ((counted boot).next q e n))
    follow p q enable_interrupts r a = (
      ap handlers_ready r.0 ∙ ready,
      λ n b. (tt, (ap {A = Setup} {B = Setup} (λ s. record s { interrupts = true }) r.0, r.1)),
    )
    follow p q disable_interrupts r a = (
      tt,
      λ n b. (tt, (ap {A = Setup} {B = Setup} (λ s. record s { interrupts = false }) r.0, r.1)),
    )
    follow p q halt r a =
        (ap (λ (s : Setup). s.interrupts) r.0 ∙ a, λ n b. (tt, (r.0, ap (λ k. k + 1) r.1)))
    follow p q _ r a = absurd a
