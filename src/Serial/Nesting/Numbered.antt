-- ===== src/Serial/Nesting/Numbered.antt =====
-- nacl/src/serial.rs: a user of the port is a call of one processor.
use na_cl.Common.{
  ℕ, ◌+◌, ◌<◌, ◌≡◌, ◌⊎◌, inl, inr, refl, sym, ◌∙◌, subst, true, List, [], ◌∷◌, Bool-cases, ==_iff,
  ◌==◌, arith,
}
use na_cl.Serial.Nesting.{Frame, called, masked, inside, handling, Machine, set, Step, Reach}

-- One of the calls is by user `k`.
abbrev pub Mentions : ℕ → List Frame → Type 0
Mentions k [] = ⊥
Mentions k (called i ∷ fs) = (i ≡ k) ⊎ Mentions k fs
Mentions k (masked i b ∷ fs) = (i ≡ k) ⊎ Mentions k fs
Mentions k (inside i b ∷ fs) = (i ≡ k) ⊎ Mentions k fs
Mentions k (handling b ∷ fs) = Mentions k fs

-- The users that there are have numbers below the next one, and each is a call of one processor.
pub record IsNumbered (m : Machine) : Type 0 where
  pub small : (d k : ℕ) → Mentions k (m.calls d) → k < m.next
  pub single : (d e k : ℕ) → Mentions k (m.calls d) → Mentions k (m.calls e) → d ≡ e

-- What a processor mentions after its calls have changed.
Mentions-set :
    (calls : ℕ → List Frame) (c : ℕ) (fs : List Frame) (d k : ℕ)
    → Mentions k (set calls c fs d)
    → ((c ≡ d) × Mentions k fs) ⊎ Mentions k (calls d)
Mentions-set calls c fs d k h = elim (Bool-cases (c == d)) [
  | inl q ↦ inl ((==_iff c d).0 q, rw q at h)
  | inr q ↦ inr (rw q at h)
]

-- A change of one processor's calls that brings no new user.
pub narrower-IsNumbered :
    (m n : Machine) (c : ℕ) (fs : List Frame)
    → IsNumbered m
    → n.calls ≡ set m.calls c fs
    → n.next ≡ m.next
    → ((k : ℕ) → Mentions k fs → Mentions k (m.calls c))
    → IsNumbered n
narrower-IsNumbered m n c fs v e x less = record {
  small = λ d k h. subst (λ z. k < z) (sym x) (v.small d k (old d k h));
  single = λ d e k h g. v.single d e k (old d k h) (old e k g);
}
  where
    old : (d k : ℕ) → Mentions k (n.calls d) → Mentions k (m.calls d)
    old d k h = elim (Mentions-set m.calls c fs d k (subst (λ f. Mentions k (f d)) e h)) [
      | inl (same, g) ↦ subst (λ z. Mentions k (m.calls z)) same (less k g)
      | inr g ↦ g
    ]

-- A call by the next user.
print-IsNumbered :
    (m : Machine) (c : ℕ)
    → IsNumbered m
    → IsNumbered (record m { calls = set m.calls c (called m.next ∷ m.calls c); next = m.next + 1 })
print-IsNumbered m c v = record {
  small = λ d k h. elim (new d k h) [
    | inl (same, at) ↦ omega (arith, same)
    | inr g ↦ omega (arith, v.small d k g)
  ];
  single = λ d e k h g. elim (new d k h) [
    | inl (same, at) ↦ elim (new e k g) [
      | inl (same', at') ↦ sym at ∙ at'
      | inr g' ↦ absurd (omega (arith, same, v.small e k g'))
    ]
    | inr h' ↦ elim (new e k g) [
      | inl (same', at') ↦ absurd (omega (arith, same', v.small d k h'))
      | inr g' ↦ v.single d e k h' g'
    ]
  ];
}
  where
    new :
        (d k : ℕ)
        → Mentions k (set m.calls c (called m.next ∷ m.calls c) d)
        → ((m.next ≡ k) × (c ≡ d)) ⊎ Mentions k (m.calls d)
    new d k h = elim (Mentions-set m.calls c (called m.next ∷ m.calls c) d k h) [
      | inl (same, inl e) ↦ inl (e, same)
      | inl (same, inr g) ↦ inr (subst (λ z. Mentions k (m.calls z)) same g)
      | inr g ↦ inr g
    ]

pub Step-IsNumbered : {m : Machine} {c : ℕ} {n : Machine} → Step m c n → IsNumbered m → IsNumbered n
Step-IsNumbered {m} {c} {n} (Step.print p) v = print-IsNumbered m c v
Step-IsNumbered {m} {c} {n} (Step.mask i fs e) v =
    narrower-IsNumbered m n c (masked i (m.flag c) ∷ fs) v refl refl
      (λ k h. subst (Mentions k) (sym e) h)
Step-IsNumbered {m} {c} {n} (Step.begin i b fs port e st) v =
    narrower-IsNumbered m n c (inside i b ∷ fs) v refl refl (λ k h. subst (Mentions k) (sym e) h)
Step-IsNumbered {m} {c} {n} (Step.use_port i b fs port e a st) v = record {
  small = v.small;
  single = v.single;
}
Step-IsNumbered {m} {c} {n} (Step.unmask i b fs e a) v =
    narrower-IsNumbered m n c fs v refl refl (λ k h. subst (Mentions k) (sym e) (inr h))
Step-IsNumbered {m} {c} {n} (Step.interrupt e) v =
    narrower-IsNumbered m n c (handling true ∷ m.calls c) v refl refl (λ k h. h)
Step-IsNumbered {m} {c} {n} (Step.fault o) v =
    narrower-IsNumbered m n c (handling (m.flag c) ∷ m.calls c) v refl refl (λ k h. h)
Step-IsNumbered {m} {c} {n} (Step.iret b fs e) v =
    narrower-IsNumbered m n c fs v refl refl (λ k h. subst (Mentions k) (sym e) h)

pub Reach-IsNumbered : {m : Machine} → Reach m → IsNumbered m
Reach-IsNumbered Reach.here = record { small = λ d k h. absurd h; single = λ d e k h g. absurd h }
Reach-IsNumbered (Reach.next c r st) = Step-IsNumbered st (Reach-IsNumbered r)
