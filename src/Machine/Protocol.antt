-- ===== src/Machine/Protocol.antt =====
-- A protocol that programs keep with the hardware, and what keeping it means.
use na_cl.Common.{ℕ, ◌≡◌, sym, subst, Option, some, List, [], ◌∷◌}
use na_cl.Machine.{Effect, Io, ret, panicked, spent, act, ◌>>=◌, expect}

-- A state machine over effects: which are allowed, which answers can come, and the state after.
pub record Protocol : Type 1 where
  pub Phase : Type 0
  pub Allowed : Phase → Effect → Type 0
  pub Answers : Phase → Effect → ℕ → Type 0
  pub next : Phase → Effect → ℕ → Phase

module _ (pr : Protocol) where
  open pr use {Phase, Allowed, Answers, next}

  -- From a phase, a program performs only effects that are allowed, whatever is answered, and what
  -- it returns satisfies `Q` in the phase that it leaves.
  abbrev pub Safe : {A : Type 0} → Phase → Io A → (Phase → A → Type 0) → Type 0
  Safe p (ret a) Q = Q p a
  Safe p panicked Q = Unit
  Safe p spent Q = Unit
  Safe p (act e k) Q = Allowed p e × ((n : ℕ) → Answers p e n → Safe (next p e n) (k n) Q)

  -- A program and what follows it.
  pub Safe-bind :
      {A B : Type 0} (p : Phase) (m : Io A) (f : A → Io B) (P : Phase → A → Type 0)
      (Q : Phase → B → Type 0)
      → Safe p m P
      → ((q : Phase) (a : A) → P q a → Safe q (f a) Q)
      → Safe p (m >>= f) Q
  Safe-bind p (ret a) f P Q s h = h p a s
  Safe-bind p panicked f P Q s h = tt
  Safe-bind p spent f P Q s h = tt
  Safe-bind p (act e k) f P Q s h = (s.0, λ n a. Safe-bind (next p e n) (k n) f P Q (s.1 n a) h)

  pub Safe-mono :
      {A : Type 0} (p : Phase) (m : Io A) (P Q : Phase → A → Type 0)
      → Safe p m P
      → ((q : Phase) (a : A) → P q a → Q q a)
      → Safe p m Q
  Safe-mono p (ret a) P Q s h = h p a s
  Safe-mono p panicked P Q s h = tt
  Safe-mono p spent P Q s h = tt
  Safe-mono p (act e k) P Q s h = (s.0, λ n a. Safe-mono (next p e n) (k n) P Q (s.1 n a) h)

  -- A run of a program from a phase, up to a point, with the effects performed on the way.
  pub data Run {A : Type 0} (p : Phase) (m : Io A) : Phase → Io A → List Effect → Type 0 where
    start : Run p m p m []
    step :
        {q : Phase} {es : List Effect} (e : Effect) (k : ℕ → Io A) (n : ℕ)
        → Run p m q (act e k) es
        → Answers q e n
        → Run p m (next q e n) (k n) (e ∷ es)

  -- Safety is kept along every run.
  pub Run-Safe :
      {A : Type 0} {p : Phase} {m : Io A} (Q : Phase → A → Type 0) {q : Phase} {m' : Io A}
      {es : List Effect}
      → Safe p m Q
      → Run p m q m' es
      → Safe q m' Q
  Run-Safe Q s Run.start = s
  Run-Safe Q s (Run.step e k n r a) = (Run-Safe Q s r).1 n a

  -- A program that leaves the phase as it is, and what follows it.
  pub Safe-same :
      {A B : Type 0} (p : Phase) (m : Io A) (f : A → Io B) (Q : Phase → B → Type 0)
      → Safe p m (λ q a. q ≡ p)
      → ((a : A) → Safe p (f a) Q)
      → Safe p (m >>= f) Q
  Safe-same p m f Q s h =
      Safe-bind p m f (λ q a. q ≡ p) Q s (λ q a e. subst (λ r. Safe r (f a) Q) (sym e) (h a))

  -- From a phase, a program performs only effects that are allowed, and it comes to its end without a
  -- panic and without running out of fuel, whatever is answered.
  abbrev pub Sure : {A : Type 0} → Phase → Io A → (Phase → A → Type 0) → Type 0
  Sure p (ret a) Q = Q p a
  Sure p panicked Q = ⊥
  Sure p spent Q = ⊥
  Sure p (act e k) Q = Allowed p e × ((n : ℕ) → Answers p e n → Sure (next p e n) (k n) Q)

  pub Sure-bind :
      {A B : Type 0} (p : Phase) (m : Io A) (f : A → Io B) (P : Phase → A → Type 0)
      (Q : Phase → B → Type 0)
      → Sure p m P
      → ((q : Phase) (a : A) → P q a → Sure q (f a) Q)
      → Sure p (m >>= f) Q
  Sure-bind p (ret a) f P Q s h = h p a s
  Sure-bind p panicked f P Q s h = absurd s
  Sure-bind p spent f P Q s h = absurd s
  Sure-bind p (act e k) f P Q s h = (s.0, λ n a. Sure-bind (next p e n) (k n) f P Q (s.1 n a) h)

  pub Sure-mono :
      {A : Type 0} (p : Phase) (m : Io A) (P Q : Phase → A → Type 0)
      → Sure p m P
      → ((q : Phase) (a : A) → P q a → Q q a)
      → Sure p m Q
  Sure-mono p (ret a) P Q s h = h p a s
  Sure-mono p panicked P Q s h = s
  Sure-mono p spent P Q s h = s
  Sure-mono p (act e k) P Q s h = (s.0, λ n a. Sure-mono (next p e n) (k n) P Q (s.1 n a) h)

  -- `unwrap` of a value, and what follows it.
  pub Sure-expect :
      {A B : Type 0} (p : Phase) (o : Option A) (a : A) (f : A → Io B) (Q : Phase → B → Type 0)
      → o ≡ some a
      → Sure p (f a) Q
      → Sure p (expect o >>= f) Q
  Sure-expect p o a f Q e h = subst (λ m. Sure p (expect m >>= f) Q) (sym e) h

  -- What comes to its end performs only effects that are allowed.
  pub Sure-Safe :
      {A : Type 0} (p : Phase) (m : Io A) (Q : Phase → A → Type 0) → Sure p m Q → Safe p m Q
  Sure-Safe p (ret a) Q s = s
  Sure-Safe p panicked Q s = absurd s
  Sure-Safe p spent Q s = absurd s
  Sure-Safe p (act e k) Q s = (s.0, λ n a. Sure-Safe (next p e n) (k n) Q (s.1 n a))

-- A relation between the phases of two protocols that every effect keeps which the first allows: the
-- second allows it too, and gives no answer that the first does not.
pub record Simulates (pr₁ pr₂ : Protocol) (R : pr₁.Phase → pr₂.Phase → Type 0) : Type 0 where
  pub follows :
      (p₁ : pr₁.Phase) (p₂ : pr₂.Phase) (e : Effect)
      → R p₁ p₂
      → pr₁.Allowed p₁ e
      → pr₂.Allowed p₂ e
        × ((n : ℕ)
            → pr₂.Answers p₂ e n
            → pr₁.Answers p₁ e n × R (pr₁.next p₁ e n) (pr₂.next p₂ e n))

-- What holds of a program under one protocol holds of it under one that simulates it.
pub Sure-simulated :
    (pr₁ pr₂ : Protocol) (R : pr₁.Phase → pr₂.Phase → Type 0) {A : Type 0} (p₁ : pr₁.Phase)
    (p₂ : pr₂.Phase) (m : Io A) (Q : pr₁.Phase → A → Type 0)
    → Simulates pr₁ pr₂ R
    → R p₁ p₂
    → Sure pr₁ p₁ m Q
    → Sure pr₂ p₂ m (λ q₂ a. (q₁ : pr₁.Phase) × R q₁ q₂ × Q q₁ a)
Sure-simulated pr₁ pr₂ R p₁ p₂ (ret a) Q f r s = (p₁, r, s)
Sure-simulated pr₁ pr₂ R p₁ p₂ panicked Q f r s = absurd s
Sure-simulated pr₁ pr₂ R p₁ p₂ spent Q f r s = absurd s
Sure-simulated pr₁ pr₂ R p₁ p₂ (act e k) Q f r s =
    let (allowed, goes) = f.follows p₁ p₂ e r s.0 in
    (
      allowed,
      λ n a.
          let (answered, r') = goes n a in
          Sure-simulated pr₁ pr₂ R (pr₁.next p₁ e n) (pr₂.next p₂ e n) (k n) Q f r'
            (s.1 n answered),
    )
