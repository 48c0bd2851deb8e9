-- ===== src/Serial/Nesting/Wedged.antt =====
-- nacl/src/serial.rs: what an exception does that comes while its processor holds the port, and whose
-- handler prints.
use na_cl.Common.{
  ℕ, ◌≡◌, ◌≢◌, ◌⊎◌, inl, inr, refl, sym, ◌∙◌, subst, ap, Bool, true, false, List, ◌∷◌, Bool-cases,
  ==_iff, ◌==◌, arith,
}
use na_cl.Serial
use na_cl.Serial.{Pc, idle, first, later, has_guard, System, set_pc}
use na_cl.Serial.Ready.{IsSound, Step-IsSound}
use na_cl.Serial.Nesting.{Frame, inside, Machine, set, MayPrint, IsOutside, Step, After}
use na_cl.Serial.Nesting.Coherent.{others_stay}
use na_cl.Serial.Nesting.Numbered.{Mentions, IsNumbered, Step-IsNumbered}

-- The innermost call of processor `c` waits for the lock, and an outer one holds it.
pub record IsWedged (m : Machine) (c i j : ℕ) : Type 0 where
  pub sound : IsSound m.port
  pub numbered : IsNumbered m
  pub b : Bool
  pub fs : List Frame
  pub top : m.calls c ≡ inside i b ∷ fs
  pub waits : (m.port.pc i ≡ first) ⊎ (m.port.pc i ≡ later)
  pub holds : has_guard (m.port.pc j) ≡ true
  pub outer : Mentions j fs
  pub disabled : m.flag c ≡ false

-- A user that waits for a lock that is taken makes no step.
waiting-stuck :
    (s : System) (i : ℕ) (t : System)
    → (s.pc i ≡ first) ⊎ (s.pc i ≡ later)
    → s.locked ≡ true
    → Serial.Step s i t
    → ⊥
waiting-stuck s i t w l (Serial.Step.swap h) = ground (arith, w, h)
waiting-stuck s i t w l (Serial.Step.lock_first h f) = cc (l, f)
waiting-stuck s i t w l (Serial.Step.init_port h) = ground (arith, w, h)
waiting-stuck s i t w l (Serial.Step.lock_later h f) = cc (l, f)
waiting-stuck s i t w l (Serial.Step.write_fmt h) = ground (arith, w, h)
waiting-stuck s i t w l (Serial.Step.unlock h) = ground (arith, w, h)

-- What a step of processor `d` leaves as it is, and what it does to the port.
record Local (m : Machine) (d : ℕ) (t : Machine) : Type 0 where
  elsewhere : (c : ℕ) → c ≢ d → (t.flag c ≡ m.flag c) × (t.calls c ≡ m.calls c)
  port : (t.port ≡ m.port) ⊎ ((k : ℕ) × Mentions k (m.calls d) × Serial.Step m.port k t.port)

set-other : {A : Type 0} (f : ℕ → A) (d c : ℕ) (a : A) → c ≢ d → set f d a c ≡ f c
set-other f d c a ne = let no : (d == c) ≡ false = ground (arith, ne) in rw no

Step-Local : {m : Machine} {d : ℕ} {t : Machine} → Step m d t → Local m d t
Step-Local {m} {d} (Step.print p) = record {
  elsewhere = λ c ne. (refl, set-other m.calls d c _ ne);
  port = inl refl;
}
Step-Local {m} {d} (Step.mask i fs e) = record {
  elsewhere = λ c ne. (set-other m.flag d c _ ne, set-other m.calls d c _ ne);
  port = inl refl;
}
Step-Local {m} {d} (Step.begin i b fs port e st) = record {
  elsewhere = λ c ne. (refl, set-other m.calls d c _ ne);
  port = inr (i, subst (Mentions i) (sym e) (inl refl), st);
}
Step-Local {m} {d} (Step.use_port i b fs port e a st) = record {
  elsewhere = λ c ne. (refl, refl);
  port = inr (i, subst (Mentions i) (sym e) (inl refl), st);
}
Step-Local {m} {d} (Step.unmask i b fs e a) = record {
  elsewhere = λ c ne. (set-other m.flag d c _ ne, set-other m.calls d c _ ne);
  port = inl refl;
}
Step-Local {m} {d} (Step.interrupt e) = record {
  elsewhere = λ c ne. (set-other m.flag d c _ ne, set-other m.calls d c _ ne);
  port = inl refl;
}
Step-Local {m} {d} (Step.fault o) = record {
  elsewhere = λ c ne. (set-other m.flag d c _ ne, set-other m.calls d c _ ne);
  port = inl refl;
}
Step-Local {m} {d} (Step.iret b fs e) = record {
  elsewhere = λ c ne. (set-other m.flag d c _ ne, set-other m.calls d c _ ne);
  port = inl refl;
}

module _ (m : Machine) (c i j : ℕ) (w : IsWedged m c i j) where
  pub locked : m.port.locked ≡ true
  locked = w.sound.flagged j w.holds

  pub stuck : {t : Machine} → Step m c t → ⊥
  stuck (Step.print p) = subst MayPrint w.top p
  stuck (Step.mask k gs e) = cc (w.top, e)
  stuck (Step.begin k s gs port e st) = cc (w.top, e)
  stuck (Step.use_port k s gs port e a st) =
      let same : k ≡ i = cc (sym e ∙ w.top) in
      waiting-stuck m.port i port w.waits locked (subst (λ x. Serial.Step m.port x port) same st)
  stuck (Step.unmask k s gs e a) =
      let same : k ≡ i = cc (sym e ∙ w.top) in ground (arith, w.waits, a, same)
  stuck (Step.interrupt e) = cc (w.disabled, e)
  stuck (Step.fault o) = subst IsOutside w.top o
  stuck (Step.iret s gs e) = cc (w.top, e)

  outer-mentioned : Mentions j (m.calls c)
  outer-mentioned = subst (Mentions j) (sym w.top) (inr w.outer)

  -- Another processor's step on the port leaves both users where they are.
  foreign :
      (d k : ℕ) (t : System)
      → d ≢ c
      → Mentions k (m.calls d)
      → Serial.Step m.port k t
      → (t.pc i ≡ m.port.pc i) × (t.pc j ≡ m.port.pc j)
  foreign d k t ne h st =
      let one : i ≢ k =
        λ e. ne (w.numbered.single d c k h (subst (Mentions k) (sym w.top) (inl e))) in
      let two : j ≢ k = λ e.
        ne (w.numbered.single d c k h (subst (λ x. Mentions x (m.calls c)) e outer-mentioned)) in
      (others_stay i st one, others_stay j st two)

  keeps : {d : ℕ} {t : Machine} → d ≢ c → Step m d t → IsWedged t c i j
  keeps {d} {t} ne st =
      let l = Step-Local st in
      let same = l.elsewhere c (λ e. ne (sym e)) in
      let (sound, waiting, holding) = kept l.port in
      record {
        sound = sound;
        numbered = Step-IsNumbered st w.numbered;
        b = w.b;
        fs = w.fs;
        top = same.1 ∙ w.top;
        waits = subst (λ p. (p ≡ first) ⊎ (p ≡ later)) (sym waiting) w.waits;
        holds = ap has_guard holding ∙ w.holds;
        outer = w.outer;
        disabled = same.0 ∙ w.disabled;
      }
    where
      kept :
          (t.port ≡ m.port) ⊎ ((k : ℕ) × Mentions k (m.calls d) × Serial.Step m.port k t.port)
          → IsSound t.port × (t.port.pc i ≡ m.port.pc i) × (t.port.pc j ≡ m.port.pc j)
      kept (inl e) = (
        subst IsSound (sym e) w.sound,
        ap (λ (s : System). s.pc i) e,
        ap (λ (s : System). s.pc j) e,
      )
      kept (inr (k, h, p)) =
          let (one, two) = foreign d k t.port ne h p in (Step-IsSound p w.sound, one, two)

-- A wedged processor makes no step, whatever the others do, and the lock stays taken.
abbrev pub IsStuck : Machine → ℕ → Type 0
IsStuck n c = (n.port.locked ≡ true) × ((t : Machine) → Step n c t → ⊥)

pub After-IsWedged : {m n : Machine} (c i j : ℕ) → IsWedged m c i j → After m n → IsWedged n c i j
After-IsWedged c i j w After.now = w
After-IsWedged {m} {n} c i j w (After.later_on {n = n₁} d a st) =
    let w' = After-IsWedged c i j w a in
    elim (Bool-cases (d == c)) [
      | inl q ↦ absurd (stuck n₁ c i j w' (subst (λ x. Step n₁ x n) ((==_iff d c).0 q) st))
      | inr q ↦ keeps n₁ c i j w' (λ e. absurd (ground (arith, q, e))) st
    ]
