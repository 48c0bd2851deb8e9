-- ===== src/Serial/Nesting/Coherent.antt =====
-- nacl/src/serial.rs: what holds of every processor that prints.
use na_cl.Common.{
  ℕ, ◌≡◌, ◌≢◌, inl, inr, refl, sym, ◌∙◌, subst, Bool, true, false, List, [], ◌∷◌, Bool-cases,
  ==_iff, ◌==◌, arith,
}
use na_cl.Serial
use na_cl.Serial.{Pc, idle, first, later, initialising, holding, has_guard, System, set_pc}
use na_cl.Serial.Ready.{IsSound, Step-IsSound, start-IsSound}
use na_cl.Serial.Nesting.{
  Frame, called, masked, inside, handling, Machine, set, MayPrint, IsOutside, Step, Reach,
}

-- No call of `_print` stands within `without_interrupts`.
abbrev pub IsQuiet : List Frame → Type 0
IsQuiet [] = Unit
IsQuiet (called i ∷ fs) = IsQuiet fs
IsQuiet (handling b ∷ fs) = IsQuiet fs
IsQuiet (masked i b ∷ fs) = ⊥
IsQuiet (inside i b ∷ fs) = ⊥

-- Only the innermost call may stand there, and then interrupts are disabled.
abbrev pub IsOrdered : Bool → List Frame → Type 0
IsOrdered b [] = Unit
IsOrdered b (called i ∷ fs) = IsQuiet fs
IsOrdered b (handling s ∷ fs) = IsQuiet fs
IsOrdered b (masked i s ∷ fs) = (b ≡ false) × IsQuiet fs
IsOrdered b (inside i s ∷ fs) = (b ≡ false) × IsQuiet fs

quiet-IsOrdered : (b : Bool) (fs : List Frame) → IsQuiet fs → IsOrdered b fs
quiet-IsOrdered b [] q = tt
quiet-IsOrdered b (called i ∷ fs) q = q
quiet-IsOrdered b (handling s ∷ fs) q = q
quiet-IsOrdered b (masked i s ∷ fs) q = absurd q
quiet-IsOrdered b (inside i s ∷ fs) q = absurd q

outside-IsQuiet : (b : Bool) (fs : List Frame) → IsOrdered b fs → IsOutside fs → IsQuiet fs
outside-IsQuiet b [] o q = tt
outside-IsQuiet b (called i ∷ fs) o q = o
outside-IsQuiet b (handling s ∷ fs) o q = o
outside-IsQuiet b (masked i s ∷ fs) o q = absurd q
outside-IsQuiet b (inside i s ∷ fs) o q = absurd q

enabled-IsOutside : (b : Bool) (fs : List Frame) → IsOrdered b fs → b ≡ true → IsOutside fs
enabled-IsOutside b [] o e = tt
enabled-IsOutside b (called i ∷ fs) o e = tt
enabled-IsOutside b (handling s ∷ fs) o e = tt
enabled-IsOutside b (masked i s ∷ fs) o e = absurd (cc (e, o.0))
enabled-IsOutside b (inside i s ∷ fs) o e = absurd (cc (e, o.0))

printing-IsOutside : (fs : List Frame) → MayPrint fs → IsOutside fs
printing-IsOutside [] p = tt
printing-IsOutside (called i ∷ fs) p = absurd p
printing-IsOutside (handling s ∷ fs) p = tt
printing-IsOutside (masked i s ∷ fs) p = absurd p
printing-IsOutside (inside i s ∷ fs) p = absurd p

-- The innermost call of processor `c` uses the port as user `i`.
abbrev pub Uses : Machine → ℕ → ℕ → Type 0
Uses m c i = (b : Bool) × (fs : List Frame) × (m.calls c ≡ inside i b ∷ fs)

-- What holds in every reachable state.
pub record IsCoherent (m : Machine) : Type 0 where
  pub sound : IsSound m.port
  pub ordered : (c : ℕ) → IsOrdered (m.flag c) (m.calls c)
  pub active : (i : ℕ) → m.port.pc i ≢ idle → (c : ℕ) × Uses m c i

-- A step that changes the flag and the calls of one processor only.
set-IsOrdered :
    (flag : ℕ → Bool) (calls : ℕ → List Frame) (c : ℕ) (b : Bool) (fs : List Frame)
    → ((d : ℕ) → IsOrdered (flag d) (calls d))
    → IsOrdered b fs
    → (d : ℕ) → IsOrdered (set flag c b d) (set calls c fs d)
set-IsOrdered flag calls c b fs h k d = elim (Bool-cases (c == d)) [
  | inl q ↦ rw q k
  | inr q ↦ rw q (h d)
]

-- A step of processor `c`, whose innermost call was not inside as user `i`, and the user.
set-active :
    (calls : ℕ → List Frame) (c i : ℕ) (gs : List Frame)
    → ((b : Bool) (fs : List Frame) → calls c ≢ inside i b ∷ fs)
    → (d : ℕ) × ((b : Bool) × (fs : List Frame) × (calls d ≡ inside i b ∷ fs))
    → (d : ℕ) × ((b : Bool) × (fs : List Frame) × (set calls c gs d ≡ inside i b ∷ fs))
set-active calls c i gs other (d, (b, fs, e)) = elim (Bool-cases (c == d)) [
  | inl q ↦ absurd (other b fs (subst (λ x. calls x ≡ inside i b ∷ fs) (sym ((==_iff c d).0 q)) e))
  | inr q ↦ (d, (b, fs, rw q e))
]

-- A step that leaves the flags as they are.
calls-IsOrdered :
    (flag : ℕ → Bool) (calls : ℕ → List Frame) (c : ℕ) (fs : List Frame)
    → ((d : ℕ) → IsOrdered (flag d) (calls d))
    → IsOrdered (flag c) fs
    → (d : ℕ) → IsOrdered (flag d) (set calls c fs d)
calls-IsOrdered flag calls c fs h k d = elim (Bool-cases (c == d)) [
  | inl q ↦ rw q (subst (λ x. IsOrdered (flag x) fs) ((==_iff c d).0 q) k)
  | inr q ↦ rw q (h d)
]

not_inside :
    (gs : List Frame) → IsOutside gs → (j : ℕ) (b : Bool) (fs : List Frame) → gs ≢ inside j b ∷ fs
not_inside gs o j b fs e = subst IsOutside e o

innermost-IsQuiet :
    (b : Bool) (f : Frame) (fs gs : List Frame) → gs ≡ f ∷ fs → IsOrdered b gs → IsQuiet fs
innermost-IsQuiet b (called i) fs gs e o = subst (IsOrdered b) e o
innermost-IsQuiet b (handling s) fs gs e o = subst (IsOrdered b) e o
innermost-IsQuiet b (masked i s) fs gs e o =
    let h : (b ≡ false) × IsQuiet fs = subst (IsOrdered b) e o in h.1
innermost-IsQuiet b (inside i s) fs gs e o =
    let h : (b ≡ false) × IsQuiet fs = subst (IsOrdered b) e o in h.1

-- Within `without_interrupts`, interrupts are disabled.
masked-disabled :
    (b : Bool) (i : ℕ) (s : Bool) (fs gs : List Frame)
    → gs ≡ masked i s ∷ fs
    → IsOrdered b gs
    → b ≡ false
masked-disabled b i s fs gs e o = let h : (b ≡ false) × IsQuiet fs = subst (IsOrdered b) e o in h.0

pub inside-disabled :
    (b : Bool) (i : ℕ) (s : Bool) (fs gs : List Frame)
    → gs ≡ inside i s ∷ fs
    → IsOrdered b gs
    → b ≡ false
inside-disabled b i s fs gs e o = let h : (b ≡ false) × IsQuiet fs = subst (IsOrdered b) e o in h.0

-- A step of a user leaves the others where they are.
pub others_stay :
    {s : System} {i : ℕ} {t : System} (j : ℕ) → Serial.Step s i t → j ≢ i → t.pc j ≡ s.pc j
others_stay j (Serial.Step.swap h) ne = ground arith
others_stay j (Serial.Step.lock_first h l) ne = ground arith
others_stay j (Serial.Step.init_port h) ne = ground arith
others_stay j (Serial.Step.lock_later h l) ne = ground arith
others_stay j (Serial.Step.write_fmt h) ne = refl
others_stay j (Serial.Step.unlock h) ne = ground arith

Step-IsCoherent : {m : Machine} {c : ℕ} {n : Machine} → Step m c n → IsCoherent m → IsCoherent n
Step-IsCoherent {m} {c} {n} (Step.print p) v =
    let out = printing-IsOutside (m.calls c) p in
    record {
      sound = v.sound;
      ordered =
          calls-IsOrdered m.flag m.calls c _ v.ordered
            (outside-IsQuiet (m.flag c) (m.calls c) (v.ordered c) out);
      active = λ j a. set-active m.calls c j _ (not_inside (m.calls c) out j) (v.active j a);
    }
Step-IsCoherent {m} {c} {n} (Step.mask i fs e) v = record {
  sound = v.sound;
  ordered =
      set-IsOrdered m.flag m.calls c false _ v.ordered
        (refl, innermost-IsQuiet (m.flag c) (called i) fs (m.calls c) e (v.ordered c));
  active = λ j a. set-active m.calls c j _ (λ b gs k. cc (e, k)) (v.active j a);
}
Step-IsCoherent {m} {c} {n} (Step.begin i b fs port e st) v = record {
  sound = Step-IsSound st v.sound;
  ordered = calls-IsOrdered m.flag m.calls c _ v.ordered (
    masked-disabled (m.flag c) i b fs (m.calls c) e (v.ordered c),
    innermost-IsQuiet (m.flag c) (masked i b) fs (m.calls c) e (v.ordered c),
  );
  active = λ j a. elim (Bool-cases (j == i)) [
    | inl q ↦ (c, (b, fs, ground (arith, q)))
    | inr q ↦
        let ne : j ≢ i = λ same. absurd (ground (arith, q, same)) in
        set-active m.calls c j _ (λ b gs k. cc (e, k))
          (v.active j (λ k. a (others_stay j st ne ∙ k)))
  ];
}
Step-IsCoherent {m} {c} {n} (Step.use_port i b fs port e busy st) v = record {
  sound = Step-IsSound st v.sound;
  ordered = v.ordered;
  active = λ j a. elim (Bool-cases (j == i)) [
    | inl q ↦ (c, (b, fs, ground (arith, q, e)))
    | inr q ↦
        let ne : j ≢ i = λ same. absurd (ground (arith, q, same)) in
        v.active j (λ k. a (others_stay j st ne ∙ k))
  ];
}
Step-IsCoherent {m} {c} {n} (Step.unmask i b fs e done) v = record {
  sound = v.sound;
  ordered = set-IsOrdered m.flag m.calls c b fs v.ordered (
      quiet-IsOrdered b fs
        (innermost-IsQuiet (m.flag c) (inside i b) fs (m.calls c) e (v.ordered c)));
  active = λ j a. set-active m.calls c j _ (λ s gs k. ground (arith, e, k, a, done)) (v.active j a);
}
Step-IsCoherent {m} {c} {n} (Step.interrupt e) v =
    let out = enabled-IsOutside (m.flag c) (m.calls c) (v.ordered c) e in
    record {
      sound = v.sound;
      ordered =
          set-IsOrdered m.flag m.calls c false _ v.ordered
            (outside-IsQuiet (m.flag c) (m.calls c) (v.ordered c) out);
      active = λ j a. set-active m.calls c j _ (not_inside (m.calls c) out j) (v.active j a);
    }
Step-IsCoherent {m} {c} {n} (Step.fault out) v = record {
  sound = v.sound;
  ordered =
      set-IsOrdered m.flag m.calls c false _ v.ordered
        (outside-IsQuiet (m.flag c) (m.calls c) (v.ordered c) out);
  active = λ j a. set-active m.calls c j _ (not_inside (m.calls c) out j) (v.active j a);
}
Step-IsCoherent {m} {c} {n} (Step.iret b fs e) v = record {
  sound = v.sound;
  ordered = set-IsOrdered m.flag m.calls c b fs v.ordered (
      quiet-IsOrdered b fs
        (innermost-IsQuiet (m.flag c) (handling b) fs (m.calls c) e (v.ordered c)));
  active = λ j a. set-active m.calls c j _ (λ s gs k. cc (e, k)) (v.active j a);
}

pub Reach-IsCoherent : {m : Machine} → Reach m → IsCoherent m
Reach-IsCoherent Reach.here = record {
  sound = start-IsSound;
  ordered = λ c. tt;
  active = λ i a. absurd (a refl);
}
Reach-IsCoherent (Reach.next c r st) = Step-IsCoherent st (Reach-IsCoherent r)
