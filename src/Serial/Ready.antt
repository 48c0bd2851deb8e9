-- ===== src/Serial/Ready.antt =====
-- nacl/src/serial.rs: when the port is initialised.
use na_cl.Common.{ℕ, ◌≤◌, ◌≡◌, ◌≢◌, ◌⊎◌, inl, inr, refl, true, false, arith, Bool-cases}
use na_cl.Serial.{
  Pc, idle, first, later, initialising, holding, has_guard, owes, System, start, set_pc, Step,
  Reach,
}

-- What holds in every reachable state.
pub record IsSound (s : System) : Type 0 where
  pub flagged : (i : ℕ) → has_guard (s.pc i) ≡ true → s.locked ≡ true
  pub held : s.locked ≡ true → (i : ℕ) × (has_guard (s.pc i) ≡ true)
  pub unique : (i j : ℕ) → has_guard (s.pc i) ≡ true → has_guard (s.pc j) ≡ true → i ≡ j
  pub one_owes : (i j : ℕ) → owes (s.pc i) ≡ true → owes (s.pc j) ≡ true → i ≡ j
  pub untouched : (i : ℕ) → s.init ≡ false → owes (s.pc i) ≡ false
  pub before : s.init ≡ false → s.inits ≡ 0
  pub unpaid : (i : ℕ) → owes (s.pc i) ≡ true → s.inits ≡ 0
  pub paid : s.init ≡ true → (s.inits ≡ 1) ⊎ ((j : ℕ) × (owes (s.pc j) ≡ true))
  pub begun : (i : ℕ) → s.pc i ≢ idle → s.init ≡ true

pub start-IsSound : IsSound start
start-IsSound = record {
  flagged = λ i h. cc;
  held = λ h. cc;
  unique = λ i j h k. cc;
  one_owes = λ i j h k. cc;
  untouched = λ i h. refl;
  before = λ h. refl;
  unpaid = λ i h. refl;
  paid = λ h. cc;
  begun = λ i h. absurd (h refl);
}

-- A step of a user that does not owe the initialisation.
still_paid :
    (inits : ℕ) (pc : ℕ → Pc) (i : ℕ) (p : Pc)
    → owes (pc i) ≡ false
    → (inits ≡ 1) ⊎ ((j : ℕ) × (owes (pc j) ≡ true))
    → (inits ≡ 1) ⊎ ((j : ℕ) × (owes (set_pc pc i p j) ≡ true))
still_paid inits pc i p h (inl e) = inl e
still_paid inits pc i p h (inr (j, e)) = inr (j, ground arith)

pub Step-IsSound : {s : System} {i : ℕ} {t : System} → Step s i t → IsSound s → IsSound t
Step-IsSound {s} {i} {t} (Step.swap h) v = record {
  flagged = λ j hj. ground (arith, v.flagged j);
  held = λ e. let (j, g) = v.held e in (j, ground (arith, g));
  unique = λ j k hj hk. ground (arith, v.unique j k);
  one_owes = λ j k hj hk. ground (arith, v.one_owes j k, v.untouched j, v.untouched k);
  untouched = λ j e. cc;
  before = λ e. cc;
  unpaid = λ j hj. ground (arith, v.unpaid j, v.before);
  paid = λ e. elim (Bool-cases s.init) [
    | inl q ↦ rw q (still_paid s.inits s.pc i later (ground arith) (v.paid q))
    | inr q ↦ inr (i, ground arith)
  ];
  begun = λ j hj. refl;
}
Step-IsSound {s} {i} {t} (Step.lock_first h l) v = record {
  flagged = λ j hj. refl;
  held = λ e. (i, ground arith);
  unique = λ j k hj hk. ground (arith, v.flagged j, v.flagged k);
  one_owes = λ j k hj hk. ground (arith, v.one_owes j k, v.one_owes i k, v.one_owes j i);
  untouched = λ j e. ground (arith, v.untouched i);
  before = v.before;
  unpaid = λ j hj. ground (arith, v.unpaid i);
  paid = λ e. inr (i, ground arith);
  begun = λ j hj. ground (arith, v.begun i);
}
Step-IsSound {s} {i} {t} (Step.init_port h) v = record {
  flagged = λ j hj. ground (arith, v.flagged j, v.flagged i);
  held = λ e. (i, ground arith);
  unique = λ j k hj hk. ground (arith, v.unique j k, v.unique i k, v.unique j i);
  one_owes = λ j k hj hk. ground (arith, v.one_owes j k, v.one_owes i k, v.one_owes j i);
  untouched = λ j e. ground (arith, v.untouched j, v.untouched i);
  before = λ e. ground (arith, v.untouched i);
  unpaid = λ j hj. ground (arith, v.one_owes i j);
  paid = λ e. inl (ground (arith, v.unpaid i));
  begun = λ j hj. ground (arith, v.begun i);
}
Step-IsSound {s} {i} {t} (Step.lock_later h l) v = record {
  flagged = λ j hj. refl;
  held = λ e. (i, ground arith);
  unique = λ j k hj hk. ground (arith, v.flagged j, v.flagged k);
  one_owes = λ j k hj hk. ground (arith, v.one_owes j k);
  untouched = λ j e. ground (arith, v.untouched j);
  before = v.before;
  unpaid = λ j hj. ground (arith, v.unpaid j);
  paid = λ e. still_paid s.inits s.pc i holding (ground arith) (v.paid e);
  begun = λ j hj. ground (arith, v.begun i);
}
Step-IsSound {s} {i} {t} (Step.write_fmt h) v = record {
  flagged = v.flagged;
  held = v.held;
  unique = v.unique;
  one_owes = v.one_owes;
  untouched = v.untouched;
  before = v.before;
  unpaid = v.unpaid;
  paid = v.paid;
  begun = v.begun;
}
Step-IsSound {s} {i} {t} (Step.unlock h) v = record {
  flagged = λ j hj. ground (arith, v.unique i j);
  held = λ e. cc;
  unique = λ j k hj hk. ground (arith, v.unique j k);
  one_owes = λ j k hj hk. ground (arith, v.one_owes j k);
  untouched = λ j e. ground (arith, v.untouched j);
  before = v.before;
  unpaid = λ j hj. ground (arith, v.unpaid j);
  paid = λ e. still_paid s.inits s.pc i idle (ground arith) (v.paid e);
  begun = λ j hj. ground (arith, v.begun i);
}

pub Reach-IsSound : {s : System} → Reach s → IsSound s
Reach-IsSound Reach.here = start-IsSound
Reach-IsSound (Reach.next i r st) = Step-IsSound st (Reach-IsSound r)

owing-first :
    (s : System) (i j : ℕ) → IsSound s → s.pc i ≡ holding → owes (s.pc j) ≡ true → s.pc j ≡ first
owing-first s i j v h o = by_pc (s.pc j) refl
  where
    by_pc : (p : Pc) → s.pc j ≡ p → s.pc j ≡ first
    by_pc first e = e
    by_pc idle e = absurd (ground (arith, e, o))
    by_pc later e = absurd (ground (arith, e, o))
    by_pc holding e = absurd (ground (arith, e, o))
    by_pc initialising e = absurd (ground (arith, e, h, v.unique i j))

-- In every interleaving of its users the port is initialised once at most; and while a user holds the
-- guard to write, no other one holds it, and the port is initialised, unless another user stands
-- between its swap of `INIT` and its lock.
pub serial_ready :
    {s : System}
    → Reach s
    → (s.inits ≤ 1)
      × ((i : ℕ)
          → s.pc i ≡ holding
          → ((j : ℕ) → has_guard (s.pc j) ≡ true → j ≡ i)
            × ((s.inits ≡ 1) ⊎ ((j : ℕ) × (s.pc j ≡ first))))
serial_ready {s} r =
    let v = Reach-IsSound r in
    (
      (elim (Bool-cases s.init) [
        | inl q ↦ elim (v.paid q) [
          | inl e ↦ omega (arith, e)
          | inr (j, o) ↦ omega (arith, v.unpaid j o)
        ]
        | inr q ↦ omega (arith, v.before q)
      ]),
      λ i h. (
        λ j g. v.unique j i g (ground arith),
        (elim (v.paid (v.begun i (λ e. ground (arith, e, h)))) [
          | inl e ↦ inl e
          | inr (j, o) ↦ inr (j, owing-first s i j v h o)
        ]),
      ),
    )
