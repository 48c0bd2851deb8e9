-- ===== src/Serial/Nesting/Progress.antt =====
-- nacl/src/serial.rs: a processor that waits for the port does not wait for itself.
use na_cl.Common.{ℕ, ◌+◌, ◌≤◌, ◌≡◌, ◌≢◌, ◌⊎◌, inl, inr, refl, sym, ◌∙◌, ap, true, false, ◌∷◌, arith}
use na_cl.Serial
use na_cl.Serial.{Pc, idle, first, later, initialising, holding, has_guard, System, set_pc}
use na_cl.Serial.Nesting.{inside, Machine, Step, Reach, Steps}
use na_cl.Serial.Nesting.Coherent.{Uses, inside-disabled, IsCoherent, Reach-IsCoherent}

-- The user waits for the lock of the port.
abbrev pub IsWaiting : Machine → ℕ → Type 0
IsWaiting m i = ((m.port.pc i ≡ first) ⊎ (m.port.pc i ≡ later)) × (m.port.locked ≡ true)

-- Processor `d` holds the port, and interrupts are disabled on it; its next steps, two at most, free
-- the lock.
pub record Frees (m : Machine) (d : ℕ) : Type 0 where
  pub user : ℕ
  pub uses : Uses m d user
  pub holds : has_guard (m.port.pc user) ≡ true
  pub disabled : m.flag d ≡ false
  pub count : ℕ
  pub few : count ≤ 2
  pub after : Machine
  pub runs : Steps d m count after
  pub free : after.port.locked ≡ false

unlocks :
    (m : Machine) (d j : ℕ)
    → Uses m d j
    → m.port.pc j ≡ holding
    → (t : Machine) × Step m d t × (t.port.locked ≡ false)
unlocks m d j (b, fs, e) h =
    (_, Step.use_port j b fs _ e (λ k. cc (h, k)) (Serial.Step.unlock h), refl)

initialises :
    (m : Machine) (d j : ℕ)
    → Uses m d j
    → m.port.pc j ≡ initialising
    → (t : Machine) × Step m d t × Uses t d j × (t.port.pc j ≡ holding)
initialises m d j (b, fs, e) h = (
  record m { port = record m.port { inits = m.port.inits + 1; pc = set_pc m.port.pc j holding } },
  Step.use_port j b fs _ e (λ k. cc (h, k)) (Serial.Step.init_port h),
  (b, fs, e),
  ground arith,
)

frees :
    (m : Machine) (d j : ℕ)
    → IsCoherent m
    → Uses m d j
    → (p : Pc) → m.port.pc j ≡ p
    → has_guard p ≡ true
    → Frees m d
frees m d j v (b, fs, u) holding e g =
    let (t, st, free) = unlocks m d j (b, fs, u) e in
    record {
      user = j;
      uses = (b, fs, u);
      holds = ap has_guard e;
      disabled = inside-disabled (m.flag d) j b fs (m.calls d) u (v.ordered d);
      count = 1;
      few = omega arith;
      after = t;
      runs = Steps.go Steps.stay st;
      free = free;
    }
frees m d j v (b, fs, u) initialising e g =
    let (n, st, u', e') = initialises m d j (b, fs, u) e in
    let (t, st', free) = unlocks n d j u' e' in
    record {
      user = j;
      uses = (b, fs, u);
      holds = ap has_guard e;
      disabled = inside-disabled (m.flag d) j b fs (m.calls d) u (v.ordered d);
      count = 2;
      few = omega arith;
      after = t;
      runs = Steps.go (Steps.go Steps.stay st) st';
      free = free;
    }
frees m d j v u idle e g = cc
frees m d j v u first e g = cc
frees m d j v u later e g = cc

-- Whenever a processor waits for the lock of the port, in whatever way calls of `_print`, interrupts,
-- and exceptions outside of `without_interrupts` came before, it is another processor that holds the
-- lock. Interrupts are disabled on that one, its innermost call is the one that holds the lock, and
-- two steps of its own, or one, free the lock: no processor waits for itself.
pub print_waits_end :
    {m : Machine} (c i : ℕ) → Reach m → Uses m c i → IsWaiting m i → (d : ℕ) × (d ≢ c) × Frees m d
print_waits_end {m} c i r u w =
    let v = Reach-IsCoherent r in
    let (j, g) = v.sound.held w.1 in
    let busy : m.port.pc j ≢ idle = λ k. cc (ap has_guard k, g) in
    let (d, used) = v.active j busy in
    (d, other j g d used, frees m d j v used (m.port.pc j) refl g)
  where
    other : (j : ℕ) → has_guard (m.port.pc j) ≡ true → (d : ℕ) → Uses m d j → d ≢ c
    other j g d (b, fs, e) same =
        let (b', fs', e') = u in
        let one : inside j b ∷ fs ≡ inside i b' ∷ fs' = sym e ∙ ap m.calls same ∙ e' in
        let user : j ≡ i = cc (one) in
        elim w.0 [ inl k ↦ ground (arith, user, k, g) | inr k ↦ ground (arith, user, k, g) ]
