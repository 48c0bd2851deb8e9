-- ===== src/Serial/Nesting/Handler.antt =====
-- nacl/src/serial.rs: printing in the handler of an exception that came while the port was held.
use na_cl.Common.{
  ℕ, ◌+◌, ◌≡◌, ◌≢◌, inl, inr, refl, sym, subst, ap, true, false, ◌∷◌, ◌==◌, if◌then◌else◌, arith,
}
use na_cl.Serial
use na_cl.Serial.{Pc, idle, first, later, has_guard, System, set_pc}
use na_cl.Serial.Ready.{Step-IsSound}
use na_cl.Serial.Nesting.{
  called, masked, inside, handling, Machine, set, MayPrint, Step, Reach, Steps, raised, After,
}
use na_cl.Serial.Nesting.Coherent.{Uses, IsCoherent, Reach-IsCoherent}
use na_cl.Serial.Nesting.Numbered.{Mentions, IsNumbered, Step-IsNumbered, Reach-IsNumbered}
use na_cl.Serial.Nesting.Numbered.{narrower-IsNumbered}
use na_cl.Serial.Nesting.Wedged.{IsWedged, After-IsWedged, IsStuck, stuck, locked}

module _ {m : Machine} (c j : ℕ) (r : Reach m) (u : Uses m c j)
    (g : has_guard (m.port.pc j) ≡ true) where
  -- The processor after the exception has been raised, its handler has called `_print`, and that has
  -- disabled interrupts and has begun.
  printing : Machine
  printing = record (raised m c) {
    calls = set (raised m c).calls c (called m.next ∷ (raised m c).calls c);
    next = m.next + 1;
  }

  masking : Machine
  masking = record printing {
    flag = set printing.flag c false;
    calls = set printing.calls c (masked m.next (printing.flag c) ∷ (raised m c).calls c);
  }

  swapped : System
  swapped = record m.port {
    init = true;
    pc = set_pc m.port.pc m.next (if m.port.init then later else first);
  }

  waiting : Machine
  waiting = record masking {
    port = swapped;
    calls = set masking.calls c (inside m.next (printing.flag c) ∷ (raised m c).calls c);
  }

  set-own : {A : Type 0} (f : ℕ → A) (a : A) → set f c a c ≡ a
  set-own f a = let yes : (c == c) ≡ true = ground arith in rw yes

  print_step : Step (raised m c) c printing
  unfolding printing
  print_step =
      Step.print (subst MayPrint (sym (set-own m.calls (handling (m.flag c) ∷ m.calls c))) tt)

  mask_step : Step printing c masking
  unfolding printing masking
  mask_step = Step.mask m.next ((raised m c).calls c) (set-own (raised m c).calls _)

  next-idle : m.port.pc m.next ≡ idle
  next-idle = by_pc (m.port.pc m.next) refl
    where
      v : IsCoherent m
      v = Reach-IsCoherent r

      unused : m.port.pc m.next ≢ idle → ⊥
      unused a =
          let (d, (b, fs, e)) = v.active m.next a in
          let few =
            (Reach-IsNumbered r).small d m.next (subst (Mentions m.next) (sym e) (inl refl)) in
          omega (arith, few)

      by_pc : (p : Pc) → m.port.pc m.next ≡ p → m.port.pc m.next ≡ idle
      by_pc idle e = e
      by_pc p e = absurd (unused (λ k. cc (e, k)))

  swap_step : Serial.Step m.port m.next swapped
  unfolding swapped
  swap_step = Serial.Step.swap next-idle

  begin_step : Step masking c waiting
  unfolding masking waiting printing
  begin_step =
      Step.begin m.next (printing.flag c) ((raised m c).calls c) swapped (set-own printing.calls _)
        swap_step

  raised-IsNumbered : IsNumbered (raised m c)
  raised-IsNumbered =
      narrower-IsNumbered m (raised m c) c (handling (m.flag c) ∷ m.calls c) (Reach-IsNumbered r)
        refl refl (λ k h. h)

  waiting-IsWedged : IsWedged waiting c m.next j
  unfolding waiting masking printing swapped
  waiting-IsWedged =
      let v = Reach-IsCoherent r in
      let (b, fs, e) = u in
      let busy : m.port.pc j ≢ idle = λ k. cc (ap has_guard k, g) in
      let held_by : Mentions j (m.calls c) = subst (Mentions j) (sym e) (inl refl) in
      let other : j ≢ m.next =
        λ k. absurd (omega (arith, k, (Reach-IsNumbered r).small c j held_by)) in
      record {
        sound = Step-IsSound swap_step v.sound;
        numbered =
            Step-IsNumbered begin_step
              (Step-IsNumbered mask_step (Step-IsNumbered print_step raised-IsNumbered));
        b = printing.flag c;
        fs = (raised m c).calls c;
        top = set-own masking.calls (inside m.next (printing.flag c) ∷ (raised m c).calls c);
        waits = inr (ground (arith, v.sound.begun j busy));
        holds = ground (arith, g, other);
        outer =
            subst (Mentions j) (sym (set-own m.calls (handling (m.flag c) ∷ m.calls c))) held_by;
        disabled = set-own printing.flag false;
      }

-- If an exception comes while the innermost call of its processor holds the port, and its handler
-- prints, then three steps later the processor makes no step any more, whatever the other processors
-- do, and the lock stays taken for ever: disabling interrupts does not keep exceptions off.
pub handler_wedges :
    {m : Machine} (c j : ℕ)
    → Reach m
    → Uses m c j
    → has_guard (m.port.pc j) ≡ true
    → (n : Machine) × Steps c (raised m c) 3 n × ((t : Machine) → After n t → IsStuck t c)
handler_wedges {m} c j r u g = (
  waiting c j r u g,
  Steps.go (Steps.go (Steps.go Steps.stay (print_step c j r u g)) (mask_step c j r u g))
      (begin_step c j r u g),
  λ t a.
      let w = After-IsWedged c m.next j (waiting-IsWedged c j r u g) a in
      (locked t c m.next j w, λ t' st. stuck t c m.next j w st),
)
