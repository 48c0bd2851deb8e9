-- ===== src/Tests/Printing.antt =====
-- nacl/src/serial.rs: two processors that print.
use na_cl.Common.{ℕ, ◌≢◌, inr, refl, true, false, List, [], ◌∷◌}
use na_cl.Serial
use na_cl.Serial.{idle, first, later, initialising, set_pc}
use na_cl.Serial.Nesting.{
  Frame, called, masked, Machine, inside, Step, Reach, Steps, After, raised, set,
}
use na_cl.Serial.Nesting.Progress.{Frees, print_waits_end}
use na_cl.Serial.Nesting.Wedged.{IsStuck}
use na_cl.Serial.Nesting.Handler.{handler_wedges}

-- A processor that calls `_print` and begins, as user `i`.
abbrev begun : (ℕ → List Frame) → ℕ → ℕ → ℕ → List Frame
begun calls c i =
    set (set (set calls c (called i ∷ [])) c (masked i true ∷ [])) c (inside i true ∷ [])

-- Processor 0 has the port, and interrupts are disabled on it.
abbrev held : Machine
held = record {
  port = record {
    init = true;
    locked = true;
    inits = 0;
    raw_write = false;
    pc = set_pc (set_pc (λ i. idle) 0 first) 0 initialising;
  };
  flag = set (λ c. true) 0 false;
  calls = begun (λ c. []) 0 0;
  next = 1;
}

held-Reach : Reach held
held-Reach =
    Reach.next 0
      (Reach.next 0 (Reach.next 0 (Reach.next 0 Reach.here (Step.print tt)) (Step.mask 0 [] refl))
        (Step.begin 0 true [] _ refl (Serial.Step.swap refl)))
      (Step.use_port 0 true [] _ refl (λ e. cc e) (Serial.Step.lock_first refl refl))

-- Then processor 1 prints, and waits.
abbrev awaited : Machine
awaited = record {
  port = record held.port { pc = set_pc held.port.pc 1 later };
  flag = set held.flag 1 false;
  calls = begun held.calls 1 1;
  next = 2;
}

awaited-Reach : Reach awaited
awaited-Reach =
    Reach.next 1 (Reach.next 1 (Reach.next 1 held-Reach (Step.print tt)) (Step.mask 1 [] refl))
      (Step.begin 1 true [] _ refl (Serial.Step.swap refl))

print_waits_end_example : (d : ℕ) × (d ≢ 1) × Frees awaited d
print_waits_end_example = print_waits_end 1 1 awaited-Reach (true, [], refl) (inr refl, refl)

handler_wedges_example :
    (n : Machine) × Steps 0 (raised held 0) 3 n × ((t : Machine) → After n t → IsStuck t 0)
handler_wedges_example = handler_wedges 0 0 held-Reach (true, [], refl) refl
