-- ===== src/Tests/Devices.antt =====
-- nacl/src/arch/x86_64 and nacl/src/serial.rs: devices under concrete runs.
use na_cl.Common.{ℕ, ◌-◌, ◌^◌, ◌≡◌, ◌≤◌, ◌⊎◌, refl, true, false, some}
use na_cl.Machine.Protocol.{Sure}
use na_cl.Machine.Boot.{Setup, reset}
use na_cl.Interrupts.{timer_interrupt_handler, handle}
use na_cl.Interrupts.Servicing.{Events, service, handle-Serviced}
use na_cl.Serial.{System, idle, first, later, holding, has_guard, set_pc, Step, Reach}
use na_cl.Serial.Ready.{serial_ready}

-- A processor with everything set up but its timer.
abbrev prepared : Setup
prepared = record reset {
  gdt = true;
  tss = true;
  idt = true;
  pics_off = true;
  lapic = some 0xFEE0_0000;
}

-- User 4 is the first, user 7 a later one that takes the lock before it.
abbrev overtaken : System
overtaken = record {
  init = true;
  locked = true;
  inits = 0;
  raw_write = false;
  pc = set_pc (set_pc (set_pc (λ i. idle) 4 first) 7 later) 7 holding;
}

overtaken-Reach : Reach overtaken
overtaken-Reach =
    Reach.next 7 (Reach.next 7 (Reach.next 4 Reach.here (Step.swap refl)) (Step.swap refl))
      (Step.lock_later refl refl)

serial_ready_example :
    (0 ≤ 1)
    × ((i : ℕ)
        → overtaken.pc i ≡ holding
        → ((j : ℕ) → has_guard (overtaken.pc j) ≡ true → j ≡ i)
          × (◌≡◌ {A = ℕ} 0 1 ⊎ ((j : ℕ) × (overtaken.pc j ≡ first))))
serial_ready_example = serial_ready overtaken-Reach

-- It writes to a port that nobody has initialised.
written_raw : (s : System) × Reach s × (s.raw_write ≡ true)
written_raw = (_, Reach.next 7 overtaken-Reach (Step.write_fmt refl), refl)

-- The counter is about to wrap.
abbrev events : Events
events = record { timer = 2 ^ 64 - 1; scratch_timer = 4; ended = 7 }

handle-Serviced_example :
    Sure
      (service 0xFEE0_0000)
      events
      (handle 3 timer_interrupt_handler)
      (λ q u. q ≡ record { timer = 0; scratch_timer = 4; ended = 8 })
handle-Serviced_example = handle-Serviced 3 0xFEE0_0000 timer_interrupt_handler events
