-- ===== src/Tests/Turns.antt =====
-- nacl/src/task and nacl/src/main.rs: turns of the executor on concrete tasks.
use na_cl.Common.{ℕ, ◌+◌, ◌≡◌, ◌≢◌, refl, true, false, none, List, [], ◌∷◌, All, arith}
use na_cl.Machine.Protocol.{Safe, Sure}
use na_cl.Machine.Boot.{boot, reset}
use na_cl.Task.{Task}
use na_cl.Task.Collector.{EpochApi}
use na_cl.Executor.Steps.{queue}
use na_cl.Executor.Idling.{IsDry}
use na_cl.Executor.Halting.{State, Reach, Own, halted, popping, interrupted, GoesOn, no_lost_wake}
use na_cl.Cores.{Arrays}
use na_cl.Cores.Processor.{Cpu}
use na_cl.Time.Calibrate.Ticking.{ticking}
use na_cl.Kernel.Main.Halts.{counted}
use na_cl.Kernel.Main.{kernel_main}
use na_cl.Kernel.Main.Idling.{IsIdle, kernel_main-Idles}
use na_cl.Tests.Fonts.{small}
use na_cl.Tests.Tasks.{deps, Held, stealers}
use na_cl.Tests.Kernels.{platform, limine, regions, local, version_read, limine-IsBootable}

-- There is one stealer, and it has nothing.
abbrev nothing : ℕ → List Held
nothing k = (0, []) ∷ []

nothing-IsDry : (k : ℕ) → All (IsDry deps stealers) (nothing k)
nothing-IsDry k = (λ w h. refl, tt)

-- A collector that counts its handles.
abbrev epochs : EpochApi
epochs = record {
  Collector = ℕ;
  LocalHandle = ℕ;
  Guard = Unit;
  new_collector = 0;
  register = λ c. (c + 1, c);
  pin_handle = λ h. (h, tt);
  handle_is_pinned = λ h. false;
}

abbrev stealer_of : Cpu deps epochs → Held
stealer_of c = (0, c.executor.worker)

abbrev no_processors : Arrays (Cpu deps epochs) Held stealer_of
no_processors = record { cpus = λ i. none; stealers = λ i. none }

kernel_main-Idles_example :
    Safe
      (counted boot)
      (reset, 0)
      (kernel_main platform deps epochs stealers stealer_of 3 400 nothing none no_processors
        (0x41 ∷ [])
        limine)
      (IsIdle platform deps epochs stealers stealer_of 3)
    × Sure
        (ticking local 3 version_read)
        (record { last = 7; unchanged = 0; written = λ a. none })
        (kernel_main platform deps epochs stealers stealer_of 3 400 nothing none no_processors
          (0x41 ∷ [])
          limine)
        (λ q c. queue deps c.executor ≡ [])
kernel_main-Idles_example =
    kernel_main-Idles platform deps epochs stealers stealer_of local 3 version_read 3 399 nothing
      none no_processors (0x41 ∷ []) limine regions small
      (record { last = 7; unchanged = 0; written = λ a. none }) limine-IsBootable
      (omega arith, omega arith) (omega arith) (λ i c h. cc) nothing-IsDry

-- With nothing to do the processor waits for an interrupt.
abbrev waiting : State deps
waiting = record { pc = halted; flag = true; worker = [] }

waiting-Reach : Reach deps waiting
waiting-Reach =
    Reach.own
      (Reach.own (Reach.own (Reach.own Reach.here (Own.pop_none refl refl)) (Own.disable refl))
        (Own.is_idle refl refl))
      (Own.enable_and_hlt [] refl refl)

no_lost_wake_example :
    (waiting.pc ≡ halted
      → (true ≡ true)
        × ((wakes : List ℕ)
            → ((interrupted deps waiting wakes).pc ≡ popping)
              × ((interrupted deps waiting wakes).worker ≡ wakes)))
    × (◌≢◌ {A = List ℕ} [] [] → GoesOn deps waiting)
no_lost_wake_example = no_lost_wake deps waiting-Reach
