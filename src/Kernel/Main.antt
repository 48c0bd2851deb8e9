-- ===== src/Kernel/Main.antt =====
-- nacl/src/main.rs: `kernel_start` with its last line, the executor of the processor that runs.
pub mod Halts
pub mod Idling
use na_cl.Common.{
  ℕ, suc, ◌<◌, All, ◌≡◌, refl, sym, ap, subst, ◌∙◌, Bool, true, false, Option, none, some, List, [],
  arith,
}
use na_cl.Common.Outcomes.{Outcome, done}
use na_cl.Machine.{Effect, Io, ret, ◌>>=◌, ◌>>◌, halt, enable_interrupts, disable_interrupts}
use na_cl.Machine.Protocol.{
  Safe, Sure, Simulates, Sure-simulated, Sure-bind, Sure-mono, Protocol, Sure-Safe, Safe-bind,
}
use na_cl.Machine.Boot.{Setup, boot, reset, handlers_ready}
use na_cl.Task.Collector.{EpochApi}
use na_cl.Task.Stealing.{StealerApi}
use na_cl.Executor.{Deps, Core, new}
use na_cl.Executor.Turns.{Resting, resting, turns}
use na_cl.Cores.{Arrays, cpu, max_num_cpus}
use na_cl.Cores.Registry.{cpu-has}
use na_cl.Executor.Steps.{queue, queue-new, tasks-new}
use na_cl.Executor.Idling.{IsDry, Idled, turns_idle}
use na_cl.Cores.Processor.{Cpu, new_cpu, borrow_mut, borrow_mut-free}
use na_cl.Interrupts.{cpu_number}
use na_cl.Kernel.{Platform, Limine, Statics, of_outcome, kernel_start}
use na_cl.Kernel.Booted.{Booted}
use na_cl.Kernel.Completion.{IsBootable, kernel_start_completes}
use na_cl.Memory.Frames.{Entry}
use na_cl.Font.Console.{Framebuffer}
use na_cl.Machine.Boot.Parts.{cpu_number-Safe}
use na_cl.Arch.Safety.{Started}
use na_cl.Arch.Wiring.Entries.{Steady}
use na_cl.Time.Calibrate.Ticking.{cpu_number-Sure, Clock, Volatile, ticking}

module _ (platform : Platform) (deps : Deps) (epoch : EpochApi) (api : StealerApi deps.wk)
    (stealer : Cpu deps epoch → api.Stealer) where
  -- The statics of nacl/src/cores.rs.
  abbrev pub Processors : Type 0
  Processors = Arrays (Cpu deps epoch) api.Stealer stealer

  -- `executor.borrow_mut().run()` on the processor `num`, for `n` turns; `made` is what a new processor
  -- would be.
  unfoldable pub run_on :
      ℕ → ℕ → (ℕ → List api.Stealer) → Cpu deps epoch → Processors → ℕ → Io (Cpu deps epoch)
  run_on n fuel stealers made processors num = do
    found ← of_outcome (cpu (Cpu deps epoch) api.Stealer stealer made num processors)
    held ← of_outcome (borrow_mut deps epoch found.0)
    executor ← turns deps api n fuel stealers held.executor
    ret (record held { executor = executor })

  -- `kernel_start`, with `n` turns of the executor: the processor after them, whose executor is
  -- borrowed. `collector` and `processors` are what the statics hold when the executor is called.
  unfoldable pub kernel_main :
      ℕ
      → ℕ
      → (ℕ → List api.Stealer)
      → Option epoch.Collector
      → Processors
      → List ℕ
      → Limine
      → Io (Cpu deps epoch)
  kernel_main n fuel stealers collector processors version limine = do
    kernel_start platform fuel version limine
    num ← cpu_number
    run_on n fuel stealers (new_cpu deps epoch collector).0 processors num
