-- ===== src/Kernel/Main/Idling.antt =====
-- nacl/src/main.rs: a kernel without tasks idles, and never for good.
use na_cl.Common.{
  ℕ, suc, ◌<◌, All, ◌≡◌, refl, sym, ap, subst, ◌∙◌, Bool, true, false, Option, none, some, List, [],
  arith,
}
use na_cl.Machine.{Effect, ◌>>=◌}
use na_cl.Machine.Protocol.{
  Safe, Sure, Simulates, Sure-simulated, Sure-bind, Sure-mono, Protocol, Sure-Safe, Safe-bind,
}
use na_cl.Machine.Boot.{Setup, boot, reset}
use na_cl.Task.Collector.{EpochApi}
use na_cl.Task.Stealing.{StealerApi}
use na_cl.Executor.{Deps, new}
use na_cl.Executor.Turns.{Resting, resting, turns}
use na_cl.Cores.{max_num_cpus}
use na_cl.Cores.Registry.{cpu-has}
use na_cl.Executor.Steps.{queue, queue-new, tasks-new}
use na_cl.Executor.Idling.{IsDry, Idled, turns_idle}
use na_cl.Cores.Processor.{Cpu, new_cpu, borrow_mut-free}
use na_cl.Interrupts.{cpu_number}
use na_cl.Kernel.{Platform, Limine, kernel_start}
use na_cl.Kernel.Completion.{IsBootable, kernel_start_completes}
use na_cl.Memory.Frames.{Entry}
use na_cl.Font.Console.{Framebuffer}
use na_cl.Arch.Safety.{Started}
use na_cl.Arch.Wiring.Entries.{Steady}
use na_cl.Time.Calibrate.Ticking.{cpu_number-Sure, Clock, Volatile, ticking}
use na_cl.Kernel.Main.Halts.{counted, Safe-counted, cpu_number-counted, WithFlag, turns-boot}
use na_cl.Kernel.Main.{Processors, run_on, kernel_main}

-- The clocks and devices of a running processor do not hinder the turns of `run`.
turns-ticking : (l b : ℕ) (v : Volatile) → Simulates resting (ticking l b v) (λ p q. Unit {0})
turns-ticking l b v = record { follows = follow }
  where
    follow :
        (p : Resting) (q : Clock) (e : Effect)
        → Unit {0}
        → resting.Allowed p e
        → Unit {0} × ((n : ℕ) → (ticking l b v).Answers q e n → resting.Answers p e n × Unit {0})
    follow p q e r a = (tt, λ n b. (tt, tt))

module _ (platform : Platform) (deps : Deps) (epoch : EpochApi) (api : StealerApi deps.wk)
    (stealer : Cpu deps epoch → api.Stealer) where
  -- Nothing has been spawned on a processor, and its executor is not borrowed.
  abbrev pub IsFresh : Cpu deps epoch → Type 0
  IsFresh c = (c.executor ≡ new deps) × (c.borrowed ≡ false)

  -- Interrupts are enabled, and the processor has not been halted.
  abbrev awake : Resting
  awake = record { interrupts = true; halts = 0 }

  -- The executor has nothing to do, and interrupts are enabled.
  abbrev pub Idles : ℕ → Resting → Cpu deps epoch → Type 0
  Idles n q c = Idled deps api (new deps) awake n q c.executor

  new_cpu-IsFresh : (collector : Option epoch.Collector) → IsFresh (new_cpu deps epoch collector).0
  unfolding new_cpu
  new_cpu-IsFresh collector = (refl, refl)

  -- Under every protocol that goes along with the turns, the executor of a processor that is fresh
  -- halts in every turn, and does not panic.
  run_on-Sure :
      (pr : Protocol) (R : Resting → pr.Phase → Type 0) (p : pr.Phase) (n fuel : ℕ)
      (stealers : ℕ → List api.Stealer) (made : Cpu deps epoch)
      (processors : Processors platform deps epoch api stealer) (num : ℕ)
      → Simulates resting pr R
      → R awake p
      → num < max_num_cpus
      → IsFresh made
      → ((i : ℕ) (c : Cpu deps epoch) → processors.cpus i ≡ some c → IsFresh c)
      → ((k : ℕ) → All (IsDry deps api) (stealers k))
      → Sure pr p
          (run_on platform deps epoch api stealer n (suc fuel) stealers made processors num)
          (λ q c. (r : Resting) × R r q × Idles n r c)
  unfolding run_on
  run_on-Sure pr R p n fuel stealers made processors num sim start small new_one old dry =
      let (c, m, found, fresh) =
        cpu-has (Cpu deps epoch) api.Stealer stealer IsFresh made num processors small new_one
          old in
      let none_ready : queue deps c.executor ≡ [] = ap (queue deps) fresh.0 ∙ queue-new deps in
      let idles = turns_idle deps api n fuel stealers c.executor awake dry none_ready refl in
      rw (found, borrow_mut-free deps epoch c fresh.1)
        (Sure-bind pr p (turns deps api n (suc fuel) stealers c.executor) _
          (λ q u. (r : Resting) × R r q × Idled deps api c.executor awake n r u)
          (λ q d. (r : Resting) × R r q × Idles n r d)
          (Sure-simulated resting pr R awake p (turns deps api n (suc fuel) stealers c.executor)
            (Idled deps api c.executor awake n) sim start idles)
          (λ q u h. (h.0, h.1, subst (λ x. Idled deps api x awake n h.0 u) fresh.0 h.2)))

  Started-flag :
      (q₀ : Setup) (q : Setup × ℕ) (p : Resting)
      → Started q₀
      → WithFlag q₀ p q
      → p.interrupts ≡ true
      → Started q.0
  Started-flag q₀ q p s e on =
      let same : q.0 ≡ q₀ =
        e.0 ∙ ap {A = Bool} {B = Setup} (λ i. record q₀ { interrupts = i }) (on ∙ sym s.enabled) in
      subst Started (sym same) s

  -- The kernel is up after `n` turns: the processor has started, and was halted in each of them; there
  -- is no task, and none is ready.
  pub record IsIdle (n : ℕ) (q : Setup × ℕ) (c : Cpu deps epoch) : Type 0 where
    pub started : Started q.0
    pub halts : q.1 ≡ n
    pub no_task : (i : ℕ) → deps.tm.get c.executor.tasks i ≡ none
    pub none_ready : queue deps c.executor ≡ []

  no_task_left :
      (n : ℕ) (r : Resting) (c : Cpu deps epoch)
      → Idles n r c
      → (i : ℕ) → deps.tm.get c.executor.tasks i ≡ none
  no_task_left n r c h i = ap (λ m. deps.tm.get m i) h.tasks ∙ tasks-new deps i

  -- On a processor that has started, what follows `kernel_start` performs only what is allowed, and
  -- halts in every turn.
  booted_idles :
      (n fuel : ℕ) (stealers : ℕ → List api.Stealer) (made : Cpu deps epoch)
      (processors : Processors platform deps epoch api stealer) (q : Setup × ℕ)
      → Started q.0
      → IsFresh made
      → ((i : ℕ) (c : Cpu deps epoch) → processors.cpus i ≡ some c → IsFresh c)
      → ((k : ℕ) → All (IsDry deps api) (stealers k))
      → Safe
          (counted boot)
          q
          (cpu_number
            >>= run_on platform deps epoch api stealer n (suc fuel) stealers made processors)
          (IsIdle n)
  booted_idles n fuel stealers made processors q s new_one fresh dry =
      Safe-bind (counted boot) q cpu_number _ _ (IsIdle n)
        (cpu_number-counted q.0 q.1 (ground (arith, s.ready)))
        (λ q' num h.
          let on : WithFlag q.0 awake q' = (
            ap (λ (x : Setup × ℕ). x.0) h.0
                ∙ ap {A = Bool} {B = Setup} (λ i. record q.0 { interrupts = i }) s.enabled,
            ap (λ (x : Setup × ℕ). x.1) h.0,
          ) in
          Sure-Safe (counted boot) q'
            (run_on platform deps epoch api stealer n (suc fuel) stealers made processors num)
            (IsIdle n)
            (Sure-mono (counted boot) q'
              (run_on platform deps epoch api stealer n (suc fuel) stealers made processors num) _
              (IsIdle n)
              (run_on-Sure (counted boot) (WithFlag q.0) q' n fuel stealers made processors num
                (turns-boot q.0 s.ready) on h.1 new_one fresh dry)
              (λ q'' c g. record {
                started = Started-flag q.0 q'' g.0 s g.1 g.2.enabled;
                halts = omega (arith, g.1.1, g.2.halts);
                no_task = no_task_left n g.0 c g.2;
                none_ready = g.2.none_ready;
              })))

  module _ (l b : ℕ) (v : Volatile) where
    -- On such a machine, where no task was spawned and the stealers find nothing, `kernel_start` goes
    -- into the loop of the executor. Whatever the hardware answers, it halts only where an interrupt can
    -- wake it, and when it has gone through `n` turns, it was halted exactly `n` times since it last did
    -- anything but halting, enabling and disabling interrupts. And on the machine that goes on, it
    -- does go through `n` turns, for every `n`, and never panics.
    pub kernel_main-Idles :
        (n fuel : ℕ) (stealers : ℕ → List api.Stealer) (collector : Option epoch.Collector)
        (processors : Processors platform deps epoch api stealer) (version : List ℕ)
        (limine : Limine) (regions : List Entry) (fb : Framebuffer) (clock : Clock)
        → IsBootable platform l b v limine regions fb
        → Steady l b v clock
        → b < suc fuel
        → ((i : ℕ) (c : Cpu deps epoch) → processors.cpus i ≡ some c → IsFresh c)
        → ((k : ℕ) → All (IsDry deps api) (stealers k))
        → Safe
            (counted boot)
            (reset, 0)
            (kernel_main platform deps epoch api stealer n
              (suc fuel)
              stealers
              collector
              processors
              version
              limine)
            (IsIdle n)
          × Sure
              (ticking l b v)
              clock
              (kernel_main platform deps epoch api stealer n
                (suc fuel)
                stealers
                collector
                processors
                version
                limine)
              (λ q c. queue deps c.executor ≡ [])
    unfolding kernel_main
    kernel_main-Idles n fuel stealers collector processors version limine regions fb clock k steady
          enough fresh dry =
        let made = (new_cpu deps epoch collector).0 in
        let new_one = new_cpu-IsFresh collector in
        let (boots, completes) =
          kernel_start_completes platform l b v (suc fuel) version limine regions fb clock k steady
            enough in
        (
          Safe-bind (counted boot) (reset, 0) (kernel_start platform (suc fuel) version limine) _ _
              (IsIdle n)
              (Safe-counted boot reset 0 (kernel_start platform (suc fuel) version limine) _ boots)
              (λ q s booted.
                booted_idles n fuel stealers made processors q booted.started new_one fresh dry),
          Sure-bind (ticking l b v) clock (kernel_start platform (suc fuel) version limine) _ _
              (λ q c. queue deps c.executor ≡ []) completes
              (λ q s x.
                Sure-bind (ticking l b v) q cpu_number _ _ _ (cpu_number-Sure l b v q) (λ q' num h.
                  Sure-mono (ticking l b v) q'
                    (run_on platform deps epoch api stealer n (suc fuel) stealers made processors
                      num)
                    _ _
                    (run_on-Sure (ticking l b v) (λ p r. Unit {0}) q' n fuel stealers made
                      processors num (turns-ticking l b v) tt h.1 new_one fresh dry)
                    (λ r c g. g.2.none_ready))),
        )
