-- ===== src/Cores/Processor.antt =====
-- nacl/src/cores.rs: `Cpu`, the state of one processor, and its key.
use na_cl.Common.{ℕ, ◌≡◌, Bool, true, false, Option, some, Bool-cases, inl, inr, arith}
use na_cl.Common.Outcomes.{Outcome, done, panic, ◌>>=◌}
use na_cl.Task.{Task}
use na_cl.Task.Collector.{EpochApi, default_collector}
use na_cl.Executor.{Deps, Core, new, spawn}

module _ (deps : Deps) (epoch : EpochApi) where
  -- `Cpu`; the executor stands in a `RefCell`, which knows whether it is borrowed.
  pub record Cpu : Type 0 where
    pub timer : ℕ
    pub local_handle : epoch.LocalHandle
    pub executor : Core deps
    pub borrowed : Bool

  -- `Cpu::new`, with the static collector before and after it.
  unfoldable pub new_cpu : Option epoch.Collector → Cpu × Option epoch.Collector
  unfolding default_collector
  new_cpu collector =
      let (registered, handle) = epoch.register (default_collector epoch collector).0 in
      (
        record { timer = 0; local_handle = handle; executor = new deps; borrowed = false },
        some registered,
      )

  -- `CpuKey::scope`, on the processor that the local APIC names.
  abbrev pub scope : {T : Type 0} → (ℕ → T) → ℕ → T
  scope callback id = callback id

  -- `executor.borrow_mut()`, which panics while the executor is borrowed.
  unfoldable pub borrow_mut : Cpu → Outcome Cpu
  borrow_mut c = elim c.borrowed [ true ↦ panic | false ↦ done (record c { borrowed = true }) ]

  pub borrow_mut-free :
      (c : Cpu) → c.borrowed ≡ false → borrow_mut c ≡ done (record c { borrowed = true })
  unfolding borrow_mut
  borrow_mut-free c e = rw (e, borrow_mut)

  -- `executor.borrow_mut().spawn(task)`: the borrow ends with the call.
  unfoldable pub spawn_on : Cpu → Task deps.fut.Future → Outcome Cpu
  unfolding borrow_mut
  spawn_on c t = do
    held ← borrow_mut c
    executor ← spawn deps held.executor t
    done (record held { executor = executor; borrowed = false })

  -- While the executor of a processor is borrowed, as it is while it runs, no task can be spawned on
  -- it.
  pub spawn_on-borrowed :
      (c held : Cpu) (t : Task deps.fut.Future) → borrow_mut c ≡ done held → spawn_on held t ≡ panic
  unfolding spawn_on
  spawn_on-borrowed c held t e = elim (Bool-cases c.borrowed) [
    | inl q ↦ absurd (cc (rw (q, borrow_mut) at e))
    | inr q ↦
        let same : done (record c { borrowed = true }) ≡ done held = rw (q, borrow_mut) at e in
        let taken : held.borrowed ≡ true = ground arith in rw (taken, borrow_mut)
  ]
