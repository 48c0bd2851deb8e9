-- ===== src/Executor/Halting.antt =====
-- nacl/src/task/executor.rs: `run` with interrupts between any two of its steps, whose handlers may
-- call wakers.
use na_cl.Common.{
  ℕ, zero, suc, ◌≤◌, ◌≡◌, ◌≢◌, inl, inr, refl, sym, ◌∙◌, ap, Bool, true, false, none, some, List,
  [], ◌∷◌, ◌++◌, subst, Bool-cases, arith,
}
use na_cl.Task.Interfaces.{is_nil}
use na_cl.Executor.{Deps, wake_all}
use na_cl.Executor.Steps.{entries-wake_all}

-- Where the processor stands: before `pop`; in the poll of a task; after the last `pop`, before
-- `sleep_if_idle`; before `is_empty`; before the search for tasks to steal; waiting for an interrupt.
pub data Pc : Type 0 where
  popping : Pc
  polling : ℕ → Pc
  leaving checking stealing halted : Pc

module _ (deps : Deps) where
  open deps use {wk}

  -- The worker queue and the interrupt flag.
  pub record State : Type 0 where
    pub pc : Pc
    pub flag : Bool
    pub worker : wk.Worker

  abbrev pub start : State
  start = record { pc = popping; flag = true; worker = wk.new_fifo }

  -- One step of the processor itself. A search that fails leaves what the queue holds as it was.
  pub data Own (s : State) : State → Type 0 where
    pop_some :
        (id : ℕ) (w : wk.Worker)
        → s.pc ≡ popping
        → wk.pop s.worker ≡ some (id, w)
        → Own s (record s { pc = polling id; worker = w })
    pop_none : s.pc ≡ popping → wk.pop s.worker ≡ none → Own s (record s { pc = leaving })
    polled :
        (id : ℕ) (wakes : List ℕ)
        → s.pc ≡ polling id
        → Own s (record s { pc = popping; worker = wake_all deps s.worker wakes })
    disable : s.pc ≡ leaving → Own s (record s { pc = checking; flag = false })
    is_busy :
        s.pc ≡ checking
        → wk.is_empty s.worker ≡ false
        → Own s (record s { pc = popping; flag = true })
    is_idle : s.pc ≡ checking → wk.is_empty s.worker ≡ true → Own s (record s { pc = stealing })
    stolen :
        (w : wk.Worker)
        → s.pc ≡ stealing
        → wk.entries w ≢ []
        → Own s (record s { pc = popping; worker = w })
    enable_and_hlt :
        (w : wk.Worker)
        → s.pc ≡ stealing
        → wk.entries w ≡ wk.entries s.worker
        → Own s (record s { pc = halted; flag = true; worker = w })

  -- After an interrupt, a processor that waited for it goes on with the loop.
  abbrev pub resumed : Pc → Pc
  resumed halted = popping
  resumed p = p

  -- The state after an interrupt whose handler wakes tasks.
  abbrev pub interrupted : State → List ℕ → State
  interrupted s wakes = record s { pc = resumed s.pc; worker = wake_all deps s.worker wakes }

  pub data Reach : State → Type 0 where
    here : Reach start
    own : {s t : State} → Reach s → Own s t → Reach t
    interrupt : {s : State} (wakes : List ℕ) → Reach s → s.flag ≡ true → Reach (interrupted s wakes)

  pub data OwnSteps (s : State) : ℕ → State → Type 0 where
    stay : OwnSteps s zero s
    go : {n : ℕ} {t u : State} → OwnSteps s n t → Own t u → OwnSteps s (suc n) u

  -- Before the search and while it waits, the processor has nothing in its queue; from the check on,
  -- interrupts are disabled, and they are enabled while it waits.
  abbrev IsCareful : Pc → Bool → List ℕ → Type 0
  IsCareful popping flag queue = Unit
  IsCareful (polling id) flag queue = Unit
  IsCareful leaving flag queue = Unit
  IsCareful checking flag queue = flag ≡ false
  IsCareful stealing flag queue = (flag ≡ false) × (queue ≡ [])
  IsCareful halted flag queue = (flag ≡ true) × (queue ≡ [])

  abbrev Careful : State → Type 0
  Careful s = IsCareful s.pc s.flag (wk.entries s.worker)

  -- What is known of a state that stands at `p`.
  standing : (s : State) (p : Pc) → s.pc ≡ p → Careful s → IsCareful p s.flag (wk.entries s.worker)
  standing s p e v = subst (λ q. IsCareful q s.flag (wk.entries s.worker)) e v

  nil-is_nil : (l : List ℕ) → is_nil l ≡ true → l ≡ []
  nil-is_nil [] e = refl
  nil-is_nil (x ∷ l) e = cc

  Own-Careful : {s t : State} → Own s t → Careful s → Careful t
  Own-Careful {s} (Own.pop_some id w p e) v = tt
  Own-Careful {s} (Own.pop_none p e) v = tt
  Own-Careful {s} (Own.polled id wakes p) v = tt
  Own-Careful {s} (Own.disable p) v = refl
  Own-Careful {s} (Own.is_busy p e) v = tt
  Own-Careful {s} (Own.is_idle p e) v = (
    standing s checking p v,
    nil-is_nil (wk.entries s.worker) (sym (wk.is_empty-entries s.worker) ∙ e),
  )
  Own-Careful {s} (Own.stolen w p e) v = tt
  Own-Careful {s} (Own.enable_and_hlt w p e) v =
      let (off, nothing) = standing s stealing p v in (refl, e ∙ nothing)

  interrupted-Careful :
      (s : State) (wakes : List ℕ)
      → s.flag ≡ true
      → (p : Pc) → s.pc ≡ p
      → Careful s
      → IsCareful (resumed p) s.flag (wk.entries (wake_all deps s.worker wakes))
  interrupted-Careful s wakes on popping e v = tt
  interrupted-Careful s wakes on (polling id) e v = tt
  interrupted-Careful s wakes on leaving e v = tt
  interrupted-Careful s wakes on checking e v =
      let off : s.flag ≡ false = standing s checking e v in cc
  interrupted-Careful s wakes on stealing e v = let (off, nothing) = standing s stealing e v in cc
  interrupted-Careful s wakes on halted e v = tt

  Reach-Careful : {s : State} → Reach s → Careful s
  Reach-Careful Reach.here = tt
  Reach-Careful (Reach.own r o) = Own-Careful o (Reach-Careful r)
  Reach-Careful (Reach.interrupt {s} wakes r on) =
      interrupted-Careful s wakes on s.pc refl (Reach-Careful r)

  -- With work in the queue: a task is being polled, or the processor is back at `pop` after two steps
  -- of its own at most, with the same queue.
  pub data GoesOn (s : State) : Type 0 where
    in_poll : (id : ℕ) → s.pc ≡ polling id → GoesOn s
    back_at_pop :
        (n : ℕ) (t : State)
        → n ≤ 2
        → OwnSteps s n t
        → t.pc ≡ popping
        → wk.entries t.worker ≡ wk.entries s.worker
        → GoesOn s

  not_empty : (s : State) → wk.entries s.worker ≢ [] → wk.is_empty s.worker ≡ false
  not_empty s h = elim (Bool-cases (wk.is_empty s.worker)) [
    | inl e ↦ absurd (h (nil-is_nil (wk.entries s.worker) (sym (wk.is_empty-entries s.worker) ∙ e)))
    | inr e ↦ e
  ]

  goes_on : (s : State) → wk.entries s.worker ≢ [] → (p : Pc) → s.pc ≡ p → Careful s → GoesOn s
  goes_on s h popping e v = GoesOn.back_at_pop 0 s (omega arith) OwnSteps.stay e refl
  goes_on s h (polling id) e v = GoesOn.in_poll id e
  goes_on s h leaving e v =
      GoesOn.back_at_pop 2 _ (omega arith)
        (OwnSteps.go (OwnSteps.go OwnSteps.stay (Own.disable e)) (Own.is_busy refl (not_empty s h)))
        refl refl
  goes_on s h checking e v =
      GoesOn.back_at_pop 1 _ (omega arith)
        (OwnSteps.go OwnSteps.stay (Own.is_busy e (not_empty s h))) refl refl
  goes_on s h stealing e v = let (off, nothing) = standing s stealing e v in absurd (h nothing)
  goes_on s h halted e v = let (on, nothing) = standing s halted e v in absurd (h nothing)

  -- Whatever tasks the handlers of interrupts wake, and whenever they do, no wake-up is lost: while the
  -- processor waits for an interrupt, interrupts are enabled and its queue is empty, and after an
  -- interrupt it goes on with just the tasks that were woken. And whenever there is work in the queue, a
  -- task is being polled, or the processor is back at `pop` after two steps of its own at most.
  pub no_lost_wake :
      {s : State}
      → Reach s
      → (s.pc ≡ halted
          → (s.flag ≡ true)
            × ((wakes : List ℕ)
                → ((interrupted s wakes).pc ≡ popping)
                  × (wk.entries (interrupted s wakes).worker ≡ wakes)))
        × (wk.entries s.worker ≢ [] → GoesOn s)
  no_lost_wake {s} r = (
    λ e.
        let (on, nothing) = standing s halted e (Reach-Careful r) in
        (
          on,
          λ wakes.
              (ap resumed e, entries-wake_all deps s.worker wakes ∙ ap (λ l. l ++ wakes) nothing),
        ),
    λ h. goes_on s h s.pc refl (Reach-Careful r),
  )
