-- ===== src/Interrupts/Servicing.antt =====
-- nacl/src/arch/x86_64/interrupts.rs: what the handlers count, and what they acknowledge.
use na_cl.Common.{
  ◌<◌, ℕ, zero, suc, ◌+◌, ◌%◌, ◌^◌, ◌≡◌, refl, ◌∙◌, ap, true, ltb, ◌==◌, if◌then◌else◌, arith,
}
use na_cl.Machine.{
  Effect, ret, panicked, get_lapic, get_timer, set_timer, get_scratch_timer, set_scratch_timer,
  write_volatile, read_volatile,
}
use na_cl.Machine.Protocol.{Protocol, Safe, Sure, Sure-bind}
use na_cl.Apic.Local.{end_of_interrupt, lapic_id_reg}
use na_cl.Interrupts.{
  Handler, breakpoint_handler, page_fault_handler, double_fault_handler, timer_interrupt_handler,
  scratch_timer_interrupt_handler, handle, hlt_loop, cpu_number,
}

-- The counters, and how many ends of interrupts the local APIC has been told of.
pub record Events : Type 0 where
  pub timer : ℕ
  pub scratch_timer : ℕ
  pub ended : ℕ

abbrev pub note : ℕ → Events → Effect → Events
note l p (set_timer num n) = record p { timer = n }
note l p (set_scratch_timer n) = record p { scratch_timer = n }
note l p (write_volatile a v) = if a == l + 0xB0 then record p { ended = p.ended + 1 } else p
note l p _ = p

-- The statics give what they hold; the local APIC is the one at `l`, and its number is below 64.
abbrev pub Reports : ℕ → Events → Effect → ℕ → Type 0
Reports l p get_lapic n = n ≡ l
Reports l p (get_timer num) n = n ≡ p.timer
Reports l p get_scratch_timer n = n ≡ p.scratch_timer
Reports l p (read_volatile a) n = a ≡ l + lapic_id_reg → n < 64
Reports l p _ n = Unit

-- On the processor whose local APIC is at `l`, everything is allowed.
abbrev pub service : ℕ → Protocol
service l = record {
  Phase = Events;
  Allowed = λ p e. Unit;
  Answers = Reports l;
  next = λ p e n. note l p e;
}

-- What a handler does: each of the two timers adds one to its own counter and tells the local APIC
-- once of the end of the interrupt, a breakpoint leaves both as they are, and these return; the
-- handlers of faults do not return.
abbrev pub Serviced : ℕ → ℕ → Handler → Events → Type 0
Serviced fuel l timer_interrupt_handler p =
    Sure (service l) p (handle fuel timer_interrupt_handler)
      (λ q u. q ≡ record p { timer = (p.timer + 1) % 2 ^ 64; ended = p.ended + 1 })
Serviced fuel l scratch_timer_interrupt_handler p =
    Sure (service l) p (handle fuel scratch_timer_interrupt_handler)
      (λ q u. q ≡ record p { scratch_timer = (p.scratch_timer + 1) % 2 ^ 64; ended = p.ended + 1 })
Serviced fuel l breakpoint_handler p =
    Sure (service l) p (handle fuel breakpoint_handler) (λ q u. q ≡ p)
Serviced fuel l page_fault_handler p =
    Safe (service l) p (handle fuel page_fault_handler) (λ q u. ⊥)
Serviced fuel l (double_fault_handler stack) p =
    Safe (service l) p (handle fuel (double_fault_handler stack)) (λ q u. ⊥)

hlt_loop-Safe :
    (l fuel : ℕ) (p : Events) (Q : Events → Unit {0} → Type 0)
    → Safe (service l) p (hlt_loop fuel) Q
unfolding hlt_loop
hlt_loop-Safe l zero p Q = tt
hlt_loop-Safe l (suc fuel) p Q = (tt, λ n a. hlt_loop-Safe l fuel p Q)

same-address : (a : ℕ) → (a == a) ≡ true
same-address a = ground arith

-- The local APIC is told of the end of the interrupt.
end_of_interrupt-Sure :
    (l m : ℕ) (p t : Events)
    → m ≡ l
    → record p { ended = p.ended + 1 } ≡ t
    → Sure (service l) p (end_of_interrupt m) (λ q u. q ≡ t)
end_of_interrupt-Sure l m p t e f = (tt, λ n a. rw (e, same-address (l + 0xB0)) f)

cpu_number-Serves : (l : ℕ) (p : Events) → Sure (service l) p cpu_number (λ q n. q ≡ p)
cpu_number-Serves l p = (tt, λ m a. (tt, λ id b. bounded id (b (omega (arith, a)))))
  where
    bounded :
        (id : ℕ)
        → id < 64
        → Sure (service l) p (if ltb id 64 then ret id else panicked) (λ q n. q ≡ p)
    bounded id h = let below : ltb id 64 ≡ true = ground (arith, h) in rw below refl

-- Every handler does what it is for, on a processor whose number is below 64: each of the two timers
-- returns, and has added one to its own counter, which wraps, and told the local APIC once of the end
-- of the interrupt; a breakpoint returns and leaves both as they are; and the handlers of faults do
-- not return.
pub handle-Serviced : (fuel l : ℕ) (h : Handler) (p : Events) → Serviced fuel l h p
unfolding handle
handle-Serviced fuel l breakpoint_handler p = (tt, λ n a. refl)
handle-Serviced fuel l (double_fault_handler stack) p = tt
handle-Serviced fuel l page_fault_handler p =
    (tt, λ n a. (tt, λ m b. (tt, λ o c. (tt, λ i d. hlt_loop-Safe l fuel p _))))
handle-Serviced fuel l timer_interrupt_handler p =
    Sure-bind (service l) p cpu_number _ _
      (λ q u. q ≡ record p { timer = (p.timer + 1) % 2 ^ 64; ended = p.ended + 1 })
      (cpu_number-Serves l p)
      (λ q num e. (
        tt,
        λ n c. (
          tt,
          λ k b. (
            tt,
            λ m g.
                let r : Events = record q { timer = (n + 1) % 2 ^ 64 } in
                end_of_interrupt-Sure l m r _ g (
                  ap (λ x. record q { timer = (x + 1) % 2 ^ 64; ended = q.ended + 1 }) c
                  ∙ ap {A = Events}
                      (λ o. record o { timer = (o.timer + 1) % 2 ^ 64; ended = o.ended + 1 }) e),
          ),
        ),
      ))
handle-Serviced fuel l scratch_timer_interrupt_handler p = (
  tt,
  λ n c. (
    tt,
    λ k b. (
      tt,
      λ m g.
          let q : Events = record p { scratch_timer = (n + 1) % 2 ^ 64 } in
          end_of_interrupt-Sure l m q _ g
            (ap (λ x. record p { scratch_timer = (x + 1) % 2 ^ 64; ended = p.ended + 1 }) c),
    ),
  ),
)
