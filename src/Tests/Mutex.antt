-- ===== src/Tests/Mutex.antt =====
-- nacl/src/task/lock.rs: runs of the mutex on concrete contexts.
use na_cl.Common.{ℕ, ◌≡◌, ◌≢◌, ◌⊎◌, zero, suc, refl, Bool, true, false, Option, none, some, arith}
use na_cl.Lock.{
  AtomicWaker, Pc, GuardWaker, own, new_waker, holding, waking, pending, registering, holds, System,
  Step, Reach,
}
use na_cl.Lock
use na_cl.Lock.Exclusion.{mutual_exclusion}
use na_cl.Lock.Isolation.{Kept, guard_isolates}
use na_cl.Lock.Waking.{OneWaiter, WakeIsDue, Registered, lone_waiter_woken}
use na_cl.Lock.LostWakes.{Anything, IsStranded, Undisturbed, dropped, spin_guard_strands}

-- A waker that keeps the number that was registered.
abbrev pub slot : AtomicWaker
slot = record {
  Slot = Option ℕ;
  fresh = none;
  register = λ s t. some t;
  wake = λ s. none;
  woken_by = λ s. s;
  woken_by-fresh = refl;
  woken_by-register = λ s t. refl;
  woken_by-wake = λ s. refl;
}

abbrev Mutex : Type 0
Mutex = System slot ℕ

abbrev fresh : Mutex
fresh = Lock.new slot ℕ 7

abbrev moved : Mutex → ℕ → Pc → Mutex
moved = Lock.goto slot ℕ

abbrev tried : Mutex → ℕ → Pc → Pc → Mutex
tried = Lock.try slot ℕ

-- Context 1 holds a guard of a `lock` future.
abbrev held : Mutex
held = tried (moved fresh 1 Pc.polling) 1 (holding own) registering

held-Runs : Reach slot ℕ (Anything slot ℕ) fresh held
held-Runs = Reach.next (Reach.next Reach.here (Step.lock 1 refl) tt) (Step.first_check 1 refl) tt

-- Context 0 polls after it, and has found the mutex taken.
abbrev failed : Mutex → Mutex
failed s = tried (moved s 0 Pc.polling) 0 (holding own) registering

abbrev registered : Mutex → Mutex
registered s = moved (record s { waker = some 0 }) 0 Pc.rechecking

abbrev waiting : Mutex → Mutex
waiting s = tried (registered (failed s)) 0 (holding own) pending

mutual_exclusion_example : (◌≡◌ {A = ℕ} 1 1) × (held.locked ≡ true)
mutual_exclusion_example = mutual_exclusion slot ℕ held-Runs 1 1 refl refl

-- Context 0 polls after it.
abbrev asking : Mutex
asking = moved held 0 Pc.polling

asking-Runs : Reach slot ℕ (Anything slot ℕ) fresh asking
asking-Runs = Reach.next held-Runs (Step.lock 0 refl) tt

guard_isolates_example : Kept slot ℕ asking (failed held) 1
guard_isolates_example =
    guard_isolates slot ℕ asking-Runs (Step.first_check 0 refl) 1 refl (λ e. ground (arith, e))

-- Context 0 waits, and context 1 drops its guard.
abbrev dropping : Mutex
dropping = moved (record (waiting held) { locked = false }) 1 (waking own)

-- Contexts other than 0 and 1 do nothing, and the two of them do nothing that `OneWaiter` excludes.
abbrev asks : Pc → Bool
asks registering = true
asks _ = false

abbrev foreign : Pc → Bool
foreign (holding new_waker) = true
foreign (waking new_waker) = true
foreign _ = false

only :
    (s : Mutex)
    → ((n : ℕ) → s.pc (suc (suc n)) ≡ Pc.idle)
    → asks (s.pc 1) ≡ false
    → foreign (s.pc 0) ≡ false
    → foreign (s.pc 1) ≡ false
    → OneWaiter slot ℕ 0 s
only s rest one f₀ f₁ = record { alone = alone; no_spin = spin; no_late = late }
  where
    alone : (i : ℕ) → s.pc i ≡ registering → i ≡ 0
    alone zero h = refl
    alone (suc zero) h = absurd (ground (arith, one, h))
    alone (suc (suc n)) h = absurd (ground (arith, rest n, h))

    spin : (i : ℕ) → s.pc i ≢ holding new_waker
    spin zero h = ground (arith, f₀, h)
    spin (suc zero) h = ground (arith, f₁, h)
    spin (suc (suc n)) h = ground (arith, rest n, h)

    late : (i : ℕ) → s.pc i ≢ waking new_waker
    late zero h = ground (arith, f₀, h)
    late (suc zero) h = ground (arith, f₁, h)
    late (suc (suc n)) h = ground (arith, rest n, h)

dropping-Runs : Reach slot ℕ (OneWaiter slot ℕ 0) fresh dropping
dropping-Runs =
    let r₁ =
      Reach.next Reach.here (Step.lock 1 refl)
        (only (moved fresh 1 Pc.polling) (λ n. ground arith) refl refl refl) in
    let r₂ =
      Reach.next r₁ (Step.first_check 1 refl) (only held (λ n. ground arith) refl refl refl) in
    let r₃ = Reach.next r₂ (Step.lock 0 refl) (only asking (λ n. ground arith) refl refl refl) in
    let r₄ =
      Reach.next r₃ (Step.first_check 0 refl)
        (only (failed held) (λ n. ground arith) refl refl refl) in
    let r₅ =
      Reach.next r₄ (Step.set_waker 0 refl)
        (only (registered (failed held)) (λ n. ground arith) refl refl refl) in
    let r₆ =
      Reach.next r₅ (Step.second_check 0 refl)
        (only (waiting held) (λ n. ground arith) refl refl refl) in
    Reach.next r₆ (Step.unlock 1 own refl) (only dropping (λ n. ground arith) refl refl refl)

lone_waiter_woken_example :
    (dropping.woken 0 ≡ true) ⊎ (WakeIsDue slot ℕ dropping × Registered slot ℕ 0 dropping)
lone_waiter_woken_example = lone_waiter_woken slot ℕ 0 dropping-Runs refl refl

-- Context 1 holds a guard of `try_lock`, context 0 waits, and context 2 is about to register.
abbrev grabbed : Mutex
grabbed = tried fresh 1 (holding new_waker) Pc.idle

waits :
    (s : Mutex)
    → s.locked ≡ true
    → s.pc 0 ≡ Pc.idle
    → Reach slot ℕ (Anything slot ℕ) fresh s
    → Reach slot ℕ (Anything slot ℕ) fresh (waiting s)
waits s l e r =
    Reach.next
      (Reach.next (Reach.next (Reach.next r (Step.lock 0 e) tt) (Step.first_check 0 refl) tt)
        (Step.set_waker 0 (ground arith)) tt)
      (Step.second_check 0 refl) tt

no_wake : (s : Mutex) → ((n : ℕ) → s.pc n ≢ waking own) → ¬ WakeIsDue slot ℕ s
no_wake s h (i, e) = h i e

-- The guard of context 1 is dropped, and context 2 takes the mutex.
abbrev let_go : Mutex
let_go = dropped slot ℕ (waiting grabbed) 1 new_waker

abbrev taken_again : Mutex
taken_again = tried let_go 2 (holding new_waker) Pc.idle

taken_again-Runs : Reach slot ℕ (Undisturbed slot ℕ 0) let_go taken_again
unfolding dropped
taken_again-Runs =
    Reach.next Reach.here (Step.try_lock 2 refl)
      (refl, no_wake taken_again (λ n e. ground (arith, e)))

spin_guard_strands_example :
    Reach slot ℕ (Anything slot ℕ) fresh let_go
    × IsStranded slot ℕ 0 let_go
    × (taken_again.woken 0 ≡ false)
spin_guard_strands_example =
    spin_guard_strands slot ℕ 1 0
      (waits grabbed refl refl (Reach.next Reach.here (Step.try_lock 1 refl) tt)) refl refl refl
      (no_wake (waiting grabbed) (λ n e. ground (arith, e))) taken_again-Runs

abbrev second : Mutex
second = tried (moved (waiting held) 2 Pc.polling) 2 (holding own) registering
