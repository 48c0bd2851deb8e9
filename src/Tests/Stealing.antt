-- ===== src/Tests/Stealing.antt =====
-- nacl/src/task/executor.rs: executors of several processors on concrete tasks.
use na_cl.Common.{
  ℕ, ◌≡◌, inl, inr, refl, Bool, true, false, none, some, [], ◌∷◌, In, if◌then◌else◌, ◌==◌, arith,
}
use na_cl.Task.{yield_poll}
use na_cl.Executor.{Core, wake_task}
use na_cl.Executor.Steps.{queue, IsValid}
use na_cl.Executor.Validity.{run_task-missing}
use na_cl.Executor.Stranding.{Cores, round, now, next, run, IsPrivate, stolen_strands}
use na_cl.Executor.Astray.{woken, foreign_wake_lost}
use na_cl.Executor.Astray
use na_cl.Tests.Tasks.{deps, list_queue, one}

-- Processor 1 has stolen task 5 from processor 0, and has task 6 of its own.
abbrev thief : Core deps
thief = record {
  tasks = λ j. if 6 == j then some (record { id = 6; future = false }) else none;
  waker_cache = λ j. none;
  worker = 5 ∷ 6 ∷ [];
}

abbrev blank : Core deps
blank = record { tasks = λ j. none; waker_cache = λ j. none; worker = [] }

abbrev robbed : Cores deps
robbed = λ c. if c == 0 then record one { worker = [] } else if c == 1 then thief else blank

robbed-IsValid : (c : ℕ) → IsValid deps (robbed c)
robbed-IsValid c = record {
  cached = λ i w h. ground (arith, h);
  kept = λ i w h. ground (arith, h);
  named = λ i t h. ground (arith, h);
}

yields-IsPrivate : IsPrivate deps
unfolding yield_poll
yields-IsPrivate = record { own = own }
  where
    own : (f : Bool) (id j : ℕ) → In j (yield_poll f id).2 → j ≡ id
    own true id j h = absurd h
    own false id j (inl q) = q
    own false id j (inr h) = absurd h

-- Processor 1 pops 5, and then runs task 6.
abbrev robbed_later : Cores deps
robbed_later = round deps (round deps robbed 1 5 (6 ∷ [])) 1 6 []

stolen_strands_example :
    ((robbed_later 0).tasks 5 ≡ some (record { id = 5; future = false }))
    × ((c : ℕ) → In 5 (queue deps (robbed_later c)) → ⊥)
stolen_strands_example =
    stolen_strands deps 0 1 5 (record { id = 5; future = false }) (6 ∷ []) robbed robbed_later
      yields-IsPrivate robbed-IsValid refl refl refl (λ h. ground (arith, h))
      (λ c ne h. ground (arith, ne, h)) (next now (run 1 6 [] again))
  where
    again : list_queue.pop (round deps robbed 1 5 (6 ∷ []) 1).worker ≡ some (6, [])
    again = rw (run_task-missing deps (record thief { worker = 6 ∷ [] }) 5 refl) refl

-- Processor 1 has task 6, which waits.
abbrev apart : Cores deps
apart c = if c == 1 then record thief { worker = [] } else robbed c

apart-IsValid : (c : ℕ) → IsValid deps (apart c)
apart-IsValid c = record {
  cached = λ i w h. ground (arith, h);
  kept = λ i w h. ground (arith, h);
  named = λ i t h. ground (arith, h);
}

-- Task 5 of processor 0 is woken on processor 1, which pops it.
foreign_wake_lost_example :
    ((round deps (woken deps apart 1 5) 1 5 [] 0).tasks 5
      ≡ some (record { id = 5; future = false }))
    × (In 5 (queue deps (round deps (woken deps apart 1 5) 1 5 [] 0)) → ⊥)
unfolding wake_task
foreign_wake_lost_example =
    foreign_wake_lost deps 0 1 5 (record { id = 5; future = false }) apart
      (round deps (woken deps apart 1 5) 1 5 []) yields-IsPrivate apart-IsValid refl
      (λ d ne. ground (arith, ne)) (λ h. ground (arith, h)) (omega arith)
      (Astray.next Astray.now (run 1 5 [] refl) tt)
