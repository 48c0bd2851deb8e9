-- ===== src/Tests/Tasks.antt =====
-- nacl/src/task: the executor on concrete tasks.
use mathlib.Core.Option
use na_cl.Common.{
  ℕ, zero, suc, ◌+◌, ◌<◌, ◌≤◌, ◌≡◌, ◌≢◌, ◌⊎◌, refl, Bool, true, false, not, Option, none, some,
  List, [], ◌∷◌, ◌++◌, ◌==◌, if◌then◌else◌, length, arith,
}
use na_cl.Common.Outcomes.{done, panic}
use na_cl.HashMap.{HashMap}
use na_cl.Task.{Task, yield_poll}
use na_cl.Task.Interfaces.{ready, pending, FutureApi, WorkerApi, uncons, is_nil}
use na_cl.Task.Stealing.{Steal, empty, success, retry, is_success, StealerApi}
use na_cl.Executor.{Deps, Core, spawn, run_task}
use na_cl.Executor.Steps.{IsValid, Ran}
use na_cl.Executor.Validity.{run_task-Ran, Spawned, spawn_cases}
use na_cl.Executor.Rounds.{RoundsOver, served_in_order}
use na_cl.Executor.Termination.{IsFrugal}
use na_cl.Executor.Sleep.{steal_from, steal_any, sleep_if_idle, sleep_if_idle_cases, Calms}

-- A map as the function that looks a key up.
abbrev pub table : (V : Type 0) → HashMap V
table V = record {
  Map = ℕ → Option V;
  new = λ k. none;
  get = λ m k. m k;
  insert = λ m k v j. if k == j then some v else m j;
  remove = λ m k j. if k == j then none else m j;
  get-new = λ k. refl;
  get-insert = λ m k v j. refl;
  get-remove = λ m k j. refl;
}

pub uncons-same : (w : List ℕ) → Option.map {A = ℕ × List ℕ} (λ r. (r.0, r.1)) (uncons w) ≡ uncons w
uncons-same [] = refl
uncons-same (x ∷ w) = refl

abbrev pub list_queue : WorkerApi
list_queue = record {
  Worker = List ℕ;
  entries = λ w. w;
  new_fifo = [];
  push = λ w x. w ++ (x ∷ []);
  pop = uncons;
  is_empty = is_nil;
  entries-new_fifo = refl;
  entries-push = λ w x. refl;
  pop-entries = uncons-same;
  is_empty-entries = λ w. refl;
}

-- The futures are those of `yield_now`.
abbrev pub yields : FutureApi
yields = record { Future = Bool; poll = yield_poll }

abbrev pub deps : Deps
deps = record { fut = yields; tm = table (Task Bool); wm = table ℕ; wk = list_queue }

-- An executor with one task, which has not yielded yet.
abbrev pub one : Core deps
one = record {
  tasks = λ j. if 5 == j then some (record { id = 5; future = false }) else none;
  waker_cache = λ j. none;
  worker = 5 ∷ [];
}

pub one-IsValid : IsValid deps one
one-IsValid = record {
  cached = λ i w h. cc;
  kept = λ i w h. cc;
  named = λ i t h. ground (arith, h);
}

run_task-Ran_example :
    Ran deps one (run_task deps one 5) 5 (record { id = 5; future = false }) true pending (5 ∷ [])
unfolding yield_poll
run_task-Ran_example = run_task-Ran deps one 5 (record { id = 5; future = false }) one-IsValid refl

spawn_cases_example :
    ((spawn deps one (record { id = 5; future = true }) ≡ panic) × (one.tasks 5 ≢ none))
    ⊎ ((s' : Core deps) × (spawn deps one (record { id = 5; future = true }) ≡ done s')
        × Spawned deps one (record { id = 5; future = true }) s')
spawn_cases_example = spawn_cases deps one (record { id = 5; future = true })

served_in_order_example : (s' : Core deps) × RoundsOver deps (5 ∷ []) [] one s'
served_in_order_example = served_in_order deps (5 ∷ []) [] one one-IsValid refl

-- A task that yields calls its waker once.
abbrev pub cost : Bool → ℕ
cost true = 0
cost false = 1

pub cost-IsFrugal : IsFrugal deps cost
unfolding yield_poll
cost-IsFrugal = record { spends = spends }
  where
    spends :
        (f : Bool) (id : ℕ)
        → ((yield_poll f id).1 ≡ ready → length (yield_poll f id).2 ≤ cost f)
          × ((yield_poll f id).1 ≡ pending
              → length (yield_poll f id).2 + cost (yield_poll f id).0 ≤ cost f)
    spends true id = (λ h. omega arith, λ h. cc)
    spends false id = (λ h. cc, λ h. omega arith)

-- A stealer that asks for retries and then hands out what it holds.
abbrev pub Held : Type 0
Held = ℕ × List ℕ

abbrev pub hand : Held → List ℕ → Held × List ℕ × Steal (Unit {0})
hand (suc n, l) w = ((n, l), w, retry)
hand (zero, []) w = ((0, []), w, empty)
hand (zero, (x ∷ l)) w = ((0, []), w ++ (x ∷ l), success tt)

pub hand-same : (s : Held) (w : List ℕ) → is_success (hand s w).2 ≡ false → (hand s w).1 ≡ w
hand-same (suc n, l) w h = refl
hand-same (zero, []) w h = refl
hand-same (zero, (x ∷ l)) w h = cc

pub hand-more : (s : Held) (w : List ℕ) → is_success (hand s w).2 ≡ true → (hand s w).1 ≢ []
hand-more (suc n, l) w h = absurd (cc)
hand-more (zero, []) w h = absurd (cc)
hand-more (zero, (x ∷ l)) [] h = λ e. cc
hand-more (zero, (x ∷ l)) (y ∷ w) h = λ e. cc

abbrev pub stealers : StealerApi list_queue
stealers = record {
  Stealer = Held;
  steal_batch = hand;
  steal_batch-same = hand-same;
  steal_batch-some = hand-more;
}

abbrev pub others : List Held
others = (0, []) ∷ (2, 8 ∷ []) ∷ []

sleep_if_idle_cases_example :
    ((false ≡ true) × (false ≡ true) × (◌≡◌ {A = List ℕ} (8 ∷ []) []) × (◌≡◌ {A = List ℕ} [] []))
    ⊎ ((false ≡ false) × (◌≢◌ {A = List ℕ} (8 ∷ []) []) × (false ≡ not (is_nil {A = ℕ} [])))
unfolding sleep_if_idle steal_any steal_from
sleep_if_idle_cases_example =
    sleep_if_idle_cases list_queue stealers 3 others []
      (record { worker = 8 ∷ []; interrupts = false; halted = false }) refl

pub calms : Calms list_queue stealers (λ s. s.0)
calms = record { calmer = less }
  where
    less : (s : Held) (w : List ℕ) → (hand s w).2 ≡ retry → (hand s w).0.0 < s.0
    less (suc n, l) w h = omega arith
    less (zero, []) w h = cc
    less (zero, (x ∷ l)) w h = cc
