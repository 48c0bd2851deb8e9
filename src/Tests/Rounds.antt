-- ===== src/Tests/Rounds.antt =====
-- nacl/src/task/mod.rs: a search for a task.
use na_cl.Common.{
  ℕ, zero, suc, ◌<◌, ◌≡◌, refl, true, false, ◌||◌, none, some, List, [], ◌∷◌, ◌++◌, arith,
}
use na_cl.Task.Stealing.{Steal, empty, success, retry, is_success, is_retry}
use na_cl.Task.Finding.{
  FindApi, Search, Settles, TakesFront, Exhausted, attempt, find_task, find_task_ends,
}
use na_cl.Tests.Tasks.{list_queue, Held}

-- A global queue that asks for retries and then gives its first task and moves the next to the
-- worker.
abbrev give : Held → List ℕ → Held × List ℕ × Steal ℕ
give (suc n, l) w = ((n, l), w, retry)
give (zero, []) w = ((0, []), w, empty)
give (zero, (x ∷ [])) w = ((0, []), w, success x)
give (zero, (x ∷ y ∷ l)) w = ((0, l), w ++ (y ∷ []), success x)

-- `or_else` and collecting.
abbrev either : Steal ℕ → Steal ℕ → Steal ℕ
either (success x) b = success x
either empty b = b
either retry (success y) = success y
either retry empty = retry
either retry retry = retry

either-success : (a : Steal ℕ) (x : ℕ) → is_success a ≡ false → either a (success x) ≡ success x
either-success (success y) x h = cc
either-success empty x h = refl
either-success retry x h = refl

either-neither :
    (a b : Steal ℕ)
    → is_success a ≡ false
    → is_success b ≡ false
    → either a b ≡ (elim (is_retry a || is_retry b) [ true ↦ retry | false ↦ empty ])
either-neither (success x) b h k = cc
either-neither empty (success y) h k = cc
either-neither empty empty h k = refl
either-neither empty retry h k = refl
either-neither retry (success y) h k = cc
either-neither retry empty h k = refl
either-neither retry retry h k = refl

-- Nobody else has a task.
abbrev finding : FindApi list_queue
finding = record {
  Injector = Held;
  Stealers = Unit;
  steal_batch_and_pop = give;
  steal_each = λ s. (s, empty);
  or_else = either;
  or_else-success = either-success;
  or_else-neither = either-neither;
}

give-Settles : Settles list_queue finding (λ g s. g.0)
unfolding attempt
give-Settles = record { settles = less }
  where
    less :
        (l : List ℕ) (g : Held) (s : Unit {0})
        → (attempt list_queue finding l g s).0 ≡ retry
        → (attempt list_queue finding l g s).1.global.0 < g.0
    less l (suc n, xs) s h = omega arith
    less l (zero, []) s h = cc
    less l (zero, (x ∷ [])) s h = cc
    less l (zero, (x ∷ y ∷ xs)) s h = cc

find_task_ends_example :
    (r : Search list_queue finding) × (find_task list_queue finding 3 [] (2, 8 ∷ 9 ∷ []) tt
      ≡ some r)
    × TakesFront list_queue finding [] (2, 8 ∷ 9 ∷ []) tt r
    × (r.found ≡ none → Exhausted list_queue finding r [] (2, 8 ∷ 9 ∷ []) tt)
find_task_ends_example =
    find_task_ends list_queue finding (λ g s. g.0) 3 [] (2, 8 ∷ 9 ∷ []) tt give-Settles
      (omega arith)
