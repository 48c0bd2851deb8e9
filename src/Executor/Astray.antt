-- ===== src/Executor/Astray.antt =====
-- nacl/src/task/executor.rs: a task that is woken on another processor than its own.
use na_cl.Common.{
  In, In-append_right, ℕ, ◌≡◌, ◌≢◌, inl, inr, refl, sym, ◌∙◌, subst, false, none, some, List, ◌++◌,
  ◌==◌, ==_iff, Option-cases, Bool-cases, arith,
}
use na_cl.Task.{Task}
use na_cl.Executor.{Deps, Core, run_task, wake_task}
use na_cl.Executor.Steps.{IsValid, queue}
use na_cl.Executor.Validity.{run_task-missing, run_task-Ran, run_task-IsValid}
use na_cl.Executor.Rounds.{with_worker-IsValid}
use na_cl.Executor.Stranding.{
  Cores, put, round, Step, run, steal_batch, IsPrivate, put-cases, put-stored, popped,
  run_task-Stranded,
}

module _ (deps : Deps) where
  open deps use {fut, tm, wk}
  open fut use {Future}

  -- A waker of task `i` is called on processor `c`.
  abbrev pub woken : Cores deps → ℕ → ℕ → Cores deps
  woken m c i = put deps m c (record (m c) { worker = wake_task deps (m c).worker i })

  -- Processor `a` does not steal in this step.
  abbrev pub Spares : ℕ → {m n : Cores deps} → Step deps m n → Type 0
  Spares a (run c id w p) = Unit
  Spares a (steal_batch c d thief victim batch ne taken given) = c ≢ a

  pub data After (a : ℕ) (m : Cores deps) : Cores deps → Type 0 where
    now : After a m m
    next : {n t : Cores deps} → After a m n → (st : Step deps n t) → Spares a st → After a m t

  -- Processor `a` has the task, not in its queue, and no other one has it.
  pub record IsAstray (a i : ℕ) (t : Task Future) (m : Cores deps) : Type 0 where
    pub stored : tm.get (m a).tasks i ≡ some t
    pub unqueued : In i (queue deps (m a)) → ⊥
    pub elsewhere : (c : ℕ) → c ≢ a → tm.get (m c).tasks i ≡ none
    pub valid : (c : ℕ) → IsValid deps (m c)

  -- A round does not bring a task.
  run_task-none :
      (s : Core deps) (x i : ℕ)
      → IsValid deps s
      → tm.get s.tasks i ≡ none
      → tm.get (run_task deps s x).tasks i ≡ none
  run_task-none s x i v h = elim (Option-cases (tm.get s.tasks x)) [
    | inl e ↦ rw (run_task-missing deps s x e) h
    | inr (t, e) ↦
        let ne : x ≢ i = λ q. cc (subst (λ j. tm.get s.tasks j ≡ some t) q e, h) in
        let other : (x == i) ≡ false = ground (arith, ne) in
        (run_task-Ran deps s x t v e).tasks_of i ∙ rw other h
  ]

  module _ {a i : ℕ} {t : Task Future} {m : Cores deps} (h : IsAstray a i t m) where
    -- Off the queue of its processor, if that is what a processor `d` is.
    abbrev Off : ℕ → Core deps → Type 0
    Off d u = d ≡ a → In i (queue deps u) → ⊥

    off : (d : ℕ) → Off d (m d)
    off d q j = h.unqueued (subst (λ e. In i (queue deps (m e))) q j)

    own_round :
        (x : ℕ) (w : wk.Worker)
        → IsPrivate deps
        → wk.pop (m a).worker ≡ some (x, w)
        → IsAstray a i t (round deps m a x w)
    own_round x w private p =
        let e = popped deps (m a) x w p in
        let ne : x ≢ i = λ q. h.unqueued (subst (In i) (sym e) (inl (sym q))) in
        let s = record (m a) { worker = w } in
        let v = with_worker-IsValid deps (m a) w (h.valid a) in
        let (out, same) =
          run_task-Stranded deps s x i private v ne
            (λ j. h.unqueued (subst (In i) (sym e) (inr j))) in
        record {
          stored = put-stored deps m a _ h.stored (λ q. same ∙ q);
          unqueued = put-cases deps Off m a _ (λ q. out) off a refl;
          elsewhere =
              put-cases deps (λ d u. d ≢ a → tm.get u.tasks i ≡ none) m a _
                (λ other. absurd (other refl)) h.elsewhere;
          valid =
              put-cases deps (λ d u. IsValid deps u) m a _ (run_task-IsValid deps s x v) h.valid;
        }

    other_round :
        (c x : ℕ) (w : wk.Worker)
        → c ≢ a
        → wk.pop (m c).worker ≡ some (x, w)
        → IsAstray a i t (round deps m c x w)
    other_round c x w ne p =
        let s = record (m c) { worker = w } in
        let v = with_worker-IsValid deps (m c) w (h.valid c) in
        record {
          stored = put-stored deps m c _ h.stored (λ q. absurd (cc (h.elsewhere c ne, q)));
          unqueued = put-cases deps Off m c _ (λ q. absurd (ne q)) off a refl;
          elsewhere =
              put-cases deps (λ d u. d ≢ a → tm.get u.tasks i ≡ none) m c _
                (λ other. run_task-none s x i v (h.elsewhere c ne)) h.elsewhere;
          valid =
              put-cases deps (λ d u. IsValid deps u) m c _ (run_task-IsValid deps s x v) h.valid;
        }

    stolen_batch :
        (c d : ℕ) (thief victim : wk.Worker) (batch : List ℕ)
        → c ≢ d
        → c ≢ a
        → wk.entries (m d).worker ≡ batch ++ wk.entries victim
        → IsAstray a i t (
            put deps
              (put deps m d (record (m d) { worker = victim }))
              c
              (record (m c) { worker = thief }))
    stolen_batch c d thief victim batch ne spares taken =
        let m' = put deps m d (record (m d) { worker = victim }) in
        let other : (d == c) ≡ false = ground (arith, ne) in
        record {
          stored =
              put-stored deps m' c _ (put-stored deps m d _ h.stored (λ q. q)) (λ q. rw other at q);
          unqueued =
              put-cases deps Off m' c _ (λ q. absurd (spares q))
                (put-cases deps Off m d _
                  (λ q j.
                    off d q
                      (subst (In i) (sym taken) (In-append_right i batch (wk.entries victim) j)))
                  off)
                a refl;
          elsewhere =
              put-cases deps (λ e u. e ≢ a → tm.get u.tasks i ≡ none) m' c _ (h.elsewhere c)
                (put-cases deps (λ e u. e ≢ a → tm.get u.tasks i ≡ none) m d _ (h.elsewhere d)
                  h.elsewhere);
          valid =
              put-cases deps (λ e u. IsValid deps u) m' c _
                (with_worker-IsValid deps (m c) thief (h.valid c))
                (put-cases deps (λ e u. IsValid deps u) m d _
                  (with_worker-IsValid deps (m d) victim (h.valid d)) h.valid);
        }

  Step-IsAstray :
      {a i : ℕ} {t : Task Future} {m n : Cores deps}
      → IsPrivate deps
      → IsAstray a i t m
      → (st : Step deps m n) → Spares a st
      → IsAstray a i t n
  Step-IsAstray {a} {i} {t} {m} private h (run c x w p) spares = elim (Bool-cases (c == a)) [
    | inl q ↦
        subst (λ d. wk.pop (m d).worker ≡ some (x, w) → IsAstray a i t (round deps m d x w))
          (sym ((==_iff c a).0 q)) (own_round h x w private) p
    | inr q ↦ other_round h c x w (ground (arith, q)) p
  ]
  Step-IsAstray private h (steal_batch c d thief victim batch ne taken given) spares =
      stolen_batch h c d thief victim batch ne spares taken

  After-IsAstray :
      {a i : ℕ} {t : Task Future} {m n : Cores deps}
      → IsPrivate deps
      → IsAstray a i t m
      → After a m n
      → IsAstray a i t n
  After-IsAstray private h now = h
  After-IsAstray private h (next r st spares) =
      Step-IsAstray private (After-IsAstray private h r) st spares

  -- A waker of a task is called on a processor `c` other than the one, `a`, that alone has the task,
  -- while the task is not in the queue of `a`: if every poll wakes its own task only, then whatever
  -- rounds follow on all the processors, and whatever steals of the others, `a` still stores the task as
  -- it was, and not in its queue: the wake-up never reaches it.
  pub foreign_wake_lost :
      (a c i : ℕ) (t : Task Future) (m n : Cores deps)
      → IsPrivate deps
      → ((d : ℕ) → IsValid deps (m d))
      → tm.get (m a).tasks i ≡ some t
      → ((d : ℕ) → d ≢ a → tm.get (m d).tasks i ≡ none)
      → (In i (queue deps (m a)) → ⊥)
      → c ≢ a
      → After a (woken m c i) n
      → (tm.get (n a).tasks i ≡ some t) × (In i (queue deps (n a)) → ⊥)
  foreign_wake_lost a c i t m n private valid stored elsewhere unqueued ne after =
      let h : IsAstray a i t m = record {
        stored = stored;
        unqueued = unqueued;
        elsewhere = elsewhere;
        valid = valid;
      } in
      let start : IsAstray a i t (woken m c i) = record {
        stored = put-stored deps m c _ stored (λ q. q);
        unqueued = put-cases deps (Off h) m c _ (λ q. absurd (ne q)) (off h) a refl;
        elsewhere =
            put-cases deps (λ d u. d ≢ a → tm.get u.tasks i ≡ none) m c _ (elsewhere c) elsewhere;
        valid =
            put-cases deps (λ d u. IsValid deps u) m c _
              (with_worker-IsValid deps (m c) _ (valid c)) valid;
      } in
      let end = After-IsAstray private start after in (end.stored, end.unqueued)
