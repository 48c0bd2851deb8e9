-- ===== src/Executor/Stranding.antt =====
-- nacl/src/task/executor.rs: the executors of several processors, which steal from each other.
use na_cl.Common.{
  In, In-append_cases, In-append_left, In-append_right, ℕ, ◌≡◌, ◌≢◌, inl, inr, refl, sym, ◌∙◌,
  subst, false, none, some, List, ◌∷◌, ◌++◌, ◌==◌, if◌then◌else◌, ==_iff, Option-cases, Bool-cases,
  List-cases, arith,
}
use na_cl.Task.{Task}
use na_cl.Executor.{Deps, Core, run_task}
use na_cl.Executor.Steps.{IsValid, queue}
use na_cl.Executor.Validity.{run_task-missing, run_task-Ran, run_task-IsValid}
use na_cl.Executor.Rounds.{pop-cons, pop-nil, with_worker-IsValid}

module _ (deps : Deps) where
  open deps use {fut, tm, wk}
  open fut use {Future, poll}

  -- The executors, by the numbers of their processors.
  abbrev pub Cores : Type 0
  Cores = ℕ → Core deps

  abbrev pub put : Cores → ℕ → Core deps → Cores
  put m c s d = if c == d then s else m d

  -- A round of `run_ready_tasks` on processor `c`, on the identifier that was popped.
  abbrev pub round : Cores → ℕ → ℕ → wk.Worker → Cores
  round m c id w = put m c (run_task deps (record (m c) { worker = w }) id)

  -- A round of a processor, or a batch that `sleep_if_idle` steals: the first identifiers of one queue
  -- go to the end of another.
  pub data Step (m : Cores) : Cores → Type 0 where
    run : (c id : ℕ) (w : wk.Worker) → wk.pop (m c).worker ≡ some (id, w) → Step m (round m c id w)
    steal_batch :
        (c d : ℕ) (thief victim : wk.Worker) (batch : List ℕ)
        → c ≢ d
        → wk.entries (m d).worker ≡ batch ++ wk.entries victim
        → wk.entries thief ≡ wk.entries (m c).worker ++ batch
        → Step m
            (put (put m d (record (m d) { worker = victim })) c (record (m c) { worker = thief }))

  pub data After (m : Cores) : Cores → Type 0 where
    now : After m m
    next : {n t : Cores} → After m n → Step n t → After m t

  -- A poll wakes no task but its own.
  pub record IsPrivate : Type 0 where
    pub own : (f : Future) (id j : ℕ) → let (f', result, wakes) = poll f id in In j wakes → j ≡ id

  -- The task is stored on processor `a`, and its identifier is in no queue.
  pub record IsStranded (a i : ℕ) (t : Task Future) (m : Cores) : Type 0 where
    pub stored : tm.get (m a).tasks i ≡ some t
    pub unqueued : (c : ℕ) → In i (queue deps (m c)) → ⊥
    pub valid : (c : ℕ) → IsValid deps (m c)

  -- A processor whose executor has been replaced.
  pub put-cases :
      (P : ℕ → Core deps → Type 0) (m : Cores) (c : ℕ) (s : Core deps)
      → P c s
      → ((d : ℕ) → P d (m d))
      → (d : ℕ) → P d (put m c s d)
  put-cases P m c s new old d = elim (Bool-cases (c == d)) [
    | inl q ↦ rw q (subst (λ x. P x s) ((==_iff c d).0 q) new)
    | inr q ↦ rw q (old d)
  ]

  pub put-stored :
      {a i : ℕ} {t : Task Future} (m : Cores) (c : ℕ) (s : Core deps)
      → tm.get (m a).tasks i ≡ some t
      → (tm.get (m c).tasks i ≡ some t → tm.get s.tasks i ≡ some t)
      → tm.get (put m c s a).tasks i ≡ some t
  put-stored {a} {i} {t} m c s old new = elim (Bool-cases (c == a)) [
    | inl q ↦
        let same : c ≡ a = (==_iff c a).0 q in
        rw q (new (subst (λ d. tm.get (m d).tasks i ≡ some t) (sym same) old))
    | inr q ↦ rw q old
  ]

  pub popped :
      (s : Core deps) (x : ℕ) (w : wk.Worker)
      → wk.pop s.worker ≡ some (x, w)
      → queue deps s ≡ x ∷ wk.entries w
  popped s x w p = elim (List-cases (queue deps s)) [
    | inl e ↦ absurd (cc (pop-nil deps s.worker e, p))
    | inr (y, q, e) ↦
        let (w', p', left) = pop-cons deps s.worker y q e in
        let same : some (y, w') ≡ some (x, w) = sym p' ∙ p in ground (arith, e, left, same)
  ]

  -- A round on another identifier, whose poll does not wake task `i`.
  pub run_task-Stranded :
      (s : Core deps) (x i : ℕ)
      → IsPrivate
      → IsValid deps s
      → x ≢ i
      → (In i (queue deps s) → ⊥)
      → ((In i (queue deps (run_task deps s x)) → ⊥)
          × (tm.get (run_task deps s x).tasks i ≡ tm.get s.tasks i))
  run_task-Stranded s x i private v ne out = elim (Option-cases (tm.get s.tasks x)) [
    | inl e ↦ rw (run_task-missing deps s x e) (out, refl)
    | inr (t, e) ↦
        let r = run_task-Ran deps s x t v e in
        let other : (x == i) ≡ false = ground (arith, ne) in
        (
          λ h. elim (In-append_cases i (queue deps s) _ (subst (In i) r.queued h)) [
            | inl old ↦ out old
            | inr woken ↦ ne (sym (private.own t.future x i woken))
          ],
          r.tasks_of i ∙ rw other refl,
        )
  ]

  -- A step that does not run task `i` leaves it where it is.
  Step-IsStranded :
      {a i : ℕ} {t : Task Future} {m n : Cores}
      → IsPrivate
      → IsStranded a i t m
      → Step m n
      → IsStranded a i t n
  Step-IsStranded {a} {i} {t} {m} private h (run c id w p) =
      let e = popped (m c) id w p in
      let ne : id ≢ i = λ q. h.unqueued c (subst (In i) (sym e) (inl (sym q))) in
      let s = record (m c) { worker = w } in
      let v = with_worker-IsValid deps (m c) w (h.valid c) in
      let (out, same) =
        run_task-Stranded s id i private v ne (λ j. h.unqueued c (subst (In i) (sym e) (inr j))) in
      record {
        stored = put-stored m c _ h.stored (λ q. same ∙ q);
        unqueued = put-cases (λ d u. In i (queue deps u) → ⊥) m c _ out h.unqueued;
        valid = put-cases (λ d u. IsValid deps u) m c _ (run_task-IsValid deps s id v) h.valid;
      }
  Step-IsStranded {a} {i} {t} {m} private h (steal_batch c d thief victim batch ne taken given) =
      let m' = put m d (record (m d) { worker = victim }) in
      let other : (d == c) ≡ false = ground (arith, ne) in
      let out_batch : In i batch → ⊥ = λ j.
        h.unqueued d (subst (In i) (sym taken) (In-append_left i batch (wk.entries victim) j)) in
      let out_victim : In i (wk.entries victim) → ⊥ = λ j.
        h.unqueued d (subst (In i) (sym taken) (In-append_right i batch (wk.entries victim) j)) in
      let out_thief : In i (wk.entries thief) → ⊥ = λ j.
        elim (In-append_cases i (queue deps (m c)) batch (subst (In i) given j)) [
          | inl old ↦ h.unqueued c old
          | inr new ↦ out_batch new
        ] in
      record {
        stored = put-stored m' c _ (put-stored m d _ h.stored (λ q. q)) (λ q. rw other at q);
        unqueued =
            put-cases (λ e u. In i (queue deps u) → ⊥) m' c _ out_thief
              (put-cases (λ e u. In i (queue deps u) → ⊥) m d _ out_victim h.unqueued);
        valid =
            put-cases (λ e u. IsValid deps u) m' c _
              (with_worker-IsValid deps (m c) thief (h.valid c))
              (put-cases (λ e u. IsValid deps u) m d _
                (with_worker-IsValid deps (m d) victim (h.valid d)) h.valid);
      }

  After-IsStranded :
      {a i : ℕ} {t : Task Future} {m n : Cores}
      → IsPrivate
      → IsStranded a i t m
      → After m n
      → IsStranded a i t n
  After-IsStranded private h now = h
  After-IsStranded private h (next r s) = Step-IsStranded private (After-IsStranded private h r) s

  -- Processor `c` pops the identifier of a task that it does not have, and that processor `a` stores,
  -- and the identifier is in no queue any more: if every poll wakes its own task only, then whatever
  -- rounds and steals follow, `a` still stores the task as it was, and its identifier is in no queue.
  pub stolen_strands :
      (a c i : ℕ) (t : Task Future) (w : wk.Worker) (m n : Cores)
      → IsPrivate
      → ((d : ℕ) → IsValid deps (m d))
      → tm.get (m a).tasks i ≡ some t
      → tm.get (m c).tasks i ≡ none
      → wk.pop (m c).worker ≡ some (i, w)
      → (In i (wk.entries w) → ⊥)
      → ((d : ℕ) → c ≢ d → In i (queue deps (m d)) → ⊥)
      → After (round m c i w) n
      → (tm.get (n a).tasks i ≡ some t) × ((d : ℕ) → In i (queue deps (n d)) → ⊥)
  stolen_strands a c i t w m n private valid stored missing p once elsewhere after =
      let s = record (m c) { worker = w } in
      let same = run_task-missing deps s i missing in
      let lost : (d : ℕ) → In i (queue deps (round m c i w d)) → ⊥ = λ d.
        elim (Bool-cases (c == d)) [
          | inl q ↦ rw (q, same) once
          | inr q ↦ rw q (elsewhere d (ground (arith, q)))
        ] in
      let start : IsStranded a i t (round m c i w) = record {
        stored = put-stored m c _ stored (λ q. rw same q);
        unqueued = lost;
        valid =
            put-cases (λ d u. IsValid deps u) m c _
              (run_task-IsValid deps s i (with_worker-IsValid deps (m c) w (valid c))) valid;
      } in
      let end = After-IsStranded private start after in (end.stored, end.unqueued)
