-- ===== src/Cores/Registry.antt =====
-- nacl/src/cores.rs: one state for each processor, and one stealer for each state.
use mathlib.Core.Option
use na_cl.Common.{
  In, ℕ, zero, suc, ◌+◌, ◌<◌, ◌≤◌, ◌≡◌, ◌≢◌, ◌⊎◌, refl, ap, sym, ◌∙◌, ==_iff, inl, inr, true,
  Option, some, ltb, ◌==◌, arith, Bool-cases, Option-cases,
}
use na_cl.Common.Outcomes.{done, panic}
use na_cl.Cores.{max_num_cpus, assign, Arrays, start, cpu, filter_from, stealers}

module _ (C S : Type 0) (stealer : C → S) where
  -- The stealers are those of the states that were made.
  abbrev pub IsPaired : Arrays C S stealer → Type 0
  IsPaired m = (i : ℕ) → m.stealers i ≡ Option.map stealer (m.cpus i)

  -- What a call of `cpu` that does not panic gives and leaves.
  pub record Found (made : C) (num : ℕ) (m m' : Arrays C S stealer) (c : C) : Type 0 where
    pub own : m'.cpus num ≡ some c
    pub kept : (i : ℕ) (d : C) → m.cpus i ≡ some d → m'.cpus i ≡ some d
    pub others : (i : ℕ) → i ≢ num → m'.cpus i ≡ m.cpus i
    pub again : (other : C) → cpu C S stealer other num m' ≡ done (c, m')
    pub paired : IsPaired m → IsPaired m'

  cpu-known :
      (made c : C) (num : ℕ) (m : Arrays C S stealer)
      → num < max_num_cpus
      → m.cpus num ≡ some c
      → cpu C S stealer made num m ≡ done (c, m)
  unfolding cpu
  cpu-known made c num m h e =
      let inside : ltb num max_num_cpus ≡ true = ground arith in rw (inside, e, cpu)

  -- `cpu` on a processor whose number is below 64 does not panic; it gives the state of the
  -- processor, which every later call of the processor gives again, leaves every state that exists
  -- and those of other processors as they are, and keeps the stealers to those of the states. On a
  -- processor with another number it panics.
  pub cpu_cases :
      (made : C) (num : ℕ) (m : Arrays C S stealer)
      → ((num < max_num_cpus)
          × ((c : C) × (m' : Arrays C S stealer) × (cpu C S stealer made num m ≡ done (c, m'))
              × Found made num m m' c))
        ⊎ ((max_num_cpus ≤ num) × (cpu C S stealer made num m ≡ panic))
  unfolding cpu
  cpu_cases made num m = elim (Bool-cases (ltb num max_num_cpus)) [
    | inl q ↦ elim (Option-cases (m.cpus num)) [
      | inl n ↦
          let m' : Arrays C S stealer = record {
            cpus = assign m.cpus num made;
            stealers = assign m.stealers num (stealer made);
          } in
          let mine : m'.cpus num ≡ some made = ground arith in
          inl (
            ground arith,
            (
              made,
              m',
              rw (q, n, cpu),
              record {
                own = mine;
                kept = λ i d e. ground arith;
                others = λ i ne. ground arith;
                again = λ other. cpu-known other made num m' (ground arith) mine;
                paired = λ p i. ground (arith, p i);
              },
            ),
          )
      | inr (c, e) ↦ inl (
        ground arith,
        (
          c,
          m,
          rw (q, e, cpu),
          record {
            own = e;
            kept = λ i d k. k;
            others = λ i ne. refl;
            again = λ other. cpu-known other c num m (ground arith) e;
            paired = λ p. p;
          },
        ),
      )
    ]
    | inr q ↦ inr (ground arith, rw (q, cpu))
  ]

  -- What holds of a new state, and of those that exist, holds of the one that `cpu` gives.
  pub cpu-has :
      (Holds : C → Type 0) (made : C) (num : ℕ) (m : Arrays C S stealer)
      → num < max_num_cpus
      → Holds made
      → ((i : ℕ) (c : C) → m.cpus i ≡ some c → Holds c)
      → (c : C) × (m' : Arrays C S stealer) × (cpu C S stealer made num m ≡ done (c, m')) × Holds c
  unfolding cpu
  cpu-has Holds made num m small new old =
      let inside : ltb num max_num_cpus ≡ true = ground arith in
      elim (Option-cases (m.cpus num)) [
        | inl n ↦
            let filled : Arrays C S stealer = record {
              cpus = assign m.cpus num made;
              stealers = assign m.stealers num (stealer made);
            } in
            (made, filled, rw (inside, n, cpu), new)
        | inr (c, e) ↦ (c, m, rw (inside, e, cpu), old num c e)
      ]

  pub start-IsPaired : IsPaired (start C S stealer)
  unfolding start
  start-IsPaired i = refl

  filter_from_sound :
      (n i : ℕ) (slots : ℕ → Option S) (s : S)
      → In s (filter_from C S stealer n i slots)
      → (j : ℕ) × (j < i + n) × (slots j ≡ some s)
  unfolding filter_from
  filter_from_sound zero i slots s h = absurd h
  filter_from_sound (suc n) i slots s h = elim (Option-cases (slots i)) [
    | inl e ↦
        let (j, lt, q) = filter_from_sound n (i + 1) slots s (rw (e, filter_from) at h) in
        (j, omega arith, q)
    | inr (x, e) ↦ either x e (rw (e, filter_from) at h) (filter_from_sound n (i + 1) slots s)
  ]
    where
      either :
          (x : S)
          → slots i ≡ some x
          → (s ≡ x) ⊎ In s (filter_from C S stealer n (i + 1) slots)
          → (In s (filter_from C S stealer n (i + 1) slots)
              → (j : ℕ) × (j < i + 1 + n) × (slots j ≡ some s))
          → (j : ℕ) × (j < i + suc n) × (slots j ≡ some s)
      either x e (inl q) rest = (i, omega arith, e ∙ ap some (sym q))
      either x e (inr h) rest = let (j, lt, q) = rest h in (j, omega arith, q)

  filter_from_complete :
      (n i j : ℕ) (slots : ℕ → Option S) (s : S)
      → i ≤ j
      → j < i + n
      → slots j ≡ some s
      → In s (filter_from C S stealer n i slots)
  unfolding filter_from
  filter_from_complete zero i j slots s lo hi e = absurd (omega arith)
  filter_from_complete (suc n) i j slots s lo hi e = elim (Bool-cases (i == j)) [
    | inl q ↦
        let at : slots i ≡ some s = ap slots ((==_iff i j).0 q) ∙ e in
        rw (at, filter_from) (inl refl)
    | inr q ↦
        let later = filter_from_complete n (i + 1) j slots s (ground arith) (omega arith) e in
        elim (Option-cases (slots i)) [
          | inl none_here ↦ rw (none_here, filter_from) later
          | inr (x, some_here) ↦ rw (some_here, filter_from) (inr later)
        ]
  ]

  -- If the stealers are those of the states that were made, `stealers` goes through the stealers of
  -- the states of the processors below 64, and through no others.
  stealers_exact :
      (m : Arrays C S stealer) (s : S)
      → IsPaired m
      → (In s (stealers C S stealer m)
          → (i : ℕ) × (c : C) × (i < max_num_cpus) × (m.cpus i ≡ some c) × (s ≡ stealer c))
        × ((i : ℕ) (c : C)
            → i < max_num_cpus
            → m.cpus i ≡ some c
            → s ≡ stealer c
            → In s (stealers C S stealer m))
  unfolding stealers
  stealers_exact m s p = (
    λ h.
        let (i, lt, e) = filter_from_sound max_num_cpus 0 m.stealers s h in
        elim (Option-cases (m.cpus i)) [
          | inl n ↦ absurd (ground (arith, n, p i, e))
          | inr (c, q) ↦ (i, c, lt, q, ground (arith, p i, e, q))
        ],
    λ i c lt e q.
        filter_from_complete max_num_cpus 0 i m.stealers s (omega arith) lt
          (ground (arith, p i, e, q)),
  )
