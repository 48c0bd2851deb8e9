-- ===== src/Cores.antt =====
-- nacl/src/cores.rs: the state of each processor, made on its first use.
pub mod Registry
pub mod Processor
use na_cl.Common.{ℕ, zero, suc, ◌+◌, Option, none, some, List, [], ◌∷◌, ltb, ◌==◌, if◌then◌else◌}
use na_cl.Common.Outcomes.{Outcome, done, panic}

abbrev pub max_num_cpus : ℕ
max_num_cpus = 64

-- A slot of an array is assigned.
abbrev pub assign {ℓ} : {A : Type ℓ} → (ℕ → Option A) → ℕ → A → ℕ → Option A
assign slots num a i = if num == i then some a else slots i

-- `C` is what a leaked box of `Cpu` points to, `S` a stealer of its worker queue.
module _ (C S : Type 0) (stealer : C → S) where
  -- `CPUS` and `STEALERS`, by their indices below 64.
  pub record Arrays : Type 0 where
    pub cpus : ℕ → Option C
    pub stealers : ℕ → Option S

  pub start : Arrays
  start = record { cpus = λ i. none; stealers = λ i. none }

  -- `cpu` on the processor `num`; `made` is what `Cpu::new` would give. Indices are checked.
  pub cpu : C → ℕ → Arrays → Outcome (C × Arrays)
  cpu made num m =
      let first = done (
        made,
        record { cpus = assign m.cpus num made; stealers = assign m.stealers num (stealer made) },
      ) in
      if ltb num max_num_cpus
      then elim (m.cpus num) [ none ↦ first | some c ↦ done (c, m) ]
      else panic

  -- The slots from `i` on, `n` of them, without those that are empty.
  pub filter_from : ℕ → ℕ → (ℕ → Option S) → List S
  filter_from zero i slots = []
  filter_from (suc n) i slots =
      let rest = filter_from n (i + 1) slots in elim (slots i) [ none ↦ rest | some s ↦ s ∷ rest ]

  -- `stealers`
  pub stealers : Arrays → List S
  stealers m = filter_from max_num_cpus 0 m.stealers
