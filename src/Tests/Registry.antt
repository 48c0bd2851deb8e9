-- ===== src/Tests/Registry.antt =====
-- nacl/src/cores.rs: processors on concrete arrays. A state is a number, and so is its stealer.
use na_cl.Common.{ℕ, ◌+◌, ◌<◌, ◌≤◌, ◌≡◌, ◌⊎◌, none}
use na_cl.Common.Outcomes.{done, panic}
use na_cl.Cores.{max_num_cpus, assign, Arrays, cpu}
use na_cl.Cores.Registry.{Found, cpu_cases}

abbrev stealer_of : ℕ → ℕ
stealer_of c = c + 100

-- Processor 3 has a state.
abbrev one_made : Arrays ℕ ℕ stealer_of
one_made = record { cpus = assign (λ i. none) 3 7; stealers = assign (λ i. none) 3 107 }

cpu_cases_example :
    ((5 < max_num_cpus)
      × ((c : ℕ) × (m' : Arrays ℕ ℕ stealer_of) × (cpu ℕ ℕ stealer_of 8 5 one_made ≡ done (c, m'))
          × Found ℕ ℕ stealer_of 8 5 one_made m' c))
    ⊎ ((max_num_cpus ≤ 5) × (cpu ℕ ℕ stealer_of 8 5 one_made ≡ panic))
cpu_cases_example = cpu_cases ℕ ℕ stealer_of 8 5 one_made
