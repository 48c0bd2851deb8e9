-- ===== src/Apic/Chips/Found.antt =====
-- nacl/src/arch/x86_64/apic.rs: the register that the loop of `init_ioapic` finds on an I/O APIC.
use na_cl.Common.{
  ℕ, zero, suc, ◌+◌, ◌*◌, ◌%◌, ◌^◌, ◌<◌, ◌≤◌, ◌≡◌, ◌≢◌, ◌⊎◌, inl, inr, refl, ◌∙◌, ap, sym, Option,
  none, some, ◌==◌, Bool-cases, true, false, arith,
}
use na_cl.Apic.{
  IoApicDevice, entry_reg, redirect, or_before, redirect_from, max_redir_count, init_one,
  read_register, register_at,
}

-- The entries that the version register counts.
abbrev pub count_of : (api : IoApicDevice) → api.Device → ℕ
count_of api d = max_redir_count api (api.reg d 1)

module _ (api : IoApicDevice) (base overridden : ℕ) where
  -- Entry `j`, one of `n` from `idx` on, is that of the overridden interrupt.
  pub record IsTimer (idx n j : ℕ) : Type 0 where
    pub lower : idx ≤ j
    pub upper : j < idx + n
    pub matched : (j + base) % 2 ^ 32 ≡ overridden

  later-IsTimer : (idx n j : ℕ) → IsTimer (idx + 1) n j → IsTimer idx (suc n) j
  later-IsTimer idx n j t = record {
    lower = omega (arith, t.lower);
    upper = omega (arith, t.upper);
    matched = t.matched;
  }

  module _ (n : ℕ) (d : api.Device) (bsp idx : ℕ) (found : Option ℕ) where
    -- The loop after its first round, by what that found.
    next_round : Option ℕ → api.Device × Option ℕ
    next_round r =
        redirect_from api n (redirect api d base overridden bsp idx).0 base overridden bsp (idx + 1)
          r

    hit :
        ((idx + base) % 2 ^ 32 == overridden) ≡ true
        → redirect_from api (suc n) d base overridden bsp idx found
          ≡ next_round (some (entry_reg api idx))
    unfolding redirect_from next_round redirect
    hit q =
        let first : (redirect api d base overridden bsp idx).1 ≡ some (entry_reg api idx) =
          rw (q, redirect) in
        ap (λ r. next_round (or_before api r found)) first

    miss :
        ((idx + base) % 2 ^ 32 == overridden) ≡ false
        → redirect_from api (suc n) d base overridden bsp idx found ≡ next_round found
    unfolding redirect_from next_round redirect
    miss q =
        let first : (redirect api d base overridden bsp idx).1 ≡ none = rw (q, redirect) in
        ap (λ r. next_round (or_before api r found)) first

  -- What is found is what was, or the register of a matching entry.
  pub redirect_from-entry :
      (n : ℕ) (d : api.Device) (bsp idx : ℕ) (found : Option ℕ) (r : ℕ)
      → (redirect_from api n d base overridden bsp idx found).1 ≡ some r
      → (found ≡ some r) ⊎ ((j : ℕ) × IsTimer idx n j × (r ≡ entry_reg api j))
  unfolding redirect_from next_round
  redirect_from-entry zero d bsp idx found r e = inl e
  redirect_from-entry (suc n) d bsp idx found r e =
      elim (Bool-cases ((idx + base) % 2 ^ 32 == overridden)) [
        | inl q ↦
            elim (redirect_from-entry n _ bsp (idx + 1) (some (entry_reg api idx)) r
              (ap (λ x. x.1) (sym (hit n d bsp idx found q)) ∙ e)) [
                | inl s ↦ inr (
                  idx,
                  record { lower = omega arith; upper = omega arith; matched = ground (arith, q) },
                  cc,
                )
                | inr (j, t, s) ↦ inr (j, later-IsTimer idx n j t, s)
              ]
        | inr q ↦
            elim (redirect_from-entry n _ bsp (idx + 1) found r
              (ap (λ x. x.1) (sym (miss n d bsp idx found q)) ∙ e)) [
                | inl s ↦ inl s
                | inr (j, t, s) ↦ inr (j, later-IsTimer idx n j t, s)
              ]
      ]

  -- With a matching entry, something is found.
  pub redirect_from-some :
      (n : ℕ) (d : api.Device) (bsp idx : ℕ) (found : Option ℕ)
      → (found ≢ none) ⊎ ((j : ℕ) × IsTimer idx n j)
      → (redirect_from api n d base overridden bsp idx found).1 ≢ none
  unfolding redirect_from next_round
  redirect_from-some zero d bsp idx found (inl s) = s
  redirect_from-some zero d bsp idx found (inr (j, t)) = absurd (omega (arith, t.lower, t.upper))
  redirect_from-some (suc n) d bsp idx found h =
      elim (Bool-cases ((idx + base) % 2 ^ 32 == overridden)) [
        | inl q ↦ λ e.
            redirect_from-some n _ bsp (idx + 1) (some (entry_reg api idx)) (inl (λ k. cc (k)))
              (ap (λ x. x.1) (sym (hit n d bsp idx found q)) ∙ e)
        | inr q ↦ λ e.
            redirect_from-some n _ bsp (idx + 1) found (still q h)
              (ap (λ x. x.1) (sym (miss n d bsp idx found q)) ∙ e)
      ]
    where
      still :
          ((idx + base) % 2 ^ 32 == overridden) ≡ false
          → (found ≢ none) ⊎ ((j : ℕ) × IsTimer idx (suc n) j)
          → (found ≢ none) ⊎ ((j : ℕ) × IsTimer (idx + 1) n j)
      still q (inl s) = inl s
      still q (inr (j, t)) = inr (
        j,
        record {
          lower = ground (arith, q, t.lower, t.matched);
          upper = omega (arith, t.upper);
          matched = t.matched;
        },
      )

  pub init_one-loop :
      (d : api.Device) (bsp : ℕ)
      → init_one api d base overridden bsp none
        ≡ redirect_from api
            (count_of api d)
            (read_register api d 1).1
            base
            overridden
            (bsp * 2 ^ 24 % 2 ^ 32)
            0
            none
  unfolding init_one read_register register_at
  init_one-loop d bsp =
      let d₀ = api.write_volatile d 0 1 in
      let seen : api.read_volatile d₀ 0x10 ≡ api.reg d 1 =
        api.read-window d₀
        ∙ ap (api.reg d₀) (api.selected-select d 1 (omega arith))
        ∙ api.reg-select d 1 1 in
      rw seen refl

  pub init_one-entry :
      (d : api.Device) (bsp r : ℕ)
      → (init_one api d base overridden bsp none).1 ≡ some r
      → (j : ℕ) × IsTimer 0 (count_of api d) j × (r ≡ entry_reg api j)
  init_one-entry d bsp r e =
      elim (redirect_from-entry (count_of api d) _ (bsp * 2 ^ 24 % 2 ^ 32) 0 none r
        (ap (λ x. x.1) (sym (init_one-loop d bsp)) ∙ e)) [ inl s ↦ cc (s) | inr h ↦ h ]

  pub init_one-some :
      (d : api.Device) (bsp j : ℕ)
      → IsTimer 0 (count_of api d) j
      → (init_one api d base overridden bsp none).1 ≢ none
  init_one-some d bsp j t e =
      redirect_from-some (count_of api d) _ (bsp * 2 ^ 24 % 2 ^ 32) 0 none (inr (j, t))
        (ap (λ x. x.1) (sym (init_one-loop d bsp)) ∙ e)
