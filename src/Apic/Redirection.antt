-- ===== src/Apic/Redirection.antt =====
-- nacl/src/arch/x86_64/apic.rs: the redirection entries after `init_ioapic`.
use na_cl.Common.{
  ℕ, zero, suc, ◌+◌, ◌*◌, ◌/◌, ◌%◌, ◌^◌, ◌<◌, ◌≤◌, ◌≡◌, ◌≢◌, refl, ◌∙◌, ap, Option, ◌==◌, arith,
  Bool-cases, inl, inr, subst, ◌⊎◌,
}
use na_cl.Apic.{
  IoApicDevice, timer_vector, or_masked, register_at, read_register, write_register,
  update_register, entry_reg, redirect, or_before, redirect_from, max_redir_count, init_one,
}

module _ (api : IoApicDevice) where
  open api use {Device, reg}

  -- The bits of register `k` that are as they were written are those of `v`.
  pub record Reads (d : Device) (k v : ℕ) : Type 0 where
    pub low : reg d k % 256 ≡ v % 256
    pub high : reg d k / 65536 ≡ v / 65536

  write_register-same :
      (d : Device) (r v : ℕ) → 0x10 ≤ r → r < 256 → Reads (write_register api d r v) r v
  unfolding write_register register_at
  write_register-same d r v lo hi =
      let d' = api.write_volatile d 0 r in
      let at = api.selected-select d r hi in
      record {
        low = ground (arith, at, api.low-window d' v r);
        high = ground (arith, at, api.high-window d' v r);
      }

  write_register-other :
      (d : Device) (r v k : ℕ)
      → 0x10 ≤ r
      → r < 256
      → r ≢ k
      → Reads (write_register api d r v) k (reg d k)
  unfolding write_register register_at
  write_register-other d r v k lo hi ne =
      let d' = api.write_volatile d 0 r in
      let at = api.selected-select d r hi in
      record {
        low = ground (arith, at, api.low-window d' v k, api.reg-select d r k);
        high = ground (arith, at, api.high-window d' v k, api.reg-select d r k);
      }

  Reads-trans : (d d' : Device) (k v : ℕ) → Reads d k v → Reads d' k (reg d k) → Reads d' k v
  Reads-trans d d' k v a b = record { low = b.low ∙ a.low; high = b.high ∙ a.high }

  Reads-masked :
      (d d' : Device) (k v : ℕ)
      → Reads d k v
      → Reads d' k (or_masked (reg d k))
      → Reads d' k (or_masked v)
  Reads-masked d d' k v a b = record {
    low = ground (arith, a.low, a.high, b.low);
    high = ground (arith, a.high, b.high);
  }

  update_register-same :
      (d : Device) (r : ℕ) (f : ℕ → ℕ)
      → 0x10 ≤ r
      → r < 256
      → Reads (update_register api d r f) r (f (reg d r))
  unfolding update_register read_register write_register register_at
  update_register-same d r f lo hi =
      let d' = api.write_volatile d 0 r in
      let seen : api.read_volatile d' 0x10 ≡ reg d r =
        api.read-window d' ∙ ap (reg d') (api.selected-select d r hi) ∙ api.reg-select d r r in
      rw seen (write_register-same d' r (f (reg d r)) lo hi)

  update_register-other :
      (d : Device) (r : ℕ) (f : ℕ → ℕ) (k : ℕ)
      → 0x10 ≤ r
      → r < 256
      → r ≢ k
      → Reads (update_register api d r f) k (reg d k)
  unfolding update_register read_register write_register register_at
  update_register-other d r f k lo hi ne =
      let d' = api.write_volatile d 0 r in
      let kept = write_register-other d' r (f (api.read_volatile d' 0x10)) k lo hi ne in
      record {
        low = kept.low ∙ ap (λ v. v % 256) (api.reg-select d r k);
        high = kept.high ∙ ap (λ v. v / 65536) (api.reg-select d r k);
      }

  -- Entry `j` before and after: the timer's goes to the processor that boots, unmasked; another is
  -- masked, and otherwise as it was.
  pub record Wired (d d' : Device) (base overridden bsp j : ℕ) : Type 0 where
    pub timer :
        (j + base) % 2 ^ 32 ≡ overridden
        → Reads d' (0x10 + j * 2) timer_vector × Reads d' (0x11 + j * 2) bsp
    pub other :
        (j + base) % 2 ^ 32 ≢ overridden
        → Reads d' (0x10 + j * 2) (or_masked (reg d (0x10 + j * 2)))
          × Reads d' (0x11 + j * 2) (reg d (0x11 + j * 2))

  -- The body of the loop on entry `j`.
  record Round (d d' : Device) (base overridden bsp j : ℕ) : Type 0 where
    wired : Wired d d' base overridden bsp j
    rest : (k : ℕ) → k ≢ 0x10 + j * 2 → k ≢ 0x11 + j * 2 → Reads d' k (reg d k)

  redirect-Round :
      (d : Device) (base overridden bsp j : ℕ)
      → j < 120
      → Round d (redirect api d base overridden bsp j).0 base overridden bsp j
  unfolding redirect
  redirect-Round d base overridden bsp j lt =
      let at : entry_reg api j ≡ 0x10 + j * 2 = omega arith in
      let next : (0x10 + j * 2 + 1) % 256 ≡ 0x11 + j * 2 = omega arith in
      elim (Bool-cases ((j + base) % 2 ^ 32 == overridden)) [
        | inl q ↦
            let d₁ = write_register api d (0x10 + j * 2) timer_vector in
            rw (q, at, next)
              (record {
                wired = record {
                  timer = λ e. (
                    Reads-trans d₁ _ (0x10 + j * 2) timer_vector
                        (write_register-same d (0x10 + j * 2) timer_vector (omega arith)
                          (omega arith))
                        (write_register-other d₁ (0x11 + j * 2) bsp (0x10 + j * 2) (omega arith)
                          (omega arith) (omega arith)),
                    write_register-same d₁ (0x11 + j * 2) bsp (omega arith) (omega arith),
                  );
                  other = λ ne. absurd (ground arith);
                };
                rest = λ k n m.
                    Reads-trans d₁ _ k (reg d k)
                      (write_register-other d (0x10 + j * 2) timer_vector k (omega arith)
                        (omega arith) (ground arith))
                      (write_register-other d₁ (0x11 + j * 2) bsp k (omega arith) (omega arith)
                        (ground arith));
              })
        | inr q ↦
            rw (q, at)
              (record {
                wired = record {
                  timer = λ e. absurd (ground arith);
                  other = λ ne. (
                    update_register-same d (0x10 + j * 2) or_masked (omega arith) (omega arith),
                    update_register-other d (0x10 + j * 2) or_masked (0x11 + j * 2) (omega arith)
                        (omega arith) (omega arith),
                  );
                };
                rest = λ k n m.
                    update_register-other d (0x10 + j * 2) or_masked k (omega arith) (omega arith)
                      (ground arith);
              })
      ]

  -- What the loop leaves, from entry `idx` on with `n` entries.
  record Loop (d d' : Device) (base overridden bsp idx n : ℕ) : Type 0 where
    wired : (j : ℕ) → idx ≤ j → j < idx + n → Wired d d' base overridden bsp j
    rest : (k : ℕ) → (k < 0x10 + idx * 2) ⊎ (0x10 + (idx + n) * 2 ≤ k) → Reads d' k (reg d k)

  Wired-kept :
      (d d' d'' : Device) (base overridden bsp j : ℕ)
      → Wired d d' base overridden bsp j
      → Reads d'' (0x10 + j * 2) (reg d' (0x10 + j * 2))
      → Reads d'' (0x11 + j * 2) (reg d' (0x11 + j * 2))
      → Wired d d'' base overridden bsp j
  Wired-kept d d' d'' base overridden bsp j w a b = record {
    timer = λ e. let (x, y) = w.timer e in (Reads-trans d' d'' _ _ x a, Reads-trans d' d'' _ _ y b);
    other =
        λ ne. let (x, y) = w.other ne in (Reads-trans d' d'' _ _ x a, Reads-trans d' d'' _ _ y b);
  }

  Wired-before :
      (d d' d'' : Device) (base overridden bsp j : ℕ)
      → Wired d' d'' base overridden bsp j
      → Reads d' (0x10 + j * 2) (reg d (0x10 + j * 2))
      → Reads d' (0x11 + j * 2) (reg d (0x11 + j * 2))
      → Wired d d'' base overridden bsp j
  Wired-before d d' d'' base overridden bsp j w a b = record {
    timer = w.timer;
    other =
        λ ne. let (x, y) = w.other ne in (Reads-masked d' d'' _ _ a x, Reads-trans d' d'' _ _ b y);
  }

  redirect_from-Loop :
      (n : ℕ) (d : Device) (base overridden bsp idx : ℕ) (found : Option ℕ)
      → idx + n ≤ 120
      → Loop d (redirect_from api n d base overridden bsp idx found).0 base overridden bsp idx n
  unfolding redirect_from
  redirect_from-Loop zero d base overridden bsp idx found h = record {
    wired = λ j lo hi. absurd (omega arith);
    rest = λ k o. record { low = refl; high = refl };
  }
  redirect_from-Loop (suc n) d base overridden bsp idx found h =
      let r = redirect-Round d base overridden bsp idx (omega arith) in
      let d₁ = (redirect api d base overridden bsp idx).0 in
      let found₁ = or_before api (redirect api d base overridden bsp idx).1 found in
      let d₂ = (redirect_from api n d₁ base overridden bsp (idx + 1) found₁).0 in
      let l = redirect_from-Loop n d₁ base overridden bsp (idx + 1) found₁ (omega arith) in
      record {
        wired = λ j lo hi. elim (Bool-cases (idx == j)) [
          | inl q ↦
              let at : idx ≡ j = ground arith in
              subst (λ i. Wired d d₂ base overridden bsp i) at
                (Wired-kept d d₁ d₂ base overridden bsp idx r.wired
                  (l.rest (0x10 + idx * 2) (inl (omega arith)))
                  (l.rest (0x11 + idx * 2) (inl (omega arith))))
          | inr q ↦
              let later : idx ≢ j = ground arith in
              Wired-before d d₁ _ base overridden bsp j (l.wired j (omega arith) (omega arith))
                (r.rest (0x10 + j * 2) (omega arith) (omega arith))
                (r.rest (0x11 + j * 2) (omega arith) (omega arith))
        ];
        rest = λ k o.
            Reads-trans d₁ _ k (reg d k) (r.rest k (ground arith) (ground arith))
              (l.rest k (ground arith));
      }

  -- The loop of `init_ioapic` over one I/O APIC of at most 120 entries gives the entry whose
  -- interrupt, counted from the base, is the overridden one the vector of the timer, unmasked, with
  -- the processor that boots for its destination; it masks the other entries and otherwise leaves
  -- them as they were, and so the registers before and after the table.
  pub init_one_wires :
      (d : Device) (base overridden bsp_acpi_id version : ℕ) (found : Option ℕ)
      → reg d 1 ≡ version
      → max_redir_count api version ≤ 120
      → let d' = (init_one api d base overridden bsp_acpi_id found).0 in
        ((j : ℕ)
          → j < max_redir_count api version
          → Wired d d' base overridden (bsp_acpi_id * 2 ^ 24 % 2 ^ 32) j)
        × ((k : ℕ)
            → (k < 0x10) ⊎ (0x10 + max_redir_count api version * 2 ≤ k)
            → Reads d' k (reg d k))
  unfolding init_one read_register register_at
  init_one_wires d base overridden bsp_acpi_id version found e h =
      let d₀ = api.write_volatile d 0 1 in
      let n = max_redir_count api version in
      let seen : api.read_volatile d₀ 0x10 ≡ version =
        api.read-window d₀
        ∙ ap (reg d₀) (api.selected-select d 1 (omega arith))
        ∙ api.reg-select d 1 1
        ∙ e in
      let same : (k : ℕ) → Reads d₀ k (reg d k) = λ k. record {
        low = ap (λ v. v % 256) (api.reg-select d 1 k);
        high = ap (λ v. v / 65536) (api.reg-select d 1 k);
      } in
      let bsp = bsp_acpi_id * 2 ^ 24 % 2 ^ 32 in
      let d' = (redirect_from api n d₀ base overridden bsp 0 found).0 in
      let l = redirect_from-Loop n d₀ base overridden bsp 0 found (omega (arith, h)) in
      rw seen (
        λ j lt.
            Wired-before d d₀ d' base overridden bsp j (l.wired j (omega arith) (omega arith))
              (same (0x10 + j * 2)) (same (0x11 + j * 2)),
        λ k o. Reads-trans d₀ d' k (reg d k) (same k) (l.rest k (ground arith)),
      )
