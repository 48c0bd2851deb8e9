-- ===== src/Apic/Chips/Loop.antt =====
-- nacl/src/arch/x86_64/apic.rs: the loops of `init_ioapic` on an I/O APIC.
use na_cl.Common.{
  ℕ, zero, suc, ◌+◌, ◌%◌, ◌^◌, ◌≡◌, refl, ◌∙◌, ap, subst, Option, none, some, ◌==◌, Bool-cases, inl,
  inr,
}
use na_cl.Machine.{Io, ◌>>◌}
use na_cl.Machine.Protocol.{Sure, Sure-bind, Sure-mono}
use na_cl.Apic.{
  IoApicDevice, timer_vector, or_masked, write_register, update_register, redirect, redirect_from,
}
use na_cl.Apic.Controllers.{ioapic_write, ioapic_update, redirect_entries, FoundReg, entry_register}
use na_cl.Apic.Chips.{
  Chips, chips, IsAt, Became, Became-refl, Became-trans, ioapic_write-Sure, ioapic_update-Sure,
}

-- `found_reg` by what is found on the I/O APIC at `a`, after `before`.
abbrev pub located : ℕ → FoundReg → Option ℕ → FoundReg
located a before none = before
located a before (some reg) = some (a, reg)

module _ (api : IoApicDevice) (decode : ℕ → Option (ℕ × ℕ)) (a : ℕ) (at : IsAt api decode a)
    (base overridden bsp : ℕ) (before : FoundReg) where
  -- The program leaves the I/O APIC, and has found, what the loop on the device does.
  abbrev pub Follows :
      Chips api decode → api.Device × Option ℕ → Chips api decode → FoundReg → Type 0
  Follows p result q found = Became api decode p a result.0 q × (found ≡ located a before result.1)

  -- What follows an access to the I/O APIC.
  pub rest-Follows :
      {p q : Chips api decode} {d : api.Device} (m : Io FoundReg)
      (loop : api.Device → api.Device × Option ℕ)
      → Became api decode p a d q
      → Sure (chips api decode) q m (Follows q (loop (q a)))
      → Sure (chips api decode) q m (Follows p (loop d))
  rest-Follows {p} {q} {d} m loop b s =
      Sure-mono (chips api decode) q m (Follows q (loop (q a))) (Follows p (loop d)) s (λ t r h. (
        Became-trans api decode b (subst (λ x. Became api decode q a (loop x).0 t) b.here h.0),
        h.1 ∙ ap (λ x. located a before (loop x).1) b.here,
      ))

  pub redirect_entries-Follows :
      (n idx : ℕ) (found : Option ℕ) (p : Chips api decode)
      → Sure
          (chips api decode)
          p
          (redirect_entries n a base overridden bsp idx (located a before found))
          (Follows p (redirect_from api n (p a) base overridden bsp idx found))
  unfolding redirect_entries redirect_from redirect
  redirect_entries-Follows zero idx found p = (Became-refl api decode p a, refl)
  redirect_entries-Follows (suc n) idx found p =
      let reg = entry_register idx in
      let hit = redirect_entries n a base overridden bsp (idx + 1) (some (a, reg)) in
      let miss = redirect_entries n a base overridden bsp (idx + 1) (located a before found) in
      let d₁ = write_register api (p a) reg timer_vector in
      let d₂ = write_register api d₁ ((reg + 1) % 256) bsp in
      let d₃ = update_register api (p a) reg or_masked in
      let after_hit =
        λ (d : api.Device). redirect_from api n d base overridden bsp (idx + 1) (some reg) in
      let after_miss =
        λ (d : api.Device). redirect_from api n d base overridden bsp (idx + 1) found in
      elim (Bool-cases ((idx + base) % 2 ^ 32 == overridden)) [
        | inl e ↦ rw e (
            Sure-bind (chips api decode) p (ioapic_write a reg timer_vector)
              (λ u. ioapic_write a ((reg + 1) % 256) bsp >> hit) _ (Follows p (after_hit d₂))
              (ioapic_write-Sure api decode a at p reg timer_vector)
              (λ q u (b : Became api decode p a d₁ q).
                Sure-bind (chips api decode) q (ioapic_write a ((reg + 1) % 256) bsp) (λ v. hit) _
                  (Follows p (after_hit d₂))
                  (ioapic_write-Sure api decode a at q ((reg + 1) % 256) bsp)
                  (λ t v c.
                    rest-Follows hit after_hit
                      (Became-trans api decode b (
                        subst
                          (λ d.
                            Became api decode q a (write_register api d ((reg + 1) % 256) bsp) t)
                          b.here c))
                      (redirect_entries-Follows n (idx + 1) (some reg) t))))
        | inr e ↦ rw e (
            Sure-bind (chips api decode) p (ioapic_update a reg or_masked) (λ u. miss) _
              (Follows p (after_miss d₃)) (ioapic_update-Sure api decode a at p reg or_masked)
              (λ q u b.
                rest-Follows miss after_miss b (redirect_entries-Follows n (idx + 1) found q)))
      ]
