-- ===== src/Arch/Wiring/Entries.antt =====
-- nacl/src/arch/x86_64/apic.rs: the local APIC and the entries of one I/O APIC are set up, under a
-- protocol in which the clock ticks.
use na_cl.Common.{
  ℕ, zero, suc, ◌+◌, ◌%◌, ◌^◌, ◌<◌, ◌≤◌, ◌≡◌, ◌⊎◌, inl, inr, refl, ap, sym, subst, ◌∙◌, true, false,
  Option, some, ◌==◌, Bool-cases, arith,
}
use na_cl.Memory.Mapper.{Mapper, phys_to_virt_ptr}
use na_cl.Machine.{Io, ◌>>=◌, ◌>>◌, expect, write_volatile}
use na_cl.Machine.Protocol.{Sure, Sure-mono}
use na_cl.Machine.Boot.{is_some}
use na_cl.Apic.{timer_vector, or_masked}
use na_cl.Apic.Local.{PlatformInfo, ApicInfo, init_lapic}
use na_cl.Apic.Controllers.{FoundReg, entry_register, ioapic_write, ioapic_update, redirect_entries}
use na_cl.Time.Calibrate.Ticking.{Clock, Volatile, ticking, observe}

pub same_address : (a : ℕ) → (a == a) ≡ true
same_address a = ground arith

-- The entry of the interrupt is one of the first `n` from `idx` on.
abbrev pub Ahead : ℕ → ℕ → ℕ → ℕ → Type 0
Ahead n base overridden idx = (k : ℕ) × (k < n) × ((idx + k + base) % 2 ^ 32 ≡ overridden)

abbrev pub written : Clock → ℕ → ℕ → Clock
written p a x = observe p (write_volatile a x) 0

module _ (l b : ℕ) (v : Volatile) where
  -- The counter is a `usize`, and its last value was not read more than `b` times again.
  abbrev pub Steady : Clock → Type 0
  Steady p = (p.last < 2 ^ 64) × (p.unchanged ≤ b)

  -- `unwrap` of a value, and what follows it.
  pub Sure-given :
      {A B : Type 0} (p : Clock) (o : Option A) (a : A) (f : A → Io B) (Q : Clock → B → Type 0)
      → o ≡ some a
      → Sure (ticking l b v) p (f a) Q
      → Sure (ticking l b v) p (expect o >>= f) Q
  Sure-given p o a f Q e h = subst (λ m. Sure (ticking l b v) p (expect m >>= f) Q) (sym e) h

  pub init_lapic-Sure :
      (info : PlatformInfo) (mapper : Mapper) (apic : ApicInfo) (s : ℕ) (p : Clock)
      → info.interrupt_model ≡ some apic
      → phys_to_virt_ptr mapper apic.local_apic_address ≡ some s
      → Steady p
      → Sure (ticking l b v) p (init_lapic info mapper) (λ q u. Steady q)
  unfolding init_lapic
  init_lapic-Sure info mapper apic s p e f h = Sure-given p info.interrupt_model apic _ _ e (
    tt,
    λ n a.
        Sure-given p (phys_to_virt_ptr mapper apic.local_apic_address) s _ _ f
          (tt, λ m c. (tt, λ i d. (tt, λ j x. (tt, λ k y. (tt, λ o z. (tt, λ w u. h)))))),
  )

  -- Something is found, if it was before, or if the entry of the interrupt is reached.
  abbrev pub Settled : ℕ → ℕ → ℕ → ℕ → FoundReg → Clock → FoundReg → Type 0
  Settled n base overridden idx found q r =
      Steady q × ((is_some found ≡ true) ⊎ Ahead n base overridden idx → is_some r ≡ true)

  -- The clock after a write of a register of the I/O APIC, and what follows the write.
  abbrev after_write : Clock → ℕ → ℕ → ℕ → Clock
  after_write p a r x = written (written p a r) (a + 0x10) x

  write-then :
      {B : Type 0} (p : Clock) (a r x : ℕ) (m : Io B) (Q : Clock → B → Type 0)
      → Sure (ticking l b v) (after_write p a r x) m Q
      → Sure (ticking l b v) p (ioapic_write a r x >> m) Q
  write-then p a r x m Q s = (tt, λ n₁ a₁. (tt, λ n₂ a₂. s))

  update-then :
      {B : Type 0} (p : Clock) (a r : ℕ) (f : ℕ → ℕ) (m : Io B) (Q : Clock → B → Type 0)
      → ((x : ℕ) → Sure (ticking l b v) (after_write (written p a r) a r (f x)) m Q)
      → Sure (ticking l b v) p (ioapic_update a r f >> m) Q
  update-then p a r f m Q s = (tt, λ n₁ a₁. (tt, λ x a₂. write-then _ a r (f x) m Q (s x)))

  pub redirect_entries-Sure :
      (n a base overridden bsp idx : ℕ) (found : FoundReg) (p : Clock)
      → Steady p
      → Sure
          (ticking l b v)
          p
          (redirect_entries n a base overridden bsp idx found)
          (Settled n base overridden idx found)
  unfolding redirect_entries
  redirect_entries-Sure zero a base overridden bsp idx found p h =
      (h, λ c. elim c [ inl e ↦ e | inr (k, lt, e) ↦ absurd (omega (arith, lt)) ])
  redirect_entries-Sure (suc n) a base overridden bsp idx found p h =
      let reg = entry_register idx in
      let rest = redirect_entries-Sure n a base overridden bsp (idx + 1) in
      let more = λ (r : FoundReg). redirect_entries n a base overridden bsp (idx + 1) r in
      let Q = Settled (suc n) base overridden idx found in
      elim (Bool-cases ((idx + base) % 2 ^ 32 == overridden)) [
        | inl e ↦
            let q = after_write (after_write p a reg timer_vector) a ((reg + 1) % 256) bsp in
            let hit = more (some (a, reg)) in
            rw e (
              write-then p a reg timer_vector (ioapic_write a ((reg + 1) % 256) bsp >> hit) Q (
                write-then _ a ((reg + 1) % 256) bsp hit Q (
                  Sure-mono (ticking l b v) q hit
                    (Settled n base overridden (idx + 1) (some (a, reg))) Q
                    (rest (some (a, reg)) q h) (λ q r t. (t.0, λ c. t.1 (inl refl))))))
        | inr e ↦ rw e (
            update-then p a reg or_masked (more found) Q (λ x.
              let q = after_write (written p a reg) a reg (or_masked x) in
              Sure-mono (ticking l b v) q (more found) (Settled n base overridden (idx + 1) found) Q
                (rest found q h)
                (λ q r t.
                  (t.0, λ c. t.1 (elim c [ inl s ↦ inl s | inr k ↦ inr (ahead_later k e) ])))))
      ]
    where
      ahead_later :
          Ahead (suc n) base overridden idx
          → ((idx + base) % 2 ^ 32 == overridden) ≡ false
          → Ahead n base overridden (idx + 1)
      ahead_later (zero, lt, q) e = absurd (ground (arith, q, e))
      ahead_later (suc k, lt, q) e =
          (k, omega (arith, lt), ap (λ x. (x + base) % 2 ^ 32) (omega arith) ∙ q)
