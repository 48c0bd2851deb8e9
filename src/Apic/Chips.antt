-- ===== src/Apic/Chips.antt =====
-- nacl/src/arch/x86_64/apic.rs: `init_ioapic` as a program on the I/O APICs themselves.
pub mod Loop
pub mod Found
pub mod Platform
pub mod Wiring
use na_cl.Common.{
  ℕ, ◌+◌, ◌≡◌, ◌≢◌, refl, ◌∙◌, ap, sym, subst, Option, none, some, ◌==◌, if◌then◌else◌, Bool-cases,
  inl, inr, arith,
}
use na_cl.Machine.{Effect, Io, read_volatile, write_volatile}
use na_cl.Machine.Protocol.{Protocol, Sure, Sure-bind, Sure-mono}
use na_cl.Apic.{IoApicDevice, register_at, read_register, write_register, update_register}
use na_cl.Apic.Controllers.{ioapic_read, ioapic_write, ioapic_update}

module _ (api : IoApicDevice) (decode : ℕ → Option (ℕ × ℕ)) where
  open api use {Device}

  -- The I/O APICs by the addresses that they start at; `decode` gives the I/O APIC that an address
  -- belongs to, and the offset there.
  abbrev pub Chips : Type 0
  Chips = ℕ → Device

  abbrev pub put : Chips → ℕ → Device → Chips
  put p a d k = if a == k then d else p k

  abbrev pub bus_write : Chips → Option (ℕ × ℕ) → ℕ → Chips
  bus_write p none v = p
  bus_write p (some (a, offset)) v = put p a (api.write_volatile (p a) offset v)

  abbrev pub Fetched : Chips → Option (ℕ × ℕ) → ℕ → Type 0
  Fetched p none n = Unit
  Fetched p (some (a, offset)) n = n ≡ api.read_volatile (p a) offset

  abbrev pub Gives : Chips → Effect → ℕ → Type 0
  Gives p (read_volatile x) n = Fetched p (decode x) n
  Gives p _ n = Unit

  abbrev pub takes : Chips → Effect → Chips
  takes p (write_volatile x v) = bus_write p (decode x) v
  takes p _ = p

  -- Every effect is allowed; a read gives what the I/O APIC at that address gives.
  abbrev pub chips : Protocol
  chips = record {
    Phase = Chips;
    Allowed = λ p e. Unit;
    Answers = Gives;
    next = λ p e n. takes p e;
  }

  -- An I/O APIC starts at `a`.
  pub record IsAt (a : ℕ) : Type 0 where
    pub select : decode a ≡ some (a, 0)
    pub window : decode (a + 0x10) ≡ some (a, 0x10)

  -- The I/O APIC at `a` has become `d`, and the others are as they were.
  pub record Became (p : Chips) (a : ℕ) (d : Device) (q : Chips) : Type 0 where
    pub here : q a ≡ d
    pub others : (k : ℕ) → k ≢ a → q k ≡ p k

  put-Became : (p : Chips) (a : ℕ) (d : Device) → Became p a d (put p a d)
  put-Became p a d = record { here = ground arith; others = λ k ne. ground (arith, ne) }

  pub Became-refl : (p : Chips) (a : ℕ) → Became p a (p a) p
  Became-refl p a = record { here = refl; others = λ k ne. refl }

  pub Became-trans :
      {p q r : Chips} {a : ℕ} {d e : Device} → Became p a d q → Became q a e r → Became p a e r
  Became-trans b c = record { here = c.here; others = λ k ne. c.others k ne ∙ b.others k ne }

  module _ (a : ℕ) (at : IsAt a) where
    select-Became :
        (p : Chips) (v : ℕ) → Became p a (api.write_volatile (p a) 0 v) (bus_write p (decode a) v)
    select-Became p v = rw at.select (put-Became p a (api.write_volatile (p a) 0 v))

    window-Became :
        (p q : Chips) (d : Device) (v : ℕ)
        → Became p a d q
        → Became p a (api.write_volatile d 0x10 v) (bus_write q (decode (a + 0x10)) v)
    window-Became p q d v b =
        let w = put-Became q a (api.write_volatile (q a) 0x10 v) in
        rw at.window (record {
          here = w.here ∙ ap (λ x. api.write_volatile x 0x10 v) b.here;
          others = λ k ne. w.others k ne ∙ b.others k ne;
        })

    -- The methods of `IoApic` do what the device says.
    pub ioapic_write-Sure :
        (p : Chips) (r v : ℕ)
        → Sure chips p (ioapic_write a r v) (λ q u. Became p a (write_register api (p a) r v) q)
    unfolding write_register register_at
    ioapic_write-Sure p r v = (
      tt,
      λ n x. (tt, λ m y. window-Became p _ (api.write_volatile (p a) 0 r) v (select-Became p r)),
    )

    pub ioapic_read-Sure :
        (p : Chips) (r : ℕ)
        → Sure chips p (ioapic_read a r) (λ q n.
          (n ≡ (read_register api (p a) r).0) × Became p a (read_register api (p a) r).1 q)
    unfolding read_register register_at
    ioapic_read-Sure p r = (tt, λ n x. (tt, λ m y. (read_back m y, select-Became p r)))
      where
        read_back :
            (m : ℕ)
            → Fetched (bus_write p (decode a) r) (decode (a + 0x10)) m
            → m ≡ api.read_volatile (api.write_volatile (p a) 0 r) 0x10
        read_back m y =
            let fetched : m ≡ api.read_volatile (bus_write p (decode a) r a) 0x10 =
              rw at.window at y in
            fetched ∙ ap (λ d. api.read_volatile d 0x10) (select-Became p r).here

    pub ioapic_update-Sure :
        (p : Chips) (r : ℕ) (f : ℕ → ℕ)
        → Sure chips p (ioapic_update a r f) (λ q u. Became p a (update_register api (p a) r f) q)
    unfolding update_register
    ioapic_update-Sure p r f =
        Sure-bind chips p (ioapic_read a r) (λ reg. ioapic_write a r (f reg)) _
          (λ q u. Became p a (update_register api (p a) r f) q) (ioapic_read-Sure p r)
          (λ q n h.
            Sure-mono chips q (ioapic_write a r (f n)) _
              (λ t u. Became p a (update_register api (p a) r f) t) (ioapic_write-Sure q r (f n))
              (λ t u b. Became-trans h.1 (subst (λ d. Became q a d t) (same q n h) b)))
      where
        same :
            (q : Chips) (n : ℕ)
            → (n ≡ (read_register api (p a) r).0) × Became p a (read_register api (p a) r).1 q
            → write_register api (q a) r (f n) ≡ update_register api (p a) r f
        same q n h = rw (h.0, h.1.here)
