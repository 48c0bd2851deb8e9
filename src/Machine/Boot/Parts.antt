-- ===== src/Machine/Boot/Parts.antt =====
-- What the parts of the boot sequence in nacl/src/arch/x86_64 do under the protocol of a processor
-- that boots.
use na_cl.Common.{
  ℕ, zero, suc, ◌+◌, ◌<◌, ◌≡◌, refl, true, some, List, [], ◌∷◌, ltb, if◌then◌else◌, Bool-cases, inl,
  inr, arith,
}
use na_cl.Memory.Mapper.{Mapper, phys_to_virt_ptr}
use na_cl.Machine.{ret, panicked}
use na_cl.Machine.Protocol.{Safe, Safe-bind, Safe-mono, Safe-same}
use na_cl.Machine.Boot.{Setup, boot, is_some, record_write}
use na_cl.Segments.{SegmentApi, init_segments}
use na_cl.Interrupts.{cpu_number}
use na_cl.Apic.Local.{PlatformInfo, init_lapic, mask_all, apic_masked}
use na_cl.Apic.Controllers.{ioapic_write, ioapic_update}
use na_cl.Time.{wrapping_sub}
use na_cl.Time.Calibrate.{get_irq_cnt, wait_irq_after}
use na_cl.Machine.Boot.Kept.{Kept, Kept-refl, Kept-trans, Kept-written, Safe-expect}

pub cpu_number-Safe :
    (p : Setup) → is_some p.lapic ≡ true → Safe boot p cpu_number (λ q n. (q ≡ p) × (n < 64))
cpu_number-Safe p h = (h, λ l a. (tt, λ id b. bounded id))
  where
    bounded :
        (id : ℕ) → Safe boot p (if ltb id 64 then ret id else panicked) (λ q n. (q ≡ p) × (n < 64))
    bounded id = elim (Bool-cases (ltb id 64)) [
      | inl e ↦ rw e (refl, ground arith)
      | inr e ↦ rw e tt
    ]

pub get_irq_cnt-Safe : (p : Setup) → is_some p.lapic ≡ true → Safe boot p get_irq_cnt (λ q n. q ≡ p)
get_irq_cnt-Safe p h =
    Safe-bind boot p cpu_number _ _ _ (cpu_number-Safe p h) (λ q num e. (tt, λ n a. e.0))

pub wait_irq_after-Safe :
    (fuel : ℕ) (p : Setup) (saved : ℕ)
    → is_some p.lapic ≡ true
    → Safe boot p (wait_irq_after fuel saved) (λ q n. q ≡ p)
unfolding wait_irq_after
wait_irq_after-Safe zero p saved h = tt
wait_irq_after-Safe (suc fuel) p saved h =
    let rest = wait_irq_after-Safe fuel p saved h in
    Safe-same boot p get_irq_cnt _ _ (get_irq_cnt-Safe p h) (λ curr. decide curr rest)
  where
    decide :
        (curr : ℕ)
        → Safe boot p (wait_irq_after fuel saved) (λ q n. q ≡ p)
        → Safe boot p
            (if ltb (wrapping_sub curr saved) 1 then wait_irq_after fuel saved else ret curr)
            (λ q n. q ≡ p)
    decide curr rest = elim (Bool-cases (ltb (wrapping_sub curr saved) 1)) [
      | inl e ↦ rw e rest
      | inr e ↦ rw e refl
    ]

-- What is left of `p` once descriptors are loaded.
pub init_segments-Safe :
    (api : SegmentApi) (stack : ℕ) (p : Setup)
    → Safe boot p (init_segments api stack) (λ q u. q ≡ record p { gdt = true; tss = true })
unfolding init_segments
init_segments-Safe api stack p =
    (tt, λ a x. (tt, λ b y. (tt, λ c z. (tt, λ d w. (tt, λ e v. refl)))))

mask_all-Safe :
    (l : ℕ) (regs : List ℕ) (p : Setup) → Safe boot p (mask_all l regs) (λ q u. Kept p q)
mask_all-Safe l [] p = Kept-refl p
mask_all-Safe l (reg ∷ regs) p = (
  tt,
  λ n a.
      Safe-mono boot _ (mask_all l regs) _ _
        (mask_all-Safe l regs (record p { written = record_write p.written (l + reg) apic_masked }))
        (λ q u k. Kept-trans (Kept-written p _) k),
)

-- `init_lapic` makes the local APIC known, and leaves the rest.
pub init_lapic-Safe :
    (info : PlatformInfo) (mapper : Mapper) (p : Setup)
    → Safe boot p
        (init_lapic info mapper)
        (λ q u. (l : ℕ) × (q.lapic ≡ some l) × Kept (record p { lapic = some l }) q)
unfolding init_lapic phys_to_virt_ptr
init_lapic-Safe info mapper p = Safe-expect p info.interrupt_model _ _ (λ apic e. (
  tt,
  λ n x. Safe-expect p (phys_to_virt_ptr mapper apic.local_apic_address) _ _ (λ l e'. (
    tt,
    λ r y. (
      tt,
      λ a z. (tt, λ b u. (tt, λ c v. (tt, λ d w. (tt, λ o k. (l, refl, Kept-written _ _))))),
    ),
  )),
))

pub ioapic_write-Safe :
    (a offset v : ℕ) (p : Setup) → Safe boot p (ioapic_write a offset v) (λ q u. Kept p q)
ioapic_write-Safe a offset v p = (tt, λ n x. (tt, λ m y. Kept-written p _))

pub ioapic_update-Safe :
    (a offset : ℕ) (f : ℕ → ℕ) (p : Setup)
    → Safe boot p (ioapic_update a offset f) (λ q u. Kept p q)
ioapic_update-Safe a offset f p =
    (tt, λ n x. (tt, λ m y. (tt, λ i z. (tt, λ j w. Kept-written p _))))
