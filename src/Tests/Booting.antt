-- ===== src/Tests/Booting.antt =====
-- nacl/src/arch/x86_64 and nacl/src/main.rs: the boot sequence on a concrete machine.
use na_cl.Common.{
  ℕ, zero, suc, ◌+◌, ◌*◌, ◌≡◌, refl, true, Option, none, some, List, [], ◌∷◌, length, ◌^◌,
  Option-cases, ◌==◌, if◌then◌else◌, inl, inr,
}
use na_cl.Machine.{
  Effect, Io, ret, panicked, spent, act, get_lapic, enable_interrupts, get_timer, read_volatile,
}
use na_cl.Machine.Protocol.{Run}
use na_cl.Machine.Boot.{Setup, boot, reset, Given, after, handlers_ready}
use na_cl.Segments.{SegmentApi}
use na_cl.Apic.Local.{IoApicInfo, SourceOverride, ApicInfo, PlatformInfo}
use na_cl.Arch.{AcpiApi, init_arch}
use na_cl.Arch.Safety.{init_arch_runs}

-- Descriptors are not looked at; a table is its size.
abbrev pub segments : SegmentApi
segments = record {
  Descriptor = Unit;
  Table = ℕ;
  kernel_code_segment = tt;
  tss_segment = λ stacks. tt;
  new_table = 1;
  add_entry = λ t d. (t + 1, t * 8);
  empty_stacks = λ i. 0;
  virt_addr_add = λ a b. a + b;
}

-- One I/O APIC, on which the timer's interrupt is number 2.
abbrev pub io_apic : IoApicInfo
io_apic = record { address = 0xFEC0_0000; global_system_interrupt_base = 0 }

abbrev pub pit : SourceOverride
pit = record { isa_source = 0; global_system_interrupt = 2 }

abbrev pub apic : ApicInfo
apic = record {
  local_apic_address = 0xFEE0_0000;
  io_apics = io_apic ∷ [];
  interrupt_source_overrides = pit ∷ [];
}

abbrev pub platform_info : PlatformInfo
platform_info = record { interrupt_model = some apic; boot_processor = some 0 }

abbrev pub acpi : AcpiApi
acpi = record { Tables = Unit; from_rsdp = λ m a. some tt; platform_info = λ t. some platform_info }

-- What the machine answers to its `i`-th effect: the timer counts, and an I/O APIC has four entries.
abbrev answer : ℕ → Setup → Effect → Option ℕ
answer i p get_lapic = p.lapic
answer i p (get_timer n) = some i
answer i p (read_volatile a) = some (if a == 2 ^ 46 + 0xFEC0_0010 then 0x3_0020 else 0)
answer i p _ = some 0

answer-Given : (i : ℕ) (p : Setup) (e : Effect) (n : ℕ) → answer i p e ≡ some n → Given p e n
answer-Given i p get_lapic n h = h
answer-Given i p _ n h = tt

-- At most `n` effects of a program on that machine, from its `i`-th on.
abbrev pub play : {A : Type 0} → ℕ → ℕ → Setup → Io A → List Effect → Setup × Io A × List Effect
play zero i p m es = (p, m, es)
play (suc n) i p (act e k) es = elim (answer i p e) [
  | some a ↦ play n (i + 1) (after p e a) (k a) (e ∷ es)
  | none ↦ (p, act e k, es)
]
play (suc n) i p m es = (p, m, es)

-- Such a stretch is a run of the program.
play-Run :
    {A : Type 0} (m₀ : Io A) (n i : ℕ) (p : Setup) (m : Io A) (es : List Effect)
    → Run boot reset m₀ p m es
    → Run boot reset m₀ (play n i p m es).0 (play n i p m es).1 (play n i p m es).2
play-Run m₀ zero i p m es r = r
play-Run m₀ (suc n) i p (ret a) es r = r
play-Run m₀ (suc n) i p panicked es r = r
play-Run m₀ (suc n) i p spent es r = r
play-Run m₀ (suc n) i p (act e k) es r = elim (Option-cases (answer i p e)) [
  | inl h ↦ rw (h, play) r
  | inr (a, h) ↦
      rw (h, play)
        (play-Run m₀ n (i + 1) (after p e a) (k a) (e ∷ es)
          (Run.step e k a r (answer-Given i p e a h)))
]

abbrev boots : Io (Unit {0})
boots = init_arch segments acpi 400 0x5000 (2 ^ 46) 0

abbrev after_effects : ℕ → Setup × Io (Unit {0}) × List Effect
after_effects n = play n 0 reset boots []

-- It returns, after 64 effects.
boots_through : ((after_effects 400).1 ≡ ret tt) × (length (after_effects 400).2 ≡ 64)
unfolding init_arch
boots_through = (refl, refl)

-- The rest of the program where it enables interrupts for the first time.
abbrev enabled_next : Io (Unit {0}) → ℕ → Io (Unit {0})
enabled_next (act enable_interrupts k) = k
enabled_next _ = λ n. panicked

init_arch_runs_example : handlers_ready (after_effects 42).0 ≡ true
unfolding init_arch
init_arch_runs_example =
    init_arch_runs segments acpi 400 0x5000 (2 ^ 46) 0 {q = (after_effects 42).0}
      {e = enable_interrupts} {k = enabled_next (after_effects 42).1} {es = (after_effects 42).2}
      (play-Run boots 42 0 reset boots [] Run.start)
