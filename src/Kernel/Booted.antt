-- ===== src/Kernel/Booted.antt =====
-- nacl/src/main.rs: what holds of the machine when the kernel has booted.
use na_cl.Common.{
  ℕ, ◌*◌, ◌/◌, ◌^◌, ◌<◌, ◌≡◌, refl, ap, subst, sym, Bool, true, false, Option, some, List, [], ◌∷◌,
  ◌++◌,
}
use na_cl.Common.Outcomes.{Outcome, done, panic}
use na_cl.Machine.{Io, ret, ◌>>=◌, expect}
use na_cl.Machine.Protocol.{Safe, Safe-bind}
use na_cl.Machine.Boot.{Setup, boot, reset}
use na_cl.Machine.Boot.Kept.{Safe-expect}
use na_cl.Memory.Frames.{Entry}
use na_cl.Memory.Frames.Usable.{IsMemoryMap}
use na_cl.Memory.Init.{Heap, HeapReady, memory_init, memory_init_backs}
use na_cl.Font.{header}
use na_cl.Font.Mapping.{unicode_mapping}
use na_cl.Font.Console.{Framebuffer, Screen, putchar, new, white, line_feed}
use na_cl.Font.Console.Terminal.{Terminal, type_all}
use na_cl.Font.Console.Refines.{Represents}
use na_cl.Font.Console.Blank.{blank, new_refines}
use na_cl.Font.Printing.{Displays, insert_fbman, println_refines}
use na_cl.Arch.{init_arch}
use na_cl.Arch.Safety.{Started, init_arch_safe}
use na_cl.Kernel.{
  Platform, Limine, Statics, of_outcome, assert, with_screen, init, greet, kernel_start,
}

-- A call that can panic, and what follows it.
Safe-outcome :
    {A B : Type 0} (p : Setup) (o : Outcome A) (f : A → Io B) (Q : Setup → B → Type 0)
    → ((a : A) → o ≡ done a → Safe boot p (f a) Q)
    → Safe boot p (of_outcome o >>= f) Q
Safe-outcome p (done a) f Q h = h a refl
Safe-outcome p panic f Q h = tt

-- A call that does not panic, and what follows it.
Safe-done :
    {A B : Type 0} (p : Setup) (o : Outcome A) (a : A) (f : A → Io B) (Q : Setup → B → Type 0)
    → o ≡ done a
    → Safe boot p (f a) Q
    → Safe boot p (of_outcome o >>= f) Q
Safe-done p o a f Q e h = subst (λ m. Safe boot p (of_outcome m >>= f) Q) (sym e) h

-- An assertion, and what follows it.
Safe-assert :
    {B : Type 0} (p : Setup) (t : Bool) (f : Unit {0} → Io B) (Q : Setup → B → Type 0)
    → Safe boot p (f tt) Q
    → Safe boot p (assert t >>= f) Q
Safe-assert p false f Q h = tt
Safe-assert p true f Q h = h

-- A response that the boot loader has given, and what follows it.
Safe-given :
    {A B : Type 0} (p : Setup) (o : Option A) (a : A) (f : A → Io B) (Q : Setup → B → Type 0)
    → o ≡ some a
    → Safe boot p (f a) Q
    → Safe boot p (expect o >>= f) Q
Safe-given p o a f Q e h = subst (λ m. Safe boot p (expect m >>= f) Q) (sym e) h

module _ (platform : Platform) where
  open platform use {frames, paging, segments, acpi, hm, ft, root, stack, has_room}

  -- A frame buffer of four bytes to a pixel, on which a cell of the font fits and for whose grid the
  -- heap has room, and a font whose table can be read.
  pub record IsFit (b : Framebuffer) : Type 0 where
    pub mapping : Option hm.Map
    pub readable : unicode_mapping hm ft ≡ done mapping
    pub four : b.bpp / 8 ≡ 4
    pub wide : 0 < (header ft).width
    pub tall : 0 < (header ft).height
    pub columns : 0 < b.width / (header ft).width
    pub rows : 0 < b.height / (header ft).height
    pub few : (b.width / (header ft).width) * (b.height / (header ft).height) < 2 ^ 64
    pub room :
        has_room (4 * ((b.width / (header ft).width) * (b.height / (header ft).height))) ≡ true

  abbrev pub columns_of : Framebuffer → ℕ
  columns_of b = b.width / (header ft).width

  abbrev pub rows_of : Framebuffer → ℕ
  rows_of b = b.height / (header ft).height

  -- A blank terminal, and the letter that `init` draws into its first cell.
  abbrev pub first_screen : Framebuffer → Option hm.Map → Terminal
  first_screen b mapping =
      let t = blank hm ft (columns_of b) (rows_of b) b.pitch mapping b.bytes in
      record t { canvas = t.ink 0x46 0 0 white t.canvas }

  -- What the boot loader promises of what it gives.
  pub record IsLimine (limine : Limine) (regions : List Entry) (b : Framebuffer) : Type 0 where
    pub lowest : ℕ
    pub memory : limine.memory_map ≡ some regions
    pub map : IsMemoryMap frames.usable lowest regions
    pub rest : List Framebuffer
    pub screens : limine.framebuffers ≡ some (b ∷ rest)
    pub fit : IsFit b

  -- A character drawn on black without changing the grid.
  pub putchar-shows :
      (s : Screen hm ft) (t : Terminal) (n c x y fg : ℕ)
      → Represents hm ft s t
      → s.horiz_chars ≡ n
      → (s' : Screen hm ft) × (putchar hm ft s c x y fg 0 ≡ done s')
        × Represents hm ft s' (record t { canvas = t.ink c x y fg t.canvas })
        × (s'.horiz_chars ≡ n)
  unfolding putchar
  putchar-shows s t n c x y fg r w = (
    record s { fb = t.ink c x y fg s.fb },
    rw (r.deep, r.inked c x y fg s.fb) refl,
    record {
      grid = r.grid;
      cursor = r.cursor;
      fits = r.fits;
      wide = r.wide;
      small = r.small;
      deep = r.deep;
      inked = r.inked;
      painted = ap (t.ink c x y fg) r.painted;
    },
    w,
  )

  -- What `init` leaves: the processor has started, the heap is mapped, the screen shows a
  -- terminal, and interrupts are as they are printed with.
  record Up (regions : List Entry) (n : ℕ) (t : Terminal) (q : Setup) (k : Statics platform)
      : Type 0 where
    started : Started q
    heap : HeapReady frames paging regions k.heap
    shown : Displays hm ft k.output n t

  init_arch-Safe :
      (fuel offset rsdp n : ℕ) (t : Terminal) (regions : List Entry) (k : Statics platform)
      (p : Setup)
      → HeapReady frames paging regions k.heap
      → Displays hm ft k.output n t
      → Safe boot p (init_arch segments acpi fuel stack offset rsdp >>= λ u. ret k) (Up regions n t)
  init_arch-Safe fuel offset rsdp n t regions k p h d =
      Safe-bind boot p (init_arch segments acpi fuel stack offset rsdp) _ _ (Up regions n t)
        (init_arch_safe segments acpi fuel stack offset rsdp p)
        (λ q u s. record { started = s; heap = h; shown = d })

  -- From the screen on.
  screen-Safe :
      (fuel offset : ℕ) (limine : Limine) (regions : List Entry) (b : Framebuffer)
      (h : Heap frames paging) (p : Setup)
      → (f : IsFit b) → HeapReady frames paging regions h
      → Safe boot p
          (with_screen platform fuel limine offset h b)
          (Up regions (columns_of b) (first_screen b f.mapping))
  unfolding with_screen insert_fbman
  screen-Safe fuel offset limine regions b h p f ready =
      let t = blank hm ft (columns_of b) (rows_of b) b.pitch f.mapping b.bytes in
      let (fb, made, r, w) =
        new_refines hm ft has_room b f.mapping f.readable f.four f.wide f.tall f.columns f.rows
          f.few f.room in
      let (fb', drawn, r', w') = putchar-shows fb t (columns_of b) 0x46 0 0 white r w in
      Safe-done p (new hm ft has_room b) fb _ _ made (
        tt,
        λ n a. Safe-done p (putchar hm ft fb 0x46 0 0 white 0) fb' _ _ drawn (
            Safe-expect p limine.rsdp_address _ _ (λ rsdp e.
              init_arch-Safe fuel offset _ (columns_of b) (first_screen b f.mapping) regions _ p
                ready (record { screen = fb'; holds = refl; shows = r'; wide = w' }))),
      )

  init-Safe :
      (fuel : ℕ) (limine : Limine) (regions : List Entry) (b : Framebuffer) (p : Setup)
      → (l : IsLimine limine regions b)
      → Safe boot p
          (init platform fuel limine)
          (Up regions (columns_of b) (first_screen b l.fit.mapping))
  unfolding init
  init-Safe fuel limine regions b p l = Safe-expect p limine.hhdm_offset _ _ (λ offset e₀.
      Safe-outcome p (paging.virt_addr_new offset) _ _ (λ addr e₁.
        Safe-given p limine.memory_map regions _ _ l.memory (
          Safe-outcome p (memory_init frames paging root addr regions) _ _ (λ heap e₂.
            Safe-given p limine.framebuffers (b ∷ l.rest) _ _ l.screens (
              screen-Safe fuel offset limine regions b heap p l.fit
                (memory_init_backs frames paging root addr l.lowest regions heap l.map e₂))))))

  -- Where the first text of the kernel ends: the version and the greeting.
  abbrev pub greeted : Framebuffer → Option hm.Map → List ℕ → Terminal
  greeted b mapping version =
      type_all (columns_of b)
        (type_all (columns_of b) (first_screen b mapping) (version ++ (line_feed ∷ [])))
        ((0x41 ∷ 0x79 ∷ 0x6F ∷ []) ++ (line_feed ∷ []))

  -- The kernel before its executor runs: the processor has started, the heap is mapped to usable
  -- memory, and the screen shows the greeting.
  pub record Booted (regions : List Entry) (b : Framebuffer) (version : List ℕ) (q : Setup)
      (k : Statics platform) : Type 0 where
    pub started : Started q
    pub heap : HeapReady frames paging regions k.heap
    pub mapping : Option hm.Map
    pub readable : unicode_mapping hm ft ≡ done mapping
    pub shown : Displays hm ft k.output (columns_of b) (greeted b mapping version)

  greet-Safe :
      (version : List ℕ) (regions : List Entry) (b : Framebuffer) (q : Setup) (k : Statics platform)
      → (f : IsFit b) → Up regions (columns_of b) (first_screen b f.mapping) q k
      → Safe boot q (greet platform version k) (Booted regions b version)
  unfolding greet
  greet-Safe version regions b q k f u =
      let n = columns_of b in
      let t = first_screen b f.mapping in
      let (o, p, d, i) = println_refines hm ft version k.output n t u.shown in
      let (o', p', d', i') =
        println_refines hm ft (0x41 ∷ 0x79 ∷ 0x6F ∷ []) o n
          (type_all n t (version ++ (line_feed ∷ []))) d in
      (
        tt,
        λ j a. Safe-done q _ o _ _ p (
            Safe-done q _ o' _ _ p' (record {
              started = u.started;
              heap = u.heap;
              mapping = f.mapping;
              readable = f.readable;
              shown = d';
            })),
      )

  -- From the reset processor, with a boot loader that gives a proper memory map and a frame buffer
  -- on which the font fits, and for whose grid the heap has room, the kernel enables interrupts only where their handlers can run and
  -- uses the local APIC only where it is known; and whenever it reaches its executor, the processor
  -- has started, the heap is mapped to usable memory, and the screen shows the version and the
  -- greeting.
  pub kernel_start_boots :
      (fuel : ℕ) (version : List ℕ) (limine : Limine) (regions : List Entry) (b : Framebuffer)
      → IsLimine limine regions b
      → Safe boot reset (kernel_start platform fuel version limine) (Booted regions b version)
  unfolding kernel_start
  kernel_start_boots fuel version limine regions b l =
      Safe-assert reset limine.base_revision_is_supported _ (Booted regions b version) (
        Safe-bind boot reset (init platform fuel limine) _ _ (Booted regions b version)
          (init-Safe fuel limine regions b reset l)
          (λ q k u. greet-Safe version regions b q k l.fit u))
