-- ===== src/Kernel/Completion.antt =====
-- nacl/src/main.rs: on a complete platform the kernel reaches its executor.
use na_cl.Common.{
  ℕ, ◌+◌, ◌-◌, ◌%◌, ◌^◌, ◌<◌, ◌≤◌, ◌≡◌, refl, sym, subst, Bool, true, Option, some, List, [], ◌∷◌,
  ◌++◌, All, length,
}
use na_cl.Common.Outcomes.{Outcome, done}
use na_cl.Memory.Mapper.{new_mapper}
use na_cl.Machine.{Io, ◌>>=◌}
use na_cl.Machine.Protocol.{Safe, Sure, Sure-bind}
use na_cl.Machine.Boot.{boot, reset}
use na_cl.Memory.Frames.{Entry}
use na_cl.Memory.Frames
use na_cl.Memory.Heap.Mapped.{heap_pages}
use na_cl.Memory.Heap.Success.{Roomy}
use na_cl.Memory.Init.{Heap, active_level_4_table, memory_init, memory_init-ok}
use na_cl.Font.Console.{Framebuffer, putchar, new, white, line_feed}
use na_cl.Font.Console.Terminal.{type_all}
use na_cl.Font.Console.Blank.{blank, new_refines}
use na_cl.Font.Printing.{Displays, insert_fbman, println_refines}
use na_cl.Time.Calibrate.Ticking.{Clock, Volatile, ticking}
use na_cl.Arch.{init_arch}
use na_cl.Arch.Wiring.Entries.{Steady, Sure-given}
use na_cl.Arch.Completion.{IsDescribed, init_arch-Sure}
use na_cl.Kernel.{
  Platform, Limine, Statics, of_outcome, assert, with_screen, init, greet, kernel_start,
}
use na_cl.Kernel.Booted.{
  first_screen, IsLimine, Booted, columns_of, rows_of, putchar-shows, kernel_start_boots,
}

module _ (platform : Platform) (l b : ℕ) (v : Volatile) where
  open platform use {frames, paging, segments, acpi, hm, ft, root, stack, has_room}

  -- The boot loader has answered every request, its addresses are ones that the processor can use, the
  -- memory map has a hundred usable pages, the pages of the heap are free, and the tables of the
  -- firmware are complete.
  pub record IsBootable (limine : Limine) (regions : List Entry) (fb : Framebuffer) : Type 1 where
    pub loader : IsLimine platform limine regions fb
    pub supported : limine.base_revision_is_supported ≡ true
    pub offset : ℕ
    pub higher_half : limine.hhdm_offset ≡ some offset
    pub addr : ℕ
    pub canonical : paging.virt_addr_new offset ≡ done addr
    pub level_4 : ℕ
    pub table : active_level_4_table frames paging root addr ≡ done level_4
    pub Free : paging.PageTable → ℕ → Type 0
    pub roomy : Roomy frames paging Free
    pub free : All (Free (root.offset_page_table level_4 addr)) heap_pages
    pub many : 100 ≤ length (Frames.init frames regions)
    pub rsdp : ℕ
    pub pointer : limine.rsdp_address ≡ some rsdp
    pub described :
        IsDescribed segments acpi l b v (new_mapper offset) ((rsdp + 2 ^ 64 - offset) % 2 ^ 64)

  Sure-done :
      {A B : Type 0} (p : Clock) (o : Outcome A) (a : A) (f : A → Io B) (Q : Clock → B → Type 0)
      → o ≡ done a
      → Sure (ticking l b v) p (f a) Q
      → Sure (ticking l b v) p (of_outcome o >>= f) Q
  Sure-done p o a f Q e h = subst (λ m. Sure (ticking l b v) p (of_outcome m >>= f) Q) (sym e) h

  Sure-assert :
      {B : Type 0} (p : Clock) (t : Bool) (f : Unit {0} → Io B) (Q : Clock → B → Type 0)
      → t ≡ true
      → Sure (ticking l b v) p (f tt) Q
      → Sure (ticking l b v) p (assert t >>= f) Q
  Sure-assert p t f Q e h = subst (λ m. Sure (ticking l b v) p (assert m >>= f) Q) (sym e) h

  -- The screen shows no text yet.
  abbrev IsBlank : Framebuffer → Option hm.Map → Statics platform → Type 0
  IsBlank fb mapping k =
      Displays hm ft k.output (columns_of platform fb) (first_screen platform fb mapping)

  -- `init` from the screen on.
  screen-Sure :
      (fuel : ℕ) (limine : Limine) (regions : List Entry) (fb : Framebuffer)
      (h : Heap frames paging) (p : Clock)
      → (k : IsBootable limine regions fb) → Steady l b v p
      → b < fuel
      → Sure
          (ticking l b v)
          p
          (with_screen platform fuel limine k.offset h fb)
          (λ q s. IsBlank fb k.loader.fit.mapping s)
  unfolding with_screen insert_fbman
  screen-Sure fuel limine regions fb h p k steady enough =
      let n = columns_of platform fb in
      let f = k.loader.fit in
      let t = blank hm ft n (rows_of platform fb) fb.pitch f.mapping fb.bytes in
      let (s, made, r, w) =
        new_refines hm ft has_room fb f.mapping f.readable f.four f.wide f.tall f.columns f.rows
          f.few f.room in
      let (s', drawn, r', w') = putchar-shows platform s t n 0x46 0 0 white r w in
      let arch =
        init_arch-Sure segments acpi l b v fuel stack k.offset
          ((k.rsdp + 2 ^ 64 - k.offset) % 2 ^ 64) p k.described steady enough in
      Sure-done p (new hm ft has_room fb) s _ _ made (
        tt,
        λ i a. Sure-done p (putchar hm ft s 0x46 0 0 white 0) s' _ _ drawn (
            Sure-given l b v p limine.rsdp_address k.rsdp _ _ k.pointer (
              Sure-bind (ticking l b v) p
                (init_arch segments acpi fuel stack k.offset
                  ((k.rsdp + 2 ^ 64 - k.offset) % 2 ^ 64))
                _ _ (λ q s. IsBlank fb k.loader.fit.mapping s) arch
                (λ q u x. record { screen = s'; holds = refl; shows = r'; wide = w' }))),
      )

  init-Sure :
      (fuel : ℕ) (limine : Limine) (regions : List Entry) (fb : Framebuffer) (p : Clock)
      → (k : IsBootable limine regions fb) → Steady l b v p
      → b < fuel
      → Sure
          (ticking l b v)
          p
          (init platform fuel limine)
          (λ q s. IsBlank fb k.loader.fit.mapping s)
  unfolding init
  init-Sure fuel limine regions fb p k steady enough =
      let (h, mapped) =
        memory_init-ok frames paging k.Free root k.addr k.level_4 k.loader.lowest regions k.roomy
          k.loader.map k.table k.free k.many in
      Sure-given l b v p limine.hhdm_offset k.offset _ _ k.higher_half (
        Sure-done p (paging.virt_addr_new k.offset) k.addr _ _ k.canonical (
          Sure-given l b v p limine.memory_map regions _ _ k.loader.memory (
            Sure-done p (memory_init frames paging root k.addr regions) h _ _ mapped (
              Sure-given l b v p limine.framebuffers (fb ∷ k.loader.rest) _ _ k.loader.screens
                (screen-Sure fuel limine regions fb h p k steady enough)))))

  greet-Sure :
      (version : List ℕ) (fb : Framebuffer) (mapping : Option hm.Map) (s : Statics platform)
      (p : Clock)
      → IsBlank fb mapping s
      → Sure (ticking l b v) p (greet platform version s) (λ q x. Unit)
  unfolding greet
  greet-Sure version fb mapping s p d =
      let n = columns_of platform fb in
      let t = first_screen platform fb mapping in
      let (o, e, d', i) = println_refines hm ft version s.output n t d in
      let (o', e', d'', i') =
        println_refines hm ft (0x41 ∷ 0x79 ∷ 0x6F ∷ []) o n
          (type_all n t (version ++ (line_feed ∷ []))) d' in
      (tt, λ j a. Sure-done p _ o _ _ e (Sure-done p _ o' _ _ e' tt))

  -- From the reset processor, with a boot loader that answers every request and gives a proper memory
  -- map with a hundred usable pages and a frame buffer on which the font fits and for whose grid the
  -- heap has room, with complete tables of the firmware, and with an interrupt counter that goes on
  -- after `b` reads at most, by any number of interrupts, the kernel reaches its executor without a
  -- panic, with fuel for more than `b` reads. On the way it enables interrupts only where their handlers
  -- can run and uses the local APIC only where it is known; and then the processor has started, the heap is mapped to usable memory, and the screen shows the
  -- version and the greeting: the grid of characters is their text, and the frame buffer is, byte for
  -- byte, what painting them after the letter of `init` leaves.
  pub kernel_start_completes :
      (fuel : ℕ) (version : List ℕ) (limine : Limine) (regions : List Entry) (fb : Framebuffer)
      (clock : Clock)
      → IsBootable limine regions fb
      → Steady l b v clock
      → b < fuel
      → Safe boot reset
          (kernel_start platform fuel version limine)
          (Booted platform regions fb version)
        × Sure (ticking l b v) clock (kernel_start platform fuel version limine) (λ q k. Unit)
  unfolding kernel_start
  kernel_start_completes fuel version limine regions fb clock k steady enough = (
    kernel_start_boots platform fuel version limine regions fb k.loader,
    Sure-assert clock limine.base_revision_is_supported _ _ k.supported (
        Sure-bind (ticking l b v) clock (init platform fuel limine) _ _ (λ q x. Unit)
          (init-Sure fuel limine regions fb clock k steady enough)
          (λ q s d. greet-Sure version fb k.loader.fit.mapping s q d)),
  )
