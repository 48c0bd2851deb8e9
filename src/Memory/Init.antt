-- ===== src/Memory/Init.antt =====
-- nacl/src/arch/x86_64/memory/mod.rs: `init`, which finds the page table in use, and maps the heap
-- with frames of the boot loader's memory map.
use na_cl.Common.{
  All-In, In, length, ℕ, ◌+◌, ◌*◌, ◌/◌, ◌^◌, ◌<◌, ◌≤◌, ◌≡◌, inl, inr, some, List, [], ◌∷◌, All,
  arith,
}
use na_cl.Common.Outcomes.{Outcome, done, panic, ◌>>=◌, >>=-eq-done}
use na_cl.Memory.Frames.{page_size, Entry, FrameApi, init}
use na_cl.Memory.Frames.Usable.{IsMemoryMap, InUsable, init_sound}
use na_cl.Memory.Heap.{Try, ok, err, panicked, PagingApi, init_heap, heap_start, heap_size}
use na_cl.Memory.Heap.Success.{Roomy, init_heap-ok}
use na_cl.Memory.Heap.Mapped.{Physical, Mapped, heap_pages, init_heap_maps}

-- `expect`, which panics on an error.
abbrev pub expect_ok {ℓ} : {A : Type ℓ} → Try A → Outcome A
expect_ok (ok a) = done a
expect_ok (err e) = panic
expect_ok panicked = panic

-- An address below 2 ^ 52 in every page of a usable region.
InUsable-physical :
    (usable lo a : ℕ) (xs : List Entry)
    → IsMemoryMap usable lo xs
    → InUsable usable a xs
    → a < 2 ^ 52
InUsable-physical usable lo a _ (IsMemoryMap.nil _) i = absurd i
InUsable-physical usable lo a _ (IsMemoryMap.other _ x xs n m) (inl (u, _, _)) = absurd (n u)
InUsable-physical usable lo a _ (IsMemoryMap.other _ x xs n m) (inr i) =
    InUsable-physical usable lo a xs m i
InUsable-physical usable lo a _ (IsMemoryMap.region _ x xs u v l m) (inl (_, b, e)) =
    omega (arith, v.physical, e)
InUsable-physical usable lo a _ (IsMemoryMap.region _ x xs u v l m) (inr i) =
    InUsable-physical usable (x.base + x.length) a xs m i

All-Physical :
    (usable lo : ℕ) (xs : List Entry) (l : List ℕ)
    → IsMemoryMap usable lo xs
    → All (λ a. InUsable usable a xs) l
    → Physical l
All-Physical usable lo xs [] m h = tt
All-Physical usable lo xs (a ∷ l) m h =
    (InUsable-physical usable lo a xs m h.0, All-Physical usable lo xs l m h.1)

module _ (frames : FrameApi) (api : PagingApi) where
  open api use {PageTable}

  -- The table at a virtual address, with the physical memory mapped from `offset` on
  -- (`OffsetPageTable::new`), and the frame in the register CR3.
  pub record Root : Type 0 where
    pub level_4_table_frame : ℕ
    pub offset_page_table : ℕ → ℕ → PageTable

  -- `active_level_4_table`
  unfoldable pub active_level_4_table : Root → ℕ → Outcome ℕ
  active_level_4_table root offset = api.virt_addr_add offset root.level_4_table_frame

  -- What is left to the kernel: the page table, the frames, and the heap.
  abbrev pub Heap : Type 0
  Heap = PageTable × List ℕ × ℕ × ℕ

  -- `init`
  unfoldable pub memory_init : Root → ℕ → List Entry → Outcome Heap
  unfolding active_level_4_table
  memory_init root offset regions = do
    level_4_table ← active_level_4_table root offset
    expect_ok
        (init_heap frames api (root.offset_page_table level_4_table offset) (init frames regions))

  -- The heap lies in mapped pages, each of them mapped to a page of a usable region.
  pub record HeapReady (regions : List Entry) (h : Heap) : Type 0 where
    pub start : h.2 ≡ heap_start
    pub size : h.3 ≡ heap_size
    pub covered :
        (a : ℕ)
        → heap_start ≤ a
        → a < heap_start + heap_size
        → In (a / page_size * page_size) heap_pages
    pub backed :
        All
          (λ p. (f : ℕ) × (api.translate h.0 p ≡ some f) × InUsable frames.usable f regions)
          heap_pages

  Mapped-backed :
      (regions : List Entry) (l : List ℕ) (t : PageTable) (lo : ℕ) (ps : List ℕ)
      → All (λ a. InUsable frames.usable a regions) l
      → Mapped frames api l t lo ps
      → All (λ p. (f : ℕ) × (api.translate t p ≡ some f) × InUsable frames.usable f regions) ps
  Mapped-backed regions l t lo [] h m = tt
  Mapped-backed regions l t lo (p ∷ ps) h (f, e, b, i, r) = (
    (f, e, All-In (λ a. InUsable frames.usable a regions) f l h i),
    Mapped-backed regions l t (f + page_size) ps h r,
  )

  expect_ok-done : {A : Type 0} (m : Try A) (a : A) → expect_ok m ≡ done a → m ≡ ok a
  expect_ok-done (ok b) a e = ground arith
  expect_ok-done (err x) a e = cc
  expect_ok-done panicked a e = cc

  -- If the memory map is as the boot loader promises and `init` does not panic, the heap of the two
  -- constants lies in pages that are mapped, each to a page of a usable region.
  pub memory_init_backs :
      (root : Root) (offset lo : ℕ) (regions : List Entry) (h : Heap)
      → IsMemoryMap frames.usable lo regions
      → memory_init root offset regions ≡ done h
      → HeapReady regions h
  unfolding memory_init
  memory_init_backs root offset lo regions h m e =
      let (level_4, found, rest) = >>=-eq-done (active_level_4_table root offset) _ e in
      let (apart, usable) = init_sound frames lo regions m in
      let l = init frames regions in
      let (start, size, covered, mapped) =
        init_heap_maps frames api lo l (root.offset_page_table level_4 offset) h.0 h.1 h.2 h.3 apart
          (All-Physical frames.usable lo regions l m usable) (expect_ok-done _ h rest) in
      record {
        start = start;
        size = size;
        covered = λ a b c. covered a (omega (arith, start)) (omega (arith, start, size));
        backed = Mapped-backed regions l h.0 lo heap_pages usable mapped;
      }

  -- With a hundred usable pages, the pages of the heap free, and a page table whose `map_to` takes
  -- three frames at most, `init` does not panic.
  pub memory_init-ok :
      (Free : PageTable → ℕ → Type 0) (root : Root) (offset level_4 lo : ℕ) (regions : List Entry)
      → Roomy frames api Free
      → IsMemoryMap frames.usable lo regions
      → active_level_4_table root offset ≡ done level_4
      → All (Free (root.offset_page_table level_4 offset)) heap_pages
      → 100 ≤ length (init frames regions)
      → (h : Heap) × (memory_init root offset regions ≡ done h)
  unfolding memory_init
  memory_init-ok F root offset level_4 lo regions v m e a many =
      let (apart, usable) = init_sound frames lo regions m in
      let l = init frames regions in
      let t = root.offset_page_table level_4 offset in
      let (t', l', p) =
        init_heap-ok frames api F lo l t v apart (All-Physical frames.usable lo regions l m usable)
          a many in
      ((t', l', heap_start, heap_size), rw (e, p))

  -- On a memory map as the boot loader promises, with a hundred usable pages, with the pages of the
  -- heap free and a page table whose `map_to` takes three frames at most, `init` does not panic, and
  -- the heap of the two constants lies in pages that are mapped, each to a page of a usable region.
  pub memory_init_succeeds :
      (Free : PageTable → ℕ → Type 0) (root : Root) (offset level_4 lo : ℕ) (regions : List Entry)
      → Roomy frames api Free
      → IsMemoryMap frames.usable lo regions
      → active_level_4_table root offset ≡ done level_4
      → All (Free (root.offset_page_table level_4 offset)) heap_pages
      → 100 ≤ length (init frames regions)
      → (h : Heap) × (memory_init root offset regions ≡ done h) × HeapReady regions h
  memory_init_succeeds F root offset level_4 lo regions v m e a many =
      let (h, p) = memory_init-ok F root offset level_4 lo regions v m e a many in
      (h, p, memory_init_backs root offset lo regions h m p)
