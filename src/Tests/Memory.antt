-- ===== src/Tests/Memory.antt =====
-- nacl/src/arch/x86_64/memory: the frame allocator and the heap on a concrete machine.
use na_cl.Common.{
  In, ℕ, suc, ◌+◌, ◌-◌, ◌*◌, ◌/◌, ◌%◌, ◌^◌, ◌<◌, ◌≤◌, ◌≡◌, ◌≢◌, refl, inl, inr, Option, none, some,
  List, [], ◌∷◌, All, ltb, ◌==◌, if◌then◌else◌, arith, Option-cases,
}
use na_cl.Common.Outcomes.{Outcome, done, panic}
use na_cl.Memory.Frames.{page_size, Entry, FrameApi, pages_from, region_pages, init, allocate_frame}
use na_cl.Memory.Frames.Usable.{IsPaged, IsMemoryMap, InUsable, Apart, init_exact}
use na_cl.Memory.Heap.{
  heap_start, heap_size, not_mapped, Try, ok, err, PagingApi, map_pages, init_heap,
}
use na_cl.Memory.Heap.Mapped.{Physical, heap_pages, Mapped, init_heap_maps}
use na_cl.Memory.Heap.Success.{Roomy}

-- An address below a limit, or a panic.
abbrev pub address : ℕ → ℕ → Outcome ℕ
address limit a = if ltb a limit then done a else panic

pub valid_address : (limit a : ℕ) → a < limit → address limit a ≡ done a
valid_address limit a h = ground arith

abbrev pub frames : FrameApi
frames = record {
  usable = 0;
  phys_addr_new = address (2 ^ 52);
  containing_address = λ a. a / page_size * page_size;
  phys_addr_new-valid = valid_address (2 ^ 52);
  containing_address_lem = λ a. refl;
}

-- A reserved page, then two usable ones, then one more after a gap.
abbrev memory_map : List Entry
memory_map =
    record { base = 0; length = 4096; entry_type = 1 }
    ∷ record { base = 4096; length = 8192; entry_type = 0 }
    ∷ record { base = 16384; length = 4096; entry_type = 0 }
    ∷ []

memory_map-IsMemoryMap : IsMemoryMap 0 0 memory_map
memory_map-IsMemoryMap =
    let paged : (b l : ℕ)
        → b % page_size ≡ 0
        → l % page_size ≡ 0
        → b + l ≤ 2 ^ 52
        → IsPaged (record { base = b; length = l; entry_type = 0 }) =
      λ b l e f h. record { base_aligned = e; length_aligned = f; physical = h } in
    IsMemoryMap.other _ _ _ (λ e. omega (arith, e))
      (IsMemoryMap.region _ _ _ refl (paged 4096 8192 refl refl (omega arith)) (omega arith) (
        IsMemoryMap.region _ _ _ refl (paged 16384 4096 refl refl (omega arith)) (omega arith)
          (IsMemoryMap.nil _)))

-- The three pages in order.
frames_in_order : init frames memory_map ≡ 4096 ∷ 8192 ∷ 16384 ∷ []
unfolding init region_pages pages_from
frames_in_order = refl

init_exact_example :
    Apart 0 (init frames memory_map)
    × ((a : ℕ) → In a (init frames memory_map) → InUsable 0 a memory_map)
    × ((a : ℕ) → a % page_size ≡ 0 → InUsable 0 a memory_map → In a (init frames memory_map))
init_exact_example = init_exact frames 0 memory_map memory_map-IsMemoryMap

-- A page table that needs no frames of its own.
abbrev pub Table : Type 0
Table = ℕ → Option ℕ

abbrev pub put : Table → ℕ → ℕ → Table
put t p f q = if p == q then some f else t q

abbrev pub map_page : Table → ℕ → ℕ → ℕ → List ℕ → Try (Table × List ℕ)
map_page t p f flags l = elim (t p) [ none ↦ ok (put t p f, l) | some g ↦ err not_mapped ]

pub map_page-put :
    (t t' : Table) (p f flags : ℕ) (l l' : List ℕ)
    → map_page t p f flags l ≡ ok (t', l')
    → (t' ≡ put t p f) × (l' ≡ l)
map_page-put t t' p f flags l l' e = elim (Option-cases (t p)) [
  | inl n ↦
      let same : ok (put t p f, l) ≡ ok (t', l') = rw (n, map_page) at e in (cc (same), cc (same))
  | inr (g, n) ↦ absurd (cc (rw (n, map_page) at e))
]

pub map_page_self :
    (t t' : Table) (p f flags : ℕ) (l l' : List ℕ)
    → map_page t p f flags l ≡ ok (t', l')
    → t' p ≡ some f
map_page_self t t' p f flags l l' e = ground (arith, map_page-put t t' p f flags l l' e)

pub map_page_other :
    (t t' : Table) (p f flags q : ℕ) (l l' : List ℕ)
    → map_page t p f flags l ≡ ok (t', l')
    → q ≢ p
    → t' q ≡ t q
map_page_other t t' p f flags q l l' e ne = ground (arith, map_page-put t t' p f flags l l' e)

pub valid_difference : (a b : ℕ) → b ≤ a → a < 2 ^ 47 → address (2 ^ 47) (a - b) ≡ done (a - b)
valid_difference a b h k = valid_address (2 ^ 47) (a - b) (omega arith)

-- The pages from `p` to `q`.
abbrev pub page_range : ℕ → ℕ → List ℕ
page_range p q = pages_from p ((q + page_size - p) / page_size)

pub page_range-cons : (p q : ℕ) → p ≤ q → page_range p q ≡ p ∷ page_range (p + page_size) q
unfolding pages_from
page_range-cons p q h =
    let one : (q + page_size - p) / page_size
        ≡ suc ((q + page_size - (p + page_size)) / page_size) =
      omega arith in
    rw one

pub page_range-empty : (p q : ℕ) → q < p → page_range p q ≡ []
unfolding pages_from
page_range-empty p q h =
    let none_left : (q + page_size - p) / page_size ≡ 0 = omega arith in rw none_left

abbrev pub lower : ℕ → Outcome ℕ
lower = address (2 ^ 47)

abbrev pub paging : PagingApi
paging = record {
  PageTable = Table;
  translate = λ t q. t q;
  virt_addr_new = lower;
  virt_addr_add = λ a b. lower (a + b);
  virt_addr_sub = λ a b. lower (a - b);
  page_containing = λ a. a / page_size * page_size;
  range_inclusive = page_range;
  present = 1;
  writable = 2;
  flag_or = λ a b. a + b;
  map_to = map_page;
  virt_addr_new-lower = valid_address (2 ^ 47);
  virt_addr_add-lower = λ a b h. valid_address (2 ^ 47) (a + b) h;
  virt_addr_sub-lower = valid_difference;
  page_containing_lem = λ a. refl;
  range_inclusive-empty = page_range-empty;
  range_inclusive-cons = page_range-cons;
  map_to-self = map_page_self;
  map_to-other = map_page_other;
  map_to-frames = λ t t' p f flags l l' e. (0, (map_page-put t t' p f flags l l' e).1);
}

abbrev pub unmapped : Table
unmapped q = none

map_page-free :
    (t : Table) (p f flags : ℕ) (l : List ℕ)
    → t p ≡ none
    → map_page t p f flags l ≡ ok (put t p f, l)
map_page-free t p f flags l e = rw (e, map_page)

pub roomy : Roomy frames paging (λ t p. t p ≡ none)
roomy = record {
  maps = λ t p f flags l free more. (put t p f, l, map_page-free t p f flags l free, omega arith);
  stays = λ t t' p f flags q l l' e ne free. ground (arith, map_page-put t t' p f flags l l' e);
}

-- Each page goes to the next frame.
abbrev pub mapped : List ℕ → List ℕ → Table → Table
mapped [] l t = t
mapped (p ∷ ps) [] t = t
mapped (p ∷ ps) (f ∷ l) t = mapped ps l (put t p f)

-- A hundred frames from address 0 on.
abbrev hundred : List ℕ
hundred = pages_from 0 100

hundred-Apart : Apart 0 hundred
unfolding pages_from
hundred-Apart = omega arith

hundred-Physical : Physical hundred
unfolding pages_from
hundred-Physical = omega arith

init_heap_maps_example :
    (heap_start ≡ heap_start)
    × (heap_size ≡ heap_size)
    × ((a : ℕ)
        → heap_start ≤ a
        → a < heap_start + heap_size
        → In (a / page_size * page_size) heap_pages)
    × Mapped frames paging hundred (mapped heap_pages hundred unmapped) 0 heap_pages
unfolding init_heap map_pages allocate_frame pages_from
init_heap_maps_example =
    init_heap_maps frames paging 0 hundred unmapped (mapped heap_pages hundred unmapped)
      (pages_from 102400 75) heap_start heap_size hundred-Apart hundred-Physical refl

pub unmapped_everywhere : (ps : List ℕ) → All (λ p. unmapped p ≡ none) ps
unmapped_everywhere [] = tt
unmapped_everywhere (p ∷ ps) = (refl, unmapped_everywhere ps)
