-- ===== src/Memory/Heap/Success.antt =====
-- nacl/src/arch/x86_64/memory/allocator.rs: when `init_heap` succeeds, and when it runs out.
use na_cl.Common.{
  ℕ, ◌+◌, ◌*◌, ◌<◌, ◌≤◌, ◌≡◌, ◌≢◌, refl, List, [], ◌∷◌, length, drop, length-drop, All, arith,
}
use na_cl.Memory.Frames.{page_size, FrameApi, pages_from}
use na_cl.Memory.Frames.Usable.{Apart, Apart-drop, allocate_frame-cons}
use na_cl.Memory.Heap.{heap_start, heap_size, ok, PagingApi, map_pages, init_heap, >>=-eq-ok}
use na_cl.Memory.Heap.Mapped.{
  Physical, Physical-drop, heap_pages, heap_pages-Apart, init_heap_lem, map_pages-exhausted,
  map_pages-Round,
}

length-heap_pages : length heap_pages ≡ 25
unfolding pages_from
length-heap_pages = refl

module _ (frames : FrameApi) (api : PagingApi) where
  open api use {PageTable}

  -- How `map_to` behaves on a page that is free: it succeeds if three frames are left for the
  -- page tables below the top one, takes those at most, and leaves the other free pages free.
  pub record Roomy (Free : PageTable → ℕ → Type 0) : Type 0 where
    pub maps :
        (t : PageTable) (p f flags : ℕ) (l : List ℕ)
        → Free t p
        → 3 ≤ length l
        → (t' : PageTable) × (l' : List ℕ) × (api.map_to t p f flags l ≡ ok (t', l'))
          × (length l ≤ length l' + 3)
    pub stays :
        (t t' : PageTable) (p f flags q : ℕ) (l l' : List ℕ)
        → api.map_to t p f flags l ≡ ok (t', l')
        → q ≢ p
        → Free t q
        → Free t' q

  -- Free pages stay free while others are mapped.
  All-Free :
      (Free : PageTable → ℕ → Type 0) (t t' : PageTable) (p lo : ℕ) (ps : List ℕ)
      → p < lo
      → Apart lo ps
      → ((q : ℕ) → q ≢ p → Free t q → Free t' q)
      → All (Free t) ps
      → All (Free t') ps
  All-Free F t t' p lo [] h d k a = tt
  All-Free F t t' p lo (q ∷ ps) h d k a =
      (k q (omega arith) a.0, All-Free F t t' p (q + page_size) ps (omega arith) d.2 k a.1)

  map_pages-ok :
      (Free : PageTable → ℕ → Type 0)
      → Roomy Free
      → (lo hi : ℕ) (ps : List ℕ) (t : PageTable) (l : List ℕ) → Apart lo ps
      → Apart hi l
      → Physical l
      → All (Free t) ps
      → 4 * length ps ≤ length l
      → (r : PageTable × List ℕ) × (map_pages frames api ps t l ≡ ok r)
  unfolding map_pages
  map_pages-ok F v lo hi [] t l d s ph a e = ((t, l), refl)
  map_pages-ok F v lo hi (p ∷ ps) t [] d s ph a e = absurd (omega arith)
  map_pages-ok F v lo hi (p ∷ ps) t (x ∷ l) d s ph a e =
      let flags = api.flag_or api.present api.writable in
      let (t', l', q, few) = v.maps t p x flags l a.0 (omega arith) in
      let (k, dr) = api.map_to-frames t t' p x flags l l' q in
      let (r, rest) =
        map_pages-ok F v (p + page_size) (x + page_size) ps t' l' d.2
          (rw dr (Apart-drop (x + page_size) k l s.2)) (rw dr (Physical-drop k l ph.1))
          (All-Free F t t' p (p + page_size) ps (omega arith) d.2
            (λ y ne fr. v.stays t t' p x flags y l l' q ne fr) a.1)
          (omega arith) in
      (r, rw (allocate_frame-cons frames x l ph.0 s.1, q) rest)

  -- If `map_to` on a free page takes three frames at most and succeeds when three are left, and leaves
  -- other free pages free, then `init_heap` succeeds with a hundred ascending, page-aligned physical
  -- frames when the pages of the heap are free.
  pub init_heap-ok :
      (Free : PageTable → ℕ → Type 0) (lo : ℕ) (l : List ℕ) (t : PageTable)
      → Roomy Free
      → Apart lo l
      → Physical l
      → All (Free t) heap_pages
      → 100 ≤ length l
      → (t' : PageTable) × (l' : List ℕ) × (init_heap frames api t l
          ≡ ok (t', l', heap_start, heap_size))
  init_heap-ok F lo l t v s ph a e =
      let (r, q) =
        map_pages-ok F v heap_start lo heap_pages t l heap_pages-Apart s ph a
          (omega (arith, length-heap_pages)) in
      (r.0, r.1, rw (init_heap_lem frames api t l, q))

  map_pages-needs :
      (hi : ℕ) (ps : List ℕ) (t : PageTable) (l : List ℕ) {r : PageTable × List ℕ}
      → Apart hi l
      → Physical l
      → map_pages frames api ps t l ≡ ok r
      → length ps ≤ length l
  map_pages-needs hi [] t l s ph e = omega arith
  map_pages-needs hi (p ∷ ps) t [] s ph e = absurd (cc (e, map_pages-exhausted frames api p ps t))
  map_pages-needs hi (p ∷ ps) t (x ∷ l) {r} s ph e =
      let w = map_pages-Round frames api p ps t x l {r = r} ph.0 s.1 e in
      omega (
        arith,
        map_pages-needs (x + page_size) ps w.t' (drop w.k l) {r = r}
            (Apart-drop (x + page_size) w.k l s.2) (Physical-drop w.k l ph.1) w.rest,
        length-drop w.k l,
      )

  -- With fewer than 25 ascending physical frames `init_heap` does not succeed.
  pub init_heap-exhausted :
      (lo : ℕ) (l : List ℕ) (t : PageTable) (r : PageTable × List ℕ × ℕ × ℕ)
      → Apart lo l
      → Physical l
      → length l < 25
      → init_heap frames api t l ≢ ok r
  init_heap-exhausted lo l t r s ph few e =
      let (m, mapped, q) =
        >>=-eq-ok (map_pages frames api heap_pages t l) _
          (rw (init_heap_lem frames api t l) at e) in
      omega (arith, map_pages-needs lo heap_pages t l {r = m} s ph mapped, length-heap_pages)
