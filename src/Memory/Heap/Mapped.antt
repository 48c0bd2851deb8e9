-- ===== src/Memory/Heap/Mapped.antt =====
-- nacl/src/arch/x86_64/memory/allocator.rs: what is mapped when `init_heap` returns.
use na_cl.Common.{
  In, ℕ, zero, suc, ◌+◌, ◌-◌, ◌*◌, ◌/◌, ◌%◌, ◌^◌, ◌<◌, ◌≤◌, ◌≡◌, ◌≢◌, refl, ◌∙◌, inl, inr, some,
  List, [], ◌∷◌, drop, All, arith, ap, subst,
}
use na_cl.Memory.Frames.{page_size, FrameApi, pages_from}
use na_cl.Memory.Frames.Usable.{
  Apart, Apart-drop, In-drop, pages_from-In, allocate_frame-cons, allocate_frame-nil,
}
use na_cl.Memory.Heap.{
  heap_start, heap_size, frame_allocation_failed, ok, err, ◌>>=◌, >>=-eq-ok, PagingApi, map_pages,
  init_heap,
}

abbrev pub Physical : List ℕ → Type 0
Physical = All (λ a. a < 2 ^ 52)

pub Physical-drop : (k : ℕ) (l : List ℕ) → Physical l → Physical (drop k l)
Physical-drop zero l p = p
Physical-drop (suc k) [] p = tt
Physical-drop (suc k) (a ∷ l) p = Physical-drop k l p.1

-- The pages from `heap_start` on.
abbrev pub heap_pages : List ℕ
heap_pages = pages_from heap_start 25

pub heap_pages-Apart : Apart heap_start heap_pages
unfolding pages_from
heap_pages-Apart = omega arith

heap_pages-In :
    (a : ℕ)
    → heap_start ≤ a
    → a < heap_start + heap_size
    → In (a / page_size * page_size) heap_pages
heap_pages-In a lo hi =
    pages_from-In heap_start 25 (a / page_size * page_size) refl (omega arith) (omega arith)
      (omega arith)

module _ (frames : FrameApi) (api : PagingApi) where
  open api use {PageTable, translate}

  -- The pages are mapped to frames of `l`, each a page or more above the frame before, from `lo`.
  abbrev pub Mapped : List ℕ → PageTable → ℕ → List ℕ → Type 0
  Mapped l t lo [] = Unit
  Mapped l t lo (p ∷ ps) =
      (f : ℕ) × (translate t p ≡ some f) × (lo ≤ f) × In f l × Mapped l t (f + page_size) ps

  Mapped-In :
      (l l' : List ℕ) (t : PageTable) (lo : ℕ) (ps : List ℕ)
      → ((x : ℕ) → In x l → In x l')
      → Mapped l t lo ps
      → Mapped l' t lo ps
  Mapped-In l l' t lo [] h m = tt
  Mapped-In l l' t lo (p ∷ ps) h (f, e, b, i, r) =
      (f, e, b, h f i, Mapped-In l l' t (f + page_size) ps h r)

  -- A successful round of the loop: a frame, the call of `map_to`, and the rounds after it.
  pub record Round (p : ℕ) (ps : List ℕ) (t : PageTable) (a : ℕ) (l : List ℕ)
      (r : PageTable × List ℕ) : Type 0 where
    pub t' : PageTable
    pub k : ℕ
    pub self : translate t' p ≡ some a
    pub other : (q : ℕ) → q ≢ p → translate t' q ≡ translate t q
    pub rest : map_pages frames api ps t' (drop k l) ≡ ok r

  pub map_pages-Round :
      (p : ℕ) (ps : List ℕ) (t : PageTable) (a : ℕ) (l : List ℕ) {r : PageTable × List ℕ}
      → a < 2 ^ 52
      → a % page_size ≡ 0
      → map_pages frames api (p ∷ ps) t (a ∷ l) ≡ ok r
      → Round p ps t a l r
  unfolding map_pages
  map_pages-Round p ps t a l h e q =
      let flags = api.flag_or api.present api.writable in
      let ((t', l'), eq, rest) =
        >>=-eq-ok (api.map_to t p a flags l) _ (rw (allocate_frame-cons frames a l h e) at q) in
      let (k, d) = api.map_to-frames t t' p a flags l l' eq in
      record {
        t' = t';
        k = k;
        self = api.map_to-self t t' p a flags l l' eq;
        other = λ q ne. api.map_to-other t t' p a flags q l l' eq ne;
        rest = rw d at rest;
      }

  map_pages-nil :
      (t : PageTable) (l : List ℕ) {r : PageTable × List ℕ}
      → map_pages frames api [] t l ≡ ok r
      → r.0 ≡ t
  unfolding map_pages
  map_pages-nil t l e = cc

  pub map_pages-exhausted :
      (p : ℕ) (ps : List ℕ) (t : PageTable)
      → map_pages frames api (p ∷ ps) t [] ≡ err frame_allocation_failed
  unfolding map_pages
  map_pages-exhausted p ps t = rw (allocate_frame-nil frames)

  -- A page below those of the loop keeps its mapping.
  map_pages-below :
      (q lo hi : ℕ) (ps : List ℕ) (t : PageTable) (l : List ℕ) {r : PageTable × List ℕ}
      → q < lo
      → Apart lo ps
      → Apart hi l
      → Physical l
      → map_pages frames api ps t l ≡ ok r
      → translate r.0 q ≡ translate t q
  map_pages-below q lo hi [] t l h d s ph e = ap (λ u. translate u q) (map_pages-nil t l e)
  map_pages-below q lo hi (p ∷ ps) t [] h d s ph e = absurd (cc (e, map_pages-exhausted p ps t))
  map_pages-below q lo hi (p ∷ ps) t (a ∷ l) {r} h d s ph e =
      let w = map_pages-Round p ps t a l {r = r} ph.0 s.1 e in
      map_pages-below q (p + page_size) (a + page_size) ps w.t' (drop w.k l) {r = r} (omega arith)
        d.2 (Apart-drop (a + page_size) w.k l s.2) (Physical-drop w.k l ph.1) w.rest
      ∙ w.other q (omega arith)

  map_pages-Mapped :
      (lo hi : ℕ) (ps : List ℕ) (t : PageTable) (l : List ℕ) {r : PageTable × List ℕ}
      → Apart lo ps
      → Apart hi l
      → Physical l
      → map_pages frames api ps t l ≡ ok r
      → Mapped l r.0 hi ps
  map_pages-Mapped lo hi [] t l d s ph e = tt
  map_pages-Mapped lo hi (p ∷ ps) t [] d s ph e = absurd (cc (e, map_pages-exhausted p ps t))
  map_pages-Mapped lo hi (p ∷ ps) t (a ∷ l) {r} d s ph e =
      let w = map_pages-Round p ps t a l {r = r} ph.0 s.1 e in
      let s' = Apart-drop (a + page_size) w.k l s.2 in
      let ph' = Physical-drop w.k l ph.1 in
      (
        a,
        map_pages-below p (p + page_size) (a + page_size) ps w.t' (drop w.k l) {r = r} (omega arith)
              d.2 s' ph' w.rest
            ∙ w.self,
        s.0,
        inl refl,
        Mapped-In (drop w.k l) (a ∷ l) r.0 (a + page_size) ps (λ x i. inr (In-drop x w.k l i))
            (map_pages-Mapped (p + page_size) (a + page_size) ps w.t' (drop w.k l) {r = r} d.2 s'
              ph' w.rest),
      )

  range_inclusive-pages :
      (n p q : ℕ) → q ≡ p + n * page_size → api.range_inclusive p q ≡ pages_from p (suc n)
  unfolding pages_from
  range_inclusive-pages zero p q e =
      api.range_inclusive-cons p q (omega arith)
      ∙ ap (◌∷◌ p) (api.range_inclusive-empty (p + page_size) q (omega arith))
  range_inclusive-pages (suc n) p q e =
      api.range_inclusive-cons p q (omega arith)
      ∙ ap (◌∷◌ p) (range_inclusive-pages n (p + page_size) q (omega arith))

  -- The range of `init_heap` is the 25 pages from `heap_start` on, and no address panics.
  pub init_heap_lem :
      (t : PageTable) (l : List ℕ)
      → init_heap frames api t l
        ≡ (map_pages frames api heap_pages t l >>= λ r. ok (r.0, r.1, heap_start, heap_size))
  unfolding init_heap
  init_heap_lem t l = rw (
    api.virt_addr_new-lower heap_start (omega arith),
    api.virt_addr_add-lower heap_start heap_size (omega arith),
    api.virt_addr_sub-lower (heap_start + heap_size) 1 (omega arith) (omega arith),
    api.page_containing_lem heap_start,
    api.page_containing_lem (heap_start + heap_size - 1),
    range_inclusive-pages 24 heap_start (heap_start + 24 * page_size) (omega arith),
  )

  -- If `init_heap` succeeds on ascending physical frames, the heap handed to the allocator is the
  -- one of the two constants, each address of it lies in one of the 25 pages from its start on,
  -- and each of those is mapped to a frame of the list, no two of them to the same frame.
  pub init_heap_maps :
      (lo : ℕ) (l : List ℕ) (t t' : PageTable) (l' : List ℕ) (start size : ℕ)
      → Apart lo l
      → Physical l
      → init_heap frames api t l ≡ ok (t', l', start, size)
      → (start ≡ heap_start)
        × (size ≡ heap_size)
        × ((a : ℕ) → start ≤ a → a < start + size → In (a / page_size * page_size) heap_pages)
        × Mapped l t' lo heap_pages
  init_heap_maps lo l t t' l' start size s ph e =
      let (r, mapped, q) =
        >>=-eq-ok (map_pages frames api heap_pages t l) _ (rw (init_heap_lem t l) at e) in
      let at_start : start ≡ heap_start = ground arith in
      let of_size : size ≡ heap_size = ground arith in
      let table : r.0 ≡ t' = ground arith in
      (
        at_start,
        of_size,
        λ a b c. heap_pages-In a (omega arith) (omega arith),
        subst (λ u. Mapped l u lo heap_pages) table
            (map_pages-Mapped heap_start lo heap_pages t l {r = r} heap_pages-Apart s ph mapped),
      )
