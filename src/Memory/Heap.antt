-- ===== src/Memory/Heap.antt =====
-- nacl/src/arch/x86_64/memory/allocator.rs: the pages of the kernel heap are mapped one by one.
pub mod Mapped
pub mod Success
use na_cl.Common.{
  ℕ, suc, ◌+◌, ◌-◌, ◌*◌, ◌/◌, ◌^◌, ◌<◌, ◌≤◌, ◌≡◌, ◌≢◌, refl, Option, none, some, List, [], ◌∷◌,
  drop, length,
}
use na_cl.Common.Outcomes.{Outcome, done, panic}
use na_cl.Memory.Frames.{page_size, FrameApi, allocate_frame}

abbrev pub heap_start : ℕ
heap_start = 0x4444_4444_0000

abbrev pub heap_size : ℕ
heap_size = 100 * 1024

-- `MapToError` of the crate `x86_64`; `not_mapped` stands for its errors other than the first.
pub data MapToError : Type 0 where
  frame_allocation_failed not_mapped : MapToError

-- What a call gives that can return an error or panic.
pub data Try {ℓ} (A : Type ℓ) : Type ℓ where
  ok : A → Try A
  err : MapToError → Try A
  panicked : Try A

infixl 5 ◌>>=◌
abbrev pub ◌>>=◌ {ℓ κ} : {A : Type ℓ} {B : Type κ} → Try A → (A → Try B) → Try B
panicked >>= next = panicked
err code >>= next = err code
ok value >>= next = next value

pub >>=-eq-ok {ℓ κ} :
    {A : Type ℓ} {B : Type κ} (call : Try A) (next : A → Try B) {result : B}
    → call >>= next ≡ ok result
    → (value : A) × (call ≡ ok value) × (next value ≡ ok result)
>>=-eq-ok panicked next e = cc
>>=-eq-ok (err code) next e = cc
>>=-eq-ok (ok value) next e = (value, refl, e)

abbrev pub of_outcome {ℓ} : {A : Type ℓ} → Outcome A → Try A
of_outcome (done a) = ok a
of_outcome panic = panicked

abbrev pub ok_or {ℓ} : {A : Type ℓ} → Option A → MapToError → Try A
ok_or none e = err e
ok_or (some a) e = ok a

-- What `init_heap` uses of the crate `x86_64`. An address is a number, a page or a frame is its
-- start address, and the frame allocator that `map_to` is handed is the list of its frames.
pub record PagingApi : Type 1 where
  pub PageTable : Type 0
  pub translate : PageTable → ℕ → Option ℕ
  pub virt_addr_new : ℕ → Outcome ℕ
  pub virt_addr_add : ℕ → ℕ → Outcome ℕ
  pub virt_addr_sub : ℕ → ℕ → Outcome ℕ
  pub page_containing : ℕ → ℕ
  pub range_inclusive : ℕ → ℕ → List ℕ
  pub present : ℕ
  pub writable : ℕ
  pub flag_or : ℕ → ℕ → ℕ
  pub map_to : PageTable → ℕ → ℕ → ℕ → List ℕ → Try (PageTable × List ℕ)
  -- Addresses of the lower half are canonical.
  pub virt_addr_new-lower : (a : ℕ) → a < 2 ^ 47 → virt_addr_new a ≡ done a
  pub virt_addr_add-lower : (a b : ℕ) → a + b < 2 ^ 47 → virt_addr_add a b ≡ done (a + b)
  pub virt_addr_sub-lower : (a b : ℕ) → b ≤ a → a < 2 ^ 47 → virt_addr_sub a b ≡ done (a - b)
  pub page_containing_lem : (a : ℕ) → page_containing a ≡ a / page_size * page_size
  pub range_inclusive-empty : (p q : ℕ) → q < p → range_inclusive p q ≡ []
  pub range_inclusive-cons :
      (p q : ℕ) → p ≤ q → range_inclusive p q ≡ p ∷ range_inclusive (p + page_size) q
  -- `map_to` maps its page to its frame, leaves the other pages alone, and may take frames for
  -- page tables from the allocator.
  pub map_to-self :
      (t t' : PageTable) (p f flags : ℕ) (l l' : List ℕ)
      → map_to t p f flags l ≡ ok (t', l')
      → translate t' p ≡ some f
  pub map_to-other :
      (t t' : PageTable) (p f flags q : ℕ) (l l' : List ℕ)
      → map_to t p f flags l ≡ ok (t', l')
      → q ≢ p
      → translate t' q ≡ translate t q
  pub map_to-frames :
      (t t' : PageTable) (p f flags : ℕ) (l l' : List ℕ)
      → map_to t p f flags l ≡ ok (t', l')
      → (k : ℕ) × (l' ≡ drop k l)

module _ (frames : FrameApi) (api : PagingApi) where
  open api use {
    PageTable, virt_addr_new, virt_addr_add, virt_addr_sub, page_containing, range_inclusive,
    present, writable, flag_or, map_to,
  }

  -- The `for` loop over the pages.
  unfoldable pub map_pages : List ℕ → PageTable → List ℕ → Try (PageTable × List ℕ)
  map_pages [] t l = ok (t, l)
  map_pages (p ∷ ps) t l = do
    (frame, l₁) ← of_outcome (allocate_frame frames l)
    f ← ok_or frame frame_allocation_failed
    (t', l₂) ← map_to t p f (flag_or present writable) l₁
    map_pages ps t' l₂

  -- The new page table, the frames left, and the arguments of `ALLOCATOR.lock().init`.
  unfoldable pub init_heap : PageTable → List ℕ → Try (PageTable × List ℕ × ℕ × ℕ)
  init_heap t l = do
    start ← of_outcome (virt_addr_new heap_start)
    past ← of_outcome (virt_addr_add start heap_size)
    last ← of_outcome (virt_addr_sub past 1)
    (t', l') ← map_pages (range_inclusive (page_containing start) (page_containing last)) t l
    ok (t', l', heap_start, heap_size)
