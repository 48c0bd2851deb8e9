-- ===== src/Memory/Frames/Usable.antt =====
-- nacl/src/arch/x86_64/memory/mod.rs: which frames `BootInfoFrameAllocator` hands out.
use na_cl.Common.{
  In, ℕ, zero, suc, ◌+◌, ◌-◌, ◌*◌, ◌/◌, ◌%◌, ◌^◌, ◌<◌, ◌≤◌, ◌≡◌, ◌≢◌, refl, ◌==◌, ◌⊎◌, inl, inr,
  none, some, List, [], ◌∷◌, ◌++◌, drop, All, All-In, All-append, arith, Bool-cases, ==_iff,
}
use na_cl.Common.Outcomes.{done}
use na_cl.Memory.Frames.{page_size, Entry, FrameApi, pages_from, region_pages, init, allocate_frame}

-- A region of whole pages of physical memory.
pub record IsPaged (x : Entry) : Type 0 where
  pub base_aligned : x.base % page_size ≡ 0
  pub length_aligned : x.length % page_size ≡ 0
  pub physical : x.base + x.length ≤ 2 ^ 52

-- What the boot loader promises of its map from address `lo` on: the usable regions are made of
-- whole pages, they are sorted, and they do not overlap. Of the others it promises nothing.
pub data IsMemoryMap (usable : ℕ) : ℕ → List Entry → Type 0 where
  nil : (lo : ℕ) → IsMemoryMap usable lo []
  other :
      (lo : ℕ) (x : Entry) (xs : List Entry)
      → x.entry_type ≢ usable
      → IsMemoryMap usable lo xs
      → IsMemoryMap usable lo (x ∷ xs)
  region :
      (lo : ℕ) (x : Entry) (xs : List Entry)
      → x.entry_type ≡ usable
      → IsPaged x
      → lo ≤ x.base
      → IsMemoryMap usable (x.base + x.length) xs
      → IsMemoryMap usable lo (x ∷ xs)

-- The page at address `a` lies in a usable region.
abbrev pub InUsable : ℕ → ℕ → List Entry → Type 0
InUsable usable a [] = ⊥
InUsable usable a (x ∷ xs) =
    ((x.entry_type ≡ usable) × (x.base ≤ a) × (a + page_size ≤ x.base + x.length))
    ⊎ InUsable usable a xs

-- Page-aligned addresses from `lo` on, each a page above the one before: no two pages overlap.
abbrev pub Apart : ℕ → List ℕ → Type 0
Apart lo [] = Unit
Apart lo (a ∷ rest) = (lo ≤ a) × (a % page_size ≡ 0) × Apart (a + page_size) rest

region_pages-paged :
    (x : Entry) → IsPaged x → region_pages x ≡ pages_from x.base (x.length / page_size)
unfolding region_pages
region_pages-paged x v =
    let e : ((x.base + x.length) % 2 ^ 64 - x.base + (page_size - 1)) / page_size
        ≡ x.length / page_size =
      omega arith in
    rw e

pub Apart-mono : {lo hi : ℕ} (xs : List ℕ) → lo ≤ hi → Apart hi xs → Apart lo xs
Apart-mono [] h p = tt
Apart-mono (x ∷ xs) h p = (omega arith, p.1, p.2)

pub pages_from-Apart :
    (lo a n b : ℕ) (rest : List ℕ)
    → lo ≤ a
    → a % page_size ≡ 0
    → b ≡ a + n * page_size
    → Apart b rest
    → Apart lo (pages_from a n ++ rest)
unfolding pages_from
pages_from-Apart lo a zero b rest h e q r = Apart-mono {lo = lo} {hi = b} rest (omega arith) r
pages_from-Apart lo a (suc n) b rest h e q r = (
  h,
  e,
  pages_from-Apart (a + page_size) (a + page_size) n b rest (omega arith) (omega arith)
      (omega arith) r,
)

pub pages_from-In :
    (a n p : ℕ)
    → a % page_size ≡ 0
    → p % page_size ≡ 0
    → a ≤ p
    → p < a + n * page_size
    → In p (pages_from a n)
unfolding pages_from
pages_from-In a zero p ha hp lo hi = absurd (omega arith)
pages_from-In a (suc n) p ha hp lo hi = elim (Bool-cases (p == a)) [
  | inl e ↦ inl ((==_iff p a).0 e)
  | inr e ↦ inr (pages_from-In (a + page_size) n p (omega arith) hp (ground arith) (omega arith))
]

In-append_left : (p : ℕ) (xs ys : List ℕ) → In p xs → In p (xs ++ ys)
In-append_left p [] ys h = absurd h
In-append_left p (x ∷ xs) ys (inl e) = inl e
In-append_left p (x ∷ xs) ys (inr h) = inr (In-append_left p xs ys h)

In-append_right : (p : ℕ) (xs ys : List ℕ) → In p ys → In p (xs ++ ys)
In-append_right p [] ys h = h
In-append_right p (x ∷ xs) ys h = inr (In-append_right p xs ys h)

-- Every address of `pages_from` is the start of a page below the end.
pages_from-All :
    (P : ℕ → Type 0) (a n b : ℕ)
    → b ≡ a + n * page_size
    → ((p : ℕ) → a ≤ p → p + page_size ≤ b → P p)
    → All P (pages_from a n)
unfolding pages_from
pages_from-All P a zero b e h = tt
pages_from-All P a (suc n) b e h = (
  h a (omega arith) (omega arith),
  pages_from-All P (a + page_size) n b (omega arith) (λ p lo hi. h p (omega arith) hi),
)

All-mono {ℓ} :
    {A : Type ℓ} (P Q : A → Type 0) (xs : List A) → ((a : A) → P a → Q a) → All P xs → All Q xs
All-mono P Q [] h p = tt
All-mono P Q (x ∷ xs) h p = (h x p.0, All-mono P Q xs h p.1)

pub Apart-drop : (lo k : ℕ) (l : List ℕ) → Apart lo l → Apart lo (drop k l)
Apart-drop lo zero l p = p
Apart-drop lo (suc k) [] p = tt
Apart-drop lo (suc k) (a ∷ l) p =
    Apart-mono {lo = lo} {hi = a + page_size} (drop k l) (omega arith)
      (Apart-drop (a + page_size) k l p.2)

pub In-drop : (x k : ℕ) (l : List ℕ) → In x (drop k l) → In x l
In-drop x zero l h = h
In-drop x (suc k) [] h = h
In-drop x (suc k) (a ∷ l) h = inr (In-drop x k l h)

module _ (api : FrameApi) where
  open api use {usable}

  init-other :
      (x : Entry) (xs : List Entry) → x.entry_type ≢ usable → init api (x ∷ xs) ≡ init api xs
  unfolding init
  init-other x xs h = ground arith

  init-region :
      (x : Entry) (xs : List Entry)
      → x.entry_type ≡ usable
      → IsPaged x
      → init api (x ∷ xs) ≡ pages_from x.base (x.length / page_size) ++ init api xs
  unfolding init
  init-region x xs h v = ground (arith, region_pages-paged x v)

  init-Apart : (lo : ℕ) (xs : List Entry) → IsMemoryMap usable lo xs → Apart lo (init api xs)
  unfolding init
  init-Apart lo _ (IsMemoryMap.nil _) = tt
  init-Apart lo _ (IsMemoryMap.other _ x ys h m) = rw (init-other x ys h) (init-Apart lo ys m)
  init-Apart lo _ (IsMemoryMap.region _ x ys h v l m) = rw (init-region x ys h v) (
      pages_from-Apart lo x.base (x.length / page_size) (x.base + x.length) (init api ys) l
        v.base_aligned (omega arith) (init-Apart (x.base + x.length) ys m))

  init-InUsable :
      (lo : ℕ) (xs : List Entry)
      → IsMemoryMap usable lo xs
      → All (λ a. InUsable usable a xs) (init api xs)
  unfolding init
  init-InUsable lo _ (IsMemoryMap.nil _) = tt
  init-InUsable lo _ (IsMemoryMap.other _ x ys h m) =
      rw (init-other x ys h) (
        All-mono (λ a. InUsable usable a ys) _ (init api ys) (λ a p. inr p) (init-InUsable lo ys m))
  init-InUsable lo _ (IsMemoryMap.region _ x ys h v l m) = rw (init-region x ys h v) (
      All-append _ (pages_from x.base (x.length / page_size)) (init api ys)
        (pages_from-All _ x.base (x.length / page_size) (x.base + x.length) (omega arith)
          (λ p lo hi. inl (h, lo, hi)))
        (All-mono (λ a. InUsable usable a ys) _ (init api ys) (λ a p. inr p)
          (init-InUsable (x.base + x.length) ys m)))

  -- The frames that the allocator yields are page-aligned, in ascending order and pairwise
  -- disjoint, and each of them lies in a usable region, if the map is as the boot loader promises.
  pub init_sound :
      (lo : ℕ) (xs : List Entry)
      → IsMemoryMap usable lo xs
      → Apart lo (init api xs) × All (λ a. InUsable usable a xs) (init api xs)
  init_sound lo xs m = (init-Apart lo xs m, init-InUsable lo xs m)

  -- Every page of every usable region is handed out.
  init_complete :
      (lo : ℕ) (xs : List Entry)
      → IsMemoryMap usable lo xs
      → (a : ℕ) → a % page_size ≡ 0
      → InUsable usable a xs
      → In a (init api xs)
  unfolding init
  init_complete lo _ (IsMemoryMap.nil _) a al i = i
  init_complete lo _ (IsMemoryMap.other _ x ys h m) a al (inl (u, _, _)) = absurd (h u)
  init_complete lo _ (IsMemoryMap.other _ x ys h m) a al (inr i) =
      rw (init-other x ys h) (init_complete lo ys m a al i)
  init_complete lo _ (IsMemoryMap.region _ x ys h v l m) a al (inl (_, b, e)) =
      rw (init-region x ys h v) (
        In-append_left a (pages_from x.base (x.length / page_size)) (init api ys)
          (pages_from-In x.base (x.length / page_size) a v.base_aligned al b (omega arith)))
  init_complete lo _ (IsMemoryMap.region _ x ys h v l m) a al (inr i) = rw (init-region x ys h v) (
      In-append_right a (pages_from x.base (x.length / page_size)) (init api ys)
        (init_complete (x.base + x.length) ys m a al i))

  -- On a memory map as the boot loader promises, the addresses that the allocator goes through are
  -- page-aligned and ascending by a page at least; and of the page-aligned addresses they are just those
  -- whose pages lie in usable regions.
  pub init_exact :
      (lo : ℕ) (xs : List Entry)
      → IsMemoryMap usable lo xs
      → Apart lo (init api xs)
        × ((a : ℕ) → In a (init api xs) → InUsable usable a xs)
        × ((a : ℕ) → a % page_size ≡ 0 → InUsable usable a xs → In a (init api xs))
  init_exact lo xs m =
      let (apart, sound) = init_sound lo xs m in
      (
        apart,
        λ a i. All-In (λ b. InUsable usable b xs) a (init api xs) sound i,
        init_complete lo xs m,
      )

  -- An aligned physical address is handed out as the frame that starts there.
  pub allocate_frame-cons :
      (a : ℕ) (l : List ℕ)
      → a < 2 ^ 52
      → a % page_size ≡ 0
      → allocate_frame api (a ∷ l) ≡ done (some a, l)
  unfolding allocate_frame
  allocate_frame-cons a l h e =
      let whole : api.containing_address a ≡ a = omega (arith, api.containing_address_lem a) in
      rw (api.phys_addr_new-valid a h, whole)

  pub allocate_frame-nil : allocate_frame api [] ≡ done (none, [])
  unfolding allocate_frame
  allocate_frame-nil = refl
