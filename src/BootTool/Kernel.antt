-- ===== src/BootTool/Kernel.antt =====
-- nacl_boot/src/main.rs: the path of the kernel in what the build prints.
use Prim.Native.String.{String}
use na_cl.Common.{
  ℕ, zero, suc, ◌+◌, ◌-◌, ◌≡◌, refl, ◌∙◌, ap, Option, none, some, List, [], ◌∷◌, ◌++◌, length, take,
  drop, true, sym, length-append, append_assoc, take-length_append, leb, if◌then◌else◌, arith,
}
use na_cl.BootTool.Env.{Host, ok, panicked, Action, ◌>>=◌, or_fail}

abbrev pub regex : String
regex = "\"executable\":\".+?\""

-- `REGEX_HDR`, as code units, and the quote that ends a match.
abbrev pub regex_hdr : List ℕ
regex_hdr =
    0x22 ∷ 0x65 ∷ 0x78 ∷ 0x65 ∷ 0x63 ∷ 0x75 ∷ 0x74 ∷ 0x61 ∷ 0x62 ∷ 0x6C ∷ 0x65 ∷ 0x22 ∷ 0x3A ∷ 0x22
    ∷ []

-- `advance_by` and `advance_back_by` of a range; `none` is an error.
abbrev pub advance_by : ℕ → ℕ × ℕ → Option (ℕ × ℕ)
advance_by n (s, e) = if leb (s + n) e then some (s + n, e) else none

abbrev pub advance_back_by : ℕ → ℕ × ℕ → Option (ℕ × ℕ)
advance_back_by n (s, e) = if leb (s + n) e then some (s, e - n) else none

-- `&output[range]`, which panics out of range.
abbrev pub slice : {W : Type 0} → List ℕ → ℕ × ℕ → Action W (List ℕ)
slice l (s, e) w =
    if leb s e
    then if leb e (length l) then (ok (take (e - s) (drop s l)), w) else (panicked, w)
    else (panicked, w)

drop-append : {A : Type 0} (n : ℕ) (xs ys : List A) → n ≡ length xs → drop n (xs ++ ys) ≡ ys
drop-append zero [] ys e = refl
drop-append zero (x ∷ xs) ys e = absurd (omega (arith, e))
drop-append (suc n) [] ys e = absurd (omega (arith, e))
drop-append (suc n) (x ∷ xs) ys e = drop-append n xs ys (omega (arith, e))

module _ (host : Host) where
  open host use {World}

  unfoldable pub kernel_binary : List ℕ → Action World (List ℕ)
  kernel_binary output = do
    range ← or_fail (host.find regex output)
    after_hdr ← or_fail (advance_by (length regex_hdr) range)
    inside ← or_fail (advance_back_by 1 after_hdr)
    slice output inside

  -- The tool finds the path that the build prints: if the first match of the pattern in the output
  -- is the header, a path and a quote, the path is what it gives.
  pub kernel_binary_found :
      (before path after : List ℕ) (w : World)
      → let output = before ++ (regex_hdr ++ (path ++ (0x22 ∷ after))) in
        host.find regex output
          ≡ some (length before, length before + (length regex_hdr + (length path + 1)))
        → kernel_binary output w ≡ (ok path, w)
  unfolding kernel_binary
  kernel_binary_found before path after w h =
      let rest = path ++ (0x22 ∷ after) in
      let at : before ++ (regex_hdr ++ rest) ≡ (before ++ regex_hdr) ++ rest =
        sym (append_assoc before regex_hdr rest) in
      let skipped : length before + 14 ≡ length (before ++ regex_hdr) =
        omega (arith, length-append before regex_hdr) in
      let inside : length before + (14 + (length path + 1)) - 1 - (length before + 14)
          ≡ length path =
        omega arith in
      let found : take (length path) (drop (length before + 14) (before ++ (regex_hdr ++ rest)))
          ≡ path =
        ap (λ l. take (length path) (drop (length before + 14) l)) at
        ∙ ap (take (length path))
            (drop-append (length before + 14) (before ++ regex_hdr) rest skipped)
        ∙ take-length_append path (0x22 ∷ after) in
      let first : leb (length before + 14) (length before + (14 + (length path + 1))) ≡ true =
        ground arith in
      let second : leb (length before + 14 + 1) (length before + (14 + (length path + 1))) ≡ true =
        ground arith in
      let third : leb (length before + 14) (length before + (14 + (length path + 1)) - 1) ≡ true =
        ground arith in
      let fourth : leb (length before + (14 + (length path + 1)) - 1)
            (length (before ++ (regex_hdr ++ rest)))
          ≡ true =
        ground
          (arith, length-append before (regex_hdr ++ rest), length-append path (0x22 ∷ after)) in
      rw (h, first, second, third, fourth, inside, found)
