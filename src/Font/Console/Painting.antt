-- ===== src/Font/Console/Painting.antt =====
-- nacl/src/font/mod.rs: `redraw` paints the grid cell by cell.
use na_cl.Common.{
  ℕ, ◌+◌, ◌*◌, ◌/◌, ◌%◌, ◌<◌, ◌≡◌, refl, ◌∙◌, ap, inl, inr, List, [], ◌∷◌, ◌==◌, if◌then◌else◌,
  Bool-cases, arith,
}
use native.Mathlib.Nat.{mul-add-div_right, div-eq_of_lt, mul-add-mod_self_right, mod-eq_of_lt}
use na_cl.Common.Outcomes.{done}
use na_cl.HashMap.{HashMap}
use na_cl.Font.Glyph.{Frame, putc}
use na_cl.Font.Console.{Screen, u32_max, redraw_from, redraw}
use na_cl.Font.Console.Terminal.{Ink, paint}

-- The column and the row of a cell.
cell-column : (n x y : ℕ) → x < n → (y * n + x) % n ≡ x
cell-column n x y h = mul-add-mod_self_right y n x ∙ mod-eq_of_lt h

cell-row : (n x y : ℕ) → x < n → (y * n + x) / n ≡ y
cell-row n x y h =
    mul-add-div_right {m = n} (omega (arith, h)) y x
    ∙ ap (λ k. y + k) (div-eq_of_lt h)
    ∙ omega arith

-- The cell after one.
next_cell :
    (n k x y : ℕ)
    → k ≡ y * n + x
    → x < n
    → (k + 1 ≡ (if x + 1 == n then y + 1 else y) * n + (if x + 1 == n then 0 else x + 1))
      × ((if x + 1 == n then 0 else x + 1) < n)
next_cell n k x y e h = elim (Bool-cases (x + 1 == n)) [
  | inl last ↦ let whole : x + 1 ≡ n = ground (arith, last) in rw last (grind arith, omega arith)
  | inr more ↦ rw more (omega arith, ground (arith, more, h))
]

module _ (hm : HashMap ℕ) (ft : List ℕ) where
  -- The loop of `redraw` paints what is left of the text from a cell on.
  redraw_from-paint :
      (s : Screen hm ft) (ink : Ink) (cs : List ℕ) (k x y : ℕ) (fb : Frame)
      → s.bytes_per_pixel ≡ 4
      → ((c i j colour : ℕ) (f : Frame)
          → putc hm ft 4 s.stride s.mapping c i j colour 0 f ≡ done (ink c i j colour f))
      → k ≡ y * s.horiz_chars + x
      → x < s.horiz_chars
      → redraw_from hm ft s cs x y fb ≡ done (paint ink s.horiz_chars cs k fb)
  unfolding redraw_from
  redraw_from-paint s ink [] k x y fb four inked at h = refl
  redraw_from-paint s ink (c ∷ cs) k x y fb four inked at h =
      let n = s.horiz_chars in
      let column : k % n ≡ x = ap (λ i. i % n) at ∙ cell-column n x y h in
      let row : k / n ≡ y = ap (λ i. i / n) at ∙ cell-row n x y h in
      let last = x + 1 == n in
      let (after, inside) = next_cell n k x y at h in
      rw (four, inked c x y u32_max fb, column, row)
        (redraw_from-paint s ink cs (k + 1) (if last then 0 else x + 1) (if last then y + 1 else y)
          (ink c x y u32_max fb) four inked after inside)

  pub redraw-paint :
      (s : Screen hm ft) (ink : Ink)
      → s.bytes_per_pixel ≡ 4
      → 0 < s.horiz_chars
      → ((c i j colour : ℕ) (f : Frame)
          → putc hm ft 4 s.stride s.mapping c i j colour 0 f ≡ done (ink c i j colour f))
      → redraw hm ft s ≡ done (record s { fb = paint ink s.horiz_chars s.chars 0 s.fb })
  unfolding redraw
  redraw-paint s ink four wide inked =
      rw (redraw_from-paint s ink s.chars 0 0 0 s.fb four inked (omega arith) wide) refl
