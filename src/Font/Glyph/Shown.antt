-- ===== src/Font/Glyph/Shown.antt =====
-- nacl/src/font/mod.rs: what `putc` shows of a glyph ten pixels wide, and where it writes.
use na_cl.Common.{
  ℕ, zero, suc, ◌+◌, ◌-◌, ◌*◌, ◌/◌, ◌%◌, ◌^◌, ◌<◌, ◌≤◌, ◌≡◌, inr, refl, ◌∙◌, ap, subst, Bool,
  Option, leb, ◌==◌, if◌then◌else◌, arith, List, [], ◌∷◌, All,
}
use na_cl.Common.Outcomes.{done}
use na_cl.HashMap.{HashMap}
use na_cl.Font.{header, byte_at, u16_at}
use na_cl.Font.Glyph.{Frame, rotate_left_one, masked, pen, draw_rows, glyph_start, cell_start, putc}
use na_cl.Font.Glyph.Pixels.{read_pixel, shifted, draw_rows-pixel, draw_rows-outside}

-- Column `k` of a row of the font: the bits of its two bytes, the highest first.
abbrev pub column : ℕ → ℕ → ℕ → Bool
column b₀ b₁ k = if leb k 7 then b₀ / 2 ^ (7 - k) % 2 == 1 else b₁ / 2 ^ (15 - k) % 2 == 1

-- What the pixels of a row show: the lowest bit of the second byte, then the columns from 0 on.
abbrev pub dot : ℕ → ℕ → ℕ → Bool
dot b₀ b₁ zero = b₁ % 2 == 1
dot b₀ b₁ (suc k) = column b₀ b₁ k

masked-dot :
    (b₀ b₁ j : ℕ)
    → b₀ < 256
    → b₁ < 256
    → j < 10
    → masked (rotate_left_one (b₀ + 256 * b₁)) (shifted (2 ^ 9) j) ≡ dot b₀ b₁ j
unfolding shifted
masked-dot b₀ b₁ zero h₀ h₁ h = ap (λ n. n == 1) (omega arith)
masked-dot b₀ b₁ (suc zero) h₀ h₁ h = ap (λ n. n == 1) (omega arith)
masked-dot b₀ b₁ (suc (suc zero)) h₀ h₁ h = ap (λ n. n == 1) (omega arith)
masked-dot b₀ b₁ (suc (suc (suc zero))) h₀ h₁ h = ap (λ n. n == 1) (omega arith)
masked-dot b₀ b₁ (suc (suc (suc (suc zero)))) h₀ h₁ h = ap (λ n. n == 1) (omega arith)
masked-dot b₀ b₁ (suc (suc (suc (suc (suc zero))))) h₀ h₁ h = ap (λ n. n == 1) (omega arith)
masked-dot b₀ b₁ (suc (suc (suc (suc (suc (suc zero)))))) h₀ h₁ h = ap (λ n. n == 1) (omega arith)
masked-dot b₀ b₁ (suc (suc (suc (suc (suc (suc (suc zero))))))) h₀ h₁ h =
    ap (λ n. n == 1) (omega arith)
masked-dot b₀ b₁ (suc (suc (suc (suc (suc (suc (suc (suc zero)))))))) h₀ h₁ h =
    ap (λ n. n == 1) (omega arith)
masked-dot b₀ b₁ (suc (suc (suc (suc (suc (suc (suc (suc (suc zero))))))))) h₀ h₁ h =
    ap (λ n. n == 1) (omega arith)
masked-dot b₀ b₁ (suc (suc (suc (suc (suc (suc (suc (suc (suc (suc j)))))))))) h₀ h₁ h =
    absurd (omega arith)

byte_at-lt : (ft : List ℕ) (i : ℕ) → All (λ b. b < 256) ft → byte_at ft i < 256
unfolding byte_at
byte_at-lt [] i h = omega arith
byte_at-lt (b ∷ bs) zero h = h.0
byte_at-lt (b ∷ bs) (suc i) h = byte_at-lt bs i h.1

row-dot :
    (ft : List ℕ) (glyph i j w : ℕ)
    → All (λ b. b < 256) ft
    → j < 10
    → w ≡ 10
    → masked
        (rotate_left_one (u16_at ft (glyph + i * ((w + 7) / 8))))
        (shifted (2 ^ ((w - 1) % 16)) j)
      ≡ dot (byte_at ft (glyph + i * 2)) (byte_at ft (glyph + i * 2 + 1)) j
unfolding u16_at
row-dot ft glyph i j w bytes h e =
    rw e (masked-dot _ _ j (byte_at-lt ft _ bytes) (byte_at-lt ft _ bytes) h)

-- Row `i` of a cell that fits ends before `size`.
below :
    (cx cy w h stride i size a : ℕ)
    → (cx + 1) * w * 4 ≤ stride
    → (cy + 1) * h * stride ≤ size
    → i < h
    → size ≤ a
    → cy * h * stride + cx * w * 4 + i * stride + w * 4 ≤ a
below cx cy w h stride i size a fits tall lt past =
    let line : (i + 1) * stride ≤ h * stride = grind arith in omega arith

module _ (hm : HashMap ℕ) where
  open hm use {Map}

  -- After `putc` with a font ten pixels wide, pixel `j` of row `i` of the character's cell has the
  -- foreground colour exactly if `dot` holds of the two bytes of that row of its glyph: the font's
  -- columns 0 to 8 stand one pixel to the right, and column 9 is not shown.
  pub putc_shows :
      (ft : List ℕ) (stride : ℕ) (mapping : Option Map) (c cx cy fg bg : ℕ) (fb fb' : Frame)
      (i j : ℕ)
      → All (λ b. b < 256) ft
      → (header ft).width ≡ 10
      → 10 * 4 ≤ stride
      → fg < 2 ^ 32
      → bg < 2 ^ 32
      → putc hm ft 4 stride mapping c cx cy fg bg fb ≡ done fb'
      → i < (header ft).height
      → j < 10
      → let glyph = glyph_start hm (header ft) mapping c + i * 2 in
        read_pixel fb' (cell_start hm (header ft) 4 stride cx cy + i * stride + j * 4)
        ≡ (if dot (byte_at ft glyph) (byte_at ft (glyph + 1)) j then fg else bg)
  unfolding putc u16_at
  putc_shows ft stride mapping c cx cy fg bg fb fb' i j bytes ten wide f b e hi hj =
      let p = pen ft 4 stride fg bg in
      let font = header ft in
      let glyph = glyph_start hm font mapping c in
      let drawn : draw_rows font.height p glyph (cell_start hm font 4 stride cx cy) fb ≡ fb' =
        ground arith in
      let wide' : p.width * 4 ≤ stride = rw ten wide in
      let shown =
        draw_rows-pixel p refl font.height glyph (cell_start hm font 4 stride cx cy) fb i j hi
          (rw ten hj) f b wide' in
      subst
        (λ fr. read_pixel fr (cell_start hm font 4 stride cx cy + i * stride + j * 4) ≡ (
          if dot (byte_at ft (glyph + i * 2)) (byte_at ft (glyph + i * 2 + 1)) j then fg else bg))
        drawn
        (shown ∙ ap (λ d. if d then fg else bg) (row-dot ft glyph i j font.width bytes hj ten))

  -- `putc` writes no byte from `size` on, if the cell lies in a frame buffer of that size: its
  -- rows end before the next row of the screen, and its last row ends before `size`.
  pub putc_within :
      (ft : List ℕ) (stride size : ℕ) (mapping : Option Map) (c cx cy fg bg : ℕ) (fb fb' : Frame)
      (a : ℕ)
      → putc hm ft 4 stride mapping c cx cy fg bg fb ≡ done fb'
      → (cx + 1) * (header ft).width * 4 ≤ stride
      → (cy + 1) * (header ft).height * stride ≤ size
      → size ≤ a
      → fb' a ≡ fb a
  unfolding putc cell_start
  putc_within ft stride size mapping c cx cy fg bg fb fb' a e fits tall past =
      let p = pen ft 4 stride fg bg in
      let font = header ft in
      let drawn : draw_rows font.height p (glyph_start hm font mapping c)
            (cell_start hm font 4 stride cx cy) fb
          ≡ fb' =
        ground arith in
      subst (λ fr. fr a ≡ fb a) drawn
        (draw_rows-outside p refl font.height _ _ fb a
          (λ i lt. inr (below cx cy font.width font.height stride i size a fits tall lt past)))
