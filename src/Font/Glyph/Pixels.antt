-- ===== src/Font/Glyph/Pixels.antt =====
-- nacl/src/font/mod.rs: the pixels that `putc` writes, and those that it leaves alone.
use na_cl.Common.{
  ℕ, zero, suc, ◌+◌, ◌-◌, ◌*◌, ◌/◌, ◌%◌, ◌^◌, ◌<◌, ◌≤◌, ◌≡◌, ◌⊎◌, inl, refl, ◌∙◌, if◌then◌else◌,
  arith,
}
use na_cl.Font.{u16_at}
use na_cl.Font.Glyph.{
  Frame, write_pixel, rotate_left_one, masked, draw_row, Pen, bytes_per_line, draw_rows,
}

-- The `u32` at an offset.
abbrev pub read_pixel : Frame → ℕ → ℕ
read_pixel fb o = fb o + 256 * fb (o + 1) + 65536 * fb (o + 2) + 16777216 * fb (o + 3)

read_pixel-write_self : (fb : Frame) (o v : ℕ) → v < 2 ^ 32 → read_pixel (write_pixel fb o v) o ≡ v
read_pixel-write_self fb o v h = ground arith

write_pixel-outside : (fb : Frame) (o v a : ℕ) → (a < o) ⊎ (o + 4 ≤ a) → write_pixel fb o v a ≡ fb a
write_pixel-outside fb o v a h = ground arith

-- A row writes the four bytes of each of its pixels, and no other byte.
pub draw_row-outside :
    (n gly mask line fg bg : ℕ) (fb : Frame) (a : ℕ)
    → (a < line) ⊎ (line + n * 4 ≤ a)
    → draw_row n 4 gly mask line fg bg fb a ≡ fb a
unfolding draw_row
draw_row-outside zero gly mask line fg bg fb a h = refl
draw_row-outside (suc n) gly mask line fg bg fb a h =
    draw_row-outside n gly (mask / 2) (line + 4) fg bg _ a (ground arith)
    ∙ write_pixel-outside fb line _ a (ground arith)

read_pixel-outside :
    (n gly mask line fg bg : ℕ) (fb : Frame) (o : ℕ)
    → (o + 4 ≤ line) ⊎ (line + n * 4 ≤ o)
    → read_pixel (draw_row n 4 gly mask line fg bg fb) o ≡ read_pixel fb o
read_pixel-outside n gly mask line fg bg fb o h = omega (
  arith,
  draw_row-outside n gly mask line fg bg fb o (ground arith),
  draw_row-outside n gly mask line fg bg fb (o + 1) (ground arith),
  draw_row-outside n gly mask line fg bg fb (o + 2) (ground arith),
  draw_row-outside n gly mask line fg bg fb (o + 3) (ground arith),
)

-- The mask after `j` pixels.
unfoldable pub shifted : ℕ → ℕ → ℕ
shifted mask zero = mask
shifted mask (suc j) = shifted (mask / 2) j

draw_row-pixel :
    (n gly mask line fg bg : ℕ) (fb : Frame) (j o : ℕ)
    → j < n
    → fg < 2 ^ 32
    → bg < 2 ^ 32
    → o ≡ line + j * 4
    → read_pixel (draw_row n 4 gly mask line fg bg fb) o
      ≡ (if masked gly (shifted mask j) then fg else bg)
unfolding draw_row shifted
draw_row-pixel zero gly mask line fg bg fb j o h f b e = absurd (omega arith)
draw_row-pixel (suc n) gly mask line fg bg fb zero o h f b e =
    let first : o ≡ line = omega arith in
    rw first (
      read_pixel-outside n gly (mask / 2) (line + 4) fg bg _ line (inl (omega arith))
      ∙ read_pixel-write_self fb line _ (ground arith))
draw_row-pixel (suc n) gly mask line fg bg fb (suc j) o h f b e =
    draw_row-pixel n gly (mask / 2) (line + 4) fg bg _ j o (omega arith) f b (omega arith)

module _ (p : Pen) (four : p.bytes_per_pixel ≡ 4) where
  -- The row that starts at `line` leaves the pixel at `o` alone.
  abbrev pub Clear : ℕ → ℕ → Type 0
  Clear line o = (o + 4 ≤ line) ⊎ (line + p.width * 4 ≤ o)

  Clear-at : (line line' o : ℕ) → line ≡ line' → Clear line o → Clear line' o
  Clear-at line line' o e c = ground arith

  beyond :
      (line line' a : ℕ)
      → line ≡ line'
      → (a < line) ⊎ (line + p.width * 4 ≤ a)
      → (a < line') ⊎ (line' + p.width * 4 ≤ a)
  beyond line line' a e c = ground arith

  -- The rows that `draw_rows` draws.
  pub row : ℕ → ℕ → Frame → Frame
  row glyph offset fb =
      draw_row p.width p.bytes_per_pixel (rotate_left_one (u16_at p.ft glyph))
        (2 ^ ((p.width - 1) % 16)) offset p.fg p.bg fb

  row-Clear :
      (glyph offset : ℕ) (fb : Frame) (o : ℕ)
      → Clear offset o
      → read_pixel (row glyph offset fb) o ≡ read_pixel fb o
  unfolding row
  row-Clear glyph offset fb o c = rw four (read_pixel-outside p.width _ _ offset p.fg p.bg fb o c)

  row-pixel :
      (glyph glyph' offset : ℕ) (fb : Frame) (j o : ℕ)
      → j < p.width
      → p.fg < 2 ^ 32
      → p.bg < 2 ^ 32
      → o ≡ offset + j * 4
      → glyph ≡ glyph'
      → read_pixel (row glyph offset fb) o ≡ (
          if masked (rotate_left_one (u16_at p.ft glyph')) (shifted (2 ^ ((p.width - 1) % 16)) j)
          then p.fg
          else p.bg)
  unfolding row
  row-pixel glyph glyph' offset fb j o w f b e g =
      rw (four, ← g) (draw_row-pixel p.width _ _ offset p.fg p.bg fb j o w f b e)

  -- A pixel that lies in none of the rows keeps its colour.
  pub draw_rows-Clear :
      (n glyph offset : ℕ) (fb : Frame) (o : ℕ)
      → ((i : ℕ) → i < n → Clear (offset + i * p.stride) o)
      → read_pixel (draw_rows n p glyph offset fb) o ≡ read_pixel fb o
  unfolding draw_rows row
  draw_rows-Clear zero glyph offset fb o c = refl
  draw_rows-Clear (suc n) glyph offset fb o c =
      draw_rows-Clear n (glyph + bytes_per_line p) (offset + p.stride) _ o
        (λ i h. Clear-at (offset + suc i * p.stride) _ o (omega arith) (c (suc i) (omega arith)))
      ∙ row-Clear glyph offset fb o
          (Clear-at (offset + 0 * p.stride) offset o (omega arith) (c 0 (omega arith)))

  -- The `j`-th pixel of the `i`-th row shows the bit that the mask has reached.
  pub draw_rows-pixel :
      (n glyph offset : ℕ) (fb : Frame) (i j : ℕ)
      → i < n
      → j < p.width
      → p.fg < 2 ^ 32
      → p.bg < 2 ^ 32
      → p.width * 4 ≤ p.stride
      → read_pixel (draw_rows n p glyph offset fb) (offset + i * p.stride + j * 4) ≡ (
          if masked
            (rotate_left_one (u16_at p.ft (glyph + i * bytes_per_line p)))
            (shifted (2 ^ ((p.width - 1) % 16)) j)
          then p.fg
          else p.bg)
  unfolding draw_rows row
  draw_rows-pixel zero glyph offset fb i j h w f b s = absurd (omega arith)
  draw_rows-pixel (suc n) glyph offset fb zero j h w f b s =
      draw_rows-Clear n (glyph + bytes_per_line p) (offset + p.stride) _
        (offset + 0 * p.stride + j * 4) (λ i k. inl (grind arith))
      ∙ row-pixel glyph _ offset fb j _ w f b (omega arith) (omega arith)
  draw_rows-pixel (suc n) glyph offset fb (suc i) j h w f b s =
      let at : offset + suc i * p.stride + j * 4 ≡ offset + p.stride + i * p.stride + j * 4 =
        omega arith in
      let from : glyph + suc i * bytes_per_line p
          ≡ glyph + bytes_per_line p + i * bytes_per_line p =
        omega arith in
      rw (at, from)
        (draw_rows-pixel n (glyph + bytes_per_line p) (offset + p.stride) _ i j (omega arith) w f b
          s)

  -- A byte that lies in none of the rows keeps its value.
  pub draw_rows-outside :
      (n glyph offset : ℕ) (fb : Frame) (a : ℕ)
      → ((i : ℕ) → i < n → (a < offset + i * p.stride) ⊎ (offset + i * p.stride + p.width * 4 ≤ a))
      → draw_rows n p glyph offset fb a ≡ fb a
  unfolding draw_rows
  draw_rows-outside zero glyph offset fb a c = refl
  draw_rows-outside (suc n) glyph offset fb a c =
      draw_rows-outside n (glyph + bytes_per_line p) (offset + p.stride) _ a
        (λ i h. beyond (offset + suc i * p.stride) _ a (omega arith) (c (suc i) (omega arith)))
      ∙ rw four (
          draw_row-outside p.width _ _ offset p.fg p.bg fb a
            (beyond (offset + 0 * p.stride) offset a (omega arith) (c 0 (omega arith))))
