-- ===== src/Font/Glyph.antt =====
-- nacl/src/font/mod.rs: `putc`, which draws one character into the frame buffer.
pub mod Pixels
pub mod Shown
use na_cl.Common.{
  ℕ, zero, suc, ◌+◌, ◌-◌, ◌*◌, ◌/◌, ◌%◌, ◌^◌, ◌≡◌, refl, Bool, true, false, Option, none, some,
  List, ltb, leb, ◌==◌, if◌then◌else◌,
}
use na_cl.Common.Outcomes.{Outcome, done, panic}
use na_cl.HashMap.{HashMap}
use na_cl.Font.{PsfHeader, header, u16_at}

-- The bytes of the frame buffer, by their offset.
abbrev pub Frame : Type 0
Frame = ℕ → ℕ

-- `write_volatile` of a little-endian `u32`.
abbrev pub write_pixel : Frame → ℕ → ℕ → Frame
write_pixel fb line v a =
    if a == line
    then v % 256
    else if a == line + 1
    then v / 256 % 256
    else if a == line + 2
    then v / 65536 % 256
    else if a == line + 3
    then v / 16777216 % 256
    else fb a

-- `u16::rotate_left(1)`.
abbrev pub rotate_left_one : ℕ → ℕ
rotate_left_one n = n * 2 % 65536 + n / 32768

-- `gly & mask != 0` for a mask of one bit.
abbrev pub masked : ℕ → ℕ → Bool
masked gly mask = gly / mask % 2 == 1

-- The inner loop: the `n` pixels left of a row, from the one that `mask` selects on.
unfoldable pub draw_row : ℕ → ℕ → ℕ → ℕ → ℕ → ℕ → ℕ → Frame → Frame
draw_row zero bytes_per_pixel gly mask line fg bg fb = fb
draw_row (suc n) bytes_per_pixel gly mask line fg bg fb =
    draw_row n bytes_per_pixel gly (mask / 2) (line + bytes_per_pixel) fg bg
      (write_pixel fb line (if masked gly mask then fg else bg))

-- What does not change while a character is drawn.
pub record Pen : Type 0 where
  pub ft : List ℕ
  pub width : ℕ
  pub bytes_per_pixel : ℕ
  pub stride : ℕ
  pub fg : ℕ
  pub bg : ℕ

abbrev pub pen : List ℕ → ℕ → ℕ → ℕ → ℕ → Pen
pen ft bytes_per_pixel stride fg bg = record {
  ft = ft;
  width = (header ft).width;
  bytes_per_pixel = bytes_per_pixel;
  stride = stride;
  fg = fg;
  bg = bg;
}

-- `(font_width + 7) / 8`
abbrev pub bytes_per_line : Pen → ℕ
bytes_per_line p = (p.width + 7) / 8

-- The outer loop: the `n` rows left, the next one at `glyph` in the file and `offset` in the
-- frame buffer.
unfoldable pub draw_rows : ℕ → Pen → ℕ → ℕ → Frame → Frame
draw_rows zero p glyph offset fb = fb
draw_rows (suc n) p glyph offset fb = draw_rows n p (glyph + bytes_per_line p) (offset + p.stride) (
    draw_row p.width p.bytes_per_pixel (rotate_left_one (u16_at p.ft glyph))
      (2 ^ ((p.width - 1) % 16)) offset p.fg p.bg fb)

module _ (hm : HashMap ℕ) where
  open hm use {Map, get}

  -- The number of the glyph for a character: the mapping's, or the first.
  unfoldable pub glyph_number : Option Map → ℕ → ℕ
  glyph_number none c = c
  glyph_number (some m) c = elim (get m c) [ none ↦ 0 | some g ↦ g ]

  unfoldable pub glyph_index : PsfHeader → Option Map → ℕ → ℕ
  glyph_index font mapping c = let g = glyph_number mapping c in if leb font.glyphs g then 0 else g

  -- Where the glyph stands in the file, and where its first row goes in the frame buffer.
  unfoldable pub glyph_start : PsfHeader → Option Map → ℕ → ℕ
  glyph_start font mapping c = font.headersize + glyph_index font mapping c * font.bytes_per_glyph

  unfoldable pub cell_start : PsfHeader → ℕ → ℕ → ℕ → ℕ → ℕ
  cell_start font bytes_per_pixel stride cx cy =
      cy * font.height * stride + cx * font.width * bytes_per_pixel

  -- `putc`; it panics unless a pixel has four bytes.
  unfoldable pub putc : List ℕ → ℕ → ℕ → Option Map → ℕ → ℕ → ℕ → ℕ → ℕ → Frame → Outcome Frame
  putc ft bytes_per_pixel stride mapping c cx cy fg bg fb =
      let font = header ft in
      if bytes_per_pixel == 4
      then done (
          draw_rows font.height (pen ft bytes_per_pixel stride fg bg) (glyph_start font mapping c)
            (cell_start font bytes_per_pixel stride cx cy) fb)
      else panic

  -- With four bytes to a pixel `putc` does not panic.
  pub putc_four :
      (ft : List ℕ) (stride : ℕ) (mapping : Option Map) (c cx cy fg bg : ℕ) (fb : Frame)
      → (fb' : Frame) × (putc ft 4 stride mapping c cx cy fg bg fb ≡ done fb')
  unfolding putc
  putc_four ft stride mapping c cx cy fg bg fb = (_, refl)
