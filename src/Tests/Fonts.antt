-- ===== src/Tests/Fonts.antt =====
-- nacl/src/font/mod.rs: a small font and a small screen.
use na_cl.Common.{
  ℕ, leb, Bool, ◌<◌, ◌≡◌, ◌≢◌, ◌⊎◌, refl, Option, none, some, List, [], ◌∷◌, ◌++◌, true, All, drop,
  replicate, ◌==◌, if◌then◌else◌, arith,
}
use na_cl.Common.Outcomes.{done}
use na_cl.HashMap.{HashMap}
use na_cl.Font.{header, byte_at, u16_at, u32_at}
use na_cl.Font.Utf8.{from_utf8}
use na_cl.Font.Mapping.{insert_all, scan, table_start, unicode_mapping}
use na_cl.Font.Mapping.Lookup.{
  entries, last_entry, IsText, unicode_mapping-last_entry, unicode_mapping_total,
}
use na_cl.Font.Glyph.{
  Frame, pen, draw_rows, glyph_number, glyph_index, glyph_start, cell_start, putc,
}
use na_cl.Font.Glyph.Pixels.{read_pixel}
use na_cl.Font.Glyph.Shown.{putc_shows, putc_within}
use na_cl.Font.Console.{Framebuffer, Screen, space, line_feed, new, write_str}
use na_cl.Font.Console.Terminal.{type_all}
use na_cl.Font.Console.Refines.{Represents, Yields, write_str_refines}
use na_cl.Font.Console.Blank.{ink_of-putc, blank, new_refines}
use na_cl.Font.Printing.{Output, Displays, println, println_refines}
use na_cl.Tests.Tasks.{table}

-- Two glyphs, ten pixels wide and one high; the first is for `A`, the second for `B`.
abbrev pub font : List ℕ
font =
    0x72 ∷ 0xB5 ∷ 0x4A ∷ 0x86 ∷ 0 ∷ 0 ∷ 0 ∷ 0 ∷ 32 ∷ 0 ∷ 0 ∷ 0 ∷ 1 ∷ 0 ∷ 0 ∷ 0 ∷ 2 ∷ 0 ∷ 0 ∷ 0 ∷ 2
    ∷ 0 ∷ 0 ∷ 0 ∷ 1 ∷ 0 ∷ 0 ∷ 0 ∷ 10 ∷ 0 ∷ 0 ∷ 0 ∷ 0x80 ∷ 0x00 ∷ 0x81 ∷ 0x40 ∷ 0x41 ∷ 0xFF ∷ 0x42
    ∷ 0xFF ∷ []

abbrev pub codes : HashMap ℕ
codes = table ℕ

-- What `unicode_mapping` makes of it.
abbrev pub glyphs : ℕ → Option ℕ
glyphs j = if 0x42 == j then some 1 else if 0x41 == j then some 0 else none

pub font-mapping : unicode_mapping codes font ≡ done (some glyphs)
unfolding unicode_mapping scan insert_all table_start from_utf8 header u32_at u16_at byte_at
font-mapping = refl

unicode_mapping-last_entry_example :
    glyphs 0x42 ≡ last_entry 0x42 0 (entries (drop (table_start codes (header font)) font) [])
unicode_mapping-last_entry_example = unicode_mapping-last_entry codes font glyphs 0x42 font-mapping

font-IsText : All (IsText codes) (entries (drop (table_start codes (header font)) font) [])
unfolding table_start from_utf8 header u32_at u16_at byte_at
font-IsText = (λ e. cc, (λ e. cc, tt))

unicode_mapping_total_example :
    (((header font).flags ≡ 0) × (unicode_mapping codes font ≡ done none))
    ⊎ (((header font).flags ≢ 0)
        × ((m : ℕ → Option ℕ) × (unicode_mapping codes font ≡ done (some m))))
unicode_mapping_total_example = unicode_mapping_total codes font font-IsText

abbrev pub dark : Frame
dark a = 0

-- `B` in white at the second cell of the first line, on a screen with rows of 80 bytes.
abbrev drawn : Frame
drawn =
    draw_rows (header font).height (pen font 4 80 0xFF_FFFF 0)
      (glyph_start codes (header font) (some glyphs) 0x42) (cell_start codes (header font) 4 80 1 0)
      dark

drawn-putc : putc codes font 4 80 (some glyphs) 0x42 1 0 0xFF_FFFF 0 dark ≡ done drawn
unfolding putc
drawn-putc = refl

bytes : All (λ b. b < 256) font
bytes = omega arith

-- Column 0 of the glyph is set, and shows as pixel 1.
putc_shows_example : read_pixel drawn 44 ≡ 0xFF_FFFF
unfolding header u32_at u16_at byte_at cell_start glyph_start glyph_index glyph_number
putc_shows_example =
    putc_shows codes font 80 (some glyphs) 0x42 1 0 0xFF_FFFF 0 dark drawn 0 1 bytes refl
      (omega arith) (omega arith) (omega arith) drawn-putc (omega arith) (omega arith)

putc_within_example : drawn 80 ≡ dark 80
unfolding header u32_at u16_at byte_at
putc_within_example =
    putc_within codes font 80 80 (some glyphs) 0x42 1 0 0xFF_FFFF 0 dark drawn 80 drawn-putc
      (omega arith) (omega arith) (omega arith)

-- An allocator with 100 KiB left.
abbrev pub roomy : ℕ → Bool
roomy n = leb n 102400

-- A screen of two lines of two cells.
abbrev pub small : Framebuffer
small = record {
  width = 20;
  height = 2;
  pitch = 80;
  bpp = 32;
  red_mask_shift = 16;
  green_mask_shift = 8;
  blue_mask_shift = 0;
  bytes = dark;
}

abbrev pub screen : Screen codes font
screen = record {
  fb = dark;
  mapping = some glyphs;
  chars = replicate 4 space;
  horiz_chars = 2;
  bytes_per_pixel = 4;
  stride = 80;
  idx = 0;
  red_mask_shift = 16;
  green_mask_shift = 8;
  blue_mask_shift = 0;
}

pub screen-Represents : Represents codes font screen (blank codes font 2 2 80 (some glyphs) dark)
screen-Represents = record {
  grid = refl;
  cursor = refl;
  fits = omega arith;
  wide = omega arith;
  small = omega arith;
  deep = refl;
  inked = ink_of-putc codes font 80 (some glyphs);
  painted = refl;
}

new_refines_example :
    (s : Screen codes font) × (new codes font roomy small ≡ done s)
    × Represents codes font s (blank codes font 2 2 80 (some glyphs) dark)
    × (s.horiz_chars ≡ 2)
unfolding header u32_at u16_at byte_at
new_refines_example =
    new_refines codes font roomy small (some glyphs) font-mapping refl (omega arith) (omega arith)
      (omega arith) (omega arith) (omega arith) refl

-- `ABA` wraps.
write_str_refines_example :
    Yields codes font
      (write_str codes font screen (0x41 ∷ 0x42 ∷ 0x41 ∷ []))
      screen
      (type_all 2 (blank codes font 2 2 80 (some glyphs) dark) (0x41 ∷ 0x42 ∷ 0x41 ∷ []))
write_str_refines_example =
    write_str_refines codes font (0x41 ∷ 0x42 ∷ 0x41 ∷ []) screen
      (blank codes font 2 2 80 (some glyphs) dark) screen-Represents

-- The screen behind the mutex.
abbrev shown : Output codes font
shown = record { fbman = some screen; interrupts = true }

shown-Displays : Displays codes font shown 2 (blank codes font 2 2 80 (some glyphs) dark)
shown-Displays = record { screen = screen; holds = refl; shows = screen-Represents; wide = refl }

println_refines_example :
    (o' : Output codes font) × (println codes font (0x41 ∷ []) shown ≡ done o')
    × Displays codes font o' 2
        (type_all 2 (blank codes font 2 2 80 (some glyphs) dark) ((0x41 ∷ []) ++ (line_feed ∷ [])))
    × (o'.interrupts ≡ true)
println_refines_example =
    println_refines codes font (0x41 ∷ []) shown 2 (blank codes font 2 2 80 (some glyphs) dark)
      shown-Displays
