-- ===== src/Font.antt =====
-- nacl/src/font/mod.rs: the PSF font, the text on the screen, and how it is drawn. The font file
-- is a list of bytes, `ft`; the frame buffer is a function from byte offsets to bytes.
pub mod Utf8
pub mod Mapping
pub mod Console
pub mod Glyph
pub mod Printing
pub mod Sharing
use na_cl.Common.{ℕ, zero, suc, ◌+◌, ◌*◌, List, [], ◌∷◌}

-- `PsfHeader`: eight little-endian words.
pub record PsfHeader : Type 0 where
  pub magic : ℕ
  pub version : ℕ
  pub headersize : ℕ
  pub flags : ℕ
  pub glyphs : ℕ
  pub bytes_per_glyph : ℕ
  pub height : ℕ
  pub width : ℕ

-- The byte at an address from the start of the file. The code reads through pointers and checks
-- no bound; past the end of the file the model reads 0.
unfoldable pub byte_at : List ℕ → ℕ → ℕ
byte_at [] i = 0
byte_at (b ∷ bs) zero = b
byte_at (b ∷ bs) (suc i) = byte_at bs i

unfoldable pub u16_at : List ℕ → ℕ → ℕ
u16_at ft i = byte_at ft i + 256 * byte_at ft (i + 1)

unfoldable pub u32_at : List ℕ → ℕ → ℕ
unfolding u16_at
u32_at ft i = u16_at ft i + 65536 * u16_at ft (i + 2)

-- `PsfHeader::ft`: the start of the file, read as a header.
unfoldable pub header : List ℕ → PsfHeader
unfolding u32_at byte_at
header ft = record {
  magic = u32_at ft 0;
  version = u32_at ft 4;
  headersize = u32_at ft 8;
  flags = u32_at ft 12;
  glyphs = u32_at ft 16;
  bytes_per_glyph = u32_at ft 20;
  height = u32_at ft 24;
  width = u32_at ft 28;
}
