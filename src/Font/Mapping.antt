-- ===== src/Font/Mapping.antt =====
-- nacl/src/font/mod.rs: `PsfHeader::unicode_mapping`, from characters to the glyphs that show them.
pub mod Lookup
use na_cl.Common.{
  ℕ, zero, suc, ◌+◌, ◌*◌, ◌%◌, ◌^◌, Bool, true, false, Option, none, some, List, [], ◌∷◌, ◌++◌,
  drop, ◌==◌, if◌then◌else◌,
}
use na_cl.Common.Outcomes.{Outcome, done, panic, ◌>>=◌}
use na_cl.HashMap.{HashMap}
use na_cl.Font.{PsfHeader, header}
use na_cl.Font.Utf8.{from_utf8}

module _ (hm : HashMap ℕ) where
  open hm use {Map, insert}

  -- The inner loop: every character of the string shows as this glyph.
  unfoldable pub insert_all : Map → ℕ → List ℕ → Map
  insert_all m glyph [] = m
  insert_all m glyph (c ∷ cs) = insert_all (insert m c glyph) glyph cs

  -- The outer loop: `rest` is the file from `s` on, `cur` is `FT[start..s]`.
  unfoldable pub scan : List ℕ → List ℕ → ℕ → Map → Outcome Map
  scan [] cur glyph m = done m
  scan (b ∷ rest) cur glyph m = elim (b == 0xFF) [
    | true ↦ elim (from_utf8 cur) [
      | none ↦ panic
      | some cs ↦ scan rest [] (glyph + 1) (insert_all m glyph cs)
    ]
    | false ↦ scan rest (cur ++ (b ∷ [])) glyph m
  ]

  -- Where the table starts: the arithmetic is on `u32`.
  unfoldable pub table_start : PsfHeader → ℕ
  table_start h = (h.headersize + h.glyphs * h.bytes_per_glyph % 2 ^ 32) % 2 ^ 32

  unfoldable pub unicode_mapping : List ℕ → Outcome (Option Map)
  unicode_mapping ft =
      if (header ft).flags == 0
      then done none
      else scan (drop (table_start (header ft)) ft) [] 0 hm.new >>= λ m. done (some m)
