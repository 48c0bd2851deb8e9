-- ===== src/Font/Utf8.antt =====
-- `core::str::from_utf8` and `chars`, as nacl/src/font/mod.rs uses them: the code points of a list
-- of bytes, or `none` if it is not well-formed UTF-8.
use mathlib.Core.Option
use na_cl.Common.{
  ℕ, ◌+◌, ◌-◌, ◌*◌, ◌≡◌, refl, Bool, ◌&&◌, Option, none, some, List, [], ◌∷◌, ltb, leb, ◌==◌,
  if◌then◌else◌,
}

-- Between two bytes: how many bytes the character still wants, its bits so far, and the range in
-- which the next byte must lie.
pub record Partial : Type 0 where
  pub wants : ℕ
  pub bits : ℕ
  pub low : ℕ
  pub high : ℕ

within : ℕ → ℕ → ℕ → Bool
within lo hi b = leb lo b && leb b hi

partial : ℕ → ℕ → ℕ → ℕ → Option Partial
partial n v lo hi = some (record { wants = n; bits = v; low = lo; high = hi })

-- The first byte of a character: a whole character wants nothing more.
first : ℕ → Option Partial
unfolding within partial
first b =
    if ltb b 0x80
    then partial 0 b 0 0
    else if within 0xC2 0xDF b
    then partial 1 (b - 0xC0) 0x80 0xBF
    else if b == 0xE0
    then partial 2 0 0xA0 0xBF
    else if b == 0xED
    then partial 2 0xD 0x80 0x9F
    else if within 0xE1 0xEF b
    then partial 2 (b - 0xE0) 0x80 0xBF
    else if b == 0xF0
    then partial 3 0 0x90 0xBF
    else if within 0xF1 0xF3 b
    then partial 3 (b - 0xF0) 0x80 0xBF
    else if b == 0xF4
    then partial 3 4 0x80 0x8F
    else none

-- A byte that continues a character.
more : Partial → ℕ → Option Partial
unfolding within partial
more p b =
    if within p.low p.high b
    then partial (p.wants - 1) (p.bits * 64 + (b - 0x80)) 0x80 0xBF
    else none

step : Partial → ℕ → Option Partial
unfolding first more
step p b = if p.wants == 0 then first b else more p b

-- A character that is whole is emitted.
emit : Partial → List ℕ → List ℕ
emit p cs = if p.wants == 0 then p.bits ∷ cs else cs

decode_from : Partial → List ℕ → Option (List ℕ)
decode_from p [] = if p.wants == 0 then some [] else none
decode_from p (b ∷ bs) = elim (step p b) [
  | none ↦ none
  | some q ↦ Option.map (emit q) (decode_from q bs)
]

unfoldable pub from_utf8 : List ℕ → Option (List ℕ)
unfolding decode_from step emit
from_utf8 = decode_from (record { wants = 0; bits = 0; low = 0; high = 0 })

plain_and_accented :
    from_utf8 (0x41 ∷ 0xC3 ∷ 0xA9 ∷ 0xE2 ∷ 0x96 ∷ 0x88 ∷ []) ≡ some (0x41 ∷ 0xE9 ∷ 0x2588 ∷ [])
unfolding from_utf8
plain_and_accented = refl

no_start_byte : from_utf8 (0xFE ∷ []) ≡ none
unfolding from_utf8
no_start_byte = refl
