-- ===== src/Font/Console/Terminal.antt =====
-- nacl/src/font/mod.rs: a terminal, which is a scrolling text above the line being written on a canvas
-- on which it is painted, and what the list operations of the console do to its text.
use na_cl.Common.{
  ℕ, suc, ◌+◌, ◌-◌, ◌/◌, ◌%◌, ◌^◌, ◌<◌, ◌≤◌, ◌≡◌, refl, ◌∙◌, ap, List, [], ◌∷◌, ◌++◌, append_assoc,
  length, set, take, drop, replicate, length-append, length-replicate, length-drop, length-take,
  take-length_append, ◌==◌, if◌then◌else◌, arith,
}
use na_cl.Common.Outcomes.{done}
use na_cl.Font.Glyph.{Frame}
use na_cl.Font.Console.{
  space, white, u32_max, line_feed, sub_usize, rotate_left, fill_from, set_index, scroll,
}

-- How a character is painted in a colour into the cell at a column and a row of a canvas.
abbrev pub Ink : Type 0
Ink = ℕ → ℕ → ℕ → ℕ → Frame → Frame

-- The rows above, and the line being written; and the canvas, with what paints on it.
pub record Terminal : Type 0 where
  pub above : List ℕ
  pub line : List ℕ
  pub ink : Ink
  pub canvas : Frame

-- The text of a terminal whose lines are `n` characters wide.
abbrev pub text : ℕ → Terminal → List ℕ
text n t = t.above ++ (t.line ++ replicate (n - length t.line) space)

-- The text moves up by a line, the first one is lost, and an empty line begins.
abbrev pub advance : ℕ → Terminal → Terminal
advance n t = record t { above = drop n (text n t); line = [] }

abbrev pub append : Terminal → ℕ → Terminal
append t c = record t { line = t.line ++ (c ∷ []) }

-- A text painted into the cells of rows of `n`, its first character into the `k`-th cell.
abbrev pub paint : Ink → ℕ → List ℕ → ℕ → Frame → Frame
paint ink n [] k fb = fb
paint ink n (c ∷ cs) k fb = paint ink n cs (k + 1) (ink c (k % n) (k / n) u32_max fb)

-- The whole text is painted.
abbrev pub repaint : ℕ → Terminal → Terminal
repaint n t = record t { canvas = paint t.ink n (text n t) 0 t.canvas }

-- A character goes to the end of the line, and is painted there, in the row below those above.
abbrev pub typed_on : ℕ → Terminal → ℕ → Terminal
typed_on n t c = record (append t c) {
  canvas = t.ink c (length t.line) (length t.above / n) white t.canvas;
}

-- A character goes to the end of the line, where it is painted, or of a new line if the line is full; a
-- line feed begins a new line. With a new line the whole text is painted.
abbrev pub type : ℕ → Terminal → ℕ → Terminal
type n t c =
    if c == line_feed
    then repaint n (advance n t)
    else if length t.line == n
    then repaint n (append (advance n t) c)
    else typed_on n t c

abbrev pub type_all : ℕ → Terminal → List ℕ → Terminal
type_all n t [] = t
type_all n t (c ∷ cs) = type_all n (type n t c) cs

pub fill_from-append :
    (xs ys : List ℕ) (k v : ℕ)
    → k ≡ length xs
    → fill_from (xs ++ ys) k v ≡ done (xs ++ replicate (length ys) v)
fill_from-append xs ys k v e =
    let len = length-append xs ys in
    let rest : length (xs ++ ys) - length xs ≡ length ys = omega arith in
    rw (e, rest, take-length_append xs ys) (ground (arith, len))

pub rotate_left_lem :
    (l : List ℕ) (n : ℕ) → n ≤ length l → rotate_left l n ≡ done (drop n l ++ take n l)
rotate_left_lem l n h = ground arith

pub scroll_lem :
    (l : List ℕ) (n : ℕ)
    → n ≤ length l
    → length l < 2 ^ 64
    → scroll l n ≡ done (drop n l ++ replicate n space)
unfolding scroll
scroll_lem l n h small =
    let len = length-append (drop n l) (take n l) in
    let at : sub_usize (length (drop n l ++ take n l)) n ≡ length (drop n l) =
      omega (arith, len, length-drop n l, length-take n l h) in
    rw (rotate_left_lem l n h) (
      fill_from-append (drop n l) (take n l) _ space at
      ∙ ap (λ k. done (drop n l ++ replicate k space)) (length-take n l h))

pub set-append :
    {A : Type 0} (xs : List A) (y v : A) (ys : List A)
    → set (xs ++ (y ∷ ys)) (length xs) v ≡ xs ++ (v ∷ ys)
set-append [] y v ys = refl
set-append (x ∷ xs) y v ys = ap (◌∷◌ x) (set-append xs y v ys)

-- Writing just after the line.
pub set-text :
    (n : ℕ) (t : Terminal) (c : ℕ)
    → length t.line < n
    → set (text n t) (length t.above + length t.line) c ≡ text n (append t c)
set-text n t c h =
    let room : n - length t.line ≡ suc (n - suc (length t.line)) = omega arith in
    let after : n - length (t.line ++ (c ∷ [])) ≡ n - suc (length t.line) =
      omega (arith, length-append t.line (c ∷ [])) in
    let spaces = replicate (n - suc (length t.line)) space in
    rw (
      room,
      after,
      ← length-append t.above t.line,
      ← append_assoc t.above t.line (space ∷ spaces),
      set-append (t.above ++ t.line) space c spaces,
      append_assoc t.above t.line (c ∷ spaces),
      append_assoc t.line (c ∷ []) spaces,
    )

pub length-text :
    (n : ℕ) (t : Terminal) → length t.line ≤ n → length (text n t) ≡ length t.above + n
length-text n t h = omega (
  arith,
  length-append t.above (t.line ++ replicate (n - length t.line) space),
  length-append t.line (replicate (n - length t.line) space),
  length-replicate (n - length t.line) space,
)

pub set_index_lem : (l : List ℕ) (i v : ℕ) → i < length l → set_index l i v ≡ done (set l i v)
set_index_lem l i v h = ground arith

pub length-advance :
    (n : ℕ) (t : Terminal) → length t.line ≤ n → length (advance n t).above ≡ length t.above
length-advance n t h = omega (arith, length-drop n (text n t), length-text n t h)

-- The grid with a character at the end of the line.
pub set_index-text :
    (n : ℕ) (t : Terminal) (i c : ℕ)
    → length t.line < n
    → i ≡ length t.above + length t.line
    → set_index (text n t) i c ≡ done (text n (append t c))
set_index-text n t i c h e =
    rw
      (
        e,
        set_index_lem (text n t) (length t.above + length t.line) c
            (omega (arith, length-text n t (omega arith))),
      )
      (ap done (set-text n t c h))
