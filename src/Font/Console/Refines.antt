-- ===== src/Font/Console/Refines.antt =====
-- nacl/src/font/mod.rs: the grid of characters and the frame buffer refine a terminal.
use na_cl.Common.{
  ℕ, ◌+◌, ◌-◌, ◌/◌, ◌^◌, ◌<◌, ◌≤◌, ◌≡◌, refl, ◌∙◌, ap, subst, inl, inr, true, false, List, [], ◌∷◌,
  length, length-append, length-drop, ◌==◌, Bool-cases, arith,
}
use native.Mathlib.Nat.{add-div_right, div-le_self}
use na_cl.Common.Outcomes.{Outcome, done}
use na_cl.HashMap.{HashMap}
use na_cl.Font.Glyph.{Frame, putc}
use na_cl.Font.Console.{
  Screen, line_feed, white, sub_usize, div, newline, putchar, put_line_feed, put_wrapped,
  put_inline, put, write_str,
}
use na_cl.Font.Console.Painting.{redraw-paint}
use na_cl.Font.Console.Terminal.{
  Terminal, text, advance, append, paint, repaint, typed_on, type, type_all, scroll_lem,
  length-text, length-advance, set_index-text,
}

module _ (hm : HashMap ℕ) (ft : List ℕ) where
  -- The screen shows the terminal: the grid is its text, `idx` is where its line ends, and the frame
  -- buffer is its canvas, byte for byte, on which it paints as `putc` does. Lines are not empty, and a
  -- pixel has four bytes.
  pub record Represents (s : Screen hm ft) (t : Terminal) : Type 0 where
    pub grid : s.chars ≡ text s.horiz_chars t
    pub cursor : s.idx ≡ length t.line
    pub fits : length t.line ≤ s.horiz_chars
    pub wide : 0 < s.horiz_chars
    pub small : length t.above + s.horiz_chars < 2 ^ 64
    pub deep : s.bytes_per_pixel ≡ 4
    pub inked :
        (c x y colour : ℕ) (fb : Frame)
        → putc hm ft 4 s.stride s.mapping c x y colour 0 fb ≡ done (t.ink c x y colour fb)
    pub painted : s.fb ≡ t.canvas

  -- A call that does not panic and leaves a screen that shows `t`, as wide as `s`.
  abbrev pub Yields : Outcome (Screen hm ft) → Screen hm ft → Terminal → Type 0
  Yields m s t =
      (s' : Screen hm ft) × (m ≡ done s') × Represents s' t × (s'.horiz_chars ≡ s.horiz_chars)

  -- The screen after `newline`, with the cursor at the start of the line.
  abbrev scrolled : Screen hm ft → Terminal → Screen hm ft
  scrolled s t = record s { idx = 0; chars = text s.horiz_chars (advance s.horiz_chars t) }

  newline-scrolled :
      (s : Screen hm ft) (t : Terminal)
      → Represents s t
      → newline hm ft (record s { idx = 0 }) ≡ done (scrolled s t)
  unfolding newline
  newline-scrolled s t r =
      let len = length-text s.horiz_chars t r.fits in
      let all : s.horiz_chars - 0 ≡ s.horiz_chars = omega arith in
      rw (
        r.grid,
        scroll_lem (text s.horiz_chars t) s.horiz_chars (omega (arith, len))
            (omega (arith, len, r.small)),
        all,
      )

  scrolled-Represents :
      (s : Screen hm ft) (t : Terminal)
      → Represents s t
      → Represents
          (record (scrolled s t) {
            fb = paint t.ink s.horiz_chars (text s.horiz_chars (advance s.horiz_chars t)) 0 s.fb;
          })
          (repaint s.horiz_chars (advance s.horiz_chars t))
  scrolled-Represents s t r = record {
    grid = refl;
    cursor = refl;
    fits = omega arith;
    wide = r.wide;
    small = omega (
      arith,
      r.small,
      length-drop s.horiz_chars (text s.horiz_chars t),
      length-text s.horiz_chars t r.fits,
    );
    deep = r.deep;
    inked = r.inked;
    painted =
        ap (paint t.ink s.horiz_chars (text s.horiz_chars (advance s.horiz_chars t)) 0) r.painted;
  }

  put_line_feed-Yields :
      (s : Screen hm ft) (t : Terminal)
      → Represents s t
      → Yields (put_line_feed hm ft s) s (repaint s.horiz_chars (advance s.horiz_chars t))
  unfolding put_line_feed
  put_line_feed-Yields s t r = (
    _,
    rw (newline-scrolled s t r) (redraw-paint hm ft (scrolled s t) t.ink r.deep r.wide r.inked),
    scrolled-Represents s t r,
    refl,
  )

  -- Where the last row begins.
  last_line-above :
      (s : Screen hm ft) (t : Terminal)
      → Represents s t
      → sub_usize (length s.chars) s.horiz_chars ≡ length t.above
  last_line-above s t r =
      omega (arith, ap length r.grid, length-text s.horiz_chars t r.fits, r.small)

  put_wrapped-Yields :
      (s : Screen hm ft) (t : Terminal) (i c : ℕ)
      → Represents s t
      → i ≡ length t.above
      → Yields
          (put_wrapped hm ft s i c)
          s
          (repaint s.horiz_chars (append (advance s.horiz_chars t) c))
  unfolding put_wrapped
  put_wrapped-Yields s t i c r e =
      let n = s.horiz_chars in
      let t' = append (advance n t) c in
      let drawn =
        redraw-paint hm ft (record (scrolled s t) { chars = text n t' }) t.ink r.deep r.wide
          r.inked in
      let at : i ≡ length (advance n t).above + 0 = omega (arith, e, length-advance n t r.fits) in
      (
        record (scrolled s t) { chars = text n t'; fb = paint t.ink n (text n t') 0 s.fb; idx = 1 },
        rw (newline-scrolled s t r, set_index-text n (advance n t) i c r.wide at, drawn),
        record {
          grid = refl;
          cursor = refl;
          fits = r.wide;
          wide = r.wide;
          small = omega (arith, r.small, length-advance n t r.fits);
          deep = r.deep;
          inked = r.inked;
          painted = ap (paint t.ink n (text n t') 0) r.painted;
        },
        refl,
      )

  -- The last row of the grid.
  last_row :
      (s : Screen hm ft) (t : Terminal) (c : ℕ)
      → Represents s t
      → length t.line < s.horiz_chars
      → sub_usize (length (text s.horiz_chars (append t c)) / s.horiz_chars) 1
        ≡ length t.above / s.horiz_chars
  last_row s t c r h =
      let n = s.horiz_chars in
      let len : length (text n (append t c)) ≡ length t.above + n =
        length-text n (append t c) (omega (arith, length-append t.line (c ∷ []))) in
      let more : (length t.above + n) / n ≡ length t.above / n + 1 =
        add-div_right (length t.above) r.wide in
      rw (len, more) (omega (arith, r.small, div-le_self (length t.above) n))

  put_inline-Yields :
      (s : Screen hm ft) (t : Terminal) (i c : ℕ)
      → Represents s t
      → i ≡ length t.above
      → length t.line < s.horiz_chars
      → Yields (put_inline hm ft s i c) s (typed_on s.horiz_chars t c)
  unfolding put_inline putchar
  put_inline-Yields s t i c r e h =
      let n = s.horiz_chars in
      let chars = text n (append t c) in
      let y : sub_usize (length chars / n) 1 ≡ length t.above / n = last_row s t c r h in
      let whole : div (length chars) n ≡ done (length chars / n) = ground arith in
      let at : i + s.idx ≡ length t.above + length t.line = omega (arith, r.cursor) in
      (
        record s {
          chars = chars;
          fb = t.ink c s.idx (length t.above / n) white s.fb;
          idx = s.idx + 1;
        },
        rw (
          r.grid,
          set_index-text n t (i + s.idx) c h at,
          whole,
          r.deep,
          y,
          r.inked c s.idx (length t.above / n) white s.fb,
        ),
        record {
          grid = refl;
          cursor = omega (arith, r.cursor, length-append t.line (c ∷ []));
          fits = omega (arith, length-append t.line (c ∷ []));
          wide = r.wide;
          small = r.small;
          deep = r.deep;
          inked = r.inked;
          painted =
              ap (λ i. t.ink c i (length t.above / n) white s.fb) r.cursor
              ∙ ap (t.ink c (length t.line) (length t.above / n) white) r.painted;
        },
        refl,
      )

  -- On a screen that shows a terminal, `put` does not panic and leaves a screen, as wide as before,
  -- that shows the terminal after the character is typed.
  pub put_refines :
      (s : Screen hm ft) (t : Terminal) (c : ℕ)
      → Represents s t
      → Yields (put hm ft s c) s (type s.horiz_chars t c)
  unfolding put
  put_refines s t c r = elim (Bool-cases (c == line_feed)) [
    | inl feed ↦ rw (feed, put) (put_line_feed-Yields s t r)
    | inr other ↦ elim (Bool-cases (s.idx == s.horiz_chars)) [
      | inl full ↦
          let whole : (length t.line == s.horiz_chars) ≡ true = ground (arith, r.cursor) in
          rw (other, full, whole, put)
            (put_wrapped-Yields s t (sub_usize (length s.chars) s.horiz_chars) c r
              (last_line-above s t r))
      | inr room ↦
          let short : (length t.line == s.horiz_chars) ≡ false = ground (arith, r.cursor) in
          rw (other, room, short, put)
            (put_inline-Yields s t (sub_usize (length s.chars) s.horiz_chars) c r
              (last_line-above s t r) (ground (arith, r.cursor, r.fits)))
    ]
  ]

  -- On a screen that shows a terminal, `write_str` does not panic and leaves a screen, as wide as
  -- before, that shows the terminal after the characters are typed one after another.
  pub write_str_refines :
      (cs : List ℕ) (s : Screen hm ft) (t : Terminal)
      → Represents s t
      → Yields (write_str hm ft s cs) s (type_all s.horiz_chars t cs)
  unfolding write_str
  write_str_refines [] s t r = (s, refl, r, refl)
  write_str_refines (c ∷ cs) s t r =
      let (s₁, p, r₁, e) = put_refines s t c r in
      let (s₂, q, r₂, f) = write_str_refines cs s₁ (type s.horiz_chars t c) r₁ in
      (s₂, rw p q, subst (λ n. Represents s₂ (type_all n (type s.horiz_chars t c) cs)) e r₂, f ∙ e)
