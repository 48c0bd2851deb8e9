-- ===== src/Font/Console/Blank.antt =====
-- nacl/src/font/mod.rs: a new grid of characters is a blank terminal.
use na_cl.Common.{
  ℕ, zero, suc, ◌+◌, ◌-◌, ◌*◌, ◌/◌, ◌^◌, ◌<◌, ◌≡◌, refl, ◌∙◌, ap, Bool, true, Option, List, [], ◌∷◌,
  ◌++◌, replicate, length-replicate, arith,
}
use native.Mathlib.Nat.{suc-add}
use na_cl.Common.Outcomes.{Outcome, done, panic}
use na_cl.HashMap.{HashMap}
use na_cl.Font.{header}
use na_cl.Font.Mapping.{unicode_mapping}
use na_cl.Font.Glyph.{Frame, putc, putc_four}
use na_cl.Font.Console.{Framebuffer, Screen, space, div, new}
use na_cl.Font.Console.Terminal.{Ink, Terminal, text}
use na_cl.Font.Console.Refines.{Represents}

replicate-add :
    {A : Type 0} (m n : ℕ) (a : A) → replicate (m + n) a ≡ replicate m a ++ replicate n a
replicate-add zero n a = ap (λ k. replicate k a) (omega arith)
replicate-add (suc m) n a = ap (λ k. replicate k a) (suc-add m n) ∙ ap (◌∷◌ a) (replicate-add m n a)

-- What is drawn, or what was there.
abbrev or_same : Frame → Outcome Frame → Frame
or_same fb (done fb') = fb'
or_same fb panic = fb

module _ (hm : HashMap ℕ) (ft : List ℕ) where
  -- How `putc` paints on a frame buffer of four bytes to a pixel, on black.
  abbrev pub ink_of : ℕ → Option hm.Map → Ink
  ink_of stride mapping c x y colour fb = or_same fb (putc hm ft 4 stride mapping c x y colour 0 fb)

  pub ink_of-putc :
      (stride : ℕ) (mapping : Option hm.Map) (c x y colour : ℕ) (fb : Frame)
      → putc hm ft 4 stride mapping c x y colour 0 fb ≡ done (ink_of stride mapping c x y colour fb)
  ink_of-putc stride mapping c x y colour fb =
      let (fb', e) = putc_four hm ft stride mapping c x y colour 0 fb in rw e refl

  -- A blank terminal of `m` rows of `n` characters, of which nothing is painted yet.
  abbrev pub blank : ℕ → ℕ → ℕ → Option hm.Map → Frame → Terminal
  blank n m stride mapping fb = record {
    above = replicate (n * (m - 1)) space;
    line = [];
    ink = ink_of stride mapping;
    canvas = fb;
  }

  rows : (n m : ℕ) → 0 < m → n * m ≡ n * (m - 1) + n
  rows n zero h = omega (arith, h)
  rows n (suc m) h = let one : suc m - 1 ≡ m = omega arith in rw one (omega arith)

  blank-text :
      (n m stride : ℕ) (mapping : Option hm.Map) (fb : Frame)
      → 0 < m
      → replicate (n * m) space ≡ text n (blank n m stride mapping fb)
  blank-text n m stride mapping fb h =
      let whole : n - 0 ≡ n = omega arith in
      rw (rows n m h, whole) (replicate-add (n * (m - 1)) n space)

  div-done : (a b : ℕ) → 0 < b → div a b ≡ done (a / b)
  div-done a b h = ground arith

  -- `new`, where the font's table can be read, makes for a frame buffer of four bytes to a pixel,
  -- on which at least one cell of the font fits, if these are fewer than 2 ^ 64 cells and the heap has
  -- room for their characters, a screen that represents a blank terminal with as many columns and rows
  -- as cells fit, whose canvas is the frame buffer as it was: nothing is drawn yet.
  pub new_refines :
      (has_room : ℕ → Bool) (b : Framebuffer) (mapping : Option hm.Map)
      → unicode_mapping hm ft ≡ done mapping
      → b.bpp / 8 ≡ 4
      → 0 < (header ft).width
      → 0 < (header ft).height
      → 0 < b.width / (header ft).width
      → 0 < b.height / (header ft).height
      → (b.width / (header ft).width) * (b.height / (header ft).height) < 2 ^ 64
      → has_room (4 * ((b.width / (header ft).width) * (b.height / (header ft).height))) ≡ true
      → (s : Screen hm ft) × (new hm ft has_room b ≡ done s)
        × Represents hm ft s (
            blank
              (b.width / (header ft).width)
              (b.height / (header ft).height)
              b.pitch
              mapping
              b.bytes)
        × (s.horiz_chars ≡ b.width / (header ft).width)
  unfolding new
  new_refines has_room b mapping e four w h wide tall small room =
      let n = b.width / (header ft).width in
      let m = b.height / (header ft).height in
      (
        record {
          fb = b.bytes;
          mapping = mapping;
          chars = replicate (n * m) space;
          horiz_chars = n;
          bytes_per_pixel = b.bpp / 8;
          stride = b.pitch;
          idx = 0;
          red_mask_shift = b.red_mask_shift;
          green_mask_shift = b.green_mask_shift;
          blue_mask_shift = b.blue_mask_shift;
        },
        rw (e, div-done b.width (header ft).width w, div-done b.height (header ft).height h, room),
        record {
          grid = blank-text n m b.pitch mapping b.bytes tall;
          cursor = refl;
          fits = omega arith;
          wide = wide;
          small = omega (arith, small, rows n m tall, length-replicate (n * (m - 1)) space);
          deep = four;
          inked = ink_of-putc b.pitch mapping;
          painted = refl;
        },
        refl,
      )
