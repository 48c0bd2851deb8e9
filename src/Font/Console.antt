-- ===== src/Font/Console.antt =====
-- nacl/src/font/mod.rs: `FrameBufferManager`, the grid of characters and how text is put on it.
pub mod Terminal
pub mod Painting
pub mod Refines
pub mod Blank
use na_cl.Common.{
  ℕ, zero, suc, ◌+◌, ◌-◌, ◌*◌, ◌/◌, ◌%◌, ◌^◌, Bool, true, false, Option, none, some, List, [], ◌∷◌,
  ◌++◌, length, set, take, drop, replicate, ltb, leb, ◌==◌, if◌then◌else◌,
}
use na_cl.Common.Outcomes.{Outcome, done, panic, ◌>>=◌}
use na_cl.HashMap.{HashMap}
use na_cl.Font.{PsfHeader, header}
use na_cl.Font.Mapping.{unicode_mapping}
use na_cl.Font.Glyph.{Frame, putc}

-- What `limine` reports of the frame buffer, and its bytes.
pub record Framebuffer : Type 0 where
  pub width : ℕ
  pub height : ℕ
  pub pitch : ℕ
  pub bpp : ℕ
  pub red_mask_shift : ℕ
  pub green_mask_shift : ℕ
  pub blue_mask_shift : ℕ
  pub bytes : Frame

abbrev pub space : ℕ
space = 0x20

abbrev pub line_feed : ℕ
line_feed = 0x0A

abbrev pub white : ℕ
white = 0xFF_FFFF

abbrev pub u32_max : ℕ
u32_max = 0xFFFF_FFFF

-- `-` of `usize`, which wraps.
abbrev pub sub_usize : ℕ → ℕ → ℕ
sub_usize a b = (a + 2 ^ 64 - b) % 2 ^ 64

-- `/`, which panics on 0.
abbrev pub div : ℕ → ℕ → Outcome ℕ
div a b = if b == 0 then panic else done (a / b)

-- `chars.rotate_left(n)`.
abbrev pub rotate_left {ℓ} : {A : Type ℓ} → List A → ℕ → Outcome (List A)
rotate_left l n = if leb n (length l) then done (drop n l ++ take n l) else panic

-- `chars[i..].fill(v)`.
abbrev pub fill_from {ℓ} : {A : Type ℓ} → List A → ℕ → A → Outcome (List A)
fill_from l i v = if leb i (length l) then done (take i l ++ replicate (length l - i) v) else panic

-- `chars[i] = v`.
abbrev pub set_index {ℓ} : {A : Type ℓ} → List A → ℕ → A → Outcome (List A)
set_index l i v = if ltb i (length l) then done (set l i v) else panic

-- The grid after `newline`: the rows move up, and the last one is blank.
unfoldable pub scroll : List ℕ → ℕ → Outcome (List ℕ)
scroll chars n = do
  rotated ← rotate_left chars n
  fill_from rotated (sub_usize (length rotated) n) space

module _ (hm : HashMap ℕ) (ft : List ℕ) where
  open hm use {Map}

  -- `FrameBufferManager`
  pub record Screen : Type 0 where
    pub fb : Frame
    pub mapping : Option Map
    pub chars : List ℕ
    pub horiz_chars : ℕ
    pub bytes_per_pixel : ℕ
    pub stride : ℕ
    pub idx : ℕ
    pub red_mask_shift : ℕ
    pub green_mask_shift : ℕ
    pub blue_mask_shift : ℕ

  -- `vec![' '; n]`, which panics if the allocator has no room for the bytes.
  unfoldable pub spaces : (ℕ → Bool) → ℕ → Outcome (List ℕ)
  spaces has_room n = if has_room (4 * n) then done (replicate n space) else panic

  -- `new`; `has_room` is whether the allocator has room for so many bytes.
  unfoldable pub new : (ℕ → Bool) → Framebuffer → Outcome Screen
  unfolding spaces
  new has_room b = do
    mapping ← unicode_mapping hm ft
    horiz_chars ← div b.width (header ft).width
    vert_chars ← div b.height (header ft).height
    chars ← spaces has_room (horiz_chars * vert_chars)
    done (record {
      fb = b.bytes;
      mapping = mapping;
      chars = chars;
      horiz_chars = horiz_chars;
      bytes_per_pixel = b.bpp / 8;
      stride = b.pitch;
      idx = 0;
      red_mask_shift = b.red_mask_shift;
      green_mask_shift = b.green_mask_shift;
      blue_mask_shift = b.blue_mask_shift;
    })

  unfoldable pub newline : Screen → Outcome Screen
  newline s = do chars ← scroll s.chars s.horiz_chars; done (record s { chars = chars })

  -- `putchar`
  unfoldable pub putchar : Screen → ℕ → ℕ → ℕ → ℕ → ℕ → Outcome Screen
  putchar s c cx cy fg bg = do
    fb ← putc hm ft s.bytes_per_pixel s.stride s.mapping c cx cy fg bg s.fb
    done (record s { fb = fb })

  -- The loop of `redraw` over the characters left, the next one at `x` and `y`.
  unfoldable pub redraw_from : Screen → List ℕ → ℕ → ℕ → Frame → Outcome Frame
  redraw_from s [] x y fb = done fb
  redraw_from s (c ∷ cs) x y fb = do
    fb' ← putc hm ft s.bytes_per_pixel s.stride s.mapping c x y u32_max 0 fb
    let last = x + 1 == s.horiz_chars
    redraw_from s cs (if last then 0 else x + 1) (if last then y + 1 else y) fb'

  unfoldable pub redraw : Screen → Outcome Screen
  redraw s = do fb ← redraw_from s s.chars 0 0 s.fb; done (record s { fb = fb })

  -- `put` on a line feed.
  unfoldable pub put_line_feed : Screen → Outcome Screen
  put_line_feed s = do s₁ ← newline (record s { idx = 0 }); redraw s₁

  -- `put` on another character when the line is full: it wraps to the next line.
  unfoldable pub put_wrapped : Screen → ℕ → ℕ → Outcome Screen
  put_wrapped s last_line c = do
    s₁ ← newline (record s { idx = 0 })
    chars ← set_index s₁.chars last_line c
    s₂ ← redraw (record s₁ { chars = chars })
    done (record s₂ { idx = s₂.idx + 1 })

  -- `put` on another character when the line has room.
  unfoldable pub put_inline : Screen → ℕ → ℕ → Outcome Screen
  put_inline s last_line c = do
    chars ← set_index s.chars (last_line + s.idx) c
    rows ← div (length chars) s.horiz_chars
    s₁ ← putchar (record s { chars = chars }) c s.idx (sub_usize rows 1) white 0
    done (record s₁ { idx = s₁.idx + 1 })

  unfoldable pub put : Screen → ℕ → Outcome Screen
  put s c =
      let last_line = sub_usize (length s.chars) s.horiz_chars in
      if c == line_feed
      then put_line_feed s
      else if s.idx == s.horiz_chars
      then put_wrapped s last_line c
      else put_inline s last_line c

  -- `write_str`, on the characters of the string.
  unfoldable pub write_str : Screen → List ℕ → Outcome Screen
  write_str s [] = done s
  write_str s (c ∷ cs) = put s c >>= λ s'. write_str s' cs
