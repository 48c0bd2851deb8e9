-- ===== src/Tests/Screens.antt =====
-- nacl/src/font/mod.rs: two contexts that print on the screen.
use na_cl.Common.{ℕ, suc, ◌≡◌, some, refl, List, [], ◌∷◌, length}
use na_cl.Lock.{holding, new_waker, spinning, update}
use na_cl.Lock
use na_cl.Font.Console.{put}
use na_cl.Font.Console.Refines.{Yields, put_refines}
use na_cl.Font.Console.Blank.{blank}
use na_cl.Font.Console.Terminal.{type}
use na_cl.Font.Sharing.{
  Fbman, Printers, inserted, locked_by, call, spin, write, Reach, here, next, Steps,
}
use na_cl.Font.Sharing.Whole.{IsWhole, prints-IsWhole}
use na_cl.Font.Sharing.Ending.{Finished, print_ends}
use na_cl.Tests.Fonts.{dark, glyphs, font, codes, screen, screen-Represents}
use na_cl.Tests.Mutex.{slot}

abbrev Printing : Type 0
Printing = Printers slot codes font

abbrev called : Printing → ℕ → List ℕ → Printing
called s i text = record {
  fbman = Lock.goto slot (Fbman slot codes font) s.fbman i spinning;
  left = update s.left i text;
}

abbrev tried : Printing → ℕ → Printing
tried s i = record s { fbman = locked_by slot codes font s i }

-- Contexts 1 and 2 print, 1 gets the lock, and 2 spins.
abbrev both : Printing
both =
    tried
      (tried (called (called (inserted slot codes font screen) 1 (0x41 ∷ 0x42 ∷ [])) 2 (0x42 ∷ []))
        1)
      2

abbrev both-Runs : Reach slot codes font (inserted slot codes font screen) both
both-Runs =
    next 2
      (next 1 (next 2 (next 1 here (call (0x41 ∷ 0x42 ∷ []) refl)) (call (0x42 ∷ []) refl))
        (spin refl))
      (spin refl)

-- Context 1 has written a character.
typed :
    Yields codes font
      (put codes font screen 0x41)
      screen
      (type 2 (blank codes font 2 2 80 (some glyphs) dark) 0x41)
typed =
    put_refines codes font screen (blank codes font 2 2 80 (some glyphs) dark) 0x41
      screen-Represents

abbrev halfway : Printing
halfway = record {
  fbman = record both.fbman { inner = some typed.0 };
  left = update both.left 1 (0x42 ∷ []);
}

abbrev halfway-Runs : Reach slot codes font (inserted slot codes font screen) halfway
halfway-Runs = next 1 both-Runs (write 0x41 (0x42 ∷ []) screen typed.0 refl refl refl typed.1)

prints-IsWhole_example :
    IsWhole slot codes font 2
      (blank codes font 2 2 80 (some glyphs) dark)
      (0x41 ∷ 0x42 ∷ [])
      halfway
prints-IsWhole_example =
    prints-IsWhole slot codes font screen (blank codes font 2 2 80 (some glyphs) dark) halfway
      screen-Represents halfway-Runs

print_ends_example :
    (i : ℕ) × (u : Printing) × (halfway.fbman.pc i ≡ holding new_waker)
    × Steps slot codes font i halfway (suc (length (halfway.left i))) u
    × Finished slot codes font 2 (blank codes font 2 2 80 (some glyphs) dark) (0x41 ∷ 0x42 ∷ []) u
print_ends_example =
    print_ends slot codes font screen (blank codes font 2 2 80 (some glyphs) dark) halfway
      screen-Represents halfway-Runs refl
