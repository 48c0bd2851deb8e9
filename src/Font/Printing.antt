-- ===== src/Font/Printing.antt =====
-- nacl/src/font/mod.rs: the static `FBMAN` and the macros that print on the screen.
use na_cl.Common.{ℕ, ◌≡◌, refl, subst, ◌∙◌, Bool, false, Option, none, some, List, [], ◌∷◌, ◌++◌}
use na_cl.Common.Outcomes.{Outcome, done, panic, ◌>>=◌}
use na_cl.HashMap.{HashMap}
use na_cl.Font.Console.{Screen, write_str, line_feed}
use na_cl.Font.Console.Terminal.{Terminal, type_all}
use na_cl.Font.Console.Refines.{Represents, write_str_refines}

module _ (hm : HashMap ℕ) (ft : List ℕ) where
  -- The value behind the mutex, which nobody else holds, and the interrupt flag of the processor.
  pub record Output : Type 0 where
    pub fbman : Option (Screen hm ft)
    pub interrupts : Bool

  -- `insert_fbman`, as it is in a debug build, with the assertion that there was none; a release build
  -- does the same where the assertion holds.
  unfoldable pub insert_fbman : Screen hm ft → Output → Outcome Output
  insert_fbman fbman o = asserted o.fbman
    where
      asserted : Option (Screen hm ft) → Outcome Output
      asserted none = done (record o { fbman = some fbman })
      asserted (some s) = panic

  -- The closure of `_print`, on the text that the arguments format to.
  unfoldable pub print_locked : List ℕ → Option (Screen hm ft) → Outcome (Screen hm ft)
  print_locked text none = panic
  print_locked text (some s) = write_str hm ft s text

  -- `_print`: interrupts are disabled while it prints, and then as they were.
  unfoldable pub print : List ℕ → Output → Outcome Output
  unfolding print_locked
  print text o = do
    let disabled = record o { interrupts = false }
    s ← print_locked text disabled.fbman
    done (record disabled { fbman = some s; interrupts = o.interrupts })

  -- `println!`
  unfoldable pub println : List ℕ → Output → Outcome Output
  unfolding print
  println text o = print (text ++ (line_feed ∷ [])) o

  -- The screen shows a terminal.
  pub record Displays (o : Output) (n : ℕ) (t : Terminal) : Type 0 where
    pub screen : Screen hm ft
    pub holds : o.fbman ≡ some screen
    pub shows : Represents hm ft screen t
    pub wide : screen.horiz_chars ≡ n

  -- `println!` on a screen that shows a terminal does not panic; it types the text and a line feed
  -- on it, and leaves the interrupt flag as it was.
  pub println_refines :
      (text : List ℕ) (o : Output) (n : ℕ) (t : Terminal)
      → Displays o n t
      → (o' : Output) × (println text o ≡ done o')
        × Displays o' n (type_all n t (text ++ (line_feed ∷ [])))
        × (o'.interrupts ≡ o.interrupts)
  unfolding println
  println_refines text o n t d =
      let line = text ++ (line_feed ∷ []) in
      let (s, p, r, w) = write_str_refines hm ft line d.screen t d.shows in
      (
        record { fbman = some s; interrupts = o.interrupts },
        rw (d.holds, p),
        record {
          screen = s;
          holds = refl;
          shows = subst (λ k. Represents hm ft s (type_all k t line)) d.wide r;
          wide = w ∙ d.wide;
        },
        refl,
      )

  -- Printing before there is a screen panics.
  pub println-none : (text : List ℕ) (o : Output) → o.fbman ≡ none → println text o ≡ panic
  unfolding println
  println-none text o e = rw e
