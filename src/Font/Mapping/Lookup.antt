-- ===== src/Font/Mapping/Lookup.antt =====
-- nacl/src/font/mod.rs: which glyph `unicode_mapping` gives to a character.
use na_cl.Common.{
  ℕ, ◌+◌, ◌≡◌, ◌≢◌, ◌⊎◌, inl, inr, refl, Bool, false, ◌||◌, Option, none, some, List, [], ◌∷◌, ◌++◌,
  All, drop, ◌==◌, if◌then◌else◌, Bool-cases, Option-cases, arith,
}
use na_cl.Common.Outcomes.{done, >>=-eq-done}
use na_cl.HashMap.{HashMap}
use na_cl.Font.{header}
use na_cl.Font.Utf8.{from_utf8}
use na_cl.Font.Mapping.{insert_all, scan, table_start, unicode_mapping}

-- The entries of the table: the runs of bytes that a byte 0xFF ends.
abbrev pub entries : List ℕ → List ℕ → List (List ℕ)
entries [] cur = []
entries (b ∷ rest) cur =
    let ended = cur ∷ entries rest [] in
    let longer = entries rest (cur ++ (b ∷ [])) in if b == 0xFF then ended else longer

abbrev contains : ℕ → List ℕ → Bool
contains c [] = false
contains c (x ∷ xs) = x == c || contains c xs

-- The character stands in the entry.
abbrev pub shows : ℕ → List ℕ → Bool
shows c entry = elim (from_utf8 entry) [ none ↦ false | some cs ↦ contains c cs ]

abbrev or_else {ℓ} : {A : Type ℓ} → Option A → Option A → Option A
or_else (some a) b = some a
or_else none b = b

-- The number of the last entry that has the character, counted from `glyph`.
abbrev pub last_entry : ℕ → ℕ → List (List ℕ) → Option ℕ
last_entry c glyph [] = none
last_entry c glyph (e ∷ es) =
    or_else (last_entry c (glyph + 1) es) (if shows c e then some glyph else none)

module _ (hm : HashMap ℕ) where
  open hm use {Map, get}

  get-insert_all :
      (cs : List ℕ) (m : Map) (glyph c : ℕ)
      → get (insert_all hm m glyph cs) c ≡ (if contains c cs then some glyph else get m c)
  unfolding insert_all
  get-insert_all [] m glyph c = refl
  get-insert_all (x ∷ cs) m glyph c =
      ground (arith, get-insert_all cs (hm.insert m x glyph) glyph c, hm.get-insert m x glyph c)

  get-scan :
      (rest cur : List ℕ) (glyph : ℕ) (m m' : Map) (c : ℕ)
      → scan hm rest cur glyph m ≡ done m'
      → get m' c ≡ or_else (last_entry c glyph (entries rest cur)) (get m c)
  unfolding scan
  get-scan [] cur glyph m m' c e = cc
  get-scan (b ∷ rest) cur glyph m m' c e = elim (Bool-cases (b == 0xFF)) [
    | inl q ↦ elim (Option-cases (from_utf8 cur)) [
      | inl n ↦ absurd (cc (rw (q, n, scan) at e))
      | inr (cs, p) ↦
          let ih =
            get-scan rest [] (glyph + 1) (insert_all hm m glyph cs) m' c (rw (q, p, scan) at e) in
          rw q (ground (arith, ih, p, get-insert_all cs m glyph c))
    ]
    | inr q ↦ rw q (get-scan rest (cur ++ (b ∷ [])) glyph m m' c (rw (q, scan) at e))
  ]

  -- The glyph of a character is the number of the last entry of the table that lists it, and a
  -- character that no entry lists has none.
  pub unicode_mapping-last_entry :
      (ft : List ℕ) (m : Map) (c : ℕ)
      → unicode_mapping hm ft ≡ done (some m)
      → get m c ≡ last_entry c 0 (entries (drop (table_start hm (header ft)) ft) [])
  unfolding unicode_mapping
  unicode_mapping-last_entry ft m c e = elim (Bool-cases ((header ft).flags == 0)) [
    | inl q ↦ absurd (cc (rw (q, unicode_mapping) at e))
    | inr q ↦
        let bytes = drop (table_start hm (header ft)) ft in
        let (m', r, same) =
          >>=-eq-done (scan hm bytes [] 0 hm.new) _ (rw (q, unicode_mapping) at e) in
        let last = get-scan bytes [] 0 hm.new m' c r in ground (arith, last, same, hm.get-new c)
  ]

  -- The entry is well-formed UTF-8.
  abbrev pub IsText : List ℕ → Type 0
  IsText entry = from_utf8 entry ≢ none

  scan_total :
      (rest cur : List ℕ) (glyph : ℕ) (m : Map)
      → All IsText (entries rest cur)
      → (m' : Map) × (scan hm rest cur glyph m ≡ done m')
  unfolding scan
  scan_total [] cur glyph m h = (m, refl)
  scan_total (b ∷ rest) cur glyph m h = elim (Bool-cases (b == 0xFF)) [
    | inl q ↦
        let valid : IsText cur × All IsText (entries rest []) = rw q at h in
        elim (Option-cases (from_utf8 cur)) [
          | inl n ↦ absurd (valid.0 n)
          | inr (cs, p) ↦
              let (m', r) = scan_total rest [] (glyph + 1) (insert_all hm m glyph cs) valid.1 in
              (m', rw (q, p, scan) r)
        ]
    | inr q ↦
        let (m', r) = scan_total rest (cur ++ (b ∷ [])) glyph m (rw q at h) in (m', rw (q, scan) r)
  ]

  -- With a table of well-formed entries, `unicode_mapping` does not panic: it gives a map exactly
  -- if the flags of the font are not 0.
  pub unicode_mapping_total :
      (ft : List ℕ)
      → All IsText (entries (drop (table_start hm (header ft)) ft) [])
      → (((header ft).flags ≡ 0) × (unicode_mapping hm ft ≡ done none))
        ⊎ (((header ft).flags ≢ 0) × ((m : Map) × (unicode_mapping hm ft ≡ done (some m))))
  unfolding unicode_mapping
  unicode_mapping_total ft h = elim (Bool-cases ((header ft).flags == 0)) [
    | inl q ↦ inl (ground arith, rw (q, unicode_mapping))
    | inr q ↦
        let (m, r) = scan_total (drop (table_start hm (header ft)) ft) [] 0 hm.new h in
        inr (ground arith, (m, rw (q, r, unicode_mapping)))
  ]
