-- ===== src/BootTool/Images/Copies.antt =====
-- nacl_boot/src/main.rs: what `create_disk_images` has copied when it succeeds.
use Prim.Native.String.{String}
use na_cl.Common.{ℕ, ◌≡◌, refl, ◌∙◌, sym, ap, subst, Option, none, some, List, []}
use na_cl.BootTool.Env.{Host, Exit, ok, err, panicked, Action, or_fail, or_abort, ◌>>=◌, ◌>>◌}
use na_cl.BootTool.Images.{destination, copy_to, copy_file}

pub or_fail-ok :
    {W A : Type 0} (o : Option A) (a : A) (w w' : W)
    → or_fail o w ≡ (ok a, w')
    → (o ≡ some a) × (w' ≡ w)
or_fail-ok none a w w' e = cc
or_fail-ok (some x) a w w' e = (cc (e), cc (e))

or_abort-ok :
    {W A : Type 0} (o : Option A) (a : A) (w w' : W)
    → or_abort o w ≡ (ok a, w')
    → (o ≡ some a) × (w' ≡ w)
or_abort-ok none a w w' e = cc
or_abort-ok (some x) a w w' e = (cc (e), cc (e))

bound :
    {W A B : Type 0} (r : Exit A × W) (f : A → Action W B) (b : B) (w' : W)
    → (elim r.0 [ ok a ↦ f a r.1 | err ↦ (err, r.1) | panicked ↦ (panicked, r.1) ]) ≡ (ok b, w')
    → (a : A) × (w : W) × (r ≡ (ok a, w)) × (f a w ≡ (ok b, w'))
bound (ok a, w) f b w' e = (a, w, refl, e)
bound (err, w) f b w' e = cc
bound (panicked, w) f b w' e = cc

-- An action that succeeds after another one has succeeded.
pub >>=-ok :
    {W A B : Type 0} (m : Action W A) (f : A → Action W B) (b : B) (w w' : W)
    → (m >>= f) w ≡ (ok b, w')
    → (a : A) × (w₁ : W) × (m w ≡ (ok a, w₁)) × (f a w₁ ≡ (ok b, w'))
>>=-ok m f b w w' e = bound (m w) f b w' e

module _ (host : Host) where
  open host use {World, PathBuf}

  -- What the tool relies on of files: a write changes only files that are not apart from its own, and
  -- gives it what was written; directories hold no contents; and neither makes a path that resolves
  -- resolve to another.
  pub record IsLawful : Type 1 where
    pub Apart : PathBuf → PathBuf → Type 0
    pub write-read :
        (p : PathBuf) (l : List ℕ) (w w' : World)
        → host.write p l w ≡ (ok tt, w')
        → host.read w' p ≡ some l
    pub write-other :
        (p q : PathBuf) (l : List ℕ) (w w' : World)
        → host.write p l w ≡ (ok tt, w')
        → Apart p q
        → host.read w' q ≡ host.read w q
    pub write-canonicalize :
        (p q s : PathBuf) (l : List ℕ) (w w' : World)
        → host.write p l w ≡ (ok tt, w')
        → host.canonicalize w q ≡ some s
        → host.canonicalize w' q ≡ some s
    pub create-read :
        (p q : PathBuf) (w w' : World)
        → host.create_dir_all p w ≡ (ok tt, w')
        → host.read w' q ≡ host.read w q
    pub create-canonicalize :
        (p q s : PathBuf) (w w' : World)
        → host.create_dir_all p w ≡ (ok tt, w')
        → host.canonicalize w q ≡ some s
        → host.canonicalize w' q ≡ some s

  -- Where a file is, where it goes, and its contents.
  pub record Plan : Type 0 where
    pub file : PathBuf
    pub dest : String
    pub source : PathBuf
    pub name : PathBuf

  abbrev pub target : Plan → PathBuf
  target p = destination host p.dest p.name

  -- The file resolves to the source of the plan, which has the name of the plan.
  pub record Resolves (w : World) (p : Plan) : Type 0 where
    pub source : host.canonicalize w p.file ≡ some p.source
    pub name : host.file_name p.source ≡ some p.name

  -- What one round of the loop has done.
  pub record Copied (w w' : World) (p : Plan) : Type 0 where
    pub middle : World
    pub dir : PathBuf
    pub made : host.create_dir_all dir w ≡ (ok tt, middle)
    pub emptied : World
    pub created : host.write (target p) [] middle ≡ (ok tt, emptied)
    pub bytes : List ℕ
    pub copied : host.read emptied p.source ≡ some bytes
    pub wrote : host.write (target p) bytes emptied ≡ (ok tt, w')

  -- The steps of a copy, from the last on.
  abbrev read_and_write : Plan → Action World (Unit {0})
  read_and_write p = (λ w. or_fail (host.read w p.source) w) >>= host.write (target p)

  abbrev open_and_copy : Plan → Action World (Unit {0})
  open_and_copy p = (λ w. or_fail (host.read w p.source) w) >>= λ opened.
      host.write (target p) [] >> read_and_write p

  abbrev make_and_copy : Plan → PathBuf → Action World (Unit {0})
  make_and_copy p dir = host.create_dir_all dir >> open_and_copy p

  abbrev named_copy : Plan → PathBuf → Action World (Unit {0})
  named_copy p source = or_abort (host.file_name source) >>= λ name.
      copy_to host source (destination host p.dest name)

  copy_to-Copied :
      (p : Plan) (w w' : World) → copy_to host p.source (target p) w ≡ (ok tt, w') → Copied w w' p
  unfolding copy_to
  copy_to-Copied p w w' e =
      let (dir, w₁, parent, e₁) =
        >>=-ok (or_abort (host.parent (target p))) (make_and_copy p) tt w w' e in
      let here : w₁ ≡ w = (or_abort-ok (host.parent (target p)) dir w w₁ parent).1 in
      let (u, middle, made, e₂) =
        >>=-ok (host.create_dir_all dir) (λ u. open_and_copy p) tt w₁ w' e₁ in
      let (old, w₂, opened, e₃) =
        >>=-ok (λ x. or_fail (host.read x p.source) x)
          (λ o. host.write (target p) [] >> read_and_write p) tt middle w' e₂ in
      let still : w₂ ≡ middle = (or_fail-ok (host.read middle p.source) old middle w₂ opened).1 in
      let (v, emptied, created, e₄) =
        >>=-ok (host.write (target p) []) (λ v. read_and_write p) tt w₂ w' e₃ in
      let (bytes, w₃, read, wrote) =
        >>=-ok (λ x. or_fail (host.read x p.source) x) (host.write (target p)) tt emptied w' e₄ in
      let (copied, there) = or_fail-ok (host.read emptied p.source) bytes emptied w₃ read in
      record {
        middle = middle;
        dir = dir;
        made = subst (λ x. host.create_dir_all dir x ≡ (ok tt, middle)) here made;
        emptied = emptied;
        created = subst (λ x. host.write (target p) [] x ≡ (ok tt, emptied)) still created;
        bytes = bytes;
        copied = copied;
        wrote = subst (λ x. host.write (target p) bytes x ≡ (ok tt, w')) there wrote;
      }

  pub copy_file-Copied :
      (p : Plan) (w w' : World)
      → Resolves w p
      → copy_file host (p.file, p.dest) w ≡ (ok tt, w')
      → Copied w w' p
  unfolding copy_file
  copy_file-Copied p w w' r e =
      let (source, w₀, c, e₀) =
        >>=-ok (λ x. or_fail (host.canonicalize x p.file) x) (named_copy p) tt w w' e in
      let (name, w₁, d, e₁) =
        >>=-ok (or_abort (host.file_name source))
          (λ n. copy_to host source (destination host p.dest n)) tt w₀ w' e₀ in
      let (found, here) = or_fail-ok (host.canonicalize w p.file) source w w₀ c in
      let (named, there) = or_abort-ok (host.file_name source) name w₀ w₁ d in
      let same_source : source ≡ p.source = cc (found, r.source) in
      let same_name : name ≡ p.name = cc (named, r.name, ap host.file_name same_source) in
      copy_to-Copied p w w' (
        subst (λ x. copy_to host p.source (target p) x ≡ (ok tt, w')) (there ∙ here)
          (subst (λ n. copy_to host p.source (destination host p.dest n) w₁ ≡ (ok tt, w')) same_name
            (subst (λ s. copy_to host s (destination host p.dest name) w₁ ≡ (ok tt, w')) same_source
              e₁)))

  pub Copied-other :
      (v : IsLawful) (p : Plan) (w w' : World) (q : PathBuf)
      → Copied w w' p
      → v.Apart (target p) q
      → host.read w' q ≡ host.read w q
  Copied-other v p w w' q c apart =
      v.write-other (target p) q c.bytes c.emptied w' c.wrote apart
      ∙ v.write-other (target p) q [] c.middle c.emptied c.created apart
      ∙ v.create-read c.dir q w c.middle c.made

  -- What is copied is what the source held, unless the file is its own target.
  pub Copied-was :
      (v : IsLawful) (p : Plan) (w w' : World)
      → (c : Copied w w' p) → v.Apart (target p) p.source
      → host.read w p.source ≡ some c.bytes
  Copied-was v p w w' c apart =
      sym (
        v.write-other (target p) p.source [] c.middle c.emptied c.created apart
        ∙ v.create-read c.dir p.source w c.middle c.made)
      ∙ c.copied

  pub Copied-Resolves :
      (v : IsLawful) (p q : Plan) (w w' : World) → Copied w w' p → Resolves w q → Resolves w' q
  Copied-Resolves v p q w w' c r = record {
    source = v.write-canonicalize (target p) q.file q.source c.bytes c.emptied w' c.wrote (
        v.write-canonicalize (target p) q.file q.source [] c.middle c.emptied c.created
          (v.create-canonicalize c.dir q.file q.source w c.middle c.made r.source));
    name = r.name;
  }
