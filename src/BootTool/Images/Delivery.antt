-- ===== src/BootTool/Images/Delivery.antt =====
-- nacl_boot/src/main.rs: the copies of `create_disk_images` are delivered.
use Prim.Native.String.{String}
use na_cl.Common.{ℕ, ◌≡◌, refl, ◌∙◌, sym, ap, subst, some, List, [], ◌∷◌, All}
use na_cl.BootTool.Env.{Host, ok}
use na_cl.BootTool.Images.{copy_file, copy_files, listed, boot_files, create_disk_images}
use na_cl.BootTool.Images.Copies.{
  >>=-ok, IsLawful, Plan, target, Resolves, Copied, copy_file-Copied, Copied-other, Copied-was,
  Copied-Resolves,
}

module _ (host : Host) where
  open host use {World, PathBuf}

  abbrev pub files_of : List (Plan host) → List (PathBuf × String)
  files_of [] = []
  files_of (p ∷ ps) = (p.file, p.dest) ∷ files_of ps

  -- No file is written over itself or over one that is still to be copied, and no two have the same
  -- target.
  abbrev pub Unmixed : IsLawful host → List (Plan host) → Type 0
  Unmixed v [] = Unit
  Unmixed v (p ∷ ps) =
      All (λ q. v.Apart (target host p) q.source) (p ∷ ps)
      × All (λ q. v.Apart (target host q) (target host p)) ps
      × Unmixed v ps

  -- The target holds afterwards what the source held before.
  pub record Delivered (w w' : World) (p : Plan host) : Type 0 where
    pub bytes : List ℕ
    pub had : host.read w p.source ≡ some bytes
    pub has : host.read w' (target host p) ≡ some bytes

  -- The rounds of the loop, one by one.
  data Rounds : World → List (Plan host) → World → Type 0 where
    over : (w : World) → Rounds w [] w
    round :
        (p : Plan host) (ps : List (Plan host)) (w w₁ w' : World)
        → Copied host w w₁ p
        → Rounds w₁ ps w'
        → Rounds w (p ∷ ps) w'

  copy_files-Rounds :
      (v : IsLawful host) (ps : List (Plan host)) (w w' : World)
      → All (Resolves host w) ps
      → copy_files host (files_of ps) w ≡ (ok tt, w')
      → Rounds w ps w'
  unfolding copy_files
  copy_files-Rounds v [] w w' r e =
      let same : w ≡ w' = cc (e) in subst (Rounds w []) same (Rounds.over w)
  copy_files-Rounds v (p ∷ ps) w w' r e =
      let (u, w₁, first, rest) =
        >>=-ok (copy_file host (p.file, p.dest)) (λ u. copy_files host (files_of ps)) tt w w' e in
      let c = copy_file-Copied host p w w₁ r.0 first in
      Rounds.round p ps w w₁ w' c
        (copy_files-Rounds v ps w₁ w' (all_resolve v p ps w w₁ c r.1) rest)
    where
      all_resolve :
          (v : IsLawful host) (p : Plan host) (qs : List (Plan host)) (w w₁ : World)
          → Copied host w w₁ p
          → All (Resolves host w) qs
          → All (Resolves host w₁) qs
      all_resolve v p [] w w₁ c r = tt
      all_resolve v p (q ∷ qs) w w₁ c r =
          (Copied-Resolves host v p q w w₁ c r.0, all_resolve v p qs w w₁ c r.1)

  Rounds-other :
      (v : IsLawful host) (ps : List (Plan host)) (w w' : World) (t : PathBuf)
      → Rounds w ps w'
      → All (λ q. v.Apart (target host q) t) ps
      → host.read w' t ≡ host.read w t
  Rounds-other v [] w w' t (Rounds.over _) a = refl
  Rounds-other v (p ∷ ps) w w' t (Rounds.round _ _ _ w₁ _ c r) a =
      Rounds-other v ps w₁ w' t r a.1 ∙ Copied-other host v p w w₁ t c a.0

  Rounds-Delivered :
      (v : IsLawful host) (ps : List (Plan host)) (w w' : World)
      → Unmixed v ps
      → Rounds w ps w'
      → All (Delivered w w') ps
  Rounds-Delivered v [] w w' m (Rounds.over _) = tt
  Rounds-Delivered v (p ∷ ps) w w' m (Rounds.round _ _ _ w₁ _ c r) = (
    record {
      bytes = c.bytes;
      had = Copied-was host v p w w₁ c m.0.0;
      has =
          Rounds-other v ps w₁ w' (target host p) r m.1
          ∙ v.write-read (target host p) c.bytes c.emptied w₁ c.wrote;
    },
    from_start ps m.0.1 (Rounds-Delivered v ps w₁ w' m.2 r),
  )
    where
      from_start :
          (qs : List (Plan host))
          → All (λ q. v.Apart (target host p) q.source) qs
          → All (Delivered w₁ w') qs
          → All (Delivered w w') qs
      from_start [] a d = tt
      from_start (q ∷ qs) a d = (
        record {
          bytes = d.0.bytes;
          had = sym (Copied-other host v p w w₁ q.source c a.0) ∙ d.0.had;
          has = d.0.has;
        },
        from_start qs a.1 d.1,
      )

  -- When `create_disk_images` succeeds, every file of the boot loader, and the kernel, is where it
  -- belongs on the volume, with the contents that it had at first: if no file is written over itself,
  -- over one that is still to be copied, or over another's copy.
  pub create_disk_images_delivers :
      (v : IsLawful host) (kernel : PathBuf) (ps : List (Plan host)) (w w' : World)
      → files_of ps ≡ listed host kernel boot_files
      → All (Resolves host w) ps
      → Unmixed v ps
      → create_disk_images host kernel w ≡ (ok tt, w')
      → All (Delivered w w') ps
  unfolding create_disk_images
  create_disk_images_delivers v kernel ps w w' files r m e =
      let (u, w₁, made, rest) =
        >>=-ok (host.create_dir_all (host.path "./iso_root/"))
          (λ u. copy_files host (listed host kernel boot_files)) tt w w' e in
      let copied : copy_files host (files_of ps) w₁ ≡ (ok tt, w') =
        ap (λ l. copy_files host l w₁) files ∙ rest in
      before ps w₁ made
        (Rounds-Delivered v ps w₁ w' m (copy_files-Rounds v ps w₁ w' (still ps w₁ made r) copied))
    where
      still :
          (qs : List (Plan host)) (w₁ : World)
          → host.create_dir_all (host.path "./iso_root/") w ≡ (ok tt, w₁)
          → All (Resolves host w) qs
          → All (Resolves host w₁) qs
      still [] w₁ made a = tt
      still (q ∷ qs) w₁ made a = (
        record {
          source = v.create-canonicalize _ q.file q.source w w₁ made a.0.source;
          name = a.0.name;
        },
        still qs w₁ made a.1,
      )

      before :
          (qs : List (Plan host)) (w₁ : World)
          → host.create_dir_all (host.path "./iso_root/") w ≡ (ok tt, w₁)
          → All (Delivered w₁ w') qs
          → All (Delivered w w') qs
      before [] w₁ made d = tt
      before (q ∷ qs) w₁ made d = (
        record {
          bytes = d.0.bytes;
          had = sym (v.create-read _ q.source w w₁ made) ∙ d.0.had;
          has = d.0.has;
        },
        before qs w₁ made d.1,
      )
