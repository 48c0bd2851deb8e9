-- ===== src/BootTool/Running.antt =====
-- nacl_boot/src/main.rs: what the tool has done when `main` succeeds.
use Prim.Native.String.{String}
use na_cl.Common.{
  ℕ, ◌≡◌, ◌⊎◌, inl, inr, refl, ◌∙◌, sym, ap, subst, Bool, true, false, List, All, if◌then◌else◌,
  Bool-cases, length, leb, take, drop, ◌-◌,
}
use na_cl.BootTool.Env.{Host, Exit, ok, panicked, pure, ◌>>=◌, ◌>>◌, or_fail, exit_ok}
use na_cl.BootTool.Kernel
use na_cl.BootTool.Kernel.{kernel_binary, advance_by, advance_back_by, slice, regex_hdr}
use na_cl.BootTool.Images.{listed, boot_files, create_disk_images}
use na_cl.BootTool.Images.Copies.{or_fail-ok, >>=-ok, IsLawful, Plan, Resolves}
use na_cl.BootTool.Images.Delivery.{files_of, Unmixed, Delivered, create_disk_images_delivers}
use na_cl.BootTool.{no_boot, build_command, run_command, build, deliver, main}

module _ (host : Host) where
  open host use {World, PathBuf}

  -- The build has succeeded.
  pub record Built (w w₁ : World) (kernel : List ℕ) : Type 0 where
    pub cargo : String
    pub dir : PathBuf
    pub output : List ℕ
    pub built : host.output (build_command host cargo dir) w ≡ (ok (true, output), w₁)
    pub found : kernel_binary host (host.from_utf8_lossy output) w₁ ≡ (ok kernel, w₁)

  exit_ok-ok : (b : Bool) (w w' : World) → exit_ok b w ≡ (ok tt, w') → (b ≡ true) × (w' ≡ w)
  exit_ok-ok true w w' e = (refl, cc (e))
  exit_ok-ok false w w' e = cc

  slice-same :
      (l : List ℕ) (r : ℕ × ℕ) (k : List ℕ) (w w' : World) → slice l r w ≡ (ok k, w') → w' ≡ w
  slice-same l (s, e) k w w' h = elim (Bool-cases (leb s e)) [
    | inl p ↦ elim (Bool-cases (leb e (length l))) [
      | inl q ↦ let r : (ok (take (e - s) (drop s l)), w) ≡ (ok k, w') = rw (p, q) at h in cc (r)
      | inr q ↦ let r : (panicked, w) ≡ (ok k, w') = rw (p, q) at h in cc (r)
    ]
    | inr p ↦ let r : (panicked, w) ≡ (ok k, w') = rw p at h in cc (r)
  ]

  kernel_binary-same :
      (output kernel : List ℕ) (w w' : World)
      → kernel_binary host output w ≡ (ok kernel, w')
      → w' ≡ w
  unfolding kernel_binary
  kernel_binary-same output kernel w w' e =
      let inside = λ (r : ℕ × ℕ). or_fail (advance_back_by 1 r) >>= slice output in
      let (range, w₁, e₁, rest) =
        >>=-ok (or_fail (host.find Kernel.regex output))
          (λ r. or_fail (advance_by (length regex_hdr) r) >>= inside) kernel w w' e in
      let (after_hdr, w₂, e₂, rest₂) =
        >>=-ok (or_fail (advance_by (length regex_hdr) range)) inside kernel w₁ w' rest in
      let (last, w₃, e₃, rest₃) =
        >>=-ok (or_fail (advance_back_by 1 after_hdr)) (slice output) kernel w₂ w' rest₂ in
      slice-same output last kernel w₃ w' rest₃
      ∙ (or_fail-ok (advance_back_by 1 after_hdr) last w₂ w₃ e₃).1
      ∙ (or_fail-ok (advance_by (length regex_hdr) range) after_hdr w₁ w₂ e₂).1
      ∙ (or_fail-ok (host.find Kernel.regex output) range w w₁ e₁).1

  -- The build, by its last steps.
  compiled-Built :
      (kernel output : List ℕ) (cargo : String) (dir : PathBuf) (success : Bool)
      (w w₃ w₄ w₅ w' : World)
      → host.output (build_command host cargo dir) w ≡ (ok (success, output), w₃)
      → (success ≡ true) × (w₄ ≡ w₃)
      → w₅ ≡ w₄
      → kernel_binary host (host.from_utf8_lossy output) w₅ ≡ (ok kernel, w')
      → Built w w' kernel
  compiled-Built kernel output cargo dir success w w₃ w₄ w₅ w' e s same f =
      let kept = kernel_binary-same (host.from_utf8_lossy output) kernel w₅ w' f in
      let last : w₃ ≡ w' = sym (kept ∙ same ∙ s.1) in
      record {
        cargo = cargo;
        dir = dir;
        output = output;
        built =
            subst (λ x. host.output (build_command host cargo dir) w ≡ (ok (true, output), x)) last
              (subst (λ b. host.output (build_command host cargo dir) w ≡ (ok (b, output), w₃)) s.0
                e);
        found =
            subst (λ x. kernel_binary host (host.from_utf8_lossy output) x ≡ (ok kernel, w'))
              (sym kept) f;
      }

  build-Built :
      (kernel : List ℕ) (w w' : World) → build host w ≡ (ok kernel, w') → Built w w' kernel
  unfolding build
  build-Built kernel w w' e =
      let search = λ (o : List ℕ).
        or_fail (host.regex_new Kernel.regex) >> kernel_binary host (host.from_utf8_lossy o) in
      let after = λ (r : Bool × List ℕ). exit_ok r.0 >> search r.1 in
      let compile =
        λ (cargo : String) (dir : PathBuf). host.output (build_command host cargo dir) >>= after in
      let find_dir = λ (x : World). or_fail (host.canonicalize x (host.path "./nacl")) x in
      let (cargo, w₁, e₁, rest) =
        >>=-ok (λ x. or_fail (host.env_var x "CARGO") x) (λ c. find_dir >>= compile c) kernel w w'
          e in
      let (dir, w₂, e₂, rest₂) = >>=-ok find_dir (compile cargo) kernel w₁ w' rest in
      let ((success, output), w₃, e₃, rest₃) =
        >>=-ok (host.output (build_command host cargo dir)) after kernel w₂ w' rest₂ in
      let (u, w₄, e₄, rest₄) = >>=-ok (exit_ok success) (λ u. search output) kernel w₃ w' rest₃ in
      let (v, w₅, e₅, rest₅) =
        >>=-ok (or_fail (host.regex_new Kernel.regex))
          (λ v. kernel_binary host (host.from_utf8_lossy output)) kernel w₄ w' rest₄ in
      let dir_same = (or_fail-ok (host.canonicalize w₁ (host.path "./nacl")) dir w₁ w₂ e₂).1 in
      let cargo_same = (or_fail-ok (host.env_var w "CARGO") cargo w w₁ e₁).1 in
      compiled-Built kernel output cargo dir success w w₃ w₄ w₅ w'
        (subst (λ x. host.output (build_command host cargo dir) x ≡ (ok (success, output), w₃))
          (dir_same ∙ cargo_same) e₃)
        (exit_ok-ok success w₃ w₄ e₄) (or_fail-ok (host.regex_new Kernel.regex) v w₄ w₅ e₅).1 rest₅

  -- What a tool that was called with `args` has done when it succeeds: the build has succeeded, and gave
  -- the path of a kernel; every file that is to be copied, if it resolves and none is written over one of
  -- the others or over itself, is on the volume, as it was after the build;
  -- and then, unless the tool was called with `--no-run`, the machine has run on that volume and has
  -- exited with success.
  pub record Ran (v : IsLawful host) (args : List String) (w w' : World) : Type 1 where
    pub kernel : List ℕ
    pub after_build : World
    pub built : Built w after_build kernel
    pub volume : World
    pub delivered :
        (ps : List (Plan host))
        → files_of host ps ≡ listed host (host.path_of_text kernel) boot_files
        → All (Resolves host after_build) ps
        → Unmixed host v ps
        → All (Delivered host after_build volume) ps
    pub ended :
        ((no_boot args ≡ ok true) × (w' ≡ volume))
        ⊎ ((no_boot args ≡ ok false) × (host.status (run_command host) volume ≡ (ok true, w')))

  -- If `main` succeeds, then the build has succeeded and its kernel was found, and the machine is run
  -- after the files are copied, and not with `--no-run`. And if the boot files and the kernel resolve
  -- after the build, and no one of them is written over itself, over one that is still to be copied, or
  -- over another's copy, all of them are then on the volume, with the contents that they had after the
  -- build.
  pub main_succeeds :
      (v : IsLawful host) (args : List String) (w w' : World)
      → main host args w ≡ (ok tt, w')
      → Ran v args w w'
  unfolding main deliver
  main_succeeds v args w w' e =
      let go = λ (kernel : List ℕ). (λ (x : World). (no_boot args, x)) >>= deliver host kernel in
      let (kernel, w₁, e₁, rest) = >>=-ok (build host) go tt w w' e in
      let (stop, w₂, e₂, rest₂) =
        >>=-ok (λ (x : World). (no_boot args, x)) (deliver host kernel) tt w₁ w' rest in
      let finish = if stop then pure tt else (host.status (run_command host) >>= λ b. exit_ok b) in
      let (u, w₃, e₃, rest₃) =
        >>=-ok (create_disk_images host (host.path_of_text kernel)) (λ u. finish) tt w₂ w' rest₂ in
      record {
        kernel = kernel;
        after_build = w₁;
        built = build-Built kernel w w₁ e₁;
        volume = w₃;
        delivered = λ ps files r m.
            create_disk_images_delivers host v (host.path_of_text kernel) ps w₁ w₃ files r m
              (ap (create_disk_images host (host.path_of_text kernel)) (ap (λ x. x.1) e₂) ∙ e₃);
        ended = ending stop w₁ w₂ w₃ e₂ rest₃;
      }
    where
      ending :
          (stop : Bool) (w₁ w₂ w₃ : World)
          → ◌≡◌ {A = Exit Bool × World} (no_boot args, w₁) (ok stop, w₂)
          → (if stop then pure tt else (host.status (run_command host) >>= λ b. exit_ok b)) w₃
            ≡ (ok tt, w')
          → ((no_boot args ≡ ok true) × (w' ≡ w₃))
            ⊎ ((no_boot args ≡ ok false) × (host.status (run_command host) w₃ ≡ (ok true, w')))
      ending true w₁ w₂ w₃ e f = inl (ap (λ x. x.0) e, sym (ap (λ x. x.1) f))
      ending false w₁ w₂ w₃ e f =
          let (b, w₄, ran, exit) = >>=-ok (host.status (run_command host)) exit_ok tt w₃ w' f in
          let (success, same) = exit_ok-ok b w₄ w' exit in
          inr (
            ap (λ x. x.0) e,
            subst (λ x. host.status (run_command host) w₃ ≡ (ok true, x)) (sym same)
                (subst (λ t. host.status (run_command host) w₃ ≡ (ok t, w₄)) success ran),
          )
