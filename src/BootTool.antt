-- ===== src/BootTool.antt =====
-- nacl_boot/src/main.rs: the tool that builds the kernel, lays out its boot volume and runs it.
pub mod Env
pub mod Images
pub mod Kernel
pub mod Running
use Prim.Native.String.{String}
use text.Mathlib.Text.{◌==◌}
use na_cl.Common.{ℕ, Bool, true, false, Option, none, some, List, [], ◌∷◌, ◌++◌, if◌then◌else◌}
use Env.{
  Host, Command, Exit, ok, err, panicked, Action, pure, fail, abort, ◌>>=◌, ◌>>◌, or_fail, or_abort,
  exit_ok,
}
use Images.{create_disk_images}
use Kernel.{kernel_binary}

abbrev pub run_args : List String
run_args = "--no-reboot" ∷ "-s" ∷ []

-- The first argument after the name of the program.
abbrev pub no_boot : List String → Exit Bool
no_boot [] = ok false
no_boot (arg ∷ args) = if arg == "--no-run" then ok true else panicked

module _ (host : Host) where
  open host use {World, PathBuf}

  -- `cargo build`, in the kernel's directory.
  abbrev pub build_command : String → PathBuf → Command PathBuf
  build_command cargo dir = record {
    program = cargo;
    args =
        "build" ∷ "--release" ∷ "--target" ∷ "x86_64-unknown-none" ∷ "--message-format=json" ∷ [];
    envs = ("RUSTFLAGS", "-C relocation-model=static") ∷ [];
    current_dir = some dir;
  }

  abbrev pub run_command : Command PathBuf
  run_command = record {
    program = "qemu-system-x86_64-uefi";
    args =
        "-enable-kvm" ∷ "-drive" ∷ "format=raw,file=fat:rw:iso_root" ∷ "-serial" ∷ "stdio" ∷ "-m"
        ∷ "1G" ∷ run_args;
    envs = [];
    current_dir = none;
  }

  -- The build, and the path of the kernel in what it prints.
  unfoldable pub build : Action World (List ℕ)
  unfolding kernel_binary
  build = do
    cargo ← λ w. or_fail (host.env_var w "CARGO") w
    dir ← λ w. or_fail (host.canonicalize w (host.path "./nacl")) w
    output ← host.output (build_command cargo dir)
    exit_ok output.0
    or_fail (host.regex_new Kernel.regex)
    kernel_binary host (host.from_utf8_lossy output.1)

  -- What is done once it is known whether the kernel is to run.
  unfoldable pub deliver : List ℕ → Bool → Action World (Unit {0})
  unfolding create_disk_images
  deliver kernel stop = do
    create_disk_images host (host.path_of_text kernel)
    if stop then pure tt else (do success ← host.status run_command; exit_ok success)

  -- `main`, with the arguments after the name of the program.
  unfoldable pub main : List String → Action World (Unit {0})
  unfolding build deliver
  main args = do kernel ← build; stop ← λ w. (no_boot args, w); deliver kernel stop
