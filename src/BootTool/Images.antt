-- ===== src/BootTool/Images.antt =====
-- nacl_boot/src/main.rs: `create_disk_images`, which copies the boot files.
pub mod Copies
pub mod Delivery
use Prim.Native.String.{String}
use text.Mathlib.Text.{◌==◌}
use na_cl.Common.{List, [], ◌∷◌, if◌then◌else◌}
use na_cl.BootTool.Env.{Host, Action, pure, ◌>>=◌, ◌>>◌, or_fail, or_abort}

-- The files of the boot loader, and the directories of the volume that they go to.
abbrev pub boot_files : List (String × String)
boot_files =
    ("./limine/BOOTX64.EFI", "EFI/BOOT")
    ∷ ("./limine/limine-uefi-cd.bin", "")
    ∷ ("./limine/limine-bios-cd.bin", "")
    ∷ ("./limine/limine-bios.sys", "")
    ∷ ("./limine.conf", "")
    ∷ []

module _ (host : Host) where
  open host use {World, PathBuf}

  -- Those files, and the kernel.
  abbrev pub listed : PathBuf → List (String × String) → List (PathBuf × String)
  listed kernel [] = (kernel, "") ∷ []
  listed kernel ((file, dest) ∷ files) = (host.path file, dest) ∷ listed kernel files

  -- Where a file of that name goes; an empty directory is the root of the volume.
  abbrev pub destination : String → PathBuf → PathBuf
  destination dest name =
      let root = host.join (host.path "./iso_root") name in
      let inside = host.join (host.join (host.path "./iso_root") (host.path dest)) name in
      if dest == "" then root else inside

  -- The copy of a file, once it is known where it goes: `File::open`, `File::create`, which empties the
  -- target, and then `io::copy`, which reads the source as it is now.
  unfoldable pub copy_to : PathBuf → PathBuf → Action World (Unit {0})
  copy_to source target = do
    dir ← or_abort (host.parent target)
    host.create_dir_all dir
    opened ← λ w. or_fail (host.read w source) w
    host.write target []
    bytes ← λ w. or_fail (host.read w source) w
    host.write target bytes

  -- One round of the loop.
  unfoldable pub copy_file : PathBuf × String → Action World (Unit {0})
  unfolding copy_to
  copy_file (file, dest) = do
    source ← λ w. or_fail (host.canonicalize w file) w
    name ← or_abort (host.file_name source)
    copy_to source (destination dest name)

  unfoldable pub copy_files : List (PathBuf × String) → Action World (Unit {0})
  unfolding copy_file
  copy_files [] = pure tt
  copy_files (f ∷ fs) = do copy_file f; copy_files fs

  unfoldable pub create_disk_images : PathBuf → Action World (Unit {0})
  unfolding copy_files
  create_disk_images kernel = do
    host.create_dir_all (host.path "./iso_root/")
    copy_files (listed kernel boot_files)
