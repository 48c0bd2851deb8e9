-- ===== src/Tests/Disks.antt =====
-- nacl_boot/src/main.rs: the boot volume on a concrete host.
use Prim.Native.String.{String}
use na_cl.Common.{
  ℕ, ◌+◌, ◌*◌, ◌/◌, ◌≡◌, ◌≢◌, refl, ap, sym, ◌∙◌, true, false, Option, some, List, [], ◌∷◌, ◌++◌,
  All, ◌==◌, if◌then◌else◌, arith,
}
use na_cl.BootTool.Env.{Host, Exit, ok}
use na_cl.BootTool.{build, deliver, main}
use na_cl.BootTool.Kernel.{kernel_binary, regex_hdr}
use na_cl.BootTool.Running.{Ran, main_succeeds}
use na_cl.BootTool.Images.{create_disk_images, copy_files, copy_file, copy_to, listed, boot_files}
use na_cl.BootTool.Images.Copies.{IsLawful, Plan, Resolves}
use na_cl.BootTool.Images.Delivery.{files_of, Unmixed}
use na_cl.Tests.Tools.{number}

-- A host with a file for each path; paths are numbers.
abbrev Files : Type 0
Files = ℕ → Option (List ℕ)

abbrev write_file : ℕ → List ℕ → Files → Exit (Unit {0}) × Files
write_file p l w = (ok tt, λ q. if p == q then some l else w q)

-- What the build prints: two characters, the header, the path `nc`, and a quote.
abbrev printed : List ℕ
printed = 0x7B ∷ 0x7B ∷ [] ++ (regex_hdr ++ (0x6E ∷ 0x63 ∷ 0x22 ∷ []))

abbrev disk : Host
disk = record {
  World = Files;
  PathBuf = ℕ;
  path = number;
  path_of_text = λ t. 6;
  join = λ a b. a * 10 + b;
  parent = λ a. some (a / 10);
  file_name = λ a. some a;
  canonicalize = λ w a. some a;
  env_var = λ w s. some "cargo";
  create_dir_all = λ a w. (ok tt, w);
  read = λ w a. w a;
  write = write_file;
  output = λ c w. (ok (true, printed), w);
  status = λ c w. (ok true, w);
  from_utf8_lossy = λ l. l;
  regex_new = λ s. some tt;
  find = λ s l. some (2, 19);
}

changed :
    (p : ℕ) (l : List ℕ) (w w' : Files)
    → write_file p l w ≡ (ok tt, w')
    → (q : ℕ) → w' q ≡ (if p == q then some l else w q)
changed p l w w' e q = sym (ap (λ r. r.1 q) e)

write_file_self :
    (p : ℕ) (l : List ℕ) (w w' : Files) → write_file p l w ≡ (ok tt, w') → w' p ≡ some l
write_file_self p l w w' e =
    let same : (p == p) ≡ true = ground arith in changed p l w w' e p ∙ rw same refl

write_file_other :
    (p q : ℕ) (l : List ℕ) (w w' : Files) → write_file p l w ≡ (ok tt, w') → p ≢ q → w' q ≡ w q
write_file_other p q l w w' e ne =
    let other : (p == q) ≡ false = ground (arith, ne) in changed p l w w' e q ∙ rw other refl

abbrev lawful : IsLawful disk
lawful = record {
  Apart = λ p q. p ≢ q;
  write-read = write_file_self;
  write-other = write_file_other;
  write-canonicalize = λ p q s l w w' e f. f;
  create-read = λ p q w w' e. sym (ap (λ r. r.1 q) e);
  create-canonicalize = λ p q s w w' e f. f;
}

abbrev plan : ℕ → String → Plan disk
plan f d = record { file = f; dest = d; source = f; name = f }

abbrev plans : List (Plan disk)
plans = plan 1 "EFI/BOOT" ∷ plan 2 "" ∷ plan 3 "" ∷ plan 4 "" ∷ plan 5 "" ∷ plan 6 "" ∷ []

-- Each file holds its own number.
abbrev before : Files
before a = some (a ∷ [])

abbrev after : Files
after = (create_disk_images disk 6 before).1

resolved : (f : ℕ) (d : String) → Resolves disk before (plan f d)
resolved f d = record { source = refl; name = refl }

main_succeeds_example : Ran disk lawful [] before after
unfolding main build deliver kernel_binary create_disk_images copy_files copy_file copy_to
main_succeeds_example = main_succeeds disk lawful [] before after refl

-- The files resolve on that host, and no file is written over another.
plans_ready :
    (files_of disk plans ≡ listed disk 6 boot_files)
    × All (Resolves disk before) plans
    × Unmixed disk lawful plans
plans_ready = (
  refl,
  (
    resolved 1 _,
    (resolved 2 _, (resolved 3 _, (resolved 4 _, (resolved 5 _, (resolved 6 _, tt))))),
  ),
  omega arith,
)
