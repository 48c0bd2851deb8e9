-- ===== src/Tests/Tools.antt =====
-- nacl_boot/src/main.rs: the tool on a concrete build.
use Prim.Native.String.{String}
use text.Mathlib.Text.{◌==◌}
use na_cl.Common.{if◌then◌else◌, ℕ, ◌≡◌, refl, true, none, some, List, [], ◌∷◌, ◌++◌}
use na_cl.BootTool.Env.{Host, ok}
use na_cl.BootTool.Kernel.{kernel_binary, kernel_binary_found, regex_hdr}

-- A host on which nothing happens, and on which the pattern is found where the header starts.
abbrev host : Host
host = record {
  World = Unit;
  PathBuf = List ℕ;
  path = λ s. [];
  path_of_text = λ t. t;
  join = λ a b. a ++ b;
  parent = λ a. some [];
  file_name = λ a. some a;
  canonicalize = λ w a. some a;
  env_var = λ w s. none;
  create_dir_all = λ a w. (ok tt, w);
  read = λ w a. some [];
  write = λ a l w. (ok tt, w);
  output = λ c w. (ok (true, []), w);
  status = λ c w. (ok true, w);
  from_utf8_lossy = λ l. l;
  regex_new = λ s. some tt;
  find = λ s l. some (2, 19);
}

-- Two characters, the header, the path `nc`, and a quote.
kernel_binary_found_example :
    kernel_binary host (0x7B ∷ 0x7B ∷ [] ++ (regex_hdr ++ (0x6E ∷ 0x63 ∷ [] ++ (0x22 ∷ [])))) tt
    ≡ (ok (0x6E ∷ 0x63 ∷ []), tt)
kernel_binary_found_example =
    kernel_binary_found host (0x7B ∷ 0x7B ∷ []) (0x6E ∷ 0x63 ∷ []) [] tt refl

-- Numbers for the paths that the tool names.
abbrev pub number : String → ℕ
number s =
    if s == "./limine/BOOTX64.EFI"
    then 1
    else if s == "./limine/limine-uefi-cd.bin"
    then 2
    else if s == "./limine/limine-bios-cd.bin"
    then 3
    else if s == "./limine/limine-bios.sys"
    then 4
    else if s == "./limine.conf"
    then 5
    else if s == "./iso_root"
    then 7
    else if s == "EFI/BOOT"
    then 8
    else 9
