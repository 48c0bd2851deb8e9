-- ===== src/BootTool/Env.antt =====
-- nacl_boot/src/main.rs: what the tool uses of the standard library, of the crate `regex` and of the
-- programs that it runs; and its error handling.
use Prim.Native.String.{String}
use na_cl.Common.{ℕ, Bool, true, false, Option, none, some, List}

-- What a call gives: a value, an error that `?` passes on, or a panic.
pub data Exit (A : Type 0) : Type 0 where
  ok : A → Exit A
  err : Exit A
  panicked : Exit A

-- What was done to the world before an error stays done.
abbrev pub Action : Type 0 → Type 0 → Type 0
Action W A = W → Exit A × W

infixl 5 ◌>>=◌ ◌>>◌
abbrev pub ◌>>=◌ : {W A B : Type 0} → Action W A → (A → Action W B) → Action W B
◌>>=◌ m f w =
    let (r, w') = m w in elim r [ ok a ↦ f a w' | err ↦ (err, w') | panicked ↦ (panicked, w') ]

abbrev pub ◌>>◌ : {W A B : Type 0} → Action W A → Action W B → Action W B
first >> second = first >>= λ _. second

abbrev pub pure : {W A : Type 0} → A → Action W A
pure a w = (ok a, w)

abbrev pub fail : {W A : Type 0} → Action W A
fail w = (err, w)

abbrev pub abort : {W A : Type 0} → Action W A
abort w = (panicked, w)

-- `?` and `unwrap`.
abbrev pub or_fail : {W A : Type 0} → Option A → Action W A
or_fail none = fail
or_fail (some a) = pure a

abbrev pub or_abort : {W A : Type 0} → Option A → Action W A
or_abort none = abort
or_abort (some a) = pure a

-- `exit_ok`
abbrev pub exit_ok : {W : Type 0} → Bool → Action W (Unit {0})
exit_ok true = pure tt
exit_ok false = fail

pub record Command (PathBuf : Type 0) : Type 0 where
  pub program : String
  pub args : List String
  pub envs : List (String × String)
  pub current_dir : Option PathBuf

-- A path is what `canonicalize`, `join`, `parent` and `file_name` make of it; a text is a list of
-- code units. `file_name` is none also if the name is not UTF-8. `output` and `status` give whether
-- the program succeeded.
pub record Host : Type 1 where
  pub World : Type 0
  pub PathBuf : Type 0
  pub path : String → PathBuf
  pub path_of_text : List ℕ → PathBuf
  pub join : PathBuf → PathBuf → PathBuf
  pub parent : PathBuf → Option PathBuf
  pub file_name : PathBuf → Option PathBuf
  pub canonicalize : World → PathBuf → Option PathBuf
  pub env_var : World → String → Option String
  pub create_dir_all : PathBuf → Action World (Unit {0})
  pub read : World → PathBuf → Option (List ℕ)
  pub write : PathBuf → List ℕ → Action World (Unit {0})
  pub output : Command PathBuf → Action World (Bool × List ℕ)
  pub status : Command PathBuf → Action World Bool
  pub from_utf8_lossy : List ℕ → List ℕ
  pub regex_new : String → Option (Unit {0})
  pub find : String → List ℕ → Option (ℕ × ℕ)
