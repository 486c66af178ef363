-- ===== src/Os.antt =====
-- What the program asks of the file system, which is not code of this repository: the answers of
-- one moment, as functions of the path.
use Prim.Native.Nat.{bit_and}
use shakti.Prelude.{ℕ, Bool, false, true, not, Option, none, some, List, ◌==◌}
use shakti.Text.{Text}

-- `std::fs::Metadata`; a time is a number of nanoseconds.
pub record Metadata : Type 0 where
  pub is_file : Bool
  pub is_dir : Bool
  pub is_symlink : Bool
  pub uid : ℕ
  pub mode : ℕ
  pub modified : ℕ

-- `none` is an I/O error. `metadata` follows symbolic links, `symlink_metadata` does not. The
-- directory's entries are file names, in no particular order, `none` where one cannot be read.
pub record Files : Type 0 where
  pub metadata : Text → Option Metadata
  pub symlink_metadata : Text → Option Metadata
  pub read_to_string : Text → Option Text
  pub read_dir : Text → Option (List (Option Text))

-- `mode & 0o002 != 0`
unfoldable pub is_world_writable : Metadata → Bool
is_world_writable m = not (bit_and m.mode 0o002 == 0)

-- `path.exists()`
unfoldable pub exists : Files → Text → Bool
exists fs p = elim (fs.metadata p) [ none ↦ false | some m ↦ true ]
