-- ===== src/Timestamp.antt =====
-- rust-old/src/timestamp.rs: the credential cache. The file system that it changes is an interface:
-- the calls that the program makes, and what the system documents of them.
pub mod Location
pub mod Session
pub mod Memory
pub mod Frame
pub mod Ledger
pub mod Lifetime
use Prim.Native.Nat.{bit_and}
use shakti.Prelude.{
  ℕ, ◌-◌, ◌*◌, ◌+◌, ◌≡◌, Bool, true, false, not, Option, none, some, [], ◌++◌, is_empty, ◌==◌, leb,
  ltb, if◌then◌else◌, ◌⊎◌, ◌≢◌, ◌∷◌,
}
use shakti.Text.{Text, codes, replace, trim_start_matches}
use shakti.FilePath.{components, join_path}
use shakti.Error.{
  Error, Result, ok, err, not_owned_by_root, world_writable, cannot_stat, cannot_create_dir,
  cannot_set_permissions, cannot_open_timestamp, timestamp_is_symlink, cannot_remove_timestamp,
}
use shakti.Os.{Metadata, is_world_writable}
use shakti.Validate.{validate_username}

-- The file system as a state. A time counts nanoseconds. `open_trunc` is `open(2)` with O_WRONLY,
-- O_CREAT, O_TRUNC and O_NOFOLLOW, and the close after it; `none` is the call's error.
pub record TimestampFs : Type 1 where
  pub State : Type 0
  pub now : State → ℕ
  pub symlink_metadata : State → Text → Option Metadata
  pub metadata : State → Text → Option Metadata
  pub create_dir_all : State → Text → Option State
  pub set_permissions : State → Text → ℕ → Option State
  pub open_trunc : State → Text → ℕ → Option State
  pub remove_file : State → Text → Option State
  -- The passing of time, in which nobody touches the files.
  pub wait : State → ℕ → State
  -- What was opened is no symbolic link, has just been modified, and belongs to root if it is new.
  pub open-stat :
      (s t : State) (p : Text) (mode : ℕ)
      → open_trunc s p mode ≡ some t
      → (m : Metadata) × (symlink_metadata t p ≡ some m)
        × (m.is_symlink ≡ false)
        × (m.modified ≡ now t)
        × ((symlink_metadata s p ≡ none → m.uid ≡ 0)
            × ((old : Metadata) → symlink_metadata s p ≡ some old → m.uid ≡ old.uid))
  -- What was removed is gone.
  pub remove-stat :
      (s t : State) (p : Text) → remove_file s p ≡ some t → symlink_metadata t p ≡ none
  -- A directory that is created, or whose mode is set, keeps what is in it: nothing, if it is new.
  pub create-stat :
      (s t : State) (dir name : Text)
      → create_dir_all s dir ≡ some t
      → symlink_metadata t (dir ++ b'/' ∷ name) ≡ symlink_metadata s (dir ++ b'/' ∷ name)
  pub chmod-stat :
      (s t : State) (dir name : Text) (mode : ℕ)
      → set_permissions s dir mode ≡ some t
      → symlink_metadata t (dir ++ b'/' ∷ name) ≡ symlink_metadata s (dir ++ b'/' ∷ name)
  -- A file is opened or removed alone: no other path leads to it, by a hard link or otherwise.
  pub open-rest :
      (s t : State) (p q : Text) (mode : ℕ)
      → open_trunc s p mode ≡ some t
      → components q ≢ components p
      → symlink_metadata t q ≡ symlink_metadata s q
  pub remove-rest :
      (s t : State) (p q : Text)
      → remove_file s p ≡ some t
      → components q ≢ components p
      → symlink_metadata t q ≡ symlink_metadata s q
  pub wait-stat :
      (s : State) (n : ℕ) (p : Text) → symlink_metadata (wait s n) p ≡ symlink_metadata s p
  pub wait-now : (s : State) (n : ℕ) → now (wait s n) ≡ now s + n

abbrev pub default_timestamp_dir : Text
default_timestamp_dir = codes "/var/run/agnos/sudo"

-- `Duration::from_secs`
abbrev pub from_secs : ℕ → ℕ
from_secs n = n * 1_000_000_000

-- The name of the terminal of standard input, where there is one.
unfoldable pub tty_session_id : Option Text → Text
tty_session_id tty = elim tty [
  | none ↦ []
  | some name ↦ replace (trim_start_matches name (codes "/dev/")) b'/' b'-'
]

unfoldable pub timestamp_name : Text → Option Text → Text
timestamp_name user tty =
    let suffix = tty_session_id tty in
    if is_empty suffix then user else user ++ (codes ":" ++ suffix)

unfoldable pub timestamp_path : Text → Option Text → Text
timestamp_path user tty = join_path default_timestamp_dir (timestamp_name user tty)

module _ (fs : TimestampFs) (tty : Option Text) where
  open fs use {
    State, now, symlink_metadata, metadata, create_dir_all, set_permissions, open_trunc,
    remove_file,
  }

  -- `SystemTime::now().duration_since(modified)` fails where the file is from the future.
  unfoldable pub is_fresh : ℕ → ℕ → ℕ → Bool
  is_fresh time modified ttl = if leb modified time then ltb (time - modified) ttl else false

  unfoldable pub check_timestamp : State → Text → ℕ → Bool
  check_timestamp s user ttl = elim (symlink_metadata s (timestamp_path user tty)) [
    | none ↦ false
    | some meta ↦
        if meta.is_symlink
        then false
        else if not (meta.uid == 0)
        then false
        else is_fresh (now s) meta.modified ttl
  ]

  unfoldable pub restrict : State → Text → Result (Unit {0}) × State
  restrict s dir = elim (set_permissions s dir 0o700) [
    | none ↦ (err (cannot_set_permissions dir), s)
    | some t ↦ (ok tt, t)
  ]

  unfoldable pub check_dir : State → Text → Metadata → Result (Unit {0}) × State
  check_dir s dir meta =
      if not (meta.uid == 0)
      then (err (not_owned_by_root dir meta.uid), s)
      else if is_world_writable meta
      then (err (world_writable dir meta.mode), s)
      else (ok tt, s)

  -- A directory whose metadata cannot be read does not exist, for `exists`.
  unfoldable pub ensure_timestamp_dir : State → Text → Result (Unit {0}) × State
  ensure_timestamp_dir s dir = elim (metadata s dir) [
    | none ↦ elim (create_dir_all s dir) [
      | none ↦ (err (cannot_create_dir dir), s)
      | some t ↦ restrict t dir
    ]
    | some meta ↦ check_dir s dir meta
  ]

  unfoldable pub touch : State → Text → Result (Unit {0}) × State
  touch s path = elim (open_trunc s path 0o600) [
    | none ↦ (err (cannot_open_timestamp path), s)
    | some t ↦ (ok tt, t)
  ]

  -- `?` on a step that has changed the state
  abbrev pub and_then :
      Result (Unit {0}) × State → (State → Result (Unit {0}) × State) → Result (Unit {0}) × State
  and_then (ok u, s) f = f s
  and_then (err e, s) f = (err e, s)

  unfoldable pub update_timestamp : State → Text → Result (Unit {0}) × State
  update_timestamp s user =
      and_then (validate_username user, s)
        λ s.
          and_then (ensure_timestamp_dir s default_timestamp_dir)
            λ s. touch s (timestamp_path user tty)

  unfoldable pub remove_timestamp : State → Text → Metadata → Result (Unit {0}) × State
  remove_timestamp s path meta =
      if meta.is_symlink then (err (timestamp_is_symlink path), s) else elim (remove_file s path) [
        | none ↦ (err (cannot_remove_timestamp path), s)
        | some t ↦ (ok tt, t)
      ]

  unfoldable pub invalidate_timestamp : State → Text → Result (Unit {0}) × State
  invalidate_timestamp s user =
      and_then (validate_username user, s)
        λ s. elim (symlink_metadata s (timestamp_path user tty)) [
          | none ↦ (ok tt, s)
          | some meta ↦ remove_timestamp s (timestamp_path user tty) meta
        ]
