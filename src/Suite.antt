-- ===== src/Suite.antt =====
-- The unit tests of rust-old/src as functions into Bool, under their names. A policy's text stands for
-- the document that it is read as. An assertion on an error's message is one on the error. Where a test
-- depends on the machine, it is one on which root owns the programs that the tests name, no user is
-- known by name, and nothing is cached.
pub mod Samples
pub mod Matching
pub mod Validating
pub mod Deciding
pub mod Linting
pub mod Loading
pub mod Cleaning
pub mod Caching
pub mod Evaluating
use shakti.Prelude.{
  Bool, true, false, ◌&&◌, ◌||◌, Option, none, some, List, [], ◌∷◌, any, if◌then◌else◌,
}
use shakti.Text.{Text, codes, text_eq, starts_with}
use shakti.Error.{Result, ok, err}
use shakti.Os.{Metadata, Files}
use shakti.Policy.{AuthzResult, allowed, denied}
use shakti.Load.{Document, RawDefaults, RawRule}

abbrev pub all_true : List Bool → Bool
all_true [] = true
all_true (b ∷ bs) = b && all_true bs

abbrev pub is_ok : {A : Type 0} → Result A → Bool
is_ok (ok a) = true
is_ok (err e) = false

abbrev pub is_err : {A : Type 0} → Result A → Bool
is_err (ok a) = false
is_err (err e) = true

abbrev pub allows : AuthzResult → Bool → Bool
allows (allowed true) b = b
allows (allowed false) true = false
allows (allowed false) false = true
allows (denied s) b = false

abbrev pub denies : AuthzResult → Bool
denies (allowed b) = false
denies (denied s) = true

-- A table without keys, and what a policy's text without one or with one is read as.
abbrev pub no_defaults : RawDefaults
no_defaults = record {
  timestamp_ttl = none;
  require_auth = none;
  audit_log = none;
  env_keep = none;
  max_command_len = none;
  include_dir = none;
}

abbrev pub bare : RawRule
bare = record {
  user = none;
  group = none;
  run_as = none;
  commands = none;
  deny_commands = none;
  require_auth = none;
  description = none;
}

abbrev pub document : List RawRule → Document
document [] = record { defaults = none; rules = none }
document (r ∷ rs) = record { defaults = none; rules = some (r ∷ rs) }

abbrev pub document_with : RawDefaults → List RawRule → Document
document_with d rs = record (document rs) { defaults = some d }

abbrev pub executable : Metadata
executable = record {
  is_file = true;
  is_dir = false;
  is_symlink = false;
  uid = 0;
  mode = 0o755;
  modified = 0;
}

abbrev pub folder : Metadata
folder = record executable { is_file = false; is_dir = true }

abbrev pub programs : List Text
programs =
    codes "/usr/bin/env" ∷ codes "/usr/bin/ls" ∷ codes "/usr/bin/docker" ∷ codes "/etc/passwd" ∷ []

abbrev pub stat : Text → Option Metadata
stat p =
    if any (text_eq p) programs
    then some executable
    else if text_eq p (codes "/usr/bin")
    then some folder
    else none

abbrev pub files : Files
files = record {
  metadata = stat;
  symlink_metadata = stat;
  read_to_string = λ p. none;
  read_dir = λ p. none;
}

-- `s.contains(t)` on strings
unfoldable pub mentions : Text → Text → Bool
mentions [] t = starts_with [] t
mentions (c ∷ s) t = starts_with (c ∷ s) t || mentions s t
