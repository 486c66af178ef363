-- ===== src/Load.antt =====
-- rust-old/src/policy.rs: `parse_policy`, `load_policy` and `load_fragments`. The file system and the
-- TOML reader are parameters; a document holds each key's value where the file has the key, and the
-- source's serde attributes say what stands for a missing one.
pub mod Order
pub mod Trust
pub mod Fragments
pub mod Loaded
pub mod Precedence
use shakti.Prelude.{
  ℕ, Bool, true, false, ◌&&◌, not, Option, none, some, List, [], ◌∷◌, ◌++◌, map, ◌==◌, ltb,
  if◌then◌else◌,
}
use shakti.Text.{Text, codes, text_eq}
use shakti.FilePath.{components, file_name, extension, join_path}
use shakti.Error.{
  Error, Result, ok, err, bail_if, ◌>>=◌, ◌>>◌, policy_not_found, include_not_directory,
  cannot_stat, failed_to_read, failed_to_read_dir, failed_to_parse, not_owned_by_root,
  world_writable,
}
use shakti.Os.{Files, Metadata, is_world_writable, exists}
use shakti.Policy.{
  PolicyDefaults, PolicyRule, SudoPolicy, policy_defaults, default_timestamp_ttl_secs,
  default_max_command_len, default_target_user,
}

pub record RawDefaults : Type 0 where
  pub timestamp_ttl : Option ℕ
  pub require_auth : Option Bool
  pub audit_log : Option Bool
  pub env_keep : Option (List Text)
  pub max_command_len : Option ℕ
  pub include_dir : Option Text

pub record RawRule : Type 0 where
  pub user : Option Text
  pub group : Option Text
  pub run_as : Option Text
  pub commands : Option (List Text)
  pub deny_commands : Option (List Text)
  pub require_auth : Option Bool
  pub description : Option Text

pub record Document : Type 0 where
  pub defaults : Option RawDefaults
  pub rules : Option (List RawRule)

-- `#[serde(default = ..)]`
abbrev pub or_default : {A : Type 0} → Option A → A → A
or_default none a = a
or_default (some b) a = b

unfoldable pub fill_defaults : RawDefaults → PolicyDefaults
fill_defaults d = record {
  timestamp_ttl = or_default d.timestamp_ttl default_timestamp_ttl_secs;
  require_auth = or_default d.require_auth true;
  audit_log = or_default d.audit_log true;
  env_keep = or_default d.env_keep [];
  max_command_len = or_default d.max_command_len default_max_command_len;
  include_dir = d.include_dir;
}

unfoldable pub fill_rule : RawRule → PolicyRule
fill_rule r = record {
  user = r.user;
  group = r.group;
  run_as = or_default r.run_as default_target_user;
  commands = or_default r.commands [];
  deny_commands = or_default r.deny_commands [];
  require_auth = or_default r.require_auth true;
  description = or_default r.description [];
}

-- A missing table is `PolicyDefaults::default()`; a table that is there is filled key by key.
unfoldable pub fill : Document → SudoPolicy
fill d = record {
  defaults = elim d.defaults [ none ↦ policy_defaults | some t ↦ fill_defaults t ];
  rules = map fill_rule (or_default d.rules []);
}

-- Byte order, as `OsString` compares.
unfoldable pub text_le : Text → Text → Bool
text_le [] t = true
text_le (a ∷ s) [] = false
text_le (a ∷ s) (b ∷ t) =
    let rest = text_le s t in if ltb a b then true else if a == b then rest else false

unfoldable pub insert_name : Text → List Text → List Text
insert_name s [] = s ∷ []
insert_name s (t ∷ ts) = let rest = insert_name s ts in if text_le s t then s ∷ t ∷ ts else t ∷ rest

-- `entries.sort_by_key(|e| e.file_name())`
unfoldable pub sort_names : List Text → List Text
unfolding insert_name
sort_names [] = []
sort_names (s ∷ ss) = insert_name s (sort_names ss)

-- `.filter_map(|e| e.ok())`
unfoldable pub readable : List (Option Text) → List Text
readable [] = []
readable (none ∷ es) = readable es
readable (some s ∷ es) = s ∷ readable es

-- `e.path().extension().is_some_and(|ext| ext == "toml")`
unfoldable pub is_toml : Text → Bool
is_toml name = elim (extension name) [ none ↦ false | some e ↦ text_eq e (codes "toml") ]

unfoldable pub only_toml : List Text → List Text
only_toml [] = []
only_toml (s ∷ ss) = let rest = only_toml ss in if is_toml s then s ∷ rest else rest

unfoldable pub fragment_names : List (Option Text) → List Text
fragment_names entries = sort_names (only_toml (readable entries))

-- The checks of owner and mode, which the main file, the directory and each fragment undergo.
unfoldable pub check_metadata : Text → Metadata → Result (Unit {0})
check_metadata path meta = do
  bail_if (not (meta.uid == 0)) (not_owned_by_root path meta.uid)
  bail_if (is_world_writable meta) (world_writable path meta.mode)

module _ (fs : Files) (toml : Text → Option Document) where
  unfoldable pub check_trusted : Text → Result (Unit {0})
  check_trusted path = elim (fs.metadata path) [
    | none ↦ err (cannot_stat path)
    | some meta ↦ check_metadata path meta
  ]

  unfoldable pub read_file : Text → Result Text
  read_file path = elim (fs.read_to_string path) [
    | none ↦ err (failed_to_read path)
    | some s ↦ ok s
  ]

  unfoldable pub parse_policy : Text → Text → Result SudoPolicy
  parse_policy path content = elim (toml content) [
    | none ↦ err (failed_to_parse path)
    | some d ↦ ok (fill d)
  ]

  -- One round of the loop over the entries.
  unfoldable pub load_fragment : Text → Result (List PolicyRule)
  load_fragment path = do
    check_trusted path
    content ← read_file path
    fragment ← parse_policy path content
    ok fragment.rules

  unfoldable pub load_entries : Text → List Text → Result (List PolicyRule)
  load_entries dir [] = ok []
  load_entries dir (name ∷ names) = do
    rules ← load_fragment (join_path dir name)
    more ← load_entries dir names
    ok (rules ++ more)

  -- `dir.is_dir()`
  unfoldable pub is_dir : Text → Bool
  is_dir dir = elim (fs.metadata dir) [ none ↦ false | some meta ↦ meta.is_dir ]

  unfoldable pub list_entries : Text → Result (List (Option Text))
  list_entries dir = elim (fs.read_dir dir) [
    | none ↦ err (failed_to_read_dir dir)
    | some es ↦ ok es
  ]

  unfoldable pub load_fragments : Text → Result (List PolicyRule)
  load_fragments dir = if not (exists fs dir) then ok [] else do
    bail_if (not (is_dir dir)) (include_not_directory dir)
    check_trusted dir
    entries ← list_entries dir
    load_entries dir (fragment_names entries)

  unfoldable pub extend_rules : SudoPolicy → Result SudoPolicy
  extend_rules policy = elim policy.defaults.include_dir [
    | none ↦ ok policy
    | some dir ↦ do rules ← load_fragments dir; ok (record policy { rules = policy.rules ++ rules })
  ]

  unfoldable pub load_policy : Text → Result SudoPolicy
  load_policy path = do
    bail_if (not (exists fs path)) (policy_not_found path)
    check_trusted path
    content ← read_file path
    policy ← parse_policy path content
    extend_rules policy
