-- ===== src/Suite/Loading.antt =====
-- The tests of `parse_policy` and `load_fragments` in rust-old/src/policy.rs. The TOML reader's part in
-- them is what a text is read as, and is not tested here.
use shakti.Prelude.{
  Bool, true, false, ◌≡◌, refl, ◌&&◌, ◌==◌, Option, none, some, List, [], ◌∷◌, map, any, length,
  is_empty, if◌then◌else◌,
}
use shakti.Text.{Text, codes, text_eq, starts_with}
use shakti.FilePath.{join_path, extension}
use shakti.Error.{ok, err}
use shakti.Os.{Files, exists, is_world_writable}
use shakti.Policy.{PolicyRule, policy_defaults, default_timestamp_ttl_secs, default_max_command_len}
use shakti.Load.{
  Document, fill, fill_rule, fill_defaults, parse_policy, load_fragments, load_entries,
  load_fragment, read_file, is_dir, list_entries, check_trusted, check_metadata, fragment_names,
  sort_names, insert_name, text_le, readable, only_toml, is_toml,
}
use shakti.Suite.{
  all_true, is_err, files, executable, folder, no_defaults, bare, document, document_with,
}
use shakti.Suite.Samples.{sample_policy}

abbrev is_text : Option Text → Text → Bool
is_text none t = false
is_text (some s) t = text_eq s t

abbrev is_none : Option Text → Bool
is_none none = true
is_none (some s) = false

abbrev are_texts : List Text → List Text → Bool
are_texts [] [] = true
are_texts (s ∷ ss) (t ∷ ts) = text_eq s t && are_texts ss ts
are_texts _ _ = false

abbrev test_parse_policy : Bool
test_parse_policy =
    let policy = fill sample_policy in
    (policy.defaults.timestamp_ttl == 300)
    && policy.defaults.require_auth
    && policy.defaults.audit_log
    && are_texts policy.defaults.env_keep (codes "EDITOR" ∷ codes "VISUAL" ∷ [])
    && (length policy.rules == 4)

abbrev test_parse_policy_defaults : Bool
test_parse_policy_defaults =
    let policy = fill (document []) in
    (policy.defaults.timestamp_ttl == default_timestamp_ttl_secs)
    && policy.defaults.require_auth
    && policy.defaults.audit_log
    && (policy.defaults.max_command_len == default_max_command_len)
    && is_empty policy.rules

-- A test of the first of a list of rules, and of the only one.
abbrev first : List PolicyRule → (PolicyRule → Bool) → Bool
first [] p = false
first (r ∷ rs) p = p r

abbrev test_parse_policy_minimal_rule : Bool
test_parse_policy_minimal_rule =
    let policy = fill (document (record bare { user = some (codes "bob") } ∷ [])) in
    (length policy.rules == 1)
    && first policy.rules
        λ r. text_eq r.run_as (codes "root") && is_empty r.commands && r.require_auth

abbrev test_parse_policy_with_include_dir : Bool
test_parse_policy_with_include_dir =
    let policy = fill (
      document_with (record no_defaults { include_dir = some (codes "/etc/agnos/sudoers.d") })
        (record bare { user = some (codes "admin"); commands = some [] } ∷ [])) in
    is_text policy.defaults.include_dir (codes "/etc/agnos/sudoers.d") && (length policy.rules == 1)

abbrev test_parse_policy_without_include_dir : Bool
test_parse_policy_without_include_dir = is_none (fill (document [])).defaults.include_dir

abbrev test_parse_policy_fragment_defaults_ignored : Bool
test_parse_policy_fragment_defaults_ignored =
    let fragment = fill (
      document_with (record no_defaults { timestamp_ttl = some 999 })
        (record bare { user = some (codes "test"); commands = some (codes "/usr/bin/ls" ∷ []) }
          ∷ [])) in
    fragment.defaults.timestamp_ttl == 999

-- A reader that reads no text.
abbrev no_reader : Text → Option Document
no_reader s = none

abbrev test_load_fragments_nonexistent_dir : Bool
test_load_fragments_nonexistent_dir =
    elim (load_fragments files no_reader (codes "/nonexistent/path/xyz")) [
      | ok rules ↦ is_empty rules
      | err e ↦ false
    ]

abbrev test_load_fragments_not_a_directory : Bool
test_load_fragments_not_a_directory = is_err (load_fragments files no_reader (codes "/etc/passwd"))

-- The directory of the test, and its files; a file's text is its name.
abbrev temp_dir : Files
temp_dir = record {
  metadata = λ p. if text_eq p (codes "/tmp") then some folder else some executable;
  symlink_metadata = λ p. if text_eq p (codes "/tmp") then some folder else some executable;
  read_to_string = λ p. some p;
  read_dir = λ p. some (
      some (codes "20-deploy.toml")
      ∷ some (codes "README.md")
      ∷ some (codes "10-docker.toml")
      ∷ []);
}

abbrev fragment_reader : Text → Option Document
fragment_reader s =
    if text_eq s (codes "/tmp/10-docker.toml")
    then some (
        document (
          record bare {
            group = some (codes "docker");
            commands = some (codes "/usr/bin/docker" ∷ []);
            description = some (codes "Docker access");
          }
          ∷ []))
    else if text_eq s (codes "/tmp/20-deploy.toml")
    then some (
        document (
          record bare {
            user = some (codes "deploy");
            commands = some (codes "/usr/bin/systemctl" ∷ []);
            require_auth = some false;
            description = some (codes "Deploy access");
          }
          ∷ []))
    else none

abbrev test_load_fragments_from_temp_dir : Bool
test_load_fragments_from_temp_dir = elim (load_fragments temp_dir fragment_reader (codes "/tmp")) [
  | ok rules ↦
      are_texts (map (λ (r : PolicyRule). r.description) rules)
        (codes "Docker access" ∷ codes "Deploy access" ∷ [])
  | err e ↦ false
]

loading_tests_hold :
    all_true (
      test_parse_policy ∷ test_parse_policy_defaults ∷ test_parse_policy_minimal_rule
      ∷ test_parse_policy_with_include_dir ∷ test_parse_policy_without_include_dir
      ∷ test_parse_policy_fragment_defaults_ignored ∷ test_load_fragments_nonexistent_dir
      ∷ test_load_fragments_not_a_directory ∷ test_load_fragments_from_temp_dir ∷ [])
    ≡ true
unfolding any text_eq starts_with policy_defaults fill fill_rule fill_defaults load_fragments exists
    is_dir check_trusted check_metadata is_world_writable list_entries load_entries load_fragment
    read_file parse_policy fragment_names sort_names insert_name text_le readable only_toml is_toml
    join_path extension
loading_tests_hold = refl
