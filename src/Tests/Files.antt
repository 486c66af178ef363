-- ===== src/Tests/Files.antt =====
-- Examples of policy files, their fragments, and the target's environment.
use mathlib.Core.List.{Perm}
use shakti.Prelude.{◌≡◌, refl, ◌↔◌, ◌⊎◌, All, inl, true, Option, none, some, List, [], ◌∷◌, any}
use shakti.Text.{Text, codes, text_eq, starts_with}
use shakti.Error.{ok}
use shakti.Policy.{check_authorization, SudoPolicy, policy_defaults}
use shakti.Os.{exists, is_world_writable}
use shakti.Policy.Priority.{PassesHere}
use shakti.Load.Trust.{Holds}
use shakti.Load.Precedence.{main_file_decides}
use shakti.Load.{
  check_trusted, check_metadata, read_file, parse_policy, fill, fill_rule, extend_rules, Document,
  load_policy, fragment_names, only_toml, readable,
}
use shakti.Load.Fragments.{IsSorted, Among, Given, IsFragment, fragment_names-IsSorted}
use shakti.Load.Loaded.{Loads, load_policy_iff}
use shakti.Env.{
  Vars, fixed_vars, is_kept, in_keep_set, member, safe_env_vars, unsafe_env_vars,
  sanitize_environment,
}
use shakti.Env.Clean.{IsClean, sanitize_environment-IsClean, is_kept_iff}
use shakti.Env.Effective.{env_value, fixed_vars_stand, env_keep_overrides}
use shakti.Tests.Fixtures.{alice, root, vi, one_command, policy_of, everywhere, account, reader}

abbrev ordinary : SudoPolicy
ordinary = policy_of (one_command ∷ [])

load_policy_iff_example :
    (load_policy everywhere reader vi ≡ ok ordinary) ↔ Loads everywhere reader vi ordinary
load_policy_iff_example = load_policy_iff everywhere reader vi ordinary

abbrev first_name : List (Option Text)
first_name = some (codes "b.toml") ∷ none ∷ []

abbrev second_name : List (Option Text)
second_name = some (codes "a.toml") ∷ []

fragment_names-IsSorted_example :
    IsSorted (fragment_names first_name)
    × Perm (fragment_names first_name) (only_toml (readable first_name))
    × ((name : Text)
        → Among name (fragment_names first_name) ↔ (Given name first_name × IsFragment name))
fragment_names-IsSorted_example = fragment_names-IsSorted first_name

-- The caller tries to load code of their own.
abbrev hostile : Vars
hostile =
    (codes "LD_PRELOAD", codes "x.so")
    ∷ (codes "PATH", codes "/tmp")
    ∷ (codes "TERM", codes "vt")
    ∷ []

sanitize_environment-IsClean_example : IsClean (sanitize_environment ordinary account hostile)
sanitize_environment-IsClean_example = sanitize_environment-IsClean ordinary account hostile

fixed_vars_stand_example :
    env_value (codes "USER") (sanitize_environment ordinary account hostile)
    ≡ env_value (codes "USER") (fixed_vars account)
unfolding policy_defaults
fixed_vars_stand_example =
    fixed_vars_stand ordinary account hostile (codes "USER") (inl refl) (λ h. h)

-- The policy keeps PATH.
abbrev keeps_path : SudoPolicy
keeps_path = record ordinary {
  defaults = record ordinary.defaults { env_keep = codes "PATH" ∷ [] };
}

path_kept : is_kept keeps_path (codes "PATH") ≡ true
unfolding is_kept in_keep_set member any text_eq starts_with safe_env_vars unsafe_env_vars
path_kept = refl

hostile_path : env_value (codes "PATH") hostile ≡ some (codes "/tmp")
unfolding env_value text_eq
hostile_path = refl

env_keep_overrides_example :
    env_value (codes "PATH") (sanitize_environment keeps_path account hostile) ≡ some (codes "/tmp")
env_keep_overrides_example =
    env_keep_overrides keeps_path account hostile (codes "PATH") (codes "/tmp")
      ((is_kept_iff keeps_path (codes "PATH")).0 path_kept) hostile_path

ordinary_loads : load_policy everywhere reader vi ≡ ok ordinary
unfolding load_policy exists check_trusted check_metadata is_world_writable read_file parse_policy
    fill fill_rule extend_rules policy_defaults
ordinary_loads = refl

main_file_decides_example :
    (doc : Document) × Holds everywhere reader vi doc
    × (All (PassesHere alice [] root vi) (fill doc).rules
        ⊎ (check_authorization ordinary alice [] root vi
            ≡ check_authorization (fill doc) alice [] root vi))
main_file_decides_example =
    main_file_decides everywhere reader vi ordinary alice [] root vi ordinary_loads
