-- ===== src/Suite/Cleaning.antt =====
-- The tests of rust-old/src/env.rs. The variables that a test sets are those of the process.
use shakti.Prelude.{
  Bool, true, false, ◌≡◌, refl, ◌&&◌, not, some, List, [], ◌∷◌, any, if◌then◌else◌,
}
use shakti.Text.{Text, codes, text_eq, starts_with, decimal}
use shakti.Policy.{SudoPolicy, policy_defaults}
use shakti.Load.{fill, fill_defaults}
use shakti.Env.{
  Vars, unsafe_env_vars, safe_env_vars, member, fixed_vars, in_keep_set, is_kept, kept_vars,
  sanitize_environment,
}
use shakti.Suite.{all_true, no_defaults, document, document_with}

-- `sanitize_environment(&policy, "alice", "root", "/root", "/bin/bash")`
abbrev cleaned : SudoPolicy → Vars → Vars
cleaned policy vars =
    sanitize_environment policy
      (record {
        caller_user = codes "alice";
        uid = 0;
        gid = 0;
        target_user = codes "root";
        target_home = codes "/root";
        target_shell = codes "/bin/bash";
      })
      vars

-- The value under a key, the last one as in a map that is filled in order.
abbrev pub is_value : Vars → Text → Text → Bool → Bool
is_value [] k v found = found
is_value ((key, value) ∷ vars) k v found =
    is_value vars k v (if text_eq key k then text_eq value v else found)

abbrev pub has_key : Vars → Text → Bool
has_key vars k = any (λ (e : Text × Text). text_eq e.0 k) vars

abbrev none_of : List Text → Vars → Bool
none_of names vars = not (any (has_key vars) names)

abbrev contains_all : List Text → List Text → Bool
contains_all names wanted = not (any (λ w. not (member w names)) wanted)

abbrev plain : SudoPolicy
plain = fill (document [])

abbrev keeping : List Text → SudoPolicy
keeping names = fill (document_with (record no_defaults { env_keep = some names }) [])

abbrev test_sanitize_environment : Bool
test_sanitize_environment =
    let env = cleaned plain [] in
    is_value env (codes "USER") (codes "root") false
    && is_value env (codes "LOGNAME") (codes "root") false
    && is_value env (codes "HOME") (codes "/root") false
    && is_value env (codes "SHELL") (codes "/bin/bash") false
    && is_value env (codes "SUDO_USER") (codes "alice") false
    && has_key env (codes "PATH")

abbrev test_sanitize_environment_no_unsafe_vars : Bool
test_sanitize_environment_no_unsafe_vars = none_of unsafe_env_vars (cleaned plain [])

abbrev test_sanitize_environment_with_env_keep : Bool
test_sanitize_environment_with_env_keep =
    member (codes "EDITOR") (keeping (codes "EDITOR" ∷ [])).defaults.env_keep

abbrev test_sanitize_environment_blocks_unknown_ld_vars : Bool
test_sanitize_environment_blocks_unknown_ld_vars = not (
    has_key
      (cleaned (keeping (codes "LD_FUTURE_EXPLOIT" ∷ []))
        ((codes "LD_FUTURE_EXPLOIT", codes "gotcha") ∷ []))
      (codes "LD_FUTURE_EXPLOIT"))

abbrev test_unsafe_env_vars_contains_ld_preload : Bool
test_unsafe_env_vars_contains_ld_preload =
    contains_all unsafe_env_vars
      (codes "LD_PRELOAD" ∷ codes "LD_LIBRARY_PATH" ∷ codes "BASH_ENV" ∷ codes "IFS" ∷ [])

abbrev test_safe_env_vars : Bool
test_safe_env_vars = contains_all safe_env_vars (codes "TERM" ∷ codes "LANG" ∷ codes "TZ" ∷ [])

abbrev test_unsafe_env_vars_ld_extras : Bool
test_unsafe_env_vars_ld_extras = contains_all unsafe_env_vars (
    codes "LD_HWCAP_MASK"
    ∷ codes "LD_TRACE_LOADED_OBJECTS"
    ∷ codes "LD_WARN"
    ∷ codes "LD_VERBOSE"
    ∷ codes "LD_TRACE_PRELINKING"
    ∷ [])

abbrev test_unsafe_env_vars_interpreters : Bool
test_unsafe_env_vars_interpreters = contains_all unsafe_env_vars (
    codes "PYTHONPATH"
    ∷ codes "PYTHONSTARTUP"
    ∷ codes "PERL5LIB"
    ∷ codes "PERL_MM_OPT"
    ∷ codes "RUBYLIB"
    ∷ codes "GEM_HOME"
    ∷ codes "GEM_PATH"
    ∷ codes "BUNDLE_GEMFILE"
    ∷ codes "NODE_PATH"
    ∷ codes "NODE_OPTIONS"
    ∷ codes "CLASSPATH"
    ∷ codes "JAVA_TOOL_OPTIONS"
    ∷ codes "LUA_PATH"
    ∷ codes "LUA_CPATH"
    ∷ codes "PHPRC"
    ∷ [])

abbrev test_unsafe_env_vars_shell_extras : Bool
test_unsafe_env_vars_shell_extras = contains_all unsafe_env_vars (codes "INPUTRC" ∷ [])

abbrev exploit : Vars
exploit = (codes "BASH_FUNC_exploit%%", codes "() { evil; }") ∷ []

abbrev test_sanitize_environment_blocks_bash_func : Bool
test_sanitize_environment_blocks_bash_func =
    not (has_key (cleaned plain exploit) (codes "BASH_FUNC_exploit%%"))

abbrev evil : List Text → Vars
evil [] = []
evil (n ∷ names) = (n, codes "evil") ∷ evil names

abbrev test_sanitize_environment_actually_removes_set_unsafe_vars : Bool
test_sanitize_environment_actually_removes_set_unsafe_vars =
    let dangerous =
      codes "LD_PRELOAD"
      ∷ codes "PYTHONPATH"
      ∷ codes "IFS"
      ∷ codes "BASH_ENV"
      ∷ codes "NODE_OPTIONS"
      ∷ codes "GEM_HOME"
      ∷ [] in
    none_of dangerous (cleaned plain (evil dangerous))

abbrev test_sanitize_env_keep_does_not_override_unsafe : Bool
test_sanitize_env_keep_does_not_override_unsafe =
    let dangerous = codes "PYTHONPATH" ∷ codes "IFS" ∷ codes "BASH_ENV" ∷ [] in
    none_of dangerous (cleaned (keeping dangerous) (evil dangerous))

abbrev test_sanitize_bash_func_via_env_keep_still_blocked : Bool
test_sanitize_bash_func_via_env_keep_still_blocked = not (
    has_key (cleaned (keeping (codes "BASH_FUNC_exploit%%" ∷ [])) exploit)
      (codes "BASH_FUNC_exploit%%"))

cleaning_tests_hold :
    all_true (
      test_sanitize_environment ∷ test_sanitize_environment_no_unsafe_vars
      ∷ test_sanitize_environment_with_env_keep ∷ test_sanitize_environment_blocks_unknown_ld_vars
      ∷ test_unsafe_env_vars_contains_ld_preload ∷ test_safe_env_vars
      ∷ test_unsafe_env_vars_ld_extras ∷ test_unsafe_env_vars_interpreters
      ∷ test_unsafe_env_vars_shell_extras ∷ test_sanitize_environment_blocks_bash_func
      ∷ test_sanitize_environment_actually_removes_set_unsafe_vars
      ∷ test_sanitize_env_keep_does_not_override_unsafe
      ∷ test_sanitize_bash_func_via_env_keep_still_blocked ∷ [])
    ≡ true
unfolding any text_eq starts_with decimal policy_defaults fill fill_defaults unsafe_env_vars
    safe_env_vars member fixed_vars in_keep_set is_kept kept_vars sanitize_environment
cleaning_tests_hold = refl
