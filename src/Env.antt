-- ===== src/Env.antt =====
-- rust-old/src/env.rs: the environment of the target command. The caller's variables and ids, which
-- the source reads from the process, are arguments.
pub mod Clean
pub mod Effective
use shakti.Prelude.{
  ℕ, Bool, true, false, ◌&&◌, ◌||◌, not, Option, none, some, List, [], ◌∷◌, ◌++◌, any,
  if◌then◌else◌,
}
use shakti.Text.{Text, codes, text_eq, starts_with, decimal}
use shakti.Policy.{SudoPolicy}

unfoldable pub unsafe_env_vars : List Text
unsafe_env_vars =
    codes "LD_PRELOAD"
    ∷ codes "LD_LIBRARY_PATH"
    ∷ codes "LD_AUDIT"
    ∷ codes "LD_DYNAMIC_WEAK"
    ∷ codes "LD_BIND_NOW"
    ∷ codes "LD_AOUT_LIBRARY_PATH"
    ∷ codes "LD_AOUT_PRELOAD"
    ∷ codes "LD_ORIGIN_PATH"
    ∷ codes "LD_DEBUG"
    ∷ codes "LD_DEBUG_OUTPUT"
    ∷ codes "LD_PROFILE"
    ∷ codes "LD_PROFILE_OUTPUT"
    ∷ codes "LD_SHOW_AUXV"
    ∷ codes "LD_USE_LOAD_BIAS"
    ∷ codes "LD_HWCAP_MASK"
    ∷ codes "LD_TRACE_LOADED_OBJECTS"
    ∷ codes "LD_WARN"
    ∷ codes "LD_VERBOSE"
    ∷ codes "LD_TRACE_PRELINKING"
    ∷ codes "LOCALDOMAIN"
    ∷ codes "RES_OPTIONS"
    ∷ codes "HOSTALIASES"
    ∷ codes "NLSPATH"
    ∷ codes "PATH_LOCALE"
    ∷ codes "GCONV_PATH"
    ∷ codes "IFS"
    ∷ codes "ENV"
    ∷ codes "BASH_ENV"
    ∷ codes "CDPATH"
    ∷ codes "GLOBIGNORE"
    ∷ codes "SHELLOPTS"
    ∷ codes "BASHOPTS"
    ∷ codes "PS4"
    ∷ codes "PROMPT_COMMAND"
    ∷ codes "INPUTRC"
    ∷ codes "PYTHONPATH"
    ∷ codes "PYTHONSTARTUP"
    ∷ codes "PYTHONHOME"
    ∷ codes "PERL5LIB"
    ∷ codes "PERL5OPT"
    ∷ codes "PERLLIB"
    ∷ codes "PERL_MM_OPT"
    ∷ codes "RUBYLIB"
    ∷ codes "RUBYOPT"
    ∷ codes "GEM_HOME"
    ∷ codes "GEM_PATH"
    ∷ codes "BUNDLE_GEMFILE"
    ∷ codes "NODE_PATH"
    ∷ codes "NODE_OPTIONS"
    ∷ codes "CLASSPATH"
    ∷ codes "JAVA_TOOL_OPTIONS"
    ∷ codes "LUA_PATH"
    ∷ codes "LUA_CPATH"
    ∷ codes "PHPRC"
    ∷ []

unfoldable pub safe_env_vars : List Text
safe_env_vars =
    codes "TERM"
    ∷ codes "COLORTERM"
    ∷ codes "LANG"
    ∷ codes "LANGUAGE"
    ∷ codes "LC_ALL"
    ∷ codes "LC_CTYPE"
    ∷ codes "TZ"
    ∷ codes "DISPLAY"
    ∷ codes "XAUTHORITY"
    ∷ []

abbrev pub Vars : Type 0
Vars = List (Text × Text)

-- The identity of the calling process, and of the account that the command runs as.
pub record Account : Type 0 where
  pub caller_user : Text
  pub uid : ℕ
  pub gid : ℕ
  pub target_user : Text
  pub target_home : Text
  pub target_shell : Text

abbrev pub secure_path : Text
secure_path = codes "/usr/local/sbin:/usr/local/bin:/usr/sbin:/usr/bin:/sbin:/bin"

-- "Always set these"
unfoldable pub fixed_vars : Account → Vars
fixed_vars a =
    (codes "USER", a.target_user)
    ∷ (codes "LOGNAME", a.target_user)
    ∷ (codes "HOME", a.target_home)
    ∷ (codes "SHELL", a.target_shell)
    ∷ (codes "PATH", secure_path)
    ∷ (codes "SUDO_USER", a.caller_user)
    ∷ (codes "SUDO_UID", decimal a.uid)
    ∷ (codes "SUDO_GID", decimal a.gid)
    ∷ []

unfoldable pub member : Text → List Text → Bool
member s names = any (text_eq s) names

-- `keep_set`
unfoldable pub in_keep_set : SudoPolicy → Text → Bool
in_keep_set policy key = member key (safe_env_vars ++ policy.defaults.env_keep)

-- The tests that the loop makes of one variable of the caller.
unfoldable pub is_kept : SudoPolicy → Text → Bool
is_kept policy key =
    if starts_with key (codes "LD_")
    then false
    else if starts_with key (codes "BASH_FUNC_")
    then false
    else in_keep_set policy key && not (member key unsafe_env_vars)

unfoldable pub kept_vars : SudoPolicy → Vars → Vars
kept_vars policy [] = []
kept_vars policy ((key, value) ∷ vars) =
    let rest = kept_vars policy vars in if is_kept policy key then (key, value) ∷ rest else rest

unfoldable pub sanitize_environment : SudoPolicy → Account → Vars → Vars
sanitize_environment policy account vars = fixed_vars account ++ kept_vars policy vars
