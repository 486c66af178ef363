-- ===== src/Env/Effective.antt =====
-- The environment that the target process sees: `main.rs` sets the variables one after the other, so
-- the last value of a name stands.
use shakti.Prelude.{
  ◌≡◌, refl, inl, inr, true, false, Option, none, some, List, [], ◌∷◌, ◌++◌, arith, Bool-cases, All,
  if◌then◌else◌, any, any-append, any-false_iff,
}
use mathlib.Core.Path.{subst⁻¹}
use shakti.Text.{Text, codes, text_eq}
use shakti.Text.Laws.{text_eq_iff}
use shakti.Policy.{SudoPolicy}
use shakti.Env.{
  Vars, Account, fixed_vars, member, safe_env_vars, in_keep_set, is_kept, kept_vars,
  sanitize_environment,
}
use shakti.Env.Clean.{Among, member_iff, IsKept, is_kept_iff}

-- `cmd.env_clear(); for (k, v) in &env { cmd.env(k, v); }`, read at one name.
unfoldable pub env_value : Text → Vars → Option Text
env_value key [] = none
env_value key ((k, v) ∷ vars) = elim (env_value key vars) [
  | some w ↦ some w
  | none ↦ if text_eq k key then some v else none
]

env_value-append :
    (key : Text) (xs ys : Vars)
    → env_value key (xs ++ ys)
      ≡ elim (env_value key ys) [ some w ↦ some w | none ↦ env_value key xs ]
unfolding env_value
env_value-append key [] ys = ground arith
env_value-append key ((k, v) ∷ xs) ys = ground (arith, env_value-append key xs ys)

-- A name that the loop does not keep gets no value from the caller.
env_value-dropped :
    (policy : SudoPolicy) (key : Text) (vars : Vars)
    → is_kept policy key ≡ false
    → env_value key (kept_vars policy vars) ≡ none
unfolding env_value kept_vars
env_value-dropped policy key [] h = refl
env_value-dropped policy key ((k, v) ∷ vars) h =
    ground (arith, env_value-dropped policy key vars, text_eq_iff k key)

-- A name that the loop keeps gets the caller's value.
env_value-kept :
    (policy : SudoPolicy) (key : Text) (vars : Vars)
    → is_kept policy key ≡ true
    → env_value key (kept_vars policy vars) ≡ env_value key vars
unfolding env_value kept_vars
env_value-kept policy key [] h = refl
env_value-kept policy key ((k, v) ∷ vars) h =
    ground (arith, env_value-kept policy key vars, text_eq_iff k key)

env_value-sanitize :
    (policy : SudoPolicy) (account : Account) (vars : Vars) (key : Text)
    → env_value key (sanitize_environment policy account vars)
      ≡ elim (if is_kept policy key then env_value key vars else none) [
        | some w ↦ some w
        | none ↦ env_value key (fixed_vars account)
      ]
unfolding sanitize_environment
env_value-sanitize policy account vars key = elim (Bool-cases (is_kept policy key)) [
  | inl e ↦ ground (
    arith,
    env_value-append key (fixed_vars account) (kept_vars policy vars),
    env_value-kept policy key vars,
  )
  | inr e ↦ ground (
    arith,
    env_value-append key (fixed_vars account) (kept_vars policy vars),
    env_value-dropped policy key vars,
  )
]

-- The names that the program sets itself.
abbrev pub fixed_names : List Text
fixed_names =
    codes "USER"
    ∷ codes "LOGNAME"
    ∷ codes "HOME"
    ∷ codes "SHELL"
    ∷ codes "PATH"
    ∷ codes "SUDO_USER"
    ∷ codes "SUDO_UID"
    ∷ codes "SUDO_GID"
    ∷ []

fixed_names_unsafe : All (λ n. member n safe_env_vars ≡ false) fixed_names
unfolding member safe_env_vars any text_eq
fixed_names_unsafe = (any-false_iff (λ n. member n safe_env_vars) fixed_names).0 refl

from_All :
    (P : Text → Type 0) (names : List Text) (key : Text) → All P names → Among key names → P key
from_All P [] key h m = absurd m
from_All P (n ∷ names) key h (inl e) = subst⁻¹ P e h.0
from_All P (n ∷ names) key h (inr m) = from_All P names key h.1 m

not-kept :
    (policy : SudoPolicy) (key : Text)
    → Among key fixed_names
    → ¬ Among key policy.defaults.env_keep
    → is_kept policy key ≡ false
unfolding is_kept in_keep_set
not-kept policy key f n =
    let safe =
      from_All (λ n. member n safe_env_vars ≡ false) fixed_names key fixed_names_unsafe f in
    let keep : member key policy.defaults.env_keep ≡ false =
      elim (Bool-cases (member key policy.defaults.env_keep)) [
        | inl e ↦ absurd (n ((member_iff key policy.defaults.env_keep).0 e))
        | inr e ↦ e
      ] in
    unfold member in ground (arith, any-append (text_eq key) safe_env_vars policy.defaults.env_keep)

-- A variable that the program sets keeps the program's value, whatever the caller's variables,
-- unless the policy's `env_keep` names it.
pub fixed_vars_stand :
    (policy : SudoPolicy) (account : Account) (vars : Vars) (key : Text)
    → Among key fixed_names
    → ¬ Among key policy.defaults.env_keep
    → env_value key (sanitize_environment policy account vars) ≡ env_value key (fixed_vars account)
fixed_vars_stand policy account vars key f n =
    ground (arith, env_value-sanitize policy account vars key, not-kept policy key f n)

-- A variable that `env_keep` names gets the caller's value where the caller sets it and its name is
-- not dangerous, also if it is one that the program sets.
pub env_keep_overrides :
    (policy : SudoPolicy) (account : Account) (vars : Vars) (key value : Text)
    → IsKept policy key
    → env_value key vars ≡ some value
    → env_value key (sanitize_environment policy account vars) ≡ some value
env_keep_overrides policy account vars key value k e =
    ground (arith, env_value-sanitize policy account vars key, (is_kept_iff policy key).1 k)
