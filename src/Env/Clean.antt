-- ===== src/Env/Clean.antt =====
-- What the environment that rust-old/src/env.rs builds holds.
use shakti.Prelude.{
  ◌≡◌, refl, sym, ◌∙◌, ◌↔◌, ◌⊎◌, inl, inr, Bool, true, false, ◌&&◌, ◌||◌, not, List, [], ◌∷◌, ◌++◌,
  arith, Bool-cases, All, All-map, Any, any, any_iff, any-false_iff, Any-map, All-append,
}
use mathlib.Core.Bool.{true≢false}
use shakti.Text.{Text, codes, text_eq, starts_with}
use shakti.Text.Laws.{text_eq_iff, starts_with_iff}
use shakti.Policy.{SudoPolicy}
use shakti.Env.{
  Vars, Account, fixed_vars, member, safe_env_vars, unsafe_env_vars, in_keep_set, is_kept,
  kept_vars, sanitize_environment,
}

abbrev pub Among : Text → List Text → Type 0
Among s names = Any (λ n. s ≡ n) names

pub member_iff : (s : Text) (names : List Text) → (member s names ≡ true) ↔ Among s names
unfolding member
member_iff s names = (
  λ h. Any-map (λ n. (text_eq_iff s n).0) names ((any_iff (text_eq s) names).0 h),
  λ h. (any_iff (text_eq s) names).1 (Any-map (λ n. (text_eq_iff s n).1) names h),
)

-- A name that can change how the target's loader, shell or interpreters run.
abbrev pub IsDangerous : Text → Type 0
IsDangerous key =
    ((rest : Text) × (key ≡ codes "LD_" ++ rest))
    ⊎ ((rest : Text) × (key ≡ codes "BASH_FUNC_" ++ rest))
    ⊎ Among key unsafe_env_vars

abbrev pub IsKept : SudoPolicy → Text → Type 0
IsKept policy key = Among key (safe_env_vars ++ policy.defaults.env_keep) × (¬ IsDangerous key)

danger : Text → Bool
danger key =
    starts_with key (codes "LD_")
    || starts_with key (codes "BASH_FUNC_")
    || member key unsafe_env_vars

danger_iff : (key : Text) → (danger key ≡ true) ↔ IsDangerous key
unfolding danger
danger_iff key = (
  λ h. elim (Bool-cases (starts_with key (codes "LD_"))) [
    | inl e ↦ inl ((starts_with_iff key (codes "LD_")).0 e)
    | inr e ↦ elim (Bool-cases (starts_with key (codes "BASH_FUNC_"))) [
      | inl f ↦ inr (inl ((starts_with_iff key (codes "BASH_FUNC_")).0 f))
      | inr f ↦ inr (inr ((member_iff key unsafe_env_vars).0 (ground arith)))
    ]
  ],
  λ h. elim h [
    | inl e ↦ ground (arith, (starts_with_iff key (codes "LD_")).1 e)
    | inr g ↦ elim g [
      | inl e ↦ ground (arith, (starts_with_iff key (codes "BASH_FUNC_")).1 e)
      | inr e ↦ ground (arith, (member_iff key unsafe_env_vars).1 e)
    ]
  ],
)

is_kept-danger :
    (policy : SudoPolicy) (key : Text)
    → is_kept policy key ≡ (in_keep_set policy key && not (danger key))
unfolding is_kept danger
is_kept-danger policy key = ground arith

not-danger : (key : Text) → danger key ≡ false → ¬ IsDangerous key
not-danger key e d = true≢false (sym ((danger_iff key).1 d) ∙ e)

is_kept→ : (policy : SudoPolicy) (key : Text) → is_kept policy key ≡ true → IsKept policy key
unfolding in_keep_set
is_kept→ policy key h =
    let both = sym (is_kept-danger policy key) ∙ h in
    (
      (member_iff key (safe_env_vars ++ policy.defaults.env_keep)).0 (ground arith),
      not-danger key (ground arith),
    )

→is_kept : (policy : SudoPolicy) (key : Text) → IsKept policy key → is_kept policy key ≡ true
unfolding in_keep_set
→is_kept policy key (m, n) = elim (Bool-cases (danger key)) [
  | inl e ↦ absurd (n ((danger_iff key).0 e))
  | inr e ↦ ground (
    arith,
    is_kept-danger policy key,
    (member_iff key (safe_env_vars ++ policy.defaults.env_keep)).1 m,
  )
]

pub is_kept_iff :
    (policy : SudoPolicy) (key : Text) → (is_kept policy key ≡ true) ↔ IsKept policy key
is_kept_iff policy key = (is_kept→ policy key, →is_kept policy key)

-- No variable of the list has a dangerous name.
abbrev pub IsClean : Vars → Type 0
IsClean vars = All (λ (v : Text × Text). ¬ IsDangerous v.0) vars

fixed-IsClean : (a : Account) → IsClean (fixed_vars a)
unfolding fixed_vars danger member unsafe_env_vars starts_with text_eq any
fixed-IsClean a =
    All-map (λ (v : Text × Text) (h : danger v.0 ≡ false). not-danger v.0 h) (fixed_vars a)
      ((any-false_iff (λ (v : Text × Text). danger v.0) (fixed_vars a)).0 refl)

kept-IsClean : (policy : SudoPolicy) (vars : Vars) → IsClean (kept_vars policy vars)
unfolding kept_vars
kept-IsClean policy [] = tt
kept-IsClean policy ((key, value) ∷ vars) = elim (Bool-cases (is_kept policy key)) [
  | inl e ↦ rw (e, kept_vars) ((is_kept→ policy key e).1, kept-IsClean policy vars)
  | inr e ↦ rw (e, kept_vars) (kept-IsClean policy vars)
]

-- Whatever the caller's variables and the policy's `env_keep`, no variable of the target's
-- environment begins with LD_ or BASH_FUNC_ or stands in the list of unsafe variables.
pub sanitize_environment-IsClean :
    (policy : SudoPolicy) (account : Account) (vars : Vars)
    → IsClean (sanitize_environment policy account vars)
unfolding sanitize_environment
sanitize_environment-IsClean policy account vars =
    All-append (λ (v : Text × Text). ¬ IsDangerous v.0) (fixed_vars account) (kept_vars policy vars)
      (fixed-IsClean account) (kept-IsClean policy vars)
