-- ===== src/Lint/Index.antt =====
-- The indices that `lint_policy` of rust-old/src/policy.rs reports.
use shakti.Prelude.{
  ℕ, suc, ◌+◌, ◌≤◌, ◌<◌, ◌≡◌, refl, Bool, true, false, ◌&&◌, none, some, List, [], ◌∷◌, arith, All,
  All-map, any, any-append, any-false_iff, length, leb, Bool-cases, inl, inr,
}
use shakti.Text.{Text}
use shakti.Policy.{PolicyRule, SudoPolicy}
use shakti.Lint.{
  PolicyWarning, push_if, lint_defaults, lint_rule, lint_denies, lint_duplicates, lint_rules,
  lint_policy,
}

-- A warning names no rule, or one that is there.
abbrev pub InRange : ℕ → PolicyWarning → Type 0
InRange n w = (i : ℕ) → w.rule_index ≡ some i → i < n

module _ (n : ℕ) where
  abbrev astray : PolicyWarning → Bool
  astray w = elim w.rule_index [ none ↦ false | some i ↦ leb n i ]

  any-push_if : (b : Bool) (w : PolicyWarning) → any astray (push_if b w) ≡ (b && astray w)
  unfolding any
  any-push_if true w = ground arith
  any-push_if false w = refl

  module _ (i : ℕ) (lt : i < n) where
    rule_index : (rule : PolicyRule) → any astray (lint_rule i rule) ≡ false
    unfolding lint_rule
    rule_index rule = simp (any-append, any-push_if) (ground arith)

    deny_index :
        (rule : PolicyRule) (denies : List Text) → any astray (lint_denies i rule denies) ≡ false
    unfolding lint_denies
    deny_index rule [] = unfold any in refl
    deny_index rule (deny ∷ denies) =
        simp (any-append, any-push_if, deny_index rule denies) (ground arith)

    duplicate_index :
        (rule : PolicyRule) (j : ℕ) (others : List PolicyRule)
        → any astray (lint_duplicates i rule j others) ≡ false
    unfolding lint_duplicates
    duplicate_index rule j [] = unfold any in refl
    duplicate_index rule j (other ∷ others) = elim (Bool-cases (leb j i)) [
      | inl e ↦ rw e (duplicate_index rule (suc j) others)
      | inr e ↦
          rw e (simp (any-append, any-push_if, duplicate_index rule (suc j) others) (ground arith))
    ]

  rules_index :
      (all : List PolicyRule) (i : ℕ) (rules : List PolicyRule)
      → i + length rules ≤ n
      → any astray (lint_rules all i rules) ≡ false
  unfolding lint_rules
  rules_index all i [] h = unfold any in refl
  rules_index all i (rule ∷ rules) h =
      let lt : i < n = omega arith in
      simp
        (
          any-append,
          rule_index i lt rule,
          deny_index i lt rule rule.deny_commands,
          duplicate_index i lt rule 0 all,
          rules_index all (suc i) rules (omega arith),
        )
        refl

  defaults_index : (policy : SudoPolicy) → any astray (lint_defaults policy) ≡ false
  unfolding lint_defaults
  defaults_index policy = simp (any-append, any-push_if) (ground arith)

-- Every warning that names a rule names one of the policy's.
pub lint_policy-InRange :
    (policy : SudoPolicy) → All (InRange (length policy.rules)) (lint_policy policy)
lint_policy-InRange policy =
    let n = length policy.rules in
    let none_astray : any (astray n) (lint_policy policy) ≡ false =
      unfold lint_policy in
      simp (
        any-append,
        defaults_index n policy,
        rules_index n policy.rules 0 policy.rules (omega arith),
      ) in
    All-map (λ w h i e. ground arith) (lint_policy policy)
      ((any-false_iff (astray n) (lint_policy policy)).0 none_astray)
