-- ===== src/Lint/Merge.antt =====
-- Rules that share user, group and target: what the linter says of them, and what the check does.
use shakti.Prelude.{
  ℕ, suc, ◌+◌, ◌<◌, leb, ◌≡◌, refl, sym, subst, true, false, ◌&&◌, none, List, [], ◌∷◌, ◌++◌,
  length, All, Any, Any-left, Any-right, inl, arith,
}
use shakti.Text.{Text}
use shakti.Policy.{
  PolicyDefaults, PolicyRule, SudoPolicy, AuthzResult, allowed, check_authorization,
}
use shakti.Policy.Verdict.{Passes, Grants}
use shakti.Policy.Decision.{Verdict, grant, skip, check_authorization_iff}
use shakti.Policy.Priority.{orphan-Passes, check-remove}
use shakti.Lint.{
  PolicyWarning, warning, at_rule, same_key, duplicate_message, lint_duplicates, lint_rules,
  lint_policy, lint_defaults, lint_rule, lint_denies,
}

abbrev pub Reported : PolicyWarning → List PolicyWarning → Type 0
Reported w ws = Any (λ v. v ≡ w) ws

-- What the linter says of the later rules it says after any others.
duplicates-skip :
    (w : PolicyWarning) (i : ℕ) (a : PolicyRule) (j k : ℕ) (before others : List PolicyRule)
    → k ≡ j + length before
    → Reported w (lint_duplicates i a k others)
    → Reported w (lint_duplicates i a j (before ++ others))
unfolding lint_duplicates
duplicates-skip w i a j k [] others e h =
    subst (λ n. Reported w (lint_duplicates i a n others)) (ground (arith, e)) h
duplicates-skip w i a j k (r ∷ before) others e h =
    Any-right (λ v. v ≡ w) _ (lint_duplicates i a (suc j) (before ++ others))
      (duplicates-skip w i a (suc j) k before others (ground (arith, e)) h)

-- Of two rules with one key the linter says that only the first that matches is used.
second-Reported :
    (i j : ℕ) (a b : PolicyRule) (rest : List PolicyRule)
    → i < j
    → same_key a b ≡ true
    → Reported (at_rule i warning (duplicate_message i j)) (lint_duplicates i a j (b ∷ rest))
unfolding lint_duplicates
second-Reported i j a b rest lt h =
    let below : leb j i ≡ false = ground (arith, lt) in rw (below, h) (inl refl)

rules-Reported :
    (w : PolicyWarning) (all : List PolicyRule) (i k : ℕ) (before : List PolicyRule)
    (a : PolicyRule) (rest : List PolicyRule)
    → k ≡ i + length before
    → Reported w (lint_duplicates k a 0 all)
    → Reported w (lint_rules all i (before ++ a ∷ rest))
unfolding lint_rules
rules-Reported w all i k [] a rest e h =
    let R = λ (v : PolicyWarning). v ≡ w in
    let same : k ≡ i = ground (arith, e) in
    Any-right R (lint_rule i a) _ (
      Any-right R (lint_denies i a a.deny_commands) _ (
        Any-left R (lint_duplicates i a 0 all) (lint_rules all (suc i) rest)
          (subst (λ n. Reported w (lint_duplicates n a 0 all)) same h)))
rules-Reported w all i k (r ∷ before) a rest e h =
    let R = λ (v : PolicyWarning). v ≡ w in
    Any-right R (lint_rule i r) _ (
      Any-right R (lint_denies i r r.deny_commands) _ (
        Any-right R (lint_duplicates i r 0 all) _
          (rules-Reported w all (suc i) k before a rest (ground (arith, e)) h)))

duplicates-Reported :
    (policy : SudoPolicy) (before : List PolicyRule) (a : PolicyRule) (between : List PolicyRule)
    (b : PolicyRule) (rest : List PolicyRule)
    → policy.rules ≡ before ++ a ∷ (between ++ b ∷ rest)
    → same_key a b ≡ true
    → Reported
        (at_rule
          (length before)
          warning
          (duplicate_message (length before) (suc (length before) + length between)))
        (lint_policy policy)
unfolding lint_policy
duplicates-Reported policy before a between b rest e h =
    let i = length before in
    let j = suc i + length between in
    let w = at_rule i warning (duplicate_message i j) in
    let all = before ++ a ∷ (between ++ b ∷ rest) in
    let later = second-Reported i j a b rest (omega arith) h in
    let found : Reported w (lint_duplicates i a 0 all) =
      duplicates-skip w i a 0 i before (a ∷ (between ++ b ∷ rest)) (omega arith) (
        duplicates-skip w i a i (suc i) (a ∷ []) (between ++ b ∷ rest) (ground arith)
          (duplicates-skip w i a (suc i) j between (b ∷ rest) refl later)) in
    Any-right (λ v. v ≡ w) (lint_defaults policy) _
      (subst (λ rs. Reported w (lint_rules rs 0 rs)) (sym e)
        (rules-Reported w all 0 i before a (between ++ b ∷ rest) (omega arith) found))

module _ (username : Text) (groups : List Text) (target_user command : Text) where
  passed-Verdict :
      (defaults : PolicyDefaults) (before rules : List PolicyRule) (r : AuthzResult)
      → All (Passes username groups target_user command) before
      → Verdict username groups target_user command defaults rules r
      → Verdict username groups target_user command defaults (before ++ rules) r
  passed-Verdict defaults [] rules r h v = v
  passed-Verdict defaults (p ∷ before) rules r h v =
      skip h.0 (passed-Verdict defaults before rules r h.1 v)

  -- Of any two rules of a policy that share user, group and target, where the second grants the
  -- command and neither the first, nor a rule before or between them, denies or grants it, the
  -- linter reports, with the places of both, that only the first matching rule is used, and the
  -- check answers by the second.
  pub second_rule_is_used :
      (policy : SudoPolicy) (before : List PolicyRule) (a : PolicyRule) (between : List PolicyRule)
      (b : PolicyRule) (rest : List PolicyRule)
      → policy.rules ≡ before ++ a ∷ (between ++ b ∷ rest)
      → same_key a b ≡ true
      → All (Passes username groups target_user command) before
      → Passes username groups target_user command a
      → All (Passes username groups target_user command) between
      → Grants username groups target_user command b
      → Reported
          (at_rule
            (length before)
            warning
            (duplicate_message (length before) (suc (length before) + length between)))
          (lint_policy policy)
        × (check_authorization policy username groups target_user command
            ≡ allowed (b.require_auth && policy.defaults.require_auth))
  second_rule_is_used policy before a between b rest e key first passes middle grants = (
    duplicates-Reported policy before a between b rest e key,
    (check_authorization_iff username groups target_user command policy _).1 (
        rw e (
          passed-Verdict policy.defaults before _ _ first
            (skip passes (passed-Verdict policy.defaults between _ _ middle (grant grants))))),
  )

-- A rule with neither user nor group can be taken out of the policy: no answer changes, as the
-- linter says of it.
pub orphan_is_unused :
    (username : Text) (groups : List Text) (target_user command : Text) (policy : SudoPolicy)
    (before : List PolicyRule) (rule : PolicyRule) (after : List PolicyRule)
    → policy.rules ≡ before ++ rule ∷ after
    → rule.user ≡ none
    → rule.group ≡ none
    → check_authorization policy username groups target_user command
      ≡ check_authorization
          (record policy { rules = before ++ after })
          username
          groups
          target_user
          command
unfolding check_authorization
orphan_is_unused username groups target_user command policy before rule after e u g = rw e (
    check-remove username groups target_user command policy.defaults before rule after
      (orphan-Passes username groups target_user command rule u g))
