-- ===== src/Policy/Decision.antt =====
-- `check_authorization` of rust-old/src/policy.rs against a relation of rules and verdicts.
use mathlib.Core.Path.{subst, subst⁻¹}
use shakti.Prelude.{◌≡◌, refl, ◌↔◌, ◌&&◌, List, [], ◌∷◌, arith}
use shakti.Text.{Text}
use shakti.Policy.{
  PolicyDefaults, PolicyRule, SudoPolicy, AuthzResult, allowed, denied, deny_message,
  default_message, Round, next, deny_now, matched, check_rules, check_authorization,
}
use shakti.Policy.Verdict.{Denies, Grants, Passes}
use shakti.Policy.Rounds.{
  round_of, round-Denies, round-Grants, round-Passes, Denies-round, Grants-round, Passes-round,
}

module _ (username : Text) (groups : List Text) (target_user command : Text) where
  -- Rule by rule, in the file's order: the first that denies or grants has the last word, and
  -- where there is none the answer is no.
  pub data Verdict (defaults : PolicyDefaults) : List PolicyRule → AuthzResult → Type 0 where
    nobody : Verdict defaults [] (denied (default_message username command target_user))
    skip :
        {rule : PolicyRule} {rules : List PolicyRule} {r : AuthzResult}
        → Passes username groups target_user command rule
        → Verdict defaults rules r
        → Verdict defaults (rule ∷ rules) r
    deny :
        {rule : PolicyRule} {rules : List PolicyRule}
        → Denies username groups target_user command rule
        → Verdict defaults (rule ∷ rules) (denied (deny_message command rule))
    grant :
        {rule : PolicyRule} {rules : List PolicyRule}
        → Grants username groups target_user command rule
        → Verdict defaults (rule ∷ rules) (allowed (rule.require_auth && defaults.require_auth))

  abbrev pub check : PolicyDefaults → List PolicyRule → AuthzResult
  check defaults rules = check_rules defaults rules username groups target_user command

  module _ (defaults : PolicyDefaults) (rule : PolicyRule) (rules : List PolicyRule) where
    check-next :
        round_of username groups target_user command rule ≡ next
        → check defaults (rule ∷ rules) ≡ check defaults rules
    unfolding check_rules
    check-next e = ground arith

    check-deny :
        round_of username groups target_user command rule ≡ deny_now
        → check defaults (rule ∷ rules) ≡ denied (deny_message command rule)
    unfolding check_rules
    check-deny e = ground arith

    check-grant :
        round_of username groups target_user command rule ≡ matched
        → check defaults (rule ∷ rules) ≡ allowed (rule.require_auth && defaults.require_auth)
    unfolding check_rules
    check-grant e = ground arith

    first-Verdict :
        (k : Round)
        → round_of username groups target_user command rule ≡ k
        → Verdict defaults rules (check defaults rules)
        → Verdict defaults (rule ∷ rules) (check defaults (rule ∷ rules))
    first-Verdict next e v =
        subst⁻¹ (Verdict defaults (rule ∷ rules)) (check-next e)
          (skip (Passes-round username groups target_user command rule e) v)
    first-Verdict deny_now e v =
        subst⁻¹ (Verdict defaults (rule ∷ rules)) (check-deny e)
          (deny (Denies-round username groups target_user command rule e))
    first-Verdict matched e v =
        subst⁻¹ (Verdict defaults (rule ∷ rules)) (check-grant e)
          (grant (Grants-round username groups target_user command rule e))

  pub check-Verdict :
      (defaults : PolicyDefaults) (rules : List PolicyRule)
      → Verdict defaults rules (check defaults rules)
  unfolding check_rules
  check-Verdict defaults [] = nobody
  check-Verdict defaults (rule ∷ rules) =
      first-Verdict defaults rule rules (round_of username groups target_user command rule) refl
        (check-Verdict defaults rules)

  pub Verdict-check :
      (defaults : PolicyDefaults) (rules : List PolicyRule) (r : AuthzResult)
      → Verdict defaults rules r
      → check defaults rules ≡ r
  unfolding check_rules
  Verdict-check defaults _ _ nobody = refl
  Verdict-check defaults (rule ∷ rules) r (skip p v) = ground (
    arith,
    round-Passes username groups target_user command rule p,
    Verdict-check defaults rules r v,
  )
  Verdict-check defaults (rule ∷ rules) _ (deny d) =
      ground (arith, round-Denies username groups target_user command rule d)
  Verdict-check defaults (rule ∷ rules) _ (grant g) =
      ground (arith, round-Grants username groups target_user command rule g)

  -- The check answers with the verdict of the policy, and with no other: the first rule, in the
  -- file's order, that denies or grants decides, a rule denies before it grants, and where no rule
  -- decides the command is denied.
  pub check_authorization_iff :
      (policy : SudoPolicy) (r : AuthzResult)
      → (check_authorization policy username groups target_user command ≡ r)
        ↔ Verdict policy.defaults policy.rules r
  unfolding check_authorization
  check_authorization_iff policy r = (
    λ e.
        subst (Verdict policy.defaults policy.rules) e (check-Verdict policy.defaults policy.rules),
    Verdict-check policy.defaults policy.rules r,
  )
