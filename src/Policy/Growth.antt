-- ===== src/Policy/Growth.antt =====
-- `check_authorization` of rust-old/src/policy.rs on a policy and on one that says more.
use shakti.Prelude.{
  ◌≡◌, refl, ◌⊎◌, inl, inr, Bool, ◌||◌, List, [], ◌∷◌, ◌++◌, arith, All, any, Bool-cases,
}
use shakti.Text.{Text, codes, text_eq}
use shakti.Validate.{command_matches}
use shakti.Policy.{
  PolicyDefaults, PolicyRule, AuthzResult, allowed, user_matches, group_matches, matches_any, Round,
  next, deny_now, matched, round, check_rules,
}
use shakti.Policy.Rounds.{round_of, Passes-round}
use shakti.Policy.Decision.{check}
use shakti.Policy.Priority.{PassesHere}

-- The rule with one more pattern that it denies.
abbrev pub deny_also : Text → PolicyRule → PolicyRule
deny_also d rule = record rule { deny_commands = d ∷ rule.deny_commands }

Round-cases : (k : Round) → (k ≡ next) ⊎ ((k ≡ deny_now) ⊎ (k ≡ matched))
Round-cases next = inl refl
Round-cases deny_now = inr (inl refl)
Round-cases matched = inr (inr refl)

module _ (username : Text) (groups : List Text) (target_user command : Text) where
  abbrev answer : PolicyDefaults → List PolicyRule → AuthzResult
  answer defaults rules = check username groups target_user command defaults rules

  -- Either no rule of a list decides, or what comes after the list does not matter.
  pub decided_first :
      (defaults : PolicyDefaults) (rules more : List PolicyRule)
      → All (PassesHere username groups target_user command) rules
        ⊎ (answer defaults (rules ++ more) ≡ answer defaults rules)
  unfolding check_rules
  decided_first defaults [] more = inl tt
  decided_first defaults (rule ∷ rules) more =
      elim (Round-cases (round_of username groups target_user command rule)) [
        | inl e ↦ elim (decided_first defaults rules more) [
          | inl all ↦ inl (Passes-round username groups target_user command rule e, all)
          | inr same ↦ inr (ground arith)
        ]
        | inr rest ↦ elim rest [ inl e ↦ inr (ground arith) | inr e ↦ inr (ground arith) ]
      ]

  -- A pattern more to deny, in one rule: the round denies, or is what it was.
  round-deny_also :
      (d : Text) (rule : PolicyRule)
      → (round_of username groups target_user command (deny_also d rule) ≡ deny_now)
        ⊎ (round_of username groups target_user command (deny_also d rule)
            ≡ round_of username groups target_user command rule)
  unfolding round matches_any any user_matches group_matches
  round-deny_also d rule = elim (Bool-cases (command_matches command d)) [
    | inr e ↦ inr (ground arith)
    | inl e ↦ elim (Bool-cases (user_matches rule username || group_matches rule groups)) [
      | inr c ↦ inr (ground arith)
      | inl c ↦
          elim (Bool-cases (text_eq rule.run_as (codes "*") || text_eq rule.run_as target_user)) [
            | inr r ↦ inr (ground arith)
            | inl r ↦ inl (ground arith)
          ]
    ]
  ]

  -- More patterns to deny never allow more: what is allowed with one more of them, in any rule, is
  -- allowed without it, and asks for a password where it did.
  pub deny_also-allowed :
      (defaults : PolicyDefaults) (before : List PolicyRule) (d : Text) (rule : PolicyRule)
      (after : List PolicyRule) (b : Bool)
      → answer defaults (before ++ deny_also d rule ∷ after) ≡ allowed b
      → answer defaults (before ++ rule ∷ after) ≡ allowed b
  unfolding check_rules
  deny_also-allowed defaults [] d rule after b h = elim (round-deny_also d rule) [
    | inl e ↦ absurd (ground arith)
    | inr same ↦ ground arith
  ]
  deny_also-allowed defaults (r ∷ before) d rule after b h =
      ground (arith, deny_also-allowed defaults before d rule after b)
