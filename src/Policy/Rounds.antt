-- ===== src/Policy/Rounds.antt =====
-- One round of the loop over the rules, against the predicates on a rule.
use shakti.Prelude.{
  ◌≡◌, refl, ◌↔◌, ◌⊎◌, inl, inr, Bool, true, false, ◌&&◌, ◌||◌, List, [], arith, Bool-cases,
  is_empty,
}
use shakti.Text.{Text, codes, text_eq}
use shakti.Text.Laws.{text_eq_iff}
use shakti.Policy.{
  PolicyRule, user_matches, group_matches, matches_any, Round, next, deny_now, matched, round,
}
use shakti.Policy.Verdict.{Hits, matches_any_iff, Concerns-iff, Applies, Denies, Grants, Passes}

module _ (username : Text) (groups : List Text) (target_user command : Text) where
  abbrev pub round_of : PolicyRule → Round
  round_of rule = round rule username groups target_user command

  runs_as_iff :
      (rule : PolicyRule)
      → ((text_eq rule.run_as (codes "*") || text_eq rule.run_as target_user) ≡ true)
        ↔ ((rule.run_as ≡ codes "*") ⊎ (rule.run_as ≡ target_user))
  runs_as_iff rule = (
    λ h. elim (Bool-cases (text_eq rule.run_as (codes "*"))) [
      | inl e ↦ inl ((text_eq_iff rule.run_as (codes "*")).0 e)
      | inr e ↦ inr ((text_eq_iff rule.run_as target_user).0 (ground arith))
    ],
    λ h. elim h [
      | inl e ↦ ground (arith, (text_eq_iff rule.run_as (codes "*")).1 e)
      | inr e ↦ ground (arith, (text_eq_iff rule.run_as target_user).1 e)
    ],
  )

  commands_iff :
      (rule : PolicyRule)
      → ((is_empty rule.commands || matches_any command rule.commands) ≡ true)
        ↔ ((rule.commands ≡ []) ⊎ Hits command rule.commands)
  commands_iff rule = (
    λ h. elim (Bool-cases (is_empty rule.commands)) [
      | inl e ↦ inl (ground arith)
      | inr e ↦ inr ((matches_any_iff command rule.commands).0 (ground arith))
    ],
    λ h. elim h [
      | inl e ↦ rw e
      | inr e ↦ ground (arith, (matches_any_iff command rule.commands).1 e)
    ],
  )

  -- The tests of a round, joined.
  abbrev applies : PolicyRule → Bool
  applies rule =
      (user_matches rule username || group_matches rule groups)
      && (text_eq rule.run_as (codes "*") || text_eq rule.run_as target_user)

  Applies→ :
      (rule : PolicyRule) → Applies username groups target_user command rule → applies rule ≡ true
  Applies→ rule (c, r) =
      ground (arith, (Concerns-iff username groups rule).1 c, (runs_as_iff rule).1 r)

  →Applies :
      (rule : PolicyRule) → applies rule ≡ true → Applies username groups target_user command rule
  →Applies rule h =
      ((Concerns-iff username groups rule).0 (ground arith), (runs_as_iff rule).0 (ground arith))

  pub round-Denies :
      (rule : PolicyRule)
      → Denies username groups target_user command rule
      → round_of rule ≡ deny_now
  unfolding round
  round-Denies rule (a, d) =
      ground (arith, Applies→ rule a, (matches_any_iff command rule.deny_commands).1 d)

  pub Denies-round :
      (rule : PolicyRule)
      → round_of rule ≡ deny_now
      → Denies username groups target_user command rule
  unfolding round
  Denies-round rule h =
      (→Applies rule (ground arith), (matches_any_iff command rule.deny_commands).0 (ground arith))

  not-Hits : (patterns : List Text) → ¬ Hits command patterns → matches_any command patterns ≡ false
  not-Hits patterns n = elim (Bool-cases (matches_any command patterns)) [
    | inl e ↦ absurd (n ((matches_any_iff command patterns).0 e))
    | inr e ↦ e
  ]

  pub round-Grants :
      (rule : PolicyRule)
      → Grants username groups target_user command rule
      → round_of rule ≡ matched
  unfolding round
  round-Grants rule (a, n, c) =
      ground (arith, Applies→ rule a, not-Hits rule.deny_commands n, (commands_iff rule).1 c)

  pub Grants-round :
      (rule : PolicyRule)
      → round_of rule ≡ matched
      → Grants username groups target_user command rule
  unfolding round
  Grants-round rule h = (
    →Applies rule (ground arith),
    λ d. ground (arith, (matches_any_iff command rule.deny_commands).1 d),
    (commands_iff rule).0 (ground arith),
  )

  pub round-Passes :
      (rule : PolicyRule) → Passes username groups target_user command rule → round_of rule ≡ next
  round-Passes rule (d, g) =
      go (round_of rule) (λ e. d (Denies-round rule e)) (λ e. g (Grants-round rule e))
    where
      go : (r : Round) → ¬ (r ≡ deny_now) → ¬ (r ≡ matched) → r ≡ next
      go next nd nm = refl
      go deny_now nd nm = absurd (nd refl)
      go matched nd nm = absurd (nm refl)

  pub Passes-round :
      (rule : PolicyRule) → round_of rule ≡ next → Passes username groups target_user command rule
  Passes-round rule h = (λ d. cc (h, round-Denies rule d), λ g. cc (h, round-Grants rule g))
