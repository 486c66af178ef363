-- ===== src/Policy/Verdict.antt =====
-- What a rule says of a user, a target and a command, apart from the code of rust-old/src/policy.rs.
use shakti.Prelude.{
  ◌≡◌, ap, ◌∙◌, ◌↔◌, ◌⊎◌, inl, inr, true, ◌||◌, some, List, [], arith, Bool-cases, Option-cases,
  Any, any_iff, Any-map,
}
use shakti.Text.{Text, codes, text_eq}
use shakti.Text.Laws.{text_eq_iff}
use shakti.Validate.{command_matches}
use shakti.Validate.Match.{Matches, command_matches_iff}
use shakti.Policy.{PolicyRule, user_matches, group_matches, matches_any}

-- A pattern of the list matches the command.
abbrev pub Hits : Text → List Text → Type 0
Hits command patterns = Any (Matches command) patterns

pub matches_any_iff :
    (command : Text) (patterns : List Text)
    → (matches_any command patterns ≡ true) ↔ Hits command patterns
unfolding matches_any
matches_any_iff command patterns = (
  λ h.
      Any-map (λ p. (command_matches_iff command p).0) patterns
        ((any_iff (λ p. command_matches command p) patterns).0 h),
  λ h.
      (any_iff (λ p. command_matches command p) patterns).1
        (Any-map (λ p. (command_matches_iff command p).1) patterns h),
)

module _ (username : Text) (groups : List Text) where
  -- The rule names the user, everybody, or one of the user's groups.
  abbrev pub Concerns : PolicyRule → Type 0
  Concerns rule =
      (rule.user ≡ some (codes "*"))
      ⊎ (rule.user ≡ some username)
      ⊎ ((g : Text) × (rule.group ≡ some g) × Any (λ ug. ug ≡ g) groups)

  user→ :
      (rule : PolicyRule)
      → user_matches rule username ≡ true
      → (rule.user ≡ some (codes "*")) ⊎ (rule.user ≡ some username)
  unfolding user_matches
  user→ rule h = elim (Option-cases rule.user) [
    | inl e ↦ absurd (ground arith)
    | inr (u, e) ↦ elim (Bool-cases (text_eq u (codes "*"))) [
      | inl s ↦ inl (e ∙ ap some ((text_eq_iff u (codes "*")).0 s))
      | inr s ↦ inr (e ∙ ap some ((text_eq_iff u username).0 (ground arith)))
    ]
  ]

  →user :
      (rule : PolicyRule)
      → (rule.user ≡ some (codes "*")) ⊎ (rule.user ≡ some username)
      → user_matches rule username ≡ true
  unfolding user_matches
  →user rule (inl e) = ground (arith, text_eq_iff (codes "*") (codes "*"))
  →user rule (inr e) = ground (arith, text_eq_iff username username)

  group→ :
      (rule : PolicyRule)
      → group_matches rule groups ≡ true
      → (g : Text) × (rule.group ≡ some g) × Any (λ ug. ug ≡ g) groups
  unfolding group_matches
  group→ rule h = elim (Option-cases rule.group) [
    | inl e ↦ absurd (ground arith)
    | inr (g, e) ↦ (
      g,
      e,
      Any-map (λ ug. (text_eq_iff ug g).0) groups
          ((any_iff (λ ug. text_eq ug g) groups).0 (ground arith)),
    )
  ]

  →group :
      (rule : PolicyRule) (g : Text)
      → rule.group ≡ some g
      → Any (λ ug. ug ≡ g) groups
      → group_matches rule groups ≡ true
  unfolding group_matches
  →group rule g e h = ground (
    arith,
    (any_iff (λ ug. text_eq ug g) groups).1 (Any-map (λ ug. (text_eq_iff ug g).1) groups h),
  )

  pub Concerns-iff :
      (rule : PolicyRule)
      → ((user_matches rule username || group_matches rule groups) ≡ true) ↔ Concerns rule
  Concerns-iff rule = (
    λ h. elim (Bool-cases (user_matches rule username)) [
      | inl e ↦ elim (user→ rule e) [ inl a ↦ inl a | inr a ↦ inr (inl a) ]
      | inr e ↦ inr (inr (group→ rule (ground arith)))
    ],
    λ h. elim h [
      | inl a ↦ ground (arith, →user rule (inl a))
      | inr b ↦ elim b [
        | inl a ↦ ground (arith, →user rule (inr a))
        | inr (g, e, m) ↦ ground (arith, →group rule g e m)
      ]
    ],
  )

module _ (username : Text) (groups : List Text) (target_user command : Text) where
  -- The rule concerns the user and the target.
  abbrev pub Applies : PolicyRule → Type 0
  Applies rule =
      Concerns username groups rule × ((rule.run_as ≡ codes "*") ⊎ (rule.run_as ≡ target_user))

  abbrev pub Denies : PolicyRule → Type 0
  Denies rule = Applies rule × Hits command rule.deny_commands

  -- An empty list of commands stands for all.
  abbrev pub Grants : PolicyRule → Type 0
  Grants rule =
      Applies rule
      × (¬ Hits command rule.deny_commands)
      × ((rule.commands ≡ []) ⊎ Hits command rule.commands)

  abbrev pub Passes : PolicyRule → Type 0
  Passes rule = (¬ Denies rule) × (¬ Grants rule)
