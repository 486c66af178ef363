-- ===== src/Policy/Members.antt =====
-- What `check_authorization` of rust-old/src/policy.rs sees of the user's groups.
use shakti.Prelude.{
  ◌≡◌, refl, sym, ◌↔◌, inl, inr, Bool, true, false, List, [], ◌∷◌, arith, Any, any, any_iff,
  Any-map, Option-cases,
}
use shakti.Text.{Text, text_eq}
use shakti.Text.Laws.{text_eq_iff}
use shakti.Policy.{
  PolicyDefaults, PolicyRule, SudoPolicy, group_matches, round, check_rules, check_authorization,
}

abbrev pub Member : Text → List Text → Type 0
Member g groups = Any (λ h. h ≡ g) groups

-- The same groups, in any order and any number of times.
abbrev pub SameGroups : List Text → List Text → Type 0
SameGroups gs hs = (g : Text) → Member g gs ↔ Member g hs

has_group_iff :
    (g : Text) (groups : List Text) → (any (λ ug. text_eq ug g) groups ≡ true) ↔ Member g groups
has_group_iff g groups = (
  λ h. Any-map (λ ug. (text_eq_iff ug g).0) groups ((any_iff (λ ug. text_eq ug g) groups).0 h),
  λ h. (any_iff (λ ug. text_eq ug g) groups).1 (Any-map (λ ug. (text_eq_iff ug g).1) groups h),
)

Bool-ext : (a b : Bool) → (a ≡ true → b ≡ true) → (b ≡ true → a ≡ true) → a ≡ b
Bool-ext true b h k = sym (h refl)
Bool-ext false true h k = k refl
Bool-ext false false h k = refl

same_group :
    (g : Text) (gs hs : List Text)
    → SameGroups gs hs
    → any (λ ug. text_eq ug g) gs ≡ any (λ ug. text_eq ug g) hs
same_group g gs hs s =
    Bool-ext (any (λ ug. text_eq ug g) gs) (any (λ ug. text_eq ug g) hs)
      (λ h. (has_group_iff g hs).1 ((s g).0 ((has_group_iff g gs).0 h)))
      (λ h. (has_group_iff g gs).1 ((s g).1 ((has_group_iff g hs).0 h)))

group_matches-same :
    (rule : PolicyRule) (gs hs : List Text)
    → SameGroups gs hs
    → group_matches rule gs ≡ group_matches rule hs
unfolding group_matches
group_matches-same rule gs hs s = elim (Option-cases rule.group) [
  | inl e ↦ rw (e, group_matches) refl
  | inr (g, e) ↦ rw (e, group_matches) (same_group g gs hs s)
]

round-same :
    (rule : PolicyRule) (username : Text) (gs hs : List Text) (target_user command : Text)
    → SameGroups gs hs
    → round rule username gs target_user command ≡ round rule username hs target_user command
unfolding round
round-same rule username gs hs target_user command s = rw (group_matches-same rule gs hs s) refl

rules-same :
    (defaults : PolicyDefaults) (rules : List PolicyRule) (username : Text) (gs hs : List Text)
    (target_user command : Text)
    → SameGroups gs hs
    → check_rules defaults rules username gs target_user command
      ≡ check_rules defaults rules username hs target_user command
unfolding check_rules
rules-same defaults [] username gs hs target_user command s = refl
rules-same defaults (rule ∷ rules) username gs hs target_user command s = ground (
  arith,
  round-same rule username gs hs target_user command s,
  rules-same defaults rules username gs hs target_user command s,
)

pub check-SameGroups :
    (policy : SudoPolicy) (username : Text) (gs hs : List Text) (target_user command : Text)
    → SameGroups gs hs
    → check_authorization policy username gs target_user command
      ≡ check_authorization policy username hs target_user command
unfolding check_authorization
check-SameGroups policy username gs hs target_user command s =
    rules-same policy.defaults policy.rules username gs hs target_user command s
