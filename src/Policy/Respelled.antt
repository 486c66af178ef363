-- ===== src/Policy/Respelled.antt =====
-- `check_authorization` of rust-old/src/policy.rs on a denied path, spelled another way.
use shakti.Prelude.{◌≡◌, refl, sym, ◌∙◌, inl, inr, false, ◌&&◌, List, [], ◌∷◌}
use shakti.Text.{Text}
use mathlib.Core.Bool.{true≢false}
use shakti.FilePath.{components}
use shakti.Validate.{command_matches}
use shakti.Validate.Alias.{respell, IsExactPath, command_matches-respell}
use shakti.Validate.Match.{Matches, exact, command_matches_iff}
use shakti.Policy.{PolicyRule, SudoPolicy, allowed, denied, check_authorization, deny_message}
use shakti.Policy.Verdict.{Hits, Applies}
use shakti.Policy.Decision.{deny, grant, check_authorization_iff}

not-Matches : (command p : Text) → command_matches command p ≡ false → ¬ Matches command p
not-Matches command p h m = true≢false (sym ((command_matches_iff command p).1 m) ∙ h)

-- A rule that allows all commands but one path denies that path and allows its second spelling.
pub respelled_is_allowed :
    (username : Text) (groups : List Text) (target_user p : Text) (policy : SudoPolicy)
    (rule : PolicyRule) (rest : List PolicyRule)
    → policy.rules ≡ rule ∷ rest
    → Applies username groups target_user p rule
    → rule.commands ≡ []
    → rule.deny_commands ≡ p ∷ []
    → IsExactPath p
    → (components (respell p) ≡ components p)
      × (check_authorization policy username groups target_user p ≡ denied (deny_message p rule))
      × (check_authorization policy username groups target_user (respell p)
          ≡ allowed (rule.require_auth && policy.defaults.require_auth))
respelled_is_allowed username groups target_user p policy rule rest is_rules applies all_commands
      denies x =
    (
      (command_matches-respell p x).0,
      (check_authorization_iff username groups target_user p policy _).1
          (rw is_rules (deny (applies, rw denies (inl (exact refl))))),
      (check_authorization_iff username groups target_user (respell p) policy _).1
          (rw is_rules (grant (applies, rw denies (λ h. no_hit h), inl all_commands))),
    )
  where
    no_hit : ¬ Hits (respell p) (p ∷ [])
    no_hit (inl m) = not-Matches (respell p) p (command_matches-respell p x).1 m
    no_hit (inr e) = e
