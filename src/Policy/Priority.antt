-- ===== src/Policy/Priority.antt =====
-- Consequences of the order of rules in `check_authorization` of rust-old/src/policy.rs: what an
-- answer rests on, and what cannot change it.
use shakti.Prelude.{◌≡◌, refl, ap, ◌∙◌, inl, inr, Bool, ◌&&◌, none, List, [], ◌∷◌, ◌++◌, arith, All}
use shakti.Text.{Text}
use shakti.Policy.{
  PolicyDefaults, PolicyRule, SudoPolicy, AuthzResult, allowed, check_rules, check_authorization,
}
use shakti.Policy.Verdict.{Concerns, Grants, Passes}
use shakti.Policy.Decision.{
  Verdict, nobody, skip, deny, grant, check, check_authorization_iff, Verdict-check, check-Verdict,
}

module _ (username : Text) (groups : List Text) (target_user command : Text) where
  abbrev pub PassesHere : PolicyRule → Type 0
  PassesHere = Passes username groups target_user command

  -- The rule that an answer "allowed" rests on.
  pub record Permit (policy : SudoPolicy) (require_auth : Bool) : Type 0 where
    pub before : List PolicyRule
    pub rule : PolicyRule
    pub after : List PolicyRule
    pub is_rules : policy.rules ≡ before ++ rule ∷ after
    pub passed : All PassesHere before
    pub grants : Grants username groups target_user command rule
    pub is_auth : require_auth ≡ (rule.require_auth && policy.defaults.require_auth)

  abbrev Found : PolicyDefaults → List PolicyRule → Bool → Type 0
  Found defaults rules b = Permit (record { defaults = defaults; rules = rules }) b

  later :
      (defaults : PolicyDefaults) (rule : PolicyRule) (rules : List PolicyRule) (b : Bool)
      → PassesHere rule
      → Found defaults rules b
      → Found defaults (rule ∷ rules) b
  later defaults rule rules b p f = record {
    before = rule ∷ f.before;
    rule = f.rule;
    after = f.after;
    is_rules = ap (λ rs. rule ∷ rs) f.is_rules;
    passed = (p, f.passed);
    grants = f.grants;
    is_auth = f.is_auth;
  }

  Verdict-Found :
      (defaults : PolicyDefaults) (rules : List PolicyRule) (r : AuthzResult) (b : Bool)
      → Verdict username groups target_user command defaults rules r
      → r ≡ allowed b
      → Found defaults rules b
  Verdict-Found defaults _ _ b nobody e = absurd (cc e)
  Verdict-Found defaults (rule ∷ rules) r b (skip p v) e =
      later defaults rule rules b p (Verdict-Found defaults rules r b v e)
  Verdict-Found defaults _ _ b (deny d) e = absurd (cc e)
  Verdict-Found defaults (rule ∷ rules) _ b (grant g) e = record {
    before = [];
    rule = rule;
    after = rules;
    is_rules = refl;
    passed = tt;
    grants = g;
    is_auth = cc;
  }

  -- An allowed command is granted by a rule of the policy before which no rule denies or grants;
  -- a password is asked for exactly if that rule and the defaults both ask for one.
  pub allowed-Permit :
      (policy : SudoPolicy) (b : Bool)
      → check_authorization policy username groups target_user command ≡ allowed b
      → Permit policy b
  allowed-Permit policy b h =
      Verdict-Found policy.defaults policy.rules (allowed b) b
        ((check_authorization_iff username groups target_user command policy (allowed b)).0 h) refl

  check-cons :
      (defaults : PolicyDefaults) (rule : PolicyRule) (xs ys : List PolicyRule)
      → check username groups target_user command defaults xs
        ≡ check username groups target_user command defaults ys
      → check username groups target_user command defaults (rule ∷ xs)
        ≡ check username groups target_user command defaults (rule ∷ ys)
  unfolding check_rules
  check-cons defaults rule xs ys h = ground arith

  -- A rule that neither denies nor grants can be taken out, wherever it stands.
  pub check-remove :
      (defaults : PolicyDefaults) (before : List PolicyRule) (rule : PolicyRule)
      (after : List PolicyRule)
      → PassesHere rule
      → check username groups target_user command defaults (before ++ rule ∷ after)
        ≡ check username groups target_user command defaults (before ++ after)
  check-remove defaults [] rule after p =
      Verdict-check username groups target_user command defaults (rule ∷ after) _
        (skip p (check-Verdict username groups target_user command defaults after))
  check-remove defaults (r ∷ before) rule after p =
      check-cons defaults r (before ++ rule ∷ after) (before ++ after)
        (check-remove defaults before rule after p)

  -- After rules that pass, the rest of the rules decides.
  pub check-skip :
      (defaults : PolicyDefaults) (before after : List PolicyRule)
      → All PassesHere before
      → check username groups target_user command defaults (before ++ after)
        ≡ check username groups target_user command defaults after
  check-skip defaults [] after h = refl
  check-skip defaults (rule ∷ before) after h =
      check-remove defaults [] rule (before ++ after) h.0 ∙ check-skip defaults before after h.1

-- Nobody is concerned by a rule that has neither a user nor a group.
pub orphan-Passes :
    (username : Text) (groups : List Text) (target_user command : Text) (rule : PolicyRule)
    → rule.user ≡ none
    → rule.group ≡ none
    → Passes username groups target_user command rule
orphan-Passes username groups target_user command rule u g =
    (λ d. not_concerned d.0.0, λ p. not_concerned p.0.0)
  where
    not_concerned : ¬ Concerns username groups rule
    not_concerned (inl e) = cc (e, u)
    not_concerned (inr (inl e)) = cc (e, u)
    not_concerned (inr (inr (h, e, m))) = cc (e, g)
