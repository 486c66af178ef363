-- ===== src/Cli/Listing.antt =====
-- What `list_permissions` in rust-old/src/main.rs prints, line by line.
use shakti.Prelude.{
  ◌≡◌, refl, sym, ◌∙◌, ◌↔◌, ◌⊎◌, inl, inr, true, false, List, [], ◌∷◌, ◌++◌, if◌then◌else◌, arith,
  Any, Bool-cases,
}
use shakti.Text.{Text, codes}
use shakti.Policy.{PolicyRule, SudoPolicy}
use shakti.Policy.Verdict.{Concerns, Concerns-iff}
use shakti.Cli.Report.{concerns, list_rules, list_permissions}
use shakti.Cli.Lines.{IsRule, IsRule→, →IsRule}

module _ (username : Text) (groups : List Text) where
  -- The rules in order, with the lines of those that concern the user.
  pub data Lists : List PolicyRule → List Text → Type 0 where
    ended : Lists [] []
    listed :
        {rule : PolicyRule} {rules : List PolicyRule} {lines rest : List Text}
        → Concerns username groups rule
        → IsRule rule lines
        → Lists rules rest
        → Lists (rule ∷ rules) (lines ++ rest)
    left_out :
        {rule : PolicyRule} {rules : List PolicyRule} {lines : List Text}
        → ¬ Concerns username groups rule
        → Lists rules lines
        → Lists (rule ∷ rules) lines

  -- A heading, an empty line, the lines of the rules, and `(none)` where no rule concerns the user.
  pub record IsListing (policy : SudoPolicy) (shown : List Text) : Type 0 where
    pub lines : List Text
    pub last : List Text
    pub is_shown :
        shown
        ≡ (codes "User " ++ (username ++ codes " may run the following commands on this host:"))
          ∷ []
          ∷ (lines ++ last)
    pub lists : Lists policy.rules lines
    pub is_last :
        (Any (Concerns username groups) policy.rules × (last ≡ []))
        ⊎ ((¬ Any (Concerns username groups) policy.rules) × (last ≡ codes "    (none)" ∷ []))

  concerns_iff :
      (rule : PolicyRule) → (concerns rule username groups ≡ true) ↔ Concerns username groups rule
  unfolding concerns
  concerns_iff rule = Concerns-iff username groups rule

  Lists→ :
      (rules : List PolicyRule) (lines : List Text)
      → Lists rules lines
      → lines ≡ (list_rules rules username groups).0
  unfolding list_rules
  Lists→ _ _ ended = refl
  Lists→ (rule ∷ rules) _ (listed {lines = ls} {rest} c r h) =
      rw ((concerns_iff rule).1 c, list_rules) (cc (IsRule→ rule ls r, Lists→ rules rest h))
  Lists→ (rule ∷ rules) lines (left_out c h) = elim (Bool-cases (concerns rule username groups)) [
    | inl e ↦ absurd (c ((concerns_iff rule).0 e))
    | inr e ↦ rw (e, list_rules) (Lists→ rules lines h)
  ]

  →Lists : (rules : List PolicyRule) → Lists rules (list_rules rules username groups).0
  unfolding list_rules
  →Lists [] = ended
  →Lists (rule ∷ rules) = elim (Bool-cases (concerns rule username groups)) [
    | inl e ↦ rw (e, list_rules) (listed ((concerns_iff rule).0 e) (→IsRule rule) (→Lists rules))
    | inr e ↦
        rw (e, list_rules)
          (left_out (λ c. absurd (ground (arith, e, (concerns_iff rule).1 c))) (→Lists rules))
  ]

  found-cases :
      (rules : List PolicyRule)
      → (Any (Concerns username groups) rules × ((list_rules rules username groups).1 ≡ true))
        ⊎ ((¬ Any (Concerns username groups) rules)
            × ((list_rules rules username groups).1 ≡ false))
  unfolding list_rules
  found-cases [] = inr (λ h. h, refl)
  found-cases (rule ∷ rules) = elim (Bool-cases (concerns rule username groups)) [
    | inl e ↦ inl (inl ((concerns_iff rule).0 e), rw e refl)
    | inr e ↦ elim (found-cases rules) [
      | inl (h, f) ↦ inl (inr h, rw (e, list_rules) f)
      | inr (h, f) ↦ inr (
        λ a. elim a [ inl c ↦ absurd (ground (arith, e, (concerns_iff rule).1 c)) | inr k ↦ h k ],
        rw (e, list_rules) f,
      )
    ]
  ]

  -- The listing is these lines and no others, in this order: the heading with the user's name, an
  -- empty line, then for each rule in the file's order that names the user, everybody, or one of the
  -- user's groups, a line for each of its commands, or one for ALL where it lists none, marked
  -- NOPASSWD where it asks for no password, a line for each of its patterns, marked DENY, and its
  -- description where it has one; and a last line `(none)` exactly if no rule concerns the user.
  pub list_permissions_iff :
      (policy : SudoPolicy) (shown : List Text)
      → (list_permissions policy username groups ≡ shown) ↔ IsListing policy shown
  unfolding list_permissions
  list_permissions_iff policy shown = (
    λ e. record {
      lines = (list_rules policy.rules username groups).0;
      last = if (list_rules policy.rules username groups).1 then [] else codes "    (none)" ∷ [];
      is_shown = sym e;
      lists = →Lists policy.rules;
      is_last = elim (found-cases policy.rules) [
        | inl (h, f) ↦ inl (h, rw f refl)
        | inr (h, f) ↦ inr (h, rw f refl)
      ];
    },
    λ l.
        let lines = Lists→ policy.rules l.lines l.lists in
        let last : l.last ≡ (
            if (list_rules policy.rules username groups).1 then [] else codes "    (none)" ∷ []) =
          elim (found-cases policy.rules) [
            | inl (h, f) ↦ elim l.is_last [ inl (k, e) ↦ rw f e | inr (k, e) ↦ absurd (k h) ]
            | inr (h, f) ↦ elim l.is_last [ inl (k, e) ↦ absurd (h k) | inr (k, e) ↦ rw f e ]
          ] in
        sym (l.is_shown ∙ cc (lines, last)),
  )
