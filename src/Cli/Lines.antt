-- ===== src/Cli/Lines.antt =====
-- The lines that `list_permissions` in rust-old/src/main.rs prints for one rule.
use shakti.Prelude.{
  ◌≡◌, ◌≢◌, refl, ap, ◌∙◌, ◌⊎◌, inl, inr, true, false, List, [], ◌∷◌, ◌++◌, map, is_empty,
  if◌then◌else◌, Bool-cases,
}
use shakti.Text.{Text, codes}
use shakti.Policy.{PolicyRule}
use shakti.Cli.Report.{grant_line, deny_line, rule_lines}

-- The line of a command that a rule grants.
abbrev pub GrantLine : PolicyRule → Text → Text → Type 0
GrantLine rule command line =
    ((rule.require_auth ≡ true)
      × (line ≡ codes "    (" ++ (rule.run_as ++ (codes ") " ++ command))))
    ⊎ ((rule.require_auth ≡ false)
        × (line ≡ codes "    (" ++ (rule.run_as ++ (codes ") NOPASSWD: " ++ command))))

-- The line of a pattern that a rule denies.
abbrev pub DenyLine : PolicyRule → Text → Text → Type 0
DenyLine rule command line = line ≡ codes "    (" ++ (rule.run_as ++ (codes ") DENY: " ++ command))

-- One line for each text, in order.
abbrev pub Each : (Text → Text → Type 0) → List Text → List Text → Type 0
Each R [] [] = Unit
Each R [] (line ∷ lines) = ⊥
Each R (t ∷ ts) [] = ⊥
Each R (t ∷ ts) (line ∷ lines) = R t line × Each R ts lines

-- The lines of a rule: its commands, ALL where it lists none, then its patterns, then its
-- description, where it has one.
pub record IsRule (rule : PolicyRule) (lines : List Text) : Type 0 where
  pub granted : List Text
  pub denied : List Text
  pub remarks : List Text
  pub is_lines : lines ≡ granted ++ (denied ++ remarks)
  pub is_granted :
      ((rule.commands ≡ []) × Each (GrantLine rule) (codes "ALL" ∷ []) granted)
      ⊎ ((rule.commands ≢ []) × Each (GrantLine rule) rule.commands granted)
  pub is_denied : Each (DenyLine rule) rule.deny_commands denied
  pub is_remarks :
      ((rule.description ≡ []) × (remarks ≡ []))
      ⊎ ((rule.description ≢ []) × (remarks ≡ (codes "    # " ++ rule.description) ∷ []))

Each→ :
    (R : Text → Text → Type 0) (f : Text → Text) (only : (t line : Text) → R t line → line ≡ f t)
    (ts lines : List Text)
    → Each R ts lines
    → lines ≡ map f ts
Each→ R f only [] [] h = refl
Each→ R f only [] (line ∷ lines) h = absurd h
Each→ R f only (t ∷ ts) [] h = absurd h
Each→ R f only (t ∷ ts) (line ∷ lines) h = cc (only t line h.0, Each→ R f only ts lines h.1)

→Each :
    (R : Text → Text → Type 0) (f : Text → Text) (all : (t : Text) → R t (f t)) (ts : List Text)
    → Each R ts (map f ts)
→Each R f all [] = tt
→Each R f all (t ∷ ts) = (all t, →Each R f all ts)

GrantLine→ :
    (rule : PolicyRule) (command line : Text)
    → GrantLine rule command line
    → line ≡ grant_line rule command
unfolding grant_line
GrantLine→ rule command line h = elim h [ inl (free, e) ↦ rw free e | inr (free, e) ↦ rw free e ]

→GrantLine : (rule : PolicyRule) (command : Text) → GrantLine rule command (grant_line rule command)
unfolding grant_line
→GrantLine rule command = elim (Bool-cases rule.require_auth) [
  | inl e ↦ inl (e, rw e refl)
  | inr e ↦ inr (e, rw e refl)
]

DenyLine→ :
    (rule : PolicyRule) (command line : Text)
    → DenyLine rule command line
    → line ≡ deny_line rule command
unfolding deny_line
DenyLine→ rule command line h = h

→DenyLine : (rule : PolicyRule) (command : Text) → DenyLine rule command (deny_line rule command)
unfolding deny_line
→DenyLine rule command = refl

empty-or {ℓ} :
    {A : Type ℓ} (ts : List A)
    → ((ts ≡ []) × (is_empty ts ≡ true)) ⊎ ((ts ≢ []) × (is_empty ts ≡ false))
empty-or [] = inl (refl, refl)
empty-or (t ∷ ts) = inr (λ e. absurd (cc e), refl)

empties {ℓ} : {A : Type ℓ} {ts : List A} → ts ≡ [] → is_empty ts ≡ true
empties e = ap (λ us. is_empty us) e

pub IsRule→ : (rule : PolicyRule) (lines : List Text) → IsRule rule lines → lines ≡ rule_lines rule
unfolding rule_lines
IsRule→ rule lines r =
    let granted : r.granted ≡ (
        if is_empty rule.commands
        then grant_line rule (codes "ALL") ∷ []
        else map (grant_line rule) rule.commands) =
      elim r.is_granted [
        | inl (e, each) ↦ rw (empties e) (
            Each→ (GrantLine rule) (grant_line rule) (GrantLine→ rule) (codes "ALL" ∷ []) r.granted
              each)
        | inr (full, each) ↦ elim (empty-or rule.commands) [
          | inl (e, n) ↦ absurd (full e)
          | inr (e, n) ↦ rw n (
              Each→ (GrantLine rule) (grant_line rule) (GrantLine→ rule) rule.commands r.granted
                each)
        ]
      ] in
    let denied : r.denied ≡ map (deny_line rule) rule.deny_commands =
      Each→ (DenyLine rule) (deny_line rule) (DenyLine→ rule) rule.deny_commands r.denied
        r.is_denied in
    let remarks : r.remarks
        ≡ (if is_empty rule.description then [] else (codes "    # " ++ rule.description) ∷ []) =
      elim r.is_remarks [
        | inl (e, k) ↦ rw (empties e) k
        | inr (full, k) ↦ elim (empty-or rule.description) [
          | inl (e, n) ↦ absurd (full e)
          | inr (e, n) ↦ rw n k
        ]
      ] in
    r.is_lines ∙ cc (granted, denied, remarks)

pub →IsRule : (rule : PolicyRule) → IsRule rule (rule_lines rule)
unfolding rule_lines
→IsRule rule = record {
  granted =
      if is_empty rule.commands
      then grant_line rule (codes "ALL") ∷ []
      else map (grant_line rule) rule.commands;
  denied = map (deny_line rule) rule.deny_commands;
  remarks = if is_empty rule.description then [] else (codes "    # " ++ rule.description) ∷ [];
  is_lines = refl;
  is_granted = elim (empty-or rule.commands) [
    | inl (e, n) ↦
        inl
          (e, rw n (→Each (GrantLine rule) (grant_line rule) (→GrantLine rule) (codes "ALL" ∷ [])))
    | inr (e, n) ↦
        inr (e, rw n (→Each (GrantLine rule) (grant_line rule) (→GrantLine rule) rule.commands))
  ];
  is_denied = →Each (DenyLine rule) (deny_line rule) (→DenyLine rule) rule.deny_commands;
  is_remarks = elim (empty-or rule.description) [
    | inl (e, n) ↦ inl (e, rw n refl)
    | inr (e, n) ↦ inr (e, rw n refl)
  ];
}
