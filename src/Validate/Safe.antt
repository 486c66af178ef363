-- ===== src/Validate/Safe.antt =====
-- What `validate_username` and `validate_command` of rust-old/src/validate.rs accept.
use shakti.Prelude.{
  ℕ, ◌≤◌, ◌≡◌, ◌≢◌, refl, ◌↔◌, List, [], ◌∷◌, arith, All, any, any-false_iff, false,
}
use shakti.Text.{Text, codes, contains}
use shakti.Text.Laws.{text_eq_iff, Absent}
use shakti.FilePath.{normal, components}
use shakti.FilePath.Names.{components-name_iff}
use shakti.Error.{ok}
use shakti.Validate.{validate_username, validate_command, total_len, is_meta}

validate_username_cases :
    (user : Text)
    → (validate_username user ≡ ok tt)
      ↔ ((user ≢ []) × Absent b'/' user × Absent 0 user × (user ≢ codes ".") × (user ≢ codes ".."))
unfolding validate_username
validate_username_cases [] = (λ h. absurd (cc h), λ h. absurd (h.0 refl))
validate_username_cases (a ∷ user) = (
  λ h. (
    λ e. cc e,
    ground arith,
    ground arith,
    ground (arith, text_eq_iff (a ∷ user) (codes ".")),
    ground (arith, text_eq_iff (a ∷ user) (codes "..")),
  ),
  λ h. ground (arith, text_eq_iff (a ∷ user) (codes "."), text_eq_iff (a ∷ user) (codes "..")),
)

-- A user name is accepted exactly if, as a path, it is the one component that it spells, and it
-- holds no null byte.
pub validate_username_iff :
    (user : Text)
    → (validate_username user ≡ ok tt)
      ↔ ((components user ≡ normal user ∷ []) × (contains user 0 ≡ false))
validate_username_iff user = (
  λ h.
      let (n, slash, nul, d, dd) = (validate_username_cases user).0 h in
      ((components-name_iff user).1 (slash, n, d, dd), nul),
  λ (c, nul).
      let (slash, n, d, dd) = (components-name_iff user).0 c in
      (validate_username_cases user).1 (n, slash, nul, d, dd),
)

-- The command line that passes every test.
pub record IsValid (args : List Text) (max_len : ℕ) : Type 0 where
  pub cmd : Text
  pub rest : List Text
  pub is_args : args ≡ cmd ∷ rest
  pub short : total_len args ≤ max_len
  pub no_null : All (Absent 0) args
  pub named : cmd ≢ []
  pub no_meta : All (λ c. is_meta c ≡ false) cmd

validate_command→ :
    (args : List Text) (max_len : ℕ) → validate_command args max_len ≡ ok tt → IsValid args max_len
unfolding validate_command
validate_command→ [] max_len h = absurd (cc)
validate_command→ (cmd ∷ rest) max_len h = record {
  cmd = cmd;
  rest = rest;
  is_args = refl;
  short = ground arith;
  no_null = (any-false_iff (λ arg. contains arg 0) (cmd ∷ rest)).0 (ground arith);
  named = ground arith;
  no_meta = (any-false_iff is_meta cmd).0 (ground arith);
}

→validate_command :
    (cmd : Text) (rest : List Text) (max_len : ℕ)
    → total_len (cmd ∷ rest) ≤ max_len
    → any (λ arg. contains arg 0) (cmd ∷ rest) ≡ false
    → cmd ≢ []
    → any is_meta cmd ≡ false
    → validate_command (cmd ∷ rest) max_len ≡ ok tt
unfolding validate_command
→validate_command cmd rest max_len short no_null named no_meta = ground arith

-- A command line is accepted exactly if it is not empty, its bytes with one separator for each
-- argument fit the limit, no argument holds a null byte, and the command's name is not empty and
-- holds no shell metacharacter.
pub validate_command_iff :
    (args : List Text) (max_len : ℕ)
    → (validate_command args max_len ≡ ok tt) ↔ IsValid args max_len
validate_command_iff args max_len = (
  validate_command→ args max_len,
  λ v.
      let short = rw v.is_args at v.short in
      let no_null = rw v.is_args at v.no_null in
      rw v.is_args (
        →validate_command v.cmd v.rest max_len short
          ((any-false_iff (λ arg. contains arg 0) (v.cmd ∷ v.rest)).1 no_null) v.named
          ((any-false_iff is_meta v.cmd).1 v.no_meta)),
)
