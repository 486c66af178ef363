-- ===== src/Error.antt =====
-- `anyhow::Result`: a value, or an error with its message. An error is the call of `bail!` or
-- `with_context` that made it, with the values that its message shows.
use shakti.Prelude.{ℕ, ◌≡◌, refl, ◌⊎◌, inl, inr, Bool, true, false}
use shakti.Text.{Text}

pub data Error : Type 0 where
  -- rust-old/src/validate.rs
  empty_username path_traversal_username : Error
  no_command_specified null_byte_argument empty_command_name : Error
  command_too_long : ℕ → ℕ → Error
  shell_metacharacter not_executable relative_path not_in_path : Text → Error
  -- rust-old/src/policy.rs
  policy_not_found include_not_directory : Text → Error
  cannot_stat failed_to_read failed_to_read_dir failed_to_parse : Text → Error
  not_owned_by_root world_writable : Text → ℕ → Error
  -- rust-old/src/timestamp.rs
  cannot_create_dir cannot_set_permissions cannot_open_timestamp : Text → Error
  timestamp_is_symlink cannot_remove_timestamp : Text → Error
  -- rust-old/src/auth.rs
  cannot_spawn_su cannot_wait_for_su pam_unavailable : Error
  -- rust-old/src/api.rs
  authorization_denied : Text → Error
  timestamp_expired : Error
  -- rust-old/src/main.rs
  missing_username missing_policy_path : Error
  unknown_option : Text → Error
  caller_unknown : ℕ → Error
  target_not_found : Text → Error
  user_lookup_failed read_failed : Error
  permission_denied policy_has_errors : Error
  incorrect_password_attempts : ℕ → Error
  target_contains_null : Error
  exec_failed : Text → Error

pub data Result {ℓ} (A : Type ℓ) : Type ℓ where
  ok : A → Result A
  err : Error → Result A

-- `if test { bail!(..) }`
abbrev pub bail_if : Bool → Error → Result (Unit {0})
bail_if true e = err e
bail_if false e = ok tt

-- `let a = step?;`
infixl 5 ◌>>=◌
abbrev pub ◌>>=◌ {ℓ κ} :
    {A : Type ℓ} {B : Type κ} (step : Result A) (next : A → Result B) → Result B
err e >>= next = err e
ok a >>= next = next a

-- `check?;`, a check that has no value.
infixl 5 ◌>>◌
abbrev pub ◌>>◌ {ℓ} : {B : Type ℓ} (check : Result (Unit {0})) (next : Result B) → Result B
check >> next = check >>= λ done. next

-- A chain that succeeds has made its first step.
pub >>=-eq-ok {ℓ κ} :
    {A : Type ℓ} {B : Type κ} (step : Result A) (next : A → Result B) {b : B}
    → (step >>= next) ≡ ok b
    → (a : A) × (step ≡ ok a) × (next a ≡ ok b)
>>=-eq-ok (err e) next done = cc
>>=-eq-ok (ok a) next done = (a, refl, done)

pub bail_if-eq-ok : (b : Bool) (e : Error) (u : Unit {0}) → bail_if b e ≡ ok u → b ≡ false
bail_if-eq-ok true e u h = cc
bail_if-eq-ok false e u h = refl

-- A check passes, or fails with its error.
pub Result-cases : (r : Result (Unit {0})) → (r ≡ ok tt) ⊎ ((e : Error) × (r ≡ err e))
Result-cases (ok u) = inl refl
Result-cases (err e) = inr (e, refl)

pub Answer-cases {ℓ} :
    {A : Type ℓ} (r : Result A) → ((a : A) × (r ≡ ok a)) ⊎ ((e : Error) × (r ≡ err e))
Answer-cases (ok a) = inl (a, refl)
Answer-cases (err e) = inr (e, refl)
