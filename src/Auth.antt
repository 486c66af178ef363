-- ===== src/Auth.antt =====
-- rust-old/src/auth.rs, and the loop of attempts in rust-old/src/main.rs. PAM, `su` and the terminal
-- are not code of the repository: what they answer is an argument, which may differ from one
-- attempt to the next.
pub mod Vouched
pub mod Attempts
pub mod Trace
pub mod Console
use shakti.Prelude.{
  ℕ, zero, suc, ◌+◌, ◌-◌, Bool, true, false, not, Option, none, some, List, [], ◌∷◌, ◌++◌, is_empty,
  ltb, if◌then◌else◌,
}
use shakti.Text.{Text}
use shakti.Error.{
  Error, Result, ok, err, cannot_spawn_su, cannot_wait_for_su, pam_unavailable, read_failed,
}

-- `Authenticator::with_password` fails, or `authenticate` answers.
pub data PamRun : Type 0 where
  init_failed : PamRun
  answered : Bool → PamRun

-- `spawn` fails, `wait` fails, or the child exits, with success or without.
pub data SuRun : Type 0 where
  spawn_failed wait_failed : SuRun
  exited : Bool → SuRun

-- What the host does with a user name and a password. `pam` is absent where the program is built
-- without that feature.
pub record Backend : Type 0 where
  pub pam : Option (Text → Text → PamRun)
  pub su : Text → Text → SuRun

unfoldable pub pam_authenticate : PamRun → Result Bool
pam_authenticate init_failed = err pam_unavailable
pam_authenticate (answered b) = ok b

unfoldable pub su_authenticate : Backend → Text → Text → Result Bool
su_authenticate b username password = elim (b.su username password) [
  | spawn_failed ↦ err cannot_spawn_su
  | wait_failed ↦ err cannot_wait_for_su
  | exited success ↦ ok success
]

unfoldable pub authenticate : Backend → Text → Text → Result Bool
unfolding pam_authenticate su_authenticate
authenticate b username password = elim b.pam [
  | none ↦ su_authenticate b username password
  | some run ↦ elim (pam_authenticate (run username password)) [
    | ok result ↦ ok result
    | err e ↦ su_authenticate b username password
  ]
]

abbrev pub max_auth_attempts : ℕ
max_auth_attempts = 3

-- What the loop does, in order. `wiped` is `password.zeroize()`.
pub data AuthEvent : Type 0 where
  prompt : AuthEvent
  typed : Text → AuthEvent
  asked : Text → AuthEvent
  wiped : AuthEvent
  sorry : AuthEvent

-- What one attempt meets: whether the prompt can be flushed, the line that `read_password` returns
-- (an error is `none`, the end of the input an empty line), and the host.
pub record Meeting : Type 0 where
  pub flushed : Bool
  pub line : Option Text
  pub backend : Backend

-- What the loop does after an attempt.
pub data Outcome : Type 0 where
  broken : Outcome
  right : Outcome
  wrong : Outcome

unfoldable pub judge : Result Bool → Outcome
judge (ok true) = right
judge (ok false) = wrong
judge (err e) = wrong

-- One attempt up to the test that ends it.
unfoldable pub attempt : Text → Meeting → Outcome × List AuthEvent
unfolding judge
attempt username m =
    if m.flushed
    then elim m.line [
      | none ↦ (broken, prompt ∷ [])
      | some password ↦
          if is_empty password then (wrong, prompt ∷ typed password ∷ wiped ∷ []) else (
            judge (authenticate m.backend username password),
            prompt ∷ typed password ∷ asked password ∷ wiped ∷ [],
          )
    ]
    else (broken, prompt ∷ [])

-- "Sorry, try again." is printed where another attempt follows.
unfoldable pub apology : ℕ → List AuthEvent
apology zero = []
apology (suc left) = sorry ∷ []

-- The loop: `left` attempts, of which the next is number `i`.
unfoldable pub attempt_loop : ℕ → ℕ → Text → (ℕ → Meeting) → Result Bool × List AuthEvent
attempt_loop zero i username meetings = (ok false, [])
attempt_loop (suc left) i username meetings =
    let (outcome, events) = attempt username (meetings i) in
    let (answer, more) = attempt_loop left (suc i) username meetings in
    elim outcome [
      | broken ↦ (err read_failed, events)
      | right ↦ (ok true, events)
      | wrong ↦ (answer, events ++ (apology left ++ more))
    ]

unfoldable pub authenticate_user : Text → (ℕ → Meeting) → Result Bool × List AuthEvent
authenticate_user username meetings = attempt_loop max_auth_attempts 0 username meetings
