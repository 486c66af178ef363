-- ===== src/Auth/Console.antt =====
-- `authenticate_user` of rust-old/src/main.rs on the terminal itself: each attempt leaves the terminal
-- that the next one meets. The loop of Auth is what is left of this one when the terminal is replaced
-- by the lines that are read from it.
use shakti.Prelude.{
  ℕ, zero, suc, ◌≡◌, refl, inl, inr, ◌⊎◌, Bool, true, false, Option, none, some, List, [], ◌∷◌,
  ◌++◌, arith, is_empty, Bool-cases, if◌then◌else◌,
}
use shakti.Text.{Text}
use shakti.Error.{Result, ok, err, read_failed, Answer-cases}
use shakti.Auth.{
  Backend, AuthEvent, prompt, typed, asked, wiped, Meeting, Outcome, broken, right, wrong, judge,
  authenticate, attempt, apology, attempt_loop, max_auth_attempts, authenticate_user,
}
use shakti.Terminal.{Terminal, read_password}
use shakti.Terminal.Restored.{read_password-restores}

-- The rest of an attempt, once the password is read or is not.
unfoldable pub with_password : Backend → Text → Result Text → Outcome × List AuthEvent
with_password b username (err e) = (broken, prompt ∷ [])
with_password b username (ok password) =
    if is_empty password then (wrong, prompt ∷ typed password ∷ wiped ∷ []) else (
      judge (authenticate b username password),
      prompt ∷ typed password ∷ asked password ∷ wiped ∷ [],
    )

-- What the attempts meet beside the terminal: whether the prompt can be flushed, and the host.
pub record Surround : Type 0 where
  pub flushed : Bool
  pub backend : Backend

Outcome-cases : (o : Outcome) → (o ≡ broken) ⊎ ((o ≡ right) ⊎ (o ≡ wrong))
Outcome-cases broken = inl refl
Outcome-cases right = inr (inl refl)
Outcome-cases wrong = inr (inr refl)

module _ (term : Terminal) (around : ℕ → Surround) (username : Text) where
  open term use {State, Termios, tcgetattr, tcsetattr}

  unfoldable pub console_attempt : ℕ → State → (Outcome × List AuthEvent) × State
  console_attempt i s =
      let (read, t) = read_password term s in
      if (around i).flushed
      then (with_password (around i).backend username read, t)
      else ((broken, prompt ∷ []), s)

  unfoldable pub console_loop : ℕ → ℕ → State → (Result Bool × List AuthEvent) × State
  console_loop zero i s = ((ok false, []), s)
  console_loop (suc left) i s =
      let ((outcome, events), t) = console_attempt i s in
      let ((answer, more), u) = console_loop left (suc i) t in
      elim outcome [
        | broken ↦ ((err read_failed, events), t)
        | right ↦ ((ok true, events), t)
        | wrong ↦ ((answer, events ++ (apology left ++ more)), u)
      ]

  unfoldable pub authenticate_on : State → (Result Bool × List AuthEvent) × State
  authenticate_on s = console_loop max_auth_attempts 0 s

  -- The line that an attempt reads, where the errors of reading are one.
  abbrev pub line_of : Result Text → Option Text
  line_of (ok s) = some s
  line_of (err e) = none

  -- The terminal before an attempt, where each before it has read a line.
  unfoldable pub state_at : State → ℕ → State
  state_at s zero = s
  state_at s (suc i) = (read_password term (state_at s i)).1

  -- What the attempts meet on a terminal.
  abbrev pub meetings_on : State → ℕ → Meeting
  meetings_on s i = record {
    flushed = (around i).flushed;
    line = line_of (read_password term (state_at s i)).0;
    backend = (around i).backend;
  }

  console_attempt-attempt :
      (s : State) (i : ℕ)
      → (console_attempt i (state_at s i)).0 ≡ attempt username (meetings_on s i)
  unfolding console_attempt with_password attempt
  console_attempt-attempt s i = elim (Bool-cases (around i).flushed) [
    | inr e ↦ rw e refl
    | inl e ↦ elim (Answer-cases (read_password term (state_at s i)).0) [
      | inl (password, r) ↦ rw (e, r) refl
      | inr (x, r) ↦ rw (e, r) refl
    ]
  ]

  -- Where the prompt is printed, the attempt leaves the terminal as reading does.
  console_attempt-state :
      (s : State) (i : ℕ)
      → (around i).flushed ≡ true
      → (console_attempt i (state_at s i)).1 ≡ state_at s (suc i)
  unfolding console_attempt state_at
  console_attempt-state s i e = rw e refl

  unflushed :
      (s : State) (i : ℕ)
      → (around i).flushed ≡ false
      → (console_attempt i (state_at s i)).0 ≡ (broken, prompt ∷ [])
  unfolding console_attempt
  unflushed s i e = rw e refl

  console_loop-attempt_loop :
      (left i : ℕ) (s : State)
      → (console_loop left i (state_at s i)).0 ≡ attempt_loop left i username (meetings_on s)
  unfolding console_loop attempt_loop
  console_loop-attempt_loop zero i s = refl
  console_loop-attempt_loop (suc left) i s = elim (Bool-cases (around i).flushed) [
    | inl e ↦ ground (
      arith,
      console_attempt-attempt s i,
      console_attempt-state s i e,
      console_loop-attempt_loop left (suc i) s,
    )
    | inr e ↦ ground (arith, console_attempt-attempt s i, unflushed s i e)
  ]

  module _ (a : Termios) (can : (t : State) → (u : State) × (tcsetattr t a ≡ some u)) where
    attempt-settings :
        (i : ℕ) (s : State) → tcgetattr s ≡ some a → tcgetattr (console_attempt i s).1 ≡ some a
    unfolding console_attempt
    attempt-settings i s e = elim (Bool-cases (around i).flushed) [
      | inl f ↦ rw f (read_password-restores term s a e can).0
      | inr f ↦ rw f e
    ]

    loop-settings :
        (left i : ℕ) (s : State)
        → tcgetattr s ≡ some a
        → tcgetattr (console_loop left i s).1 ≡ some a
    unfolding console_loop
    loop-settings zero i s e = e
    loop-settings (suc left) i s e =
        let h = attempt-settings i s e in
        let later = loop-settings left (suc i) (console_attempt i s).1 h in
        elim (Outcome-cases (console_attempt i s).0.0) [
          | inl o ↦ rw (o, console_loop) h
          | inr rest ↦ elim rest [
            | inl o ↦ rw (o, console_loop) h
            | inr o ↦ rw (o, console_loop) later
          ]
        ]

  -- On a terminal the loop answers and does what it does on the lines read there, each attempt on the
  -- terminal that the one before has left; and where the settings can be read and can always be set
  -- back, they are at the end what they were at the start, whichever way the loop ends.
  pub authenticate_on-refines :
      (s : State) (a : Termios)
      → tcgetattr s ≡ some a
      → ((t : State) → (u : State) × (tcsetattr t a ≡ some u))
      → ((authenticate_on s).0 ≡ authenticate_user username (meetings_on s))
        × (tcgetattr (authenticate_on s).1 ≡ some a)
  unfolding authenticate_on authenticate_user state_at
  authenticate_on-refines s a e can =
      (console_loop-attempt_loop max_auth_attempts 0 s, loop-settings a can max_auth_attempts 0 s e)
