-- ===== src/Auth/Trace.antt =====
-- What the loop of attempts in rust-old/src/main.rs does on its way.
use mathlib.Core.Path.{subst⁻¹}
use shakti.Prelude.{
  ℕ, zero, suc, ◌+◌, ◌≤◌, ◌≡◌, refl, ap, ◌∙◌, Bool, true, false, List, [], ◌∷◌, ◌++◌, arith,
}
use shakti.Text.{Text}
use shakti.Auth.{
  Meeting, Outcome, broken, right, wrong, AuthEvent, prompt, typed, asked, wiped, sorry, attempt,
  attempt_loop, apology, authenticate_user, max_auth_attempts,
}

-- How often a password is put to the host.
abbrev pub times_asked : List AuthEvent → ℕ
times_asked [] = 0
times_asked (asked s ∷ events) = suc (times_asked events)
times_asked (e ∷ events) = times_asked events

-- Whether a password that was read is still in memory.
abbrev pub still_held : Bool → List AuthEvent → Bool
still_held held [] = held
still_held held (typed s ∷ events) = still_held true events
still_held held (wiped ∷ events) = still_held false events
still_held held (e ∷ events) = still_held held events

times_asked-append :
    (xs ys : List AuthEvent) → times_asked (xs ++ ys) ≡ times_asked xs + times_asked ys
times_asked-append [] ys = omega arith
times_asked-append (asked s ∷ xs) ys = omega (arith, times_asked-append xs ys)
times_asked-append (prompt ∷ xs) ys = times_asked-append xs ys
times_asked-append (typed s ∷ xs) ys = times_asked-append xs ys
times_asked-append (wiped ∷ xs) ys = times_asked-append xs ys
times_asked-append (sorry ∷ xs) ys = times_asked-append xs ys

still_held-append :
    (held : Bool) (xs ys : List AuthEvent)
    → still_held held (xs ++ ys) ≡ still_held (still_held held xs) ys
still_held-append held [] ys = refl
still_held-append held (asked s ∷ xs) ys = still_held-append held xs ys
still_held-append held (prompt ∷ xs) ys = still_held-append held xs ys
still_held-append held (typed s ∷ xs) ys = still_held-append true xs ys
still_held-append held (wiped ∷ xs) ys = still_held-append false xs ys
still_held-append held (sorry ∷ xs) ys = still_held-append held xs ys

attempt_trace :
    (username : Text) (m : Meeting)
    → (times_asked (attempt username m).1 ≤ 1) × (still_held false (attempt username m).1 ≡ false)
unfolding attempt
attempt_trace username m = (ground arith, ground arith)

apology_trace :
    (left : ℕ) → (times_asked (apology left) ≡ 0) × (still_held false (apology left) ≡ false)
unfolding apology
apology_trace zero = (refl, refl)
apology_trace (suc left) = (refl, refl)

module _ (username : Text) (meetings : ℕ → Meeting) where
  abbrev Careful : ℕ → List AuthEvent → Type 0
  Careful left events = (times_asked events ≤ left) × (still_held false events ≡ false)

  Careful-join :
      (left : ℕ) (first more : List AuthEvent)
      → Careful 1 first
      → Careful left more
      → Careful (suc left) (first ++ (apology left ++ more))
  Careful-join left first more (a, b) (c, d) =
      let (p, q) = apology_trace left in
      (
        omega (
          arith,
          times_asked-append first (apology left ++ more),
          times_asked-append (apology left) more,
        ),
        still_held-append false first (apology left ++ more)
            ∙ (ap (λ h. still_held h (apology left ++ more)) b
                ∙ (still_held-append false (apology left) more
                    ∙ (ap (λ h. still_held h more) q ∙ d))),
      )

  abbrev trace_of : ℕ → Outcome → List AuthEvent → List AuthEvent → List AuthEvent
  trace_of left wrong first more = first ++ (apology left ++ more)
  trace_of left broken first more = first
  trace_of left right first more = first

  trace_of-Careful :
      (left : ℕ) (o : Outcome) (first more : List AuthEvent)
      → Careful 1 first
      → Careful left more
      → Careful (suc left) (trace_of left o first more)
  trace_of-Careful left wrong first more a b = Careful-join left first more a b
  trace_of-Careful left broken first more a b = (omega (arith, a.0), a.1)
  trace_of-Careful left right first more a b = (omega (arith, a.0), a.1)

  loop-trace :
      (left i : ℕ)
      → (attempt_loop (suc left) i username meetings).1
        ≡ trace_of left
            (attempt username (meetings i)).0
            (attempt username (meetings i)).1
            (attempt_loop left (suc i) username meetings).1
  unfolding attempt_loop
  loop-trace left i = ground arith

  loop-Careful : (left i : ℕ) → Careful left (attempt_loop left i username meetings).1
  loop-Careful zero i = unfold attempt_loop in (omega arith, refl)
  loop-Careful (suc left) i = subst⁻¹ (Careful (suc left)) (loop-trace left i) (
      trace_of-Careful left (attempt username (meetings i)).0 (attempt username (meetings i)).1
        (attempt_loop left (suc i) username meetings).1 (attempt_trace username (meetings i))
        (loop-Careful left (suc i)))

  -- Whatever the terminal and the host answer, at most three passwords are put to the host, and no
  -- password that was read is left in memory at the end.
  pub authenticate_user_trace :
      (times_asked (authenticate_user username meetings).1 ≤ max_auth_attempts)
      × (still_held false (authenticate_user username meetings).1 ≡ false)
  unfolding authenticate_user
  authenticate_user_trace = loop-Careful max_auth_attempts 0
