-- ===== src/Auth/Vouched.antt =====
-- When one attempt of `authenticate_user` in rust-old/src/main.rs is right, and when it is wrong.
use shakti.Prelude.{
  ◌≡◌, ◌≢◌, refl, ap, ◌∙◌, ◌↔◌, ◌⊎◌, inl, inr, Bool, true, false, none, some, [], ◌∷◌, arith,
  is_empty, Bool-cases, Option-cases,
}
use shakti.Text.{Text}
use shakti.Error.{Result, ok, err}
use shakti.Auth.{
  PamRun, init_failed, answered, SuRun, spawn_failed, wait_failed, exited, Backend,
  pam_authenticate, su_authenticate, authenticate, Meeting, right, wrong, attempt, judge,
}

-- The host says yes: PAM where it is there and starts, and otherwise `su`.
abbrev pub Vouches : Backend → Text → Text → Type 0
Vouches b username password =
    ((ask : Text → Text → PamRun) × (b.pam ≡ some ask) × (ask username password ≡ answered true))
    ⊎ (((b.pam ≡ none)
          ⊎ ((ask : Text → Text → PamRun) × (b.pam ≡ some ask)
              × (ask username password ≡ init_failed)))
        × (b.su username password ≡ exited true))

su_ok :
    (b : Backend) (username password : Text)
    → (su_authenticate b username password ≡ ok true) ↔ (b.su username password ≡ exited true)
unfolding su_authenticate
su_ok b username password = go (b.su username password) refl
  where
    go :
        (r : SuRun)
        → b.su username password ≡ r
        → (su_authenticate b username password ≡ ok true) ↔ (b.su username password ≡ exited true)
    go spawn_failed e = (λ h. absurd (ground (arith, e)), λ h. absurd (cc (e, h)))
    go wait_failed e = (λ h. absurd (ground (arith, e)), λ h. absurd (cc (e, h)))
    go (exited x) e = (λ h. ground (arith, e), λ h. ground (arith, e))

authenticate_iff :
    (b : Backend) (username password : Text)
    → (authenticate b username password ≡ ok true) ↔ Vouches b username password
unfolding authenticate pam_authenticate
authenticate_iff b username password = elim (Option-cases b.pam) [
  | inl e ↦ (
    λ h. inr (inl e, (su_ok b username password).0 (ground arith)),
    λ v. elim v [
      | inl (ask, f, a) ↦ absurd (cc (e, f))
      | inr (without, a) ↦ ground (arith, (su_ok b username password).1 a)
    ],
  )
  | inr (ask, e) ↦ go ask e (ask username password) refl
]
  where
    go :
        (ask : Text → Text → PamRun)
        → b.pam ≡ some ask
        → (r : PamRun) → ask username password ≡ r
        → (authenticate b username password ≡ ok true) ↔ Vouches b username password
    go ask e init_failed f = (
      λ h. inr (inr (ask, e, f), (su_ok b username password).0 (ground arith)),
      λ v. elim v [
        | inl (other, g, a) ↦
            let same : other ≡ ask = cc (e, g) in
            absurd (cc (f, a, ap (λ w. w username password) same))
        | inr (without, a) ↦ ground (arith, (su_ok b username password).1 a)
      ],
    )
    go ask e (answered x) f = (
      λ h. inl (ask, e, f ∙ ap answered (ground (arith, h))),
      λ v. elim v [
        | inl (other, g, a) ↦
            let same : other ≡ ask = cc (e, g) in
            let yes : x ≡ true = cc (f, a, ap (λ w. w username password) same) in
            ground (arith, yes)
        | inr (inl g, a) ↦ absurd (cc (e, g))
        | inr (inr (other, g, a), y) ↦
            let same : other ≡ ask = cc (e, g) in
            absurd (cc (f, a, ap (λ w. w username password) same))
      ],
    )

judge-right : (r : Result Bool) → judge r ≡ right → r ≡ ok true
unfolding judge
judge-right (ok true) h = refl
judge-right (ok false) h = cc
judge-right (err e) h = cc

-- What makes an attempt right: the prompt is printed, a password that is not empty is read, and the
-- host accepts it.
abbrev pub Accepted : Text → Meeting → Type 0
Accepted username m =
    (password : Text) × (m.flushed ≡ true)
    × (m.line ≡ some password)
    × (password ≢ [])
    × Vouches m.backend username password

right→ : (username : Text) (m : Meeting) → (attempt username m).0 ≡ right → Accepted username m
unfolding attempt
right→ username m h = elim (Option-cases m.line) [
  | inl e ↦ absurd (ground arith)
  | inr (password, e) ↦ (
    password,
    ground arith,
    e,
    λ n. ground arith,
    (authenticate_iff m.backend username password).0
        (judge-right (authenticate m.backend username password) (ground arith)),
  )
]

→right : (username : Text) (m : Meeting) → Accepted username m → (attempt username m).0 ≡ right
unfolding attempt judge
→right username m ([], f, l, n, a) = absurd (n refl)
→right username m (c ∷ password, f, l, n, v) =
    let a = (authenticate_iff m.backend username (c ∷ password)).1 v in ground arith

-- An attempt is right exactly if the prompt is printed, a password that is not empty is read, and
-- the host accepts it.
pub attempt-right_iff :
    (username : Text) (m : Meeting) → ((attempt username m).0 ≡ right) ↔ Accepted username m
attempt-right_iff username m = (right→ username m, →right username m)

-- What makes an attempt wrong, without ending the loop: a line is read, and it is empty or the host
-- does not accept it.
abbrev pub Refused : Text → Meeting → Type 0
Refused username m =
    (password : Text) × (m.flushed ≡ true)
    × (m.line ≡ some password)
    × ((password ≡ []) ⊎ ¬ Vouches m.backend username password)

wrong→ : (username : Text) (m : Meeting) → (attempt username m).0 ≡ wrong → Refused username m
unfolding attempt
wrong→ username m h = elim (Option-cases m.line) [
  | inl e ↦ absurd (ground arith)
  | inr (password, e) ↦ (
    password,
    ground arith,
    e,
    elim (Bool-cases (is_empty password)) [
      | inl empty ↦ inl (empty_lem password empty)
      | inr full ↦
          inr
            (λ v. cc (h, →right username m (password, ground arith, e, full_lem password full, v)))
    ],
  )
]
  where
    empty_lem : (p : Text) → is_empty p ≡ true → p ≡ []
    empty_lem [] e = refl
    empty_lem (c ∷ p) e = absurd (cc e)

    full_lem : (p : Text) → is_empty p ≡ false → p ≢ []
    full_lem [] e = absurd (cc e)
    full_lem (c ∷ p) e = λ h. cc h

judge-wrong : (r : Result Bool) → r ≢ ok true → judge r ≡ wrong
unfolding judge
judge-wrong (ok true) h = absurd (h refl)
judge-wrong (ok false) h = refl
judge-wrong (err e) h = refl

→wrong : (username : Text) (m : Meeting) → Refused username m → (attempt username m).0 ≡ wrong
unfolding attempt
→wrong username m ([], f, l, r) = ground arith
→wrong username m (c ∷ password, f, l, inl e) = absurd (cc e)
→wrong username m (c ∷ password, f, l, inr n) =
    let j =
      judge-wrong (authenticate m.backend username (c ∷ password))
        (λ a. n ((authenticate_iff m.backend username (c ∷ password)).0 a)) in
    ground arith

pub attempt-wrong_iff :
    (username : Text) (m : Meeting) → ((attempt username m).0 ≡ wrong) ↔ Refused username m
attempt-wrong_iff username m = (wrong→ username m, →wrong username m)
