-- ===== src/Auth/Attempts.antt =====
-- When `authenticate_user` of rust-old/src/main.rs succeeds.
use shakti.Prelude.{
  ℕ, zero, suc, ◌+◌, ◌≤◌, ◌<◌, ◌≡◌, ◌≢◌, refl, sym, ap, ◌∙◌, ◌↔◌, inl, inr, true, arith, Bool-cases,
  ◌==◌, ==_iff,
}
use shakti.Text.{Text}
use shakti.Error.{ok}
use shakti.Auth.Vouched.{Accepted, Refused, attempt-right_iff, attempt-wrong_iff}
use shakti.Auth.{
  Meeting, Outcome, broken, right, wrong, attempt, attempt_loop, authenticate_user,
  max_auth_attempts,
}

module _ (username : Text) (meetings : ℕ → Meeting) where
  abbrev pub outcome : ℕ → Outcome
  outcome i = (attempt username (meetings i)).0

  -- The first attempt, from number `i` on, that is not wrong is right, and is in reach.
  pub record RightFrom (i left : ℕ) : Type 0 where
    pub at : ℕ
    pub after : i ≤ at
    pub in_reach : at < i + left
    pub is_right : outcome at ≡ right
    pub earlier : (j : ℕ) → i ≤ j → j < at → outcome j ≡ wrong

  loop_right :
      (left i : ℕ) → outcome i ≡ right → (attempt_loop (suc left) i username meetings).0 ≡ ok true
  unfolding attempt_loop
  loop_right left i e = ground arith

  loop_broken :
      (left i : ℕ) → outcome i ≡ broken → (attempt_loop (suc left) i username meetings).0 ≢ ok true
  unfolding attempt_loop
  loop_broken left i e h = ground arith

  loop_wrong :
      (left i : ℕ)
      → outcome i ≡ wrong
      → (attempt_loop (suc left) i username meetings).0
        ≡ (attempt_loop left (suc i) username meetings).0
  unfolding attempt_loop
  loop_wrong left i e = ground arith

  earlier_lem :
      (i at : ℕ)
      → outcome i ≡ wrong
      → ((j : ℕ) → suc i ≤ j → j < at → outcome j ≡ wrong)
      → (j : ℕ) → i ≤ j
      → j < at
      → outcome j ≡ wrong
  earlier_lem i at e rest j a b = elim (Bool-cases (j == i)) [
    | inl same ↦ ap outcome ((==_iff j i).0 same) ∙ e
    | inr other ↦ rest j (ground arith) b
  ]

  step :
      (left i : ℕ) (o : Outcome)
      → outcome i ≡ o
      → ((attempt_loop left (suc i) username meetings).0 ≡ ok true → RightFrom (suc i) left)
      → (attempt_loop (suc left) i username meetings).0 ≡ ok true
      → RightFrom i (suc left)
  step left i broken e ih h = absurd (loop_broken left i e h)
  step left i right e ih h = record {
    at = i;
    after = omega arith;
    in_reach = omega arith;
    is_right = e;
    earlier = λ j a b. absurd (omega arith);
  }
  step left i wrong e ih h =
      let r = ih (sym (loop_wrong left i e) ∙ h) in
      record {
        at = r.at;
        after = omega (arith, r.after);
        in_reach = omega (arith, r.in_reach);
        is_right = r.is_right;
        earlier = earlier_lem i r.at e r.earlier;
      }

  loop→ : (left i : ℕ) → (attempt_loop left i username meetings).0 ≡ ok true → RightFrom i left
  loop→ zero i h = absurd (unfold attempt_loop in cc h)
  loop→ (suc left) i h = step left i (outcome i) refl (loop→ left (suc i)) h

  →loop : (left i : ℕ) → RightFrom i left → (attempt_loop left i username meetings).0 ≡ ok true
  →loop zero i r = absurd (omega (arith, r.after, r.in_reach))
  →loop (suc left) i r = elim (Bool-cases (r.at == i)) [
    | inl same ↦ loop_right left i (ap outcome (sym ((==_iff r.at i).0 same)) ∙ r.is_right)
    | inr other ↦
        let lt : i < r.at = ground (arith, r.after) in
        loop_wrong left i (r.earlier i (omega arith) lt)
        ∙ →loop left (suc i) (record {
          at = r.at;
          after = lt;
          in_reach = omega (arith, r.in_reach);
          is_right = r.is_right;
          earlier = λ j a b. r.earlier j (omega arith) b;
        })
  ]

  -- One of the three attempts is right, and those before it were wrong.
  pub record IsAuthenticated : Type 0 where
    pub at : ℕ
    pub in_reach : at < max_auth_attempts
    pub accepted : Accepted username (meetings at)
    pub earlier : (j : ℕ) → j < at → Refused username (meetings j)

  RightFrom→ : RightFrom 0 max_auth_attempts → IsAuthenticated
  RightFrom→ r = record {
    at = r.at;
    in_reach = omega (arith, r.in_reach);
    accepted = (attempt-right_iff username (meetings r.at)).0 r.is_right;
    earlier = λ j h. (attempt-wrong_iff username (meetings j)).0 (r.earlier j (omega arith) h);
  }

  →RightFrom : IsAuthenticated → RightFrom 0 max_auth_attempts
  →RightFrom a = record {
    at = a.at;
    after = omega arith;
    in_reach = omega (arith, a.in_reach);
    is_right = (attempt-right_iff username (meetings a.at)).1 a.accepted;
    earlier = λ j low h. (attempt-wrong_iff username (meetings j)).1 (a.earlier j h);
  }

  -- The user is authenticated exactly if in one of the three attempts a password that is not empty is
  -- read and the host accepts it, PAM where it is there and starts and `su` otherwise, and in each
  -- attempt before it a line was read that was empty or that the host did not accept. A prompt
  -- that cannot be printed or a line that cannot be read is the end.
  pub authenticate_user_iff : ((authenticate_user username meetings).0 ≡ ok true) ↔ IsAuthenticated
  unfolding authenticate_user
  authenticate_user_iff =
      (λ h. RightFrom→ (loop→ max_auth_attempts 0 h), λ a. →loop max_auth_attempts 0 (→RightFrom a))
