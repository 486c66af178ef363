-- ===== src/Text/Fuel.antt =====
-- The fuel of the loops in Text is enough.
use shakti.Prelude.{
  ℕ, zero, suc, ◌+◌, ◌*◌, ◌/◌, ◌%◌, ◌-◌, ◌<◌, ◌≤◌, ◌≡◌, ◌≢◌, refl, sym, ap, ◌∙◌, inl, inr, Option,
  none, some, [], ◌∷◌, length, arith, ltb, Bool-cases, Option-cases,
}
use shakti.Text.{Text, digits_of, decimal, strip_prefix, strip_rounds, trim_start_matches}

-- The number that decimal digits stand for, after those already read.
abbrev pub read_digits : ℕ → Text → ℕ
read_digits n [] = n
read_digits n (c ∷ s) = read_digits (10 * n + (c - 48)) s

digits_of_lem :
    (fuel n : ℕ) (acc : Text) → n < fuel → read_digits 0 (digits_of fuel n acc) ≡ read_digits n acc
unfolding digits_of
digits_of_lem zero n acc h = absurd (omega (arith, h))
digits_of_lem (suc fuel) n acc h = elim (Bool-cases (ltb n 10)) [
  | inl e ↦ rw (e, digits_of) (ap (λ k. read_digits k acc) (omega arith))
  | inr e ↦
      let small : n / 10 < fuel = ground (arith, e, h) in
      rw (e, digits_of)
        (digits_of_lem fuel (n / 10) ((48 + n % 10) ∷ acc) small
          ∙ ap (λ k. read_digits k acc) (omega arith))
]

-- The digits printed for a number are read as that number.
pub read_digits-decimal : (n : ℕ) → read_digits 0 (decimal n) ≡ n
unfolding decimal
read_digits-decimal n = digits_of_lem (suc n) n [] (omega arith)

-- Different numbers are printed differently.
pub decimal-injective : (m n : ℕ) → decimal m ≡ decimal n → m ≡ n
decimal-injective m n h =
    sym (read_digits-decimal m) ∙ (ap (read_digits 0) h ∙ read_digits-decimal n)

strip_prefix-length :
    (s prefix t : Text) → strip_prefix s prefix ≡ some t → length t + length prefix ≡ length s
unfolding strip_prefix
strip_prefix-length s [] t h = omega (arith, ap (λ o. length (or_empty o)) h)
  where
    or_empty : Option Text → Text
    or_empty none = []
    or_empty (some u) = u
strip_prefix-length [] (b ∷ prefix) t h = absurd (cc h)
strip_prefix-length (a ∷ s) (b ∷ prefix) t h = ground (arith, strip_prefix-length s prefix t)

strip_rounds-done :
    (n : ℕ) (s prefix : Text)
    → prefix ≢ []
    → length s ≤ n
    → strip_prefix (strip_rounds n s prefix) prefix ≡ none
unfolding strip_rounds
strip_rounds-done n s [] ne h = absurd (ne refl)
strip_rounds-done zero s (b ∷ prefix) ne h = elim (Option-cases (strip_prefix s (b ∷ prefix))) [
  | inl e ↦ e
  | inr (t, e) ↦ absurd (omega (arith, h, strip_prefix-length s (b ∷ prefix) t e))
]
strip_rounds-done (suc n) s (b ∷ prefix) ne h = elim (Option-cases (strip_prefix s (b ∷ prefix))) [
  | inl e ↦ rw (e, strip_rounds) e
  | inr (t, e) ↦
      rw (e, strip_rounds)
        (strip_rounds-done n t (b ∷ prefix) ne
          (omega (arith, h, strip_prefix-length s (b ∷ prefix) t e)))
]

-- What `trim_start_matches` returns does not begin with the prefix, unless that is empty.
pub trim_start_matches-done :
    (s prefix : Text) → prefix ≢ [] → strip_prefix (trim_start_matches s prefix) prefix ≡ none
unfolding trim_start_matches
trim_start_matches-done s prefix ne = strip_rounds-done (length s) s prefix ne (omega arith)
