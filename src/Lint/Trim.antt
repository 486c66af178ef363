-- ===== src/Lint/Trim.antt =====
-- `trim_end_matches`, which the linter in rust-old/src/policy.rs calls, and its rounds.
use shakti.Prelude.{
  ℕ, zero, suc, ◌≤◌, ◌≡◌, ◌≢◌, refl, ap, none, some, [], ◌∷◌, arith, length, length-append,
  Option-cases, inl, inr,
}
use shakti.Text.{Text, strip_suffix}
use shakti.Text.Laws.{strip_suffix_iff}
use shakti.Lint.{trim_rounds, trim_end_matches}

shorter :
    (s suffix t : Text) → suffix ≢ [] → strip_suffix s suffix ≡ some t → suc (length t) ≤ length s
shorter s [] t n h = absurd (n refl)
shorter s (c ∷ suffix) t n h = omega (
  arith,
  ap (length {A = ℕ}) ((strip_suffix_iff s (c ∷ suffix) t).0 h),
  length-append {0} t (c ∷ suffix),
)

trim_rounds-done :
    (n : ℕ) (s suffix : Text)
    → suffix ≢ []
    → length s ≤ n
    → strip_suffix (trim_rounds n s suffix) suffix ≡ none
unfolding trim_rounds
trim_rounds-done zero s suffix ne h = elim (Option-cases (strip_suffix s suffix)) [
  | inl e ↦ e
  | inr (t, e) ↦ absurd (omega (arith, shorter s suffix t ne e))
]
trim_rounds-done (suc n) s suffix ne h = elim (Option-cases (strip_suffix s suffix)) [
  | inl e ↦ ground arith
  | inr (t, e) ↦ ground (arith, trim_rounds-done n t suffix ne, shorter s suffix t ne e)
]

-- What `trim_end_matches` returns does not end in the suffix, unless that is empty.
pub trim_end_matches-done :
    (s suffix : Text) → suffix ≢ [] → strip_suffix (trim_end_matches s suffix) suffix ≡ none
unfolding trim_end_matches
trim_end_matches-done s suffix ne = trim_rounds-done (length s) s suffix ne (omega arith)
