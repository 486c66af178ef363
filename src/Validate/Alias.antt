-- ===== src/Validate/Alias.antt =====
-- `command_matches` of rust-old/src/validate.rs on one file under two spellings.
use shakti.Prelude.{
  ℕ, ◌≡◌, ◌≢◌, refl, sym, ap, ◌∙◌, get_or, true, false, ◌∷◌, ◌++◌, arith, inl, inr, length,
  Bool-cases,
}
use mathlib.Core.Bool.{true≢false}
use shakti.Text.{Text, codes, contains, split, starts_with}
use shakti.FilePath.{components, pieces}
use shakti.Validate.{command_matches}
use shakti.Validate.Match.{
  Matches, every, star, exact, no_args, args, in_dir, named, IsPlain, command_matches_iff,
}

-- A second slash in front names the same file.
abbrev pub respell : Text → Text
respell p = b'/' ∷ p

-- A path that is a pattern without a wildcard.
pub record IsExactPath (p : Text) : Type 0 where
  pub tail : Text
  pub absolute : p ≡ b'/' ∷ tail
  pub plain : IsPlain p
  pub no_glob : (dir : Text) → p ≢ dir ++ codes "/*"

components-slash : (t : Text) → components (b'/' ∷ b'/' ∷ t) ≡ components (b'/' ∷ t)
unfolding components pieces split starts_with
components-slash t = refl

pub components-respell : (p : Text) → IsExactPath p → components (respell p) ≡ components p
components-respell p x = rw x.absolute (components-slash x.tail)

abbrev first : Text → ℕ
first t = get_or t 0 0

not-every : (p : Text) → IsExactPath p → p ≢ codes "ALL"
not-every p x e = omega (arith, ap first x.absolute, ap first e)

not-star : (p : Text) → IsExactPath p → p ≢ codes "*"
not-star p x e = omega (arith, ap first x.absolute, ap first e)

contains-slash : (p : Text) → IsExactPath p → contains p b'/' ≡ true
unfolding contains
contains-slash p x = rw x.absolute refl

respell-ne : (p : Text) → respell p ≢ p
respell-ne p e = omega (arith, ap (length {A = ℕ}) e)

not-Matches-respell : (p : Text) → IsExactPath p → ¬ Matches (respell p) p
not-Matches-respell p x (every e) = not-every p x e
not-Matches-respell p x (star e) = not-star p x e
not-Matches-respell p x (exact e) = respell-ne p e
not-Matches-respell p x (no_args e) = x.plain (respell p) e
not-Matches-respell p x (args prefix rest e c) = x.plain prefix e
not-Matches-respell p x (in_dir dir c h e n q) = x.no_glob dir e
not-Matches-respell p x (named q plain h f) = true≢false (sym (contains-slash p x) ∙ h)

-- An absolute path without a wildcard, as a pattern, does not match the same path spelled with a
-- second slash in front, though the two are equal as paths.
pub command_matches-respell :
    (p : Text)
    → IsExactPath p
    → (components (respell p) ≡ components p) × (command_matches (respell p) p ≡ false)
command_matches-respell p x = (
  components-respell p x,
  elim (Bool-cases (command_matches (respell p) p)) [
    | inl e ↦ absurd (not-Matches-respell p x ((command_matches_iff (respell p) p).0 e))
    | inr e ↦ e
  ],
)
