-- ===== src/FilePath/Extension.antt =====
-- `path.extension()`: what follows the last dot of a name that does not begin with it.
use shakti.Prelude.{
  ◌≡◌, ◌≢◌, refl, subst, sym, ap, ◌∙◌, ◌↔◌, ◌⊎◌, inl, inr, Option, none, some, [], ◌∷◌, ◌++◌, arith,
}
use shakti.Text.{Text, contains}
use shakti.Text.Laws.{Absent}
use shakti.FilePath.{rsplit_dot, extension_of, extension}

rsplit-none : (s : Text) → rsplit_dot s ≡ none → Absent b'.' s
unfolding rsplit_dot contains
rsplit-none [] h = refl
rsplit-none (a ∷ s) h = ground (arith, rsplit-none s)

none-rsplit : (s : Text) → Absent b'.' s → rsplit_dot s ≡ none
unfolding rsplit_dot contains
none-rsplit [] h = refl
none-rsplit (a ∷ s) h = ground (arith, none-rsplit s)

parts : (o : Option (Text × Text)) → (o ≡ none) ⊎ ((b : Text) × (e : Text) × (o ≡ some (b, e)))
parts none = inl refl
parts (some (b, e)) = inr (b, e, refl)

rsplit-some : (s b e : Text) → rsplit_dot s ≡ some (b, e) → (s ≡ b ++ b'.' ∷ e) × Absent b'.' e
unfolding rsplit_dot
rsplit-some [] b e h = absurd (cc h)
rsplit-some (a ∷ s) b e h = elim (parts (rsplit_dot s)) [
  | inl n ↦ ground (arith, rsplit-none s n)
  | inr (c, d, k) ↦
      let longer : rsplit_dot (a ∷ s) ≡ some (a ∷ c, d) = rw k refl in
      let whole = sym longer ∙ h in
      let again = rsplit-some s c d k in
      let front : a ∷ c ≡ b = cc whole in
      let back : d ≡ e = cc whole in
      (
        ap (λ t. a ∷ t) again.0 ∙ (ap (λ t. t ++ b'.' ∷ d) front ∙ ap (λ t. b ++ b'.' ∷ t) back),
        subst (λ t. Absent b'.' t) back again.1,
      )
]

some-rsplit : (b e : Text) → Absent b'.' e → rsplit_dot (b ++ b'.' ∷ e) ≡ some (b, e)
unfolding rsplit_dot
some-rsplit [] e h = rw (none-rsplit e h) refl
some-rsplit (a ∷ b) e h = rw (some-rsplit b e h) refl

extension-parts :
    (o : Option (Text × Text)) (e : Text)
    → extension_of o ≡ some e
    → (b : Text) × (b ≢ []) × (o ≡ some (b, e))
extension-parts none e h = absurd (cc h)
extension-parts (some ([], d)) e h = absurd (cc h)
extension-parts (some (a ∷ b, d)) e h = (a ∷ b, λ n. absurd (cc n), cc h)

stemmed : (b e : Text) → b ≢ [] → Absent b'.' e → extension (b ++ b'.' ∷ e) ≡ some e
unfolding extension
stemmed [] e full absent = absurd (full refl)
stemmed (a ∷ b) e full absent = rw (some-rsplit (a ∷ b) e absent) refl

-- A name has an extension exactly if it is some text, a dot, and the extension, which has no dot.
pub extension_iff :
    (name e : Text)
    → (extension name ≡ some e)
      ↔ ((stem : Text) × (stem ≢ []) × Absent b'.' e × (name ≡ stem ++ b'.' ∷ e))
unfolding extension
extension_iff name e = (
  λ h.
      let (b, full, k) = extension-parts (rsplit_dot name) e h in
      let (same, absent) = rsplit-some name b e k in (b, full, absent, same),
  λ (b, full, absent, same). ap extension same ∙ stemmed b e full absent,
)
