-- ===== src/Load/Order.antt =====
-- The order of the fragments that `load_fragments` of rust-old/src/policy.rs reads.
use mathlib.Core.Logic.{∥∥₁_elim}
use mathlib.Core.List.{Perm, Permᴰ}
use shakti.Prelude.{
  ◌≡◌, refl, sym, ap, ◌∙◌, true, ◌||◌, Option, none, some, List, [], ◌∷◌, arith, Bool-cases, inl,
  inr, if◌then◌else◌,
}
use shakti.Text.{Text}
use shakti.Load.{text_le, insert_name, sort_names, readable, is_toml, only_toml, fragment_names}

pub text_le_total : (s t : Text) → (text_le s t || text_le t s) ≡ true
unfolding text_le
text_le_total [] t = refl
text_le_total (a ∷ s) [] = refl
text_le_total (a ∷ s) (b ∷ t) = ground (arith, text_le_total s t)

text_le_antisym : (s t : Text) → text_le s t ≡ true → text_le t s ≡ true → s ≡ t
unfolding text_le
text_le_antisym [] [] h k = refl
text_le_antisym [] (b ∷ t) h k = cc
text_le_antisym (a ∷ s) [] h k = cc
text_le_antisym (a ∷ s) (b ∷ t) h k = ground (arith, text_le_antisym s t)

pub text_le_trans : (s t u : Text) → text_le s t ≡ true → text_le t u ≡ true → text_le s u ≡ true
unfolding text_le
text_le_trans [] t u h k = refl
text_le_trans (a ∷ s) [] u h k = cc
text_le_trans (a ∷ s) (b ∷ t) [] h k = cc
text_le_trans (a ∷ s) (b ∷ t) (c ∷ u) h k = ground (arith, text_le_trans s t u)

insert_comm :
    (s t : Text) (ns : List Text)
    → insert_name s (insert_name t ns) ≡ insert_name t (insert_name s ns)
unfolding insert_name
insert_comm s t [] = ground (arith, text_le_total s t, text_le_antisym s t)
insert_comm s t (n ∷ ns) = ground (
  arith,
  insert_comm s t ns,
  text_le_total s t,
  text_le_antisym s t,
  text_le_trans s t n,
  text_le_trans t s n,
  text_le_total s n,
  text_le_total t n,
)

-- What an entry adds to the names in order.
unfoldable pub place : Option Text → List Text → List Text
place none ns = ns
place (some s) ns = if is_toml s then insert_name s ns else ns

pub fragment_names-cons :
    (e : Option Text) (es : List (Option Text))
    → fragment_names (e ∷ es) ≡ place e (fragment_names es)
unfolding fragment_names place readable only_toml sort_names
fragment_names-cons none es = refl
fragment_names-cons (some s) es = elim (Bool-cases (is_toml s)) [
  | inl t ↦ ground arith
  | inr t ↦ ground arith
]

place_comm : (d e : Option Text) (ns : List Text) → place d (place e ns) ≡ place e (place d ns)
unfolding place
place_comm none e ns = refl
place_comm (some s) none ns = refl
place_comm (some s) (some t) ns = ground (arith, insert_comm s t ns)

same_names : {es ds : List (Option Text)} → Permᴰ es ds → fragment_names es ≡ fragment_names ds
same_names Permᴰ.nil = refl
same_names (Permᴰ.cons {a} {b} {l₁} {l₂} e p) =
    fragment_names-cons a l₁
    ∙ (ap (λ d. place d (fragment_names l₁)) e
        ∙ (ap (place b) (same_names p) ∙ sym (fragment_names-cons b l₂)))
same_names (Permᴰ.swap {a} {b} {a'} {b'} {l} e f) = cc (
  fragment_names-cons a (b ∷ l),
  fragment_names-cons b l,
  fragment_names-cons a' (b' ∷ l),
  fragment_names-cons b' l,
  place_comm a b (fragment_names l),
)
same_names (Permᴰ.trans p q) = same_names p ∙ same_names q

names-set : IsSet (List Text)
names-set = hlevel

-- The list of fragments does not depend on the order in which the directory gives its entries.
pub fragment_names-perm :
    {es ds : List (Option Text)} → Perm es ds → fragment_names es ≡ fragment_names ds
fragment_names-perm p = ∥∥₁_elim p (names-set _ _) same_names
