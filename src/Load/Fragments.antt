-- ===== src/Load/Fragments.antt =====
-- What the list of fragments that `load_fragments` of rust-old/src/policy.rs reads holds.
use mathlib.Core.List.{Perm}
use mathlib.Core.List.Perm
use shakti.Prelude.{
  ◌≡◌, ◌≢◌, refl, sym, subst, ap, ◌∙◌, ◌↔◌, ◌⊎◌, true, false, Option, none, some, List, [], ◌∷◌,
  ◌++◌, arith, All, Any, All-map, Bool-cases, inl, inr,
}
use shakti.Text.{Text, codes, contains, text_eq}
use shakti.Text.Laws.{Absent, text_eq_iff}
use shakti.FilePath.{extension}
use shakti.FilePath.Extension.{extension_iff}
use shakti.Load.{text_le, insert_name, sort_names, readable, is_toml, only_toml, fragment_names}
use shakti.Load.Order.{place, text_le_total, text_le_trans, fragment_names-cons}

-- In order, each name before those that follow it.
abbrev pub IsSorted : List Text → Type 0
IsSorted [] = Unit
IsSorted (s ∷ ss) = All (λ t. text_le s t ≡ true) ss × IsSorted ss

insert-All :
    (s t : Text) (ns : List Text)
    → text_le s t ≡ true
    → All (λ u. text_le s u ≡ true) ns
    → All (λ u. text_le s u ≡ true) (insert_name t ns)
unfolding insert_name
insert-All s t [] h k = (h, tt)
insert-All s t (n ∷ ns) h k = elim (Bool-cases (text_le t n)) [
  | inl e ↦ rw e (h, k)
  | inr e ↦ rw (e, insert_name) (k.0, insert-All s t ns h k.1)
]

insert-IsSorted : (s : Text) (ns : List Text) → IsSorted ns → IsSorted (insert_name s ns)
unfolding insert_name
insert-IsSorted s [] h = (tt, tt)
insert-IsSorted s (n ∷ ns) h = elim (Bool-cases (text_le s n)) [
  | inl e ↦ rw e ((e, All-map (λ u k. text_le_trans s n u e k) ns h.0), h)
  | inr e ↦
      rw (e, insert_name)
        (insert-All n s ns (ground (arith, text_le_total s n)) h.0, insert-IsSorted s ns h.1)
]

sort-IsSorted : (ss : List Text) → IsSorted (sort_names ss)
unfolding sort_names
sort-IsSorted [] = tt
sort-IsSorted (s ∷ ss) = insert-IsSorted s (sort_names ss) (sort-IsSorted ss)

insert_perm : (s : Text) (ns : List Text) → Perm (insert_name s ns) (s ∷ ns)
unfolding insert_name
insert_perm s [] = Perm.refl (s ∷ [])
insert_perm s (n ∷ ns) = elim (Bool-cases (text_le s n)) [
  | inl e ↦ rw e (Perm.refl (s ∷ n ∷ ns))
  | inr e ↦ rw (e, insert_name) (Perm.trans (Perm.cons n (insert_perm s ns)) (Perm.swap s n ns))
]

sort-perm : (ss : List Text) → Perm (sort_names ss) ss
unfolding sort_names
sort-perm [] = Perm.refl []
sort-perm (s ∷ ss) = Perm.trans (insert_perm s (sort_names ss)) (Perm.cons s (sort-perm ss))

-- Some text, and `.toml` after it.
abbrev pub IsFragment : Text → Type 0
IsFragment name = (stem : Text) × (stem ≢ []) × (name ≡ stem ++ codes ".toml")

some_iff :
    (o : Option Text) (t : Text)
    → (elim o [ none ↦ false | some e ↦ text_eq e t ] ≡ true) ↔ (o ≡ some t)
some_iff none t = (λ h. absurd (cc h), λ h. absurd (cc h))
some_iff (some e) t =
    (λ h. ap (λ x. some x) ((text_eq_iff e t).0 h), λ h. (text_eq_iff e t).1 (cc h))

toml_iff : (name : Text) → (is_toml name ≡ true) ↔ (extension name ≡ some (codes "toml"))
unfolding is_toml
toml_iff name = some_iff (extension name) (codes "toml")

dotless : Absent b'.' (codes "toml")
unfolding contains
dotless = refl

is_toml_iff : (name : Text) → (is_toml name ≡ true) ↔ IsFragment name
is_toml_iff name =
    let (to, from) = toml_iff name in
    let (out, back) = extension_iff name (codes "toml") in
    (
      λ t. let (stem, full, _, same) = out (to t) in (stem, full, same),
      λ (stem, full, same). from (back (stem, full, dotless, same)),
    )

abbrev pub Among : Text → List Text → Type 0
Among name ns = Any (λ n. n ≡ name) ns

swap_iff :
    {A B C D : Type 0} → (A → B ⊎ C) → (B ⊎ C → A) → (D ⊎ A → B ⊎ (D ⊎ C)) × (B ⊎ (D ⊎ C) → D ⊎ A)
swap_iff to from = (
  λ h. elim h [ inl d ↦ inr (inl d) | inr a ↦ elim (to a) [ inl b ↦ inl b | inr c ↦ inr (inr c) ] ],
  λ h. elim h [
    | inl b ↦ inr (from (inl b))
    | inr k ↦ elim k [ inl d ↦ inl d | inr c ↦ inr (from (inr c)) ]
  ],
)

insert_iff :
    (name s : Text) (ns : List Text) → Among name (insert_name s ns) ↔ ((s ≡ name) ⊎ Among name ns)
unfolding insert_name
insert_iff name s [] = (λ h. h, λ h. h)
insert_iff name s (n ∷ ns) = elim (Bool-cases (text_le s n)) [
  | inl e ↦ rw e (λ h. h, λ h. h)
  | inr e ↦ let (to, from) = insert_iff name s ns in rw (e, insert_name) (swap_iff to from)
]

no_names : fragment_names [] ≡ []
unfolding fragment_names readable only_toml sort_names
no_names = refl

place→ :
    (name : Text) (e : Option Text) (ns : List Text)
    → Among name (place e ns)
    → ((e ≡ some name) × (is_toml name ≡ true)) ⊎ Among name ns
unfolding place
place→ name none ns h = inr h
place→ name (some s) ns h = elim (Bool-cases (is_toml s)) [
  | inr f ↦ inr (subst (Among name) (rw f refl) h)
  | inl t ↦ elim ((insert_iff name s ns).0 (subst (Among name) (rw t refl) h)) [
    | inl same ↦ inl (ap (λ x. some x) same, ap is_toml (sym same) ∙ t)
    | inr later ↦ inr later
  ]
]

→place-named :
    (name : Text) (e : Option Text) (ns : List Text)
    → e ≡ some name
    → is_toml name ≡ true
    → Among name (place e ns)
unfolding place
→place-named name e ns same t = rw (same, place) (rw t ((insert_iff name name ns).1 (inl refl)))

→place-later :
    (name : Text) (e : Option Text) (ns : List Text) → Among name ns → Among name (place e ns)
unfolding place
→place-later name none ns h = h
→place-later name (some s) ns h = elim (Bool-cases (is_toml s)) [
  | inr f ↦ rw f h
  | inl t ↦ rw t ((insert_iff name s ns).1 (inr h))
]

abbrev pub Given : Text → List (Option Text) → Type 0
Given name es = Any (λ e. e ≡ some name) es

named→ :
    (name : Text) (es : List (Option Text))
    → Among name (fragment_names es)
    → Given name es × (is_toml name ≡ true)
named→ name [] h = absurd (subst (Among name) no_names h)
named→ name (e ∷ es) h =
    elim (place→ name e (fragment_names es) (subst (Among name) (fragment_names-cons e es) h)) [
      | inl (same, t) ↦ (inl same, t)
      | inr later ↦ let (given, t) = named→ name es later in (inr given, t)
    ]

→named :
    (name : Text) (es : List (Option Text))
    → Given name es
    → is_toml name ≡ true
    → Among name (fragment_names es)
→named name [] h t = absurd h
→named name (e ∷ es) (inl same) t =
    subst (Among name) (sym (fragment_names-cons e es))
      (→place-named name e (fragment_names es) same t)
→named name (e ∷ es) (inr later) t =
    subst (Among name) (sym (fragment_names-cons e es))
      (→place-later name e (fragment_names es) (→named name es later t))

-- The names of the fragments are in byte order, are those that the filter keeps of the readable
-- entries, each as often, and a name is among them exactly if an entry of the directory could be
-- read and has it, and it is `.toml` after some other text: a file named `.toml` is none.
pub fragment_names-IsSorted :
    (es : List (Option Text))
    → IsSorted (fragment_names es)
      × Perm (fragment_names es) (only_toml (readable es))
      × ((name : Text) → Among name (fragment_names es) ↔ (Given name es × IsFragment name))
unfolding fragment_names
fragment_names-IsSorted es = (
  sort-IsSorted (only_toml (readable es)),
  sort-perm (only_toml (readable es)),
  λ name.
      let (to, from) = is_toml_iff name in
      (
        λ h. let (given, t) = named→ name es h in (given, to t),
        λ (given, fragment). →named name es given (from fragment),
      ),
)
