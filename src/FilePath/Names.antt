-- ===== src/FilePath/Names.antt =====
-- Which texts are one component, and what a component's name cannot hold.
use shakti.Prelude.{
  ◌≡◌, ◌≢◌, refl, sym, ap, ◌↔◌, inl, inr, false, List, [], ◌∷◌, arith, Bool-cases, All,
}
use mathlib.Core.Path.{subst}
use shakti.Text.{Text, codes, text_eq, starts_with, contains, split}
use shakti.Text.Laws.{Absent, split-Absent, split_absent, text_eq-false}
use shakti.FilePath.{
  Component, cur_dir, parent_dir, normal, components, piece, pieces, keep, relative,
}
use shakti.FilePath.Laws.{piece-plain}

abbrev PlainName : Component → Type 0
PlainName (normal s) = Absent b'/' s
PlainName _ = Unit

piece-PlainName :
    (s : Text) (cs : List Component)
    → Absent b'/' s
    → All PlainName cs
    → All PlainName (keep (piece s) cs)
unfolding piece
piece-PlainName [] cs n h = h
piece-PlainName (a ∷ s) cs n h = elim (Bool-cases (text_eq (a ∷ s) (codes "."))) [
  | inl e ↦ rw e h
  | inr e ↦ elim (Bool-cases (text_eq (a ∷ s) (codes ".."))) [
    | inl d ↦ rw (e, d) (tt, h)
    | inr d ↦ rw (e, d) (n, h)
  ]
]

pieces-PlainName : (ss : List Text) → All (Absent b'/') ss → All PlainName (pieces ss)
unfolding pieces
pieces-PlainName [] h = tt
pieces-PlainName (s ∷ ss) h = piece-PlainName s (pieces ss) h.0 (pieces-PlainName ss h.1)

relative-PlainName : (ss : List Text) → All (Absent b'/') ss → All PlainName (relative ss)
unfolding relative
relative-PlainName [] h = tt
relative-PlainName (s ∷ ss) h = elim (Bool-cases (text_eq s (codes "."))) [
  | inl e ↦ rw e (tt, pieces-PlainName ss h.1)
  | inr e ↦ rw e (pieces-PlainName (s ∷ ss) h)
]

components-PlainName : (p : Text) → All PlainName (components p)
unfolding components
components-PlainName p = elim (Bool-cases (starts_with p (codes "/"))) [
  | inl e ↦ rw e (tt, pieces-PlainName (split p b'/') (split-Absent p b'/'))
  | inr e ↦ rw e (relative-PlainName (split p b'/') (split-Absent p b'/'))
]

pub not-starts_with : (s : Text) → Absent b'/' s → starts_with s (codes "/") ≡ false
unfolding starts_with contains
not-starts_with [] h = refl
not-starts_with (a ∷ s) h = ground arith

components-name :
    (s : Text)
    → Absent b'/' s
    → s ≢ []
    → s ≢ codes "."
    → s ≢ codes ".."
    → components s ≡ normal s ∷ []
unfolding components relative pieces
components-name s h n d dd =
    rw (not-starts_with s h)
      (rw (split_absent s b'/' h) (rw (text_eq-false s (codes ".") d) (rw (piece-plain s n d dd))))

components-empty : components [] ≡ []
unfolding components
components-empty = refl

components-dot : components (codes ".") ≡ cur_dir ∷ []
unfolding components
components-dot = refl

components-dots : components (codes "..") ≡ parent_dir ∷ []
unfolding components piece
components-dots = refl

-- One component, named by the text itself: no slash, and none of the empty text and the dot names.
pub components-name_iff :
    (s : Text)
    → (components s ≡ normal s ∷ [])
      ↔ (Absent b'/' s × (s ≢ []) × (s ≢ codes ".") × (s ≢ codes ".."))
components-name_iff s = (
  λ e. (
    (subst (All PlainName) e (components-PlainName s)).0,
    λ n. cc (sym e, ap components n, components-empty),
    λ n. cc (sym e, ap components n, components-dot),
    λ n. cc (sym e, ap components n, components-dots),
  ),
  λ (h, n, d, dd). components-name s h n d dd,
)
