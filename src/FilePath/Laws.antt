-- ===== src/FilePath/Laws.antt =====
-- Equality of paths, and what `parent` and `file_name` take off a path.
use shakti.Prelude.{◌≡◌, ◌≢◌, refl, ap, ◌↔◌, true, some, List, [], ◌∷◌, ◌++◌, arith}
use shakti.Text.{Text, codes}
use shakti.Text.Laws.{text_eq_iff, text_eq-false}
use shakti.FilePath.{
  Component, root_dir, cur_dir, parent_dir, normal, component_eq, components_eq, parent,
  last_parent, file_name, piece,
}

component_eq→eq : (a b : Component) → component_eq a b ≡ true → a ≡ b
unfolding component_eq
component_eq→eq (normal s) (normal t) h = ap normal ((text_eq_iff s t).0 h)
component_eq→eq a b h = ground arith

component_eq_self : (a : Component) → component_eq a a ≡ true
unfolding component_eq
component_eq_self (normal s) = (text_eq_iff s s).1 refl
component_eq_self _ = refl

components_eq→eq : (s t : List Component) → components_eq s t ≡ true → s ≡ t
unfolding components_eq
components_eq→eq [] [] h = refl
components_eq→eq (a ∷ s) (b ∷ t) h = ground (arith, component_eq→eq a b, components_eq→eq s t)
components_eq→eq [] (b ∷ t) h = cc
components_eq→eq (a ∷ s) [] h = cc

components_eq_self : (s : List Component) → components_eq s s ≡ true
unfolding components_eq
components_eq_self [] = refl
components_eq_self (a ∷ s) = rw (component_eq_self a) (components_eq_self s)

pub components_eq_iff : (s t : List Component) → (components_eq s t ≡ true) ↔ (s ≡ t)
components_eq_iff s t = (components_eq→eq s t, λ e. rw e (components_eq_self t))

-- The last component, which is no root, is taken off.
abbrev pub IsParent : List Component → List Component → Type 0
IsParent p cs = (c : Component) × (c ≢ root_dir) × (cs ≡ p ++ c ∷ [])

parent→IsParent : (cs p : List Component) → parent cs ≡ some p → IsParent p cs
unfolding parent
parent→IsParent [] p h = absurd (cc)
parent→IsParent (root_dir ∷ []) p h = absurd (cc)
parent→IsParent (cur_dir ∷ []) p h = (cur_dir, λ e. cc, cc)
parent→IsParent (parent_dir ∷ []) p h = (parent_dir, λ e. cc, cc)
parent→IsParent (normal s ∷ []) p h = (normal s, λ e. cc, cc)
parent→IsParent (c ∷ d ∷ cs) [] h = absurd (ground arith)
parent→IsParent (c ∷ d ∷ cs) (a ∷ p) h =
    let (x, n, e) = parent→IsParent (d ∷ cs) p (ground arith) in (x, n, ground (arith, e))

last_parent-some : (c : Component) → c ≢ root_dir → last_parent c ≡ some []
last_parent-some root_dir n = absurd (n refl)
last_parent-some _ n = refl

parent-append : (p : List Component) (c : Component) → c ≢ root_dir → parent (p ++ c ∷ []) ≡ some p
unfolding parent
parent-append [] c n = last_parent-some c n
parent-append (a ∷ []) c n = rw (last_parent-some c n)
parent-append (a ∷ b ∷ p) c n = rw (parent-append (b ∷ p) c n)

pub parent_iff : (cs p : List Component) → (parent cs ≡ some p) ↔ IsParent p cs
parent_iff cs p = (parent→IsParent cs p, λ (c, n, e). rw e (parent-append p c n))

file_name→append :
    (cs : List Component) (s : Text)
    → file_name cs ≡ some s
    → (p : List Component) × (cs ≡ p ++ normal s ∷ [])
unfolding file_name
file_name→append [] s h = absurd (cc)
file_name→append (root_dir ∷ []) s h = absurd (cc)
file_name→append (cur_dir ∷ []) s h = absurd (cc)
file_name→append (parent_dir ∷ []) s h = absurd (cc)
file_name→append (normal t ∷ []) s h = ([], cc)
file_name→append (c ∷ d ∷ cs) s h =
    let (p, e) = file_name→append (d ∷ cs) s h in (c ∷ p, ap (λ t. c ∷ t) e)

file_name-append : (p : List Component) (s : Text) → file_name (p ++ normal s ∷ []) ≡ some s
unfolding file_name
file_name-append [] s = refl
file_name-append (a ∷ []) s = refl
file_name-append (a ∷ b ∷ p) s = file_name-append (b ∷ p) s

pub file_name_iff :
    (cs : List Component) (s : Text)
    → (file_name cs ≡ some s) ↔ ((p : List Component) × (cs ≡ p ++ normal s ∷ []))
file_name_iff cs s = (file_name→append cs s, λ (p, e). rw e (file_name-append p s))

-- A piece that is neither empty nor a dot name is one component.
pub piece-plain : (s : Text) → s ≢ [] → s ≢ codes "." → s ≢ codes ".." → piece s ≡ some (normal s)
unfolding piece
piece-plain [] n d dd = absurd (n refl)
piece-plain (a ∷ s) n d dd =
    rw (text_eq-false (a ∷ s) (codes ".") d) (rw (text_eq-false (a ∷ s) (codes "..") dd))
