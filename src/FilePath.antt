-- ===== src/FilePath.antt =====
-- `std::path` on Unix, as far as the program uses it: the components of a path, by which paths are
-- compared, `parent`, `file_name`, `extension` and `join`.
pub mod Extension
pub mod Laws
pub mod Names
use shakti.Prelude.{
  Bool, true, false, ◌&&◌, Option, none, some, List, [], ◌∷◌, ◌++◌, if◌then◌else◌, ◌==◌,
}
use shakti.Text.{Text, codes, text_eq, starts_with, split}

pub data Component : Type 0 where
  root_dir cur_dir parent_dir : Component
  normal : Text → Component

abbrev pub slash : Text
slash = codes "/"

-- An empty piece between two slashes, and a dot, name no component of their own.
unfoldable pub piece : Text → Option Component
unfolding text_eq
piece [] = none
piece s =
    if text_eq s (codes ".")
    then none
    else if text_eq s (codes "..")
    then some parent_dir
    else some (normal s)

abbrev keep : Option Component → List Component → List Component
keep none cs = cs
keep (some c) cs = c ∷ cs

unfoldable pub pieces : List Text → List Component
unfolding piece
pieces [] = []
pieces (s ∷ ss) = keep (piece s) (pieces ss)

-- A dot is kept only at the front of a relative path.
relative : List Text → List Component
relative [] = []
relative (s ∷ ss) = if text_eq s (codes ".") then cur_dir ∷ pieces ss else pieces (s ∷ ss)

-- `path.components()`
unfoldable pub components : Text → List Component
unfolding pieces relative starts_with split text_eq
components p =
    if starts_with p slash then root_dir ∷ pieces (split p b'/') else relative (split p b'/')

unfoldable pub component_eq : Component → Component → Bool
component_eq root_dir root_dir = true
component_eq cur_dir cur_dir = true
component_eq parent_dir parent_dir = true
component_eq (normal s) (normal t) = text_eq s t
component_eq _ _ = false

-- `a == b` on paths
unfoldable pub components_eq : List Component → List Component → Bool
unfolding component_eq text_eq
components_eq [] [] = true
components_eq (a ∷ s) (b ∷ t) = component_eq a b && components_eq s t
components_eq _ _ = false

abbrev last_parent : Component → Option (List Component)
last_parent root_dir = none
last_parent c = some []

abbrev under : Component → Option (List Component) → Option (List Component)
under a none = none
under a (some p) = some (a ∷ p)

-- `path.parent()`, on the components: a root, and the empty path, have none.
unfoldable pub parent : List Component → Option (List Component)
parent [] = none
parent (c ∷ []) = last_parent c
parent (c ∷ d ∷ cs) = under c (parent (d ∷ cs))

abbrev last_name : Component → Option Text
last_name (normal s) = some s
last_name _ = none

-- `path.file_name()`, on the components
unfoldable pub file_name : List Component → Option Text
file_name [] = none
file_name (c ∷ []) = last_name c
file_name (c ∷ d ∷ cs) = file_name (d ∷ cs)

ends_with_slash : Text → Bool
ends_with_slash [] = false
ends_with_slash (a ∷ []) = a == b'/'
ends_with_slash (a ∷ b ∷ s) = ends_with_slash (b ∷ s)

-- `PathBuf::join`: an absolute argument replaces the path.
unfoldable pub join_path : Text → Text → Text
unfolding ends_with_slash starts_with
join_path dir p =
    if starts_with p slash
    then p
    else if text_eq dir []
    then p
    else if ends_with_slash dir
    then dir ++ p
    else dir ++ (slash ++ p)

-- The text before the last dot, and that after it.
rsplit_dot : Text → Option (Text × Text)
rsplit_dot [] = none
rsplit_dot (a ∷ s) = elim (rsplit_dot s) [
  | some (b, e) ↦ some (a ∷ b, e)
  | none ↦ if a == b'.' then some ([], s) else none
]

abbrev extension_of : Option (Text × Text) → Option Text
extension_of none = none
extension_of (some ([], e)) = none
extension_of (some (a ∷ b, e)) = some e

-- `path.extension()`, on a file name: a name that only begins with a dot has none.
unfoldable pub extension : Text → Option Text
unfolding rsplit_dot
extension name = extension_of (rsplit_dot name)
