-- ===== src/Text.antt =====
-- Rust strings as the program uses them: a `str` is the list of its UTF-8 bytes, which is also what
-- the program's searches for ASCII characters see.
pub mod Laws
pub mod Fuel
use Prim.Native.Char.{code}
use shakti.Prelude.{
  ℕ, zero, suc, ◌+◌, ◌/◌, ◌%◌, String, Bool, true, false, ◌&&◌, Option, none, some, List, [], ◌∷◌,
  ◌++◌, ◌==◌, if◌then◌else◌, ltb, length,
}

abbrev pub Text : Type 0
Text = List ℕ

-- A literal of the source: its code points, which are its bytes where it is ASCII.
abbrev pub codes : String → Text
codes String.[] = []
codes (String.◌∷◌ c s) = code c ∷ codes s

-- `a == b` on strings
unfoldable pub text_eq : Text → Text → Bool
text_eq [] [] = true
text_eq (a ∷ s) (b ∷ t) = a == b && text_eq s t
text_eq _ _ = false

-- `s.starts_with(prefix)`
unfoldable pub starts_with : Text → Text → Bool
starts_with s [] = true
starts_with [] (b ∷ t) = false
starts_with (a ∷ s) (b ∷ t) = a == b && starts_with s t

-- `s.strip_suffix(suffix)`
unfoldable pub strip_suffix : Text → Text → Option Text
unfolding text_eq
strip_suffix [] suffix = if text_eq [] suffix then some [] else none
strip_suffix (a ∷ s) suffix =
    if text_eq (a ∷ s) suffix
    then some []
    else elim (strip_suffix s suffix) [ none ↦ none | some t ↦ some (a ∷ t) ]

-- `s.contains(c)` for an ASCII character
unfoldable pub contains : Text → ℕ → Bool
contains [] c = false
contains (a ∷ s) c = if a == c then true else contains s c

-- `match s.find(c) { Some(i) => &s[..i], None => s }`
unfoldable pub before : Text → ℕ → Text
before [] c = []
before (a ∷ s) c = let rest = before s c in if a == c then [] else a ∷ rest

abbrev push_first : ℕ → List Text → List Text
push_first a [] = (a ∷ []) ∷ []
push_first a (s ∷ ss) = (a ∷ s) ∷ ss

-- `s.split(c)`: never the empty list
unfoldable pub split : Text → ℕ → List Text
split [] c = [] ∷ []
split (a ∷ s) c = let rest = split s c in if a == c then [] ∷ rest else push_first a rest

-- `parts.join(sep)`
unfoldable pub join : List Text → Text → Text
join [] sep = []
join (s ∷ []) sep = s
join (s ∷ t ∷ ss) sep = s ++ (sep ++ join (t ∷ ss) sep)

-- `s.replace(from, to)` for two single bytes
unfoldable pub replace : Text → ℕ → ℕ → Text
replace [] from to = []
replace (a ∷ s) from to = (if a == from then to else a) ∷ replace s from to

-- What `format!` prints for a number. A number has fewer digits than one more than its value.
digits_of : ℕ → ℕ → Text → Text
digits_of zero n acc = acc
digits_of (suc f) n acc =
    let rest = digits_of f (n / 10) ((48 + n % 10) ∷ acc) in
    if ltb n 10 then (48 + n) ∷ acc else rest

unfoldable pub decimal : ℕ → Text
unfolding digits_of
decimal n = digits_of (suc n) n []

-- `s.strip_prefix(prefix)`
unfoldable pub strip_prefix : Text → Text → Option Text
strip_prefix s [] = some s
strip_prefix [] (b ∷ t) = none
strip_prefix (a ∷ s) (b ∷ t) = let rest = strip_prefix s t in if a == b then rest else none

-- `s.trim_start_matches(prefix)`. Each round shortens the text, so its length bounds the rounds.
strip_rounds : ℕ → Text → Text → Text
strip_rounds zero s prefix = s
strip_rounds (suc n) s prefix = elim (strip_prefix s prefix) [
  | none ↦ s
  | some t ↦ strip_rounds n t prefix
]

unfoldable pub trim_start_matches : Text → Text → Text
unfolding strip_rounds strip_prefix
trim_start_matches s prefix = strip_rounds (length s) s prefix
