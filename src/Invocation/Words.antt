-- ===== src/Invocation/Words.antt =====
-- What the command string of rust-old/src/main.rs and rust-old/src/api.rs forgets.
use shakti.Prelude.{◌≡◌, ◌≢◌, refl, ap, List, [], ◌∷◌, ◌++◌, append_assoc, arith, length}
use shakti.Text.{Text, codes, join}
use shakti.Invocation.{full_command}

join-merged :
    (a b : Text) (args : List Text)
    → join ((a ++ (codes " " ++ b)) ∷ args) (codes " ") ≡ join (a ∷ b ∷ args) (codes " ")
unfolding join
join-merged a b [] = refl
join-merged a b (c ∷ args) = append_assoc a (b' ' ∷ b) (b' ' ∷ join (c ∷ args) (codes " "))

merged-ne : (m a b : Text) (args : List Text) → m ∷ args ≢ a ∷ b ∷ args
merged-ne m a b args e = omega (arith, ap (length {A = Text}) e)

-- One argument that holds a space gives the string of two arguments: the arguments' boundaries are
-- lost, though the command that runs gets the arguments apart.
pub full_command-merged :
    (resolved a b : Text) (args : List Text)
    → (full_command resolved ((a ++ (codes " " ++ b)) ∷ args)
        ≡ full_command resolved (a ∷ b ∷ args))
      × ((a ++ (codes " " ++ b)) ∷ args ≢ a ∷ b ∷ args)
unfolding full_command
full_command-merged resolved a b args = (
  ap (λ t. resolved ++ (codes " " ++ t)) (join-merged a b args),
  merged-ne (a ++ (codes " " ++ b)) a b args,
)
