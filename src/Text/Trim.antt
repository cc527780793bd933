-- ===== src/Text/Trim.antt =====
-- `strings.TrimSpace` on a text itself, where the source goes on with a string.
use Prim.Native.Char.{Char, code}
use Prim.Native.String.{String, [], ◌∷◌}
use mathlib.Core.Bool.{false}
use dilion.Base.{◌≡◌, refl, if◌then◌else◌, Bool-cases, inl, inr}
use dilion.Text.Space.{is_space}

trim_left : String → String
trim_left [] = []
trim_left (c ∷ s) = let rest = trim_left s in if is_space (code c) then rest else c ∷ s

abbrev drop_space : Char → String → String
drop_space c [] = if is_space (code c) then [] else c ∷ []
drop_space c (d ∷ s) = c ∷ d ∷ s

trim_right : String → String
trim_right [] = []
trim_right (c ∷ s) = drop_space c (trim_right s)

-- `strings.TrimSpace`.
unfoldable pub trim : String → String
unfolding trim_left trim_right is_space
trim s = trim_right (trim_left s)

trim_left_twice : (s : String) → trim_left (trim_left s) ≡ trim_left s
unfolding trim_left
trim_left_twice [] = refl
trim_left_twice (c ∷ s) = elim (Bool-cases (is_space (code c))) [
  | inl space ↦ rw space (trim_left_twice s)
  | inr solid ↦ rw (solid, solid) refl
]

drop_space-drop_space :
    (c : Char) (r : String) → trim_right r ≡ r → trim_right (drop_space c r) ≡ drop_space c r
unfolding trim_right
drop_space-drop_space c [] h = elim (Bool-cases (is_space (code c))) [
  | inl space ↦ rw space refl
  | inr solid ↦ rw (solid, solid) refl
]
drop_space-drop_space c (d ∷ s) h = rw h refl

trim_right_twice : (s : String) → trim_right (trim_right s) ≡ trim_right s
unfolding trim_right
trim_right_twice [] = refl
trim_right_twice (c ∷ s) = drop_space-drop_space c (trim_right s) (trim_right_twice s)

-- What does not start with a space does not after the spaces at its end are gone.
solid_first :
    (c : Char) (r : String)
    → is_space (code c) ≡ false
    → trim_left (drop_space c r) ≡ drop_space c r
unfolding trim_left
solid_first c [] h = rw (h, h) refl
solid_first c (d ∷ s) h = rw h refl

trim_left-trim_right :
    (s : String) → trim_left (trim_right (trim_left s)) ≡ trim_right (trim_left s)
unfolding trim_left trim_right
trim_left-trim_right [] = refl
trim_left-trim_right (c ∷ s) = elim (Bool-cases (is_space (code c))) [
  | inl space ↦ rw space (trim_left-trim_right s)
  | inr solid ↦ rw solid (solid_first c (trim_right s) solid)
]

-- A trimmed text is left as it is.
pub trim_twice : (s : String) → trim (trim s) ≡ trim s
unfolding trim
trim_twice s = rw (trim_left-trim_right s) (trim_right_twice (trim_left s))
