-- ===== src/Text/Codes.antt =====
-- A text as the list of its code points.
use Prim.Native.Char.{code}
use Prim.Native.String.{String, [], ◌∷◌}
use mathlib.Core.List.{List, [] as nil, ◌∷◌ as ◌then◌}
use mathlib.Core.Bool.{Bool, true, false}
use dilion.Base.{ℕ}
use dilion.Text.Space.{trim_space}

unfoldable pub codes : String → List ℕ
codes [] = nil
codes (c ∷ s) = code c then codes s

abbrev is_nil : List ℕ → Bool
is_nil nil = true
is_nil (c then s) = false

-- `strings.TrimSpace(s) == ""`.
unfoldable pub is_blank : String → Bool
unfolding codes trim_space
is_blank s = is_nil (trim_space (codes s))
