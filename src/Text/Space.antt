-- ===== src/Text/Space.antt =====
-- White space: `strings.TrimSpace`.
use dilion.Base.{
  ℕ, Bool, true, ◌&&◌, ◌||◌, ◌≡◌, refl, List, [], ◌∷◌, leb, eqb, if◌then◌else◌, all, not, arith,
}

-- `unicode.IsSpace`.
unfoldable pub is_space : ℕ → Bool
is_space c =
    (leb 9 c && leb c 13)
    || (eqb c 32
        || (eqb c 0x85
            || (eqb c 0xA0
                || (eqb c 0x1680
                    || ((leb 0x2000 c && leb c 0x200A)
                        || (eqb c 0x2028
                            || (eqb c 0x2029
                                || (eqb c 0x202F || (eqb c 0x205F || eqb c 0x3000)))))))))

trim_left : List ℕ → List ℕ
trim_left [] = []
trim_left (c ∷ s) = if is_space c then trim_left s else c ∷ s

abbrev drop_space : ℕ → List ℕ → List ℕ
drop_space c [] = if is_space c then [] else c ∷ []
drop_space c (d ∷ s) = c ∷ d ∷ s

trim_right : List ℕ → List ℕ
trim_right [] = []
trim_right (c ∷ s) = drop_space c (trim_right s)

-- `strings.TrimSpace`.
unfoldable pub trim_space : List ℕ → List ℕ
unfolding trim_left trim_right is_space
trim_space s = trim_right (trim_left s)

abbrev pub no_space : List ℕ → Bool
no_space s = all (λ c. not (is_space c)) s

trim_right-of_no_space : (s : List ℕ) → no_space s ≡ true → trim_right s ≡ s
unfolding trim_right
trim_right-of_no_space [] h = refl
trim_right-of_no_space (c ∷ []) h = ground arith
trim_right-of_no_space (c ∷ d ∷ s) h = ground (arith, trim_right-of_no_space (d ∷ s))

trim_left-of_no_space : (s : List ℕ) → no_space s ≡ true → trim_left s ≡ s
unfolding trim_left
trim_left-of_no_space [] h = refl
trim_left-of_no_space (c ∷ s) h = ground arith

-- A text without white space is left as it is.
pub trim_space-of_no_space : (s : List ℕ) → no_space s ≡ true → trim_space s ≡ s
unfolding trim_space
trim_space-of_no_space s h = rw (trim_left-of_no_space s h) (trim_right-of_no_space s h)
