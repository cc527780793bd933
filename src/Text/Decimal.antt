-- ===== src/Text/Decimal.antt =====
-- Decimal numbers: `strconv.Atoi` of digits, `%d` of a number, and the reading back of what was
-- printed.
use dilion.Text.Space.{is_space, no_space}
use dilion.Base.{
  ℕ, zero, suc, ◌+◌, ◌-◌, ◌*◌, ◌/◌, ◌%◌, ◌<◌, ◌≡◌, refl, Bool, true, false, ◌&&◌, List, [], ◌∷◌,
  leb, eqb, if◌then◌else◌, min, arith, Bool-cases, inl, inr,
}

-- `\d`.
abbrev pub is_digit : ℕ → Bool
is_digit c = leb b'0' c && leb c b'9'

abbrev pub add_digit : ℕ → ℕ → ℕ
add_digit n c = n * 10 + (c - 48)

-- The number that the digits write.
pub value_from : ℕ → List ℕ → ℕ
value_from n [] = n
value_from n (c ∷ s) = value_from (add_digit n c) s

abbrev pub max_int : ℕ
max_int = 9223372036854775807

-- `n, _ := strconv.Atoi(v)`: out of range it is the greatest int, and "" is 0.
unfoldable pub atoi : List ℕ → ℕ
unfolding value_from
atoi s = min (value_from 0 s) max_int

-- The digits at the head of a text, and the rest.
unfoldable pub span_digits : List ℕ → List ℕ × List ℕ
span_digits [] = ([], [])
span_digits (c ∷ s) =
    let (ds, rest) = span_digits s in if is_digit c then (c ∷ ds, rest) else ([], c ∷ s)

-- `%d` of a number with at most `fuel` digits, in front of `rest`.
print_digits : ℕ → ℕ → List ℕ → List ℕ
print_digits zero n rest = rest
print_digits (suc fuel) n rest =
    let more = print_digits fuel (n / 10) ((48 + n % 10) ∷ rest) in
    if eqb (n / 10) 0 then (48 + n % 10) ∷ rest else more

-- A number has no more digits than its value plus one.
unfoldable pub print_decimal : ℕ → List ℕ → List ℕ
unfolding print_digits
print_decimal n rest = print_digits (suc n) n rest

-- Does a text begin with something that is no digit?
abbrev pub ends_number : List ℕ → Bool
ends_number [] = true
ends_number (c ∷ s) = if is_digit c then false else true

print_digits-span :
    (fuel n : ℕ) (tail es rest : List ℕ)
    → n < fuel
    → span_digits tail ≡ (es, rest)
    → (d : ℕ) × (ds : List ℕ) × (span_digits (print_digits fuel n tail) ≡ (d ∷ ds, rest))
      × (value_from 0 (d ∷ ds) ≡ value_from n es)
unfolding print_digits span_digits value_from
print_digits-span zero n tail es rest h e = absurd (omega arith)
print_digits-span (suc fuel) n tail es rest h e = elim (Bool-cases (eqb (n / 10) 0)) [
  | inl last ↦ rw last (48 + n % 10, es, ground arith, ground arith)
  | inr more ↦
      let (d, ds, spans, value) =
        print_digits-span fuel (n / 10) ((48 + n % 10) ∷ tail) ((48 + n % 10) ∷ es) rest
          (ground arith) (ground arith) in
      rw more (d, ds, spans, ground arith)
]

pub span_digits-of_ends : (rest : List ℕ) → ends_number rest ≡ true → span_digits rest ≡ ([], rest)
unfolding span_digits
span_digits-of_ends [] h = refl
span_digits-of_ends (c ∷ s) h = ground arith

-- The digits that `%d` prints are read back, and what follows is left over.
pub print_decimal-span :
    (n : ℕ) (rest : List ℕ)
    → ends_number rest ≡ true
    → (d : ℕ) × (ds : List ℕ) × (span_digits (print_decimal n rest) ≡ (d ∷ ds, rest))
      × (value_from 0 (d ∷ ds) ≡ n)
unfolding print_decimal value_from
print_decimal-span n rest h =
    print_digits-span (suc n) n rest [] rest (omega arith) (span_digits-of_ends rest h)

print_digits-no_space :
    (fuel n : ℕ) (rest : List ℕ) → no_space (print_digits fuel n rest) ≡ no_space rest
unfolding print_digits is_space
print_digits-no_space zero n rest = refl
print_digits-no_space (suc fuel) n rest =
    ground (arith, print_digits-no_space fuel (n / 10) ((48 + n % 10) ∷ rest))

pub print_decimal-no_space :
    (n : ℕ) (rest : List ℕ) → no_space (print_decimal n rest) ≡ no_space rest
unfolding print_decimal
print_decimal-no_space n rest = print_digits-no_space (suc n) n rest
