-- ===== src/Audit/Tests.antt =====
-- A log of three events, two of them at one time, read in pages of two.
use Prim.Native.Nat.compare as compare_ℕ
use Prim.Native.Nat.{Ordering, compare as compare_ℕ}
use Prim.Native.Char.{Char, code}
use Prim.Native.String.{String, ◌∷◌ as ◌then◌, [] as nil}
use text.Mathlib.TextEquality.{codes_equal}
use mathlib.Core.List.{Perm}
use dilion.Base.{
  ℕ, zero, suc, ◌≡◌, refl, sym, ap, subst, ◌∙◌, ◌==◌, Bool, true, false, ◌||◌, ◌&&◌, List, [], ◌∷◌,
  some, none, select_where, eqb, ltb, if◌then◌else◌, eq_iff, Bool-cases, inl, inr, arith,
}
use dilion.Audit.Events
use dilion.Audit.Events.{Event, EventFilter, Codec, matches}
use dilion.Audit.Order.{IsOrder, NewestFirst}
use dilion.Audit.Cursor
use dilion.Audit.Cursor.{IsCodec, has_bar}
use dilion.Audit.Walk.{walk, walk-select}

-- A time in strokes.
unfoldable strokes : ℕ → String
strokes zero = nil
strokes (suc n) = "1" then strokes n

unfoldable count_strokes : String → ℕ
count_strokes nil = 0
count_strokes (c then s) = suc (count_strokes s)

count_strokes-strokes : (n : ℕ) → count_strokes (strokes n) ≡ n
unfolding count_strokes strokes
count_strokes-strokes zero = refl
count_strokes-strokes (suc n) = ap suc (count_strokes-strokes n)

strokes_plain : (n : ℕ) → has_bar (strokes n) ≡ false
unfolding strokes Cursor.has_bar
strokes_plain zero = refl
strokes_plain (suc n) = strokes_plain n

-- A text as it is, in place of base64.
abbrev plain : Codec
plain = record {
  encode_base64 = λ s. s;
  decode_base64 = λ s. some s;
  format_time = strokes;
  parse_time = λ s. some (count_strokes s);
}

plain-IsCodec : IsCodec plain 1000
plain-IsCodec = record {
  base64_decodes = λ s. refl;
  base64_empty = refl;
  time_parses = λ t early. ap (λ n. some n) (count_strokes-strokes t);
  time_has_no_bar = strokes_plain;
}

-- The order of a dictionary, by code points.
unfoldable comes_before : String → String → Bool
comes_before nil nil = false
comes_before nil (d then t) = true
comes_before (c then s) nil = false
comes_before (c then s) (d then t) =
    let rest = comes_before s t in ltb (code c) (code d) || (eqb (code c) (code d) && rest)

compare_same : (n : ℕ) → compare_ℕ n n ≡ Ordering.eq
compare_same zero = compare_ℕ.zero-zero
compare_same (suc n) = compare_ℕ.suc-suc n n ∙ compare_same n

same_code : (c d : Char) → eqb (code c) (code d) ≡ true → c ≡ d
same_code c d h =
    let same : code c ≡ code d = ground (arith, h) in
    codes_equal c d (subst (λ n. compare_ℕ (code c) n ≡ Ordering.eq) same (compare_same (code c)))

comes_before_irreflexive : (s : String) → comes_before s s ≡ false
unfolding comes_before
comes_before_irreflexive nil = refl
comes_before_irreflexive (c then s) = ground (arith, comes_before_irreflexive s)

comes_before_transitive :
    (s t u : String) → comes_before s t ≡ true → comes_before t u ≡ true → comes_before s u ≡ true
unfolding comes_before
comes_before_transitive nil nil u h k = ground arith
comes_before_transitive nil (d then t) nil h k = ground arith
comes_before_transitive nil (d then t) (e then u) h k = refl
comes_before_transitive (c then s) nil u h k = ground arith
comes_before_transitive (c then s) (d then t) nil h k = ground arith
comes_before_transitive (c then s) (d then t) (e then u) h k =
    ground (arith, comes_before_transitive s t u)

neither_before : (s t : String) → comes_before s t ≡ false → comes_before t s ≡ false → s ≡ t
unfolding comes_before
neither_before nil nil h k = refl
neither_before nil (d then t) h k = absurd (ground arith)
neither_before (c then s) nil h k = absurd (ground arith)
neither_before (c then s) (d then t) h k =
    rw (same_code c d (ground arith), neither_before s t (ground arith) (ground arith)) refl

comes_before_total :
    (s t : String) → (s == t) ≡ false → comes_before s t ≡ false → comes_before t s ≡ true
comes_before_total s t differ h = elim (Bool-cases (comes_before t s)) [
  | inl before ↦ before
  | inr not_before ↦
      absurd (contrary (sym ((eq_iff s t).1 (neither_before s t h not_before)) ∙ differ))
]
  where
    contrary : true ≡ false → ⊥
    contrary e = cc

dictionary : IsOrder comes_before
dictionary = record {
  irreflexive = comes_before_irreflexive;
  transitive = comes_before_transitive;
  total = comes_before_total;
}

abbrev event_at : ℕ → String → Event
event_at t id = record {
  id = id;
  actor_id = some "ada";
  action = "read";
  created_at = t;
  subjects = [];
}

abbrev log : List Event
log = event_at 4 "e1" ∷ event_at 7 "e2" ∷ event_at 7 "e3" ∷ []

abbrev every_event : EventFilter
every_event = record { actor_id = none; action = none; subject_id = none; from = none; to = none }

walk-select_example :
    (es : List Event) × (walk plain comes_before log every_event 100 2 4 "" ≡ some es)
    × NewestFirst plain comes_before es
    × Perm es (select_where (matches every_event) log)
unfolding Events.matches
walk-select_example =
    walk-select plain comes_before log every_event 100 2 1000 4 dictionary plain-IsCodec
      (refl, (refl, (refl, tt))) refl refl (omega arith)
