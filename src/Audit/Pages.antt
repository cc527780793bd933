-- ===== src/Audit/Pages.antt =====
-- One page of a listing, and lists cut into pages.
use dilion.Base.{
  ℕ, zero, suc, ◌+◌, ◌-◌, ◌≤◌, ◌<◌, ◌≡◌, refl, ap, ◌∙◌, Bool, true, false, ◌&&◌, String, List, [],
  ◌∷◌, ◌++◌, Option, none, some, length, take, any, select_where, ltb, arith, Bool-cases, inl, inr,
  lt→ltb,
}
use dilion.Exec.{ok}
use dilion.Audit.Events.{
  Event, EventFilter, Codec, matches, norm, is_past, decode_event_cursor, last_cursor, page_of,
  list_events, encode_event_cursor, insert_event, newest_first,
}

-- A list that is longer than a page, cut after the page.
abbrev pub Cut : ℕ → List Event → Type 0
Cut limit rest =
    (pre : List Event) × (a : Event) × (post : List Event) × (rest ≡ pre ++ a ∷ post)
    × (take limit (take (suc limit) rest) ≡ pre ++ a ∷ [])
    × (length (take (suc limit) rest) ≡ suc limit)

pub cut : (n : ℕ) (rest : List Event) → suc n < length rest → Cut (suc n) rest
cut n [] h = absurd (omega arith)
cut n (a ∷ []) h = absurd (omega arith)
cut zero (a ∷ b ∷ rest) h = ([], a, b ∷ rest, refl, refl, refl)
cut (suc n) (a ∷ b ∷ rest) h =
    let (pre, x, post, e, t, l) = cut n (b ∷ rest) (omega arith) in
    (a ∷ pre, x, post, ap (λ es. a ∷ es) e, ap (λ es. a ∷ es) t, ap suc l)

take-all : (n : ℕ) (rest : List Event) → length rest ≤ n → take (suc n) rest ≡ rest
take-all n [] h = refl
take-all zero (a ∷ rest) h = absurd (omega arith)
take-all (suc n) (a ∷ rest) h = ap (λ es. a ∷ es) (take-all n rest (omega arith))

select-and :
    (p q : Event → Bool) (es : List Event)
    → select_where (λ e. p e && q e) es ≡ select_where q (select_where p es)
select-and p q [] = refl
select-and p q (e ∷ es) = ground (arith, select-and p q es)

pub select-true : (es : List Event) → select_where (λ e. true) es ≡ es
select-true [] = refl
select-true (e ∷ es) = ap (λ x. e ∷ x) (select-true es)

pub norm_positive : (max limit : ℕ) → (n : ℕ) × (norm max limit ≡ suc n)
unfolding norm
norm_positive max limit = (norm max limit - 1, ground arith)

length-append : (xs ys : List Event) → length (xs ++ ys) ≡ length xs + length ys
length-append [] ys = omega arith
length-append (x ∷ xs) ys = omega (arith, length-append xs ys)

pub shorter :
    (rest pre : List Event) (a : Event) (post : List Event) (fuel : ℕ)
    → rest ≡ pre ++ a ∷ post
    → length rest < suc fuel
    → length post < fuel
shorter rest pre a post fuel e h =
    omega (arith, length-append pre (a ∷ post), ap (λ es. length es) e)

pub none-here :
    (p : Event → Bool) (pre : List Event) (a : Event) (post : List Event)
    → any p (pre ++ a ∷ post) ≡ false
    → p a ≡ false
none-here p [] a post h = ground arith
none-here p (b ∷ pre) a post h = none-here p pre a post (ground arith)

module _ (codec : Codec) (id_less : String → String → Bool) where
  last_cursor-append :
      (pre : List Event) (a : Event)
      → last_cursor codec id_less (pre ++ a ∷ [])
        ≡ some (encode_event_cursor codec id_less a.created_at a.id)
  last_cursor-append [] a = refl
  last_cursor-append (b ∷ []) a = refl
  last_cursor-append (b ∷ d ∷ pre) a = last_cursor-append (d ∷ pre) a

  pub run_page :
      (rows rest : List Event) (f : EventFilter) (max limit n : ℕ) (c : String)
      (at : Option (ℕ × String))
      → decode_event_cursor codec id_less c ≡ ok at
      → norm max limit ≡ suc n
      → newest_first codec id_less
          (select_where (is_past codec id_less at) (select_where (matches f) rows))
        ≡ rest
      → list_events codec id_less rows f max limit c
        ≡ ok (page_of codec id_less (suc n) (take (suc (suc n)) rest))
  unfolding list_events
  run_page rows rest f max limit n c at d e past =
      rw (d, e, select-and (matches f) (is_past codec id_less at) rows, past) refl

  pub last_page :
      (n : ℕ) (rest : List Event)
      → length rest ≤ suc n
      → page_of codec id_less (suc n) (take (suc (suc n)) rest)
        ≡ record { items = rest; next_cursor = none }
  last_page n rest h = rw (take-all (suc n) rest h) (elim (Bool-cases (ltb (suc n) (length rest))) [
    | inl t ↦ absurd (ground arith)
    | inr short ↦ rw short refl
  ])

  pub full_page :
      (n : ℕ) (rest pre : List Event) (a : Event)
      → take (suc n) (take (suc (suc n)) rest) ≡ pre ++ a ∷ []
      → length (take (suc (suc n)) rest) ≡ suc (suc n)
      → page_of codec id_less (suc n) (take (suc (suc n)) rest) ≡ record {
        items = pre ++ a ∷ [];
        next_cursor = some (encode_event_cursor codec id_less a.created_at a.id);
      }
  full_page n rest pre a t l =
      rw (l, lt→ltb (suc n) (suc (suc n)) (omega arith), t, last_cursor-append pre a) refl

  length-insert :
      (a : Event) (bs : List Event) → length (insert_event codec id_less a bs) ≡ suc (length bs)
  length-insert a [] = refl
  length-insert a (b ∷ bs) = ground (arith, length-insert a bs)

  pub length-newest_first : (es : List Event) → length (newest_first codec id_less es) ≡ length es
  unfolding newest_first
  length-newest_first [] = refl
  length-newest_first (a ∷ as_) =
      length-insert a (newest_first codec id_less as_) ∙ ap suc (length-newest_first as_)
