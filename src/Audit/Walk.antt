-- ===== src/Audit/Walk.antt =====
-- A walk over the pages of the access log.
use dilion.Base.{
  ℕ, zero, suc, ◌<◌, ◌≡◌, refl, sym, ap, ◌∙◌, subst, Bool, false, String, List, [], ◌∷◌, ◌++◌,
  Option, none, some, length, any, select_where, ltb, arith, Bool-cases, inl, inr, ltb→lt,
}
use mathlib.Core.List.{append_assoc, Perm}
use dilion.Exec.{Result, ok, err}
use dilion.Audit.Events.{
  Event, EventFilter, Page, AuditError, Codec, matches, is_past, decode_event_cursor, list_events,
  encode_event_cursor, newest_first,
}
use dilion.Audit.Order.{
  IsOrder, is_id, is_late, DistinctIds, NewestFirst, below, select-below, select-newest_first,
  select-DistinctIds, newest_first-NewestFirst, newest_first-Perm, any-newest_first, any-select,
}
use dilion.Audit.Cursor.{IsCodec, decode-encode}
use dilion.Audit.Pages.{
  cut, select-true, norm_positive, shorter, run_page, last_page, full_page, length-newest_first,
  none-here,
}

module _ (codec : Codec) (id_less : String → String → Bool) where
  -- The pages one after the other, as long as there is a next one; none if the fuel runs out.
  abbrev go_on : (String → Option (List Event)) → List Event → Option String → Option (List Event)
  go_on rest items none = some items
  go_on rest items (some c) = elim (rest c) [ none ↦ none | some es ↦ some (items ++ es) ]

  abbrev read_page : (String → Option (List Event)) → Result AuditError Page → Option (List Event)
  read_page rest (err e) = none
  read_page rest (ok page) = go_on rest page.items page.next_cursor

  unfoldable pub walk :
      List Event → EventFilter → (max limit : ℕ) → ℕ → String → Option (List Event)
  walk rows f max limit zero c = none
  walk rows f max limit (suc fuel) c =
      read_page (walk rows f max limit fuel) (list_events codec id_less rows f max limit c)

  module _ (rows : List Event) (f : EventFilter) (max limit horizon : ℕ) (order : IsOrder id_less)
      (laws : IsCodec codec horizon) (distinct : DistinctIds rows)
      (named : any (is_id "") rows ≡ false) (early : any (is_late horizon) rows ≡ false) where
    abbrev matching : List Event
    matching = select_where (matches f) rows

    abbrev found : List Event
    found = newest_first codec id_less matching

    matching-DistinctIds : DistinctIds matching
    matching-DistinctIds = select-DistinctIds codec id_less (matches f) rows distinct

    found-NewestFirst : NewestFirst codec id_less found
    found-NewestFirst = newest_first-NewestFirst codec id_less order matching matching-DistinctIds

    -- What no row is, no row that was found is.
    found-is_not :
        (p : Event → Bool) (done : List Event) (a : Event) (post : List Event)
        → any p rows ≡ false
        → found ≡ done ++ a ∷ post
        → p a ≡ false
    found-is_not p done a post h e = none-here p done a post (
        sym (ap (any p) e)
        ∙ any-newest_first codec id_less p matching
        ∙ any-select codec id_less p (matches f) rows h)

    cursor_decodes :
        (done : List Event) (a : Event) (post : List Event)
        → found ≡ done ++ a ∷ post
        → decode_event_cursor codec id_less (encode_event_cursor codec id_less a.created_at a.id)
          ≡ ok (some (a.created_at, a.id))
    cursor_decodes done a post e =
        decode-encode codec id_less horizon laws a.created_at a.id
          (found-is_not (is_late horizon) done a post early e)
          (found-is_not (is_id "") done a post named e)

    found-below :
        (done : List Event) (a : Event) (post : List Event)
        → found ≡ done ++ a ∷ post
        → select_where (below codec id_less a) found ≡ post
    found-below done a post e =
        ap (select_where (below codec id_less a)) e
        ∙ select-below codec id_less order done a post
            (subst (NewestFirst codec id_less) e found-NewestFirst)

    at_cut :
        (done rest pre : List Event) (a : Event) (post : List Event)
        → found ≡ done ++ rest
        → rest ≡ pre ++ a ∷ post
        → found ≡ (done ++ pre) ++ a ∷ post
    at_cut done rest pre a post e split =
        e ∙ ap (λ es. done ++ es) split ∙ sym (append_assoc done pre (a ∷ post))

    walk_rest :
        (fuel : ℕ) (done rest : List Event) (c : String) (at : Option (ℕ × String))
        → decode_event_cursor codec id_less c ≡ ok at
        → found ≡ done ++ rest
        → select_where (is_past codec id_less at) found ≡ rest
        → length rest < fuel
        → walk rows f max limit fuel c ≡ some rest
    unfolding walk
    walk_rest zero done rest c at d e past h = absurd (omega arith)
    walk_rest (suc fuel) done rest c at d e past h =
        let (n, top) = norm_positive max limit in
        rw
          (run_page codec id_less rows rest f max limit n c at d top (
            sym (
              select-newest_first codec id_less order (is_past codec id_less at) matching
                matching-DistinctIds)
            ∙ past))
          (elim (Bool-cases (ltb (suc n) (length rest))) [
            | inr short ↦ rw (last_page codec id_less n rest (ground arith)) refl
            | inl long ↦
                let (pre, a, post, split, t, l) = cut n rest (ltb→lt (suc n) (length rest) long) in
                let here = at_cut done rest pre a post e split in
                rw
                  (
                    full_page codec id_less n rest pre a t l,
                    walk_rest fuel ((done ++ pre) ++ a ∷ []) post
                        (encode_event_cursor codec id_less a.created_at a.id)
                        (some (a.created_at, a.id)) (cursor_decodes (done ++ pre) a post here)
                        (here ∙ sym (append_assoc (done ++ pre) (a ∷ []) post))
                        (found-below (done ++ pre) a post here)
                        (shorter rest pre a post fuel split h),
                  )
                  (ap (λ es. some es) (append_assoc pre (a ∷ []) post ∙ sym split))
          ])

-- A walk over the pages ends, and its pages, put together, are the events that match the filter, each
-- once, the newest first and at one time the greater identifier first; if no two events have the same
-- identifier and none is empty, the order of the identifiers is strict and tells any two apart,
-- base64 decodes what it encodes and gives "" for "", a formatted time before a horizon is parsed back
-- and has no bar, every event is from before the horizon, and there is more fuel than events that
-- match.
pub walk-select :
    (codec : Codec) (id_less : String → String → Bool) (rows : List Event) (f : EventFilter)
    (max limit horizon fuel : ℕ)
    → IsOrder id_less
    → IsCodec codec horizon
    → DistinctIds rows
    → any (is_id "") rows ≡ false
    → any (is_late horizon) rows ≡ false
    → length (select_where (matches f) rows) < fuel
    → (es : List Event) × (walk codec id_less rows f max limit fuel "" ≡ some es)
      × NewestFirst codec id_less es
      × Perm es (select_where (matches f) rows)
unfolding decode_event_cursor
walk-select codec id_less rows f max limit horizon fuel order laws distinct named early h = (
  newest_first codec id_less (select_where (matches f) rows),
  walk_rest codec id_less rows f max limit horizon order laws distinct named early fuel [] _ "" none
      refl refl (select-true _)
      (omega (arith, length-newest_first codec id_less (select_where (matches f) rows))),
  found-NewestFirst codec id_less rows f max limit horizon order laws distinct named early,
  newest_first-Perm codec id_less (select_where (matches f) rows),
)
