-- ===== src/Audit/Events.antt =====
-- Listing access events (internal/audit/read.go, ListParams of httpapi/httpapi.go).
use Prim.Native.Char.{Char, code}
use Prim.Native.String.{◌∷◌ as ◌then◌, [] as nil, ◌++◌ as ◌followed_by◌}
use dilion.Base.{
  ℕ, suc, Bool, true, ◌&&◌, ◌||◌, String, ◌==◌, List, [], ◌∷◌, Option, none, some, any, length,
  take, select_where, eqb, ltb, leb, holds_text, if◌then◌else◌,
}
use dilion.Exec.{Result, ok, err}

-- What the filter and the order read of an event, and its subjects.
pub record Event : Type 0 where
  pub id : String
  pub actor_id : Option String
  pub action : String
  pub created_at : ℕ
  pub subjects : List String

pub record EventFilter : Type 0 where
  pub actor_id : Option String
  pub action : Option String
  pub subject_id : Option String
  pub from : Option ℕ
  pub to : Option ℕ

abbrev unless_given {ℓ} : {A : Type ℓ} → Option A → (A → Bool) → Bool
unless_given none p = true
unless_given (some a) p = p a

-- The conditions of the query, but for the cursor.
unfoldable pub matches : EventFilter → Event → Bool
matches f e =
    unless_given f.actor_id (holds_text e.actor_id)
    && (unless_given f.action (λ a. e.action == a)
        && (unless_given f.subject_id (λ s. any (λ t. t == s) e.subjects)
            && (unless_given f.from (λ t. leb t e.created_at)
                && unless_given f.to (λ t. ltb e.created_at t))))

-- `Norm`; a limit that is not positive is 0, and so is a maximum.
unfoldable pub norm : ℕ → ℕ → ℕ
norm max limit =
    let top = if eqb max 0 then 100 else max in
    let wanted = if eqb limit 0 then 20 else limit in if ltb top wanted then top else wanted

pub record Page : Type 0 where
  pub items : List Event
  pub next_cursor : Option String

pub data AuditError : Type 0 where
  invalid : AuditError

-- base64 without padding, and the format of a time (encoding/base64, time.RFC3339Nano in UTC).
pub record Codec : Type 0 where
  pub encode_base64 : String → String
  pub decode_base64 : String → Option String
  pub format_time : ℕ → String
  pub parse_time : String → Option ℕ

-- `strings.Cut(s, "|")`.
abbrev with_first : Char → Option (String × String) → Option (String × String)
with_first c none = none
with_first c (some (a, b)) = some (c then a, b)

unfoldable pub cut_at_bar : String → Option (String × String)
cut_at_bar nil = none
cut_at_bar (c then s) =
    let rest = cut_at_bar s in if eqb (code c) 124 then some (nil, s) else with_first c rest

module _ (codec : Codec) (id_less : String → String → Bool) where
  -- `(e.created_at, e.event_id) < (at, id)`; the database orders the identifiers.
  abbrev pub is_below : ℕ × String → Event → Bool
  is_below (at, id) e = ltb e.created_at at || (eqb e.created_at at && id_less e.id id)

  -- `order by e.created_at desc, e.event_id desc`.
  abbrev pub insert_event : Event → List Event → List Event
  insert_event a [] = a ∷ []
  insert_event a (b ∷ bs) =
      let rest = insert_event a bs in
      if is_below (a.created_at, a.id) b then a ∷ b ∷ bs else b ∷ rest

  unfoldable pub newest_first : List Event → List Event
  newest_first [] = []
  newest_first (a ∷ as_) = insert_event a (newest_first as_)

  unfoldable pub encode_event_cursor : ℕ → String → String
  encode_event_cursor at id = codec.encode_base64 (codec.format_time at followed_by ("|" then id))

  abbrev position : String → Option ℕ → Result AuditError (Option (ℕ × String))
  position id none = err invalid
  position id (some at) = ok (some (at, id))

  abbrev parse_position : Option (String × String) → Result AuditError (Option (ℕ × String))
  parse_position none = err invalid
  parse_position (some (time, id)) =
      if id == "" then err invalid else position id (codec.parse_time time)

  abbrev decoded : Option String → Result AuditError (Option (ℕ × String))
  decoded none = err invalid
  decoded (some raw) = parse_position (cut_at_bar raw)

  unfoldable pub decode_event_cursor : String → Result AuditError (Option (ℕ × String))
  decode_event_cursor c = if c == "" then ok none else decoded (codec.decode_base64 c)

  abbrev pub is_past : Option (ℕ × String) → Event → Bool
  is_past at e = unless_given at (λ k. is_below k e)

  abbrev pub last_cursor : List Event → Option String
  last_cursor [] = none
  last_cursor (e ∷ []) = some (encode_event_cursor e.created_at e.id)
  last_cursor (e ∷ d ∷ es) = last_cursor (d ∷ es)

  abbrev pub page_of : ℕ → List Event → Page
  page_of limit items =
      if ltb limit (length items)
      then record { items = take limit items; next_cursor = last_cursor (take limit items) }
      else record { items = items; next_cursor = none }

  abbrev pub page_from :
      List Event
      → EventFilter
      → ℕ
      → Result AuditError (Option (ℕ × String))
      → Result AuditError Page
  page_from rows f limit (err e) = err e
  page_from rows f limit (ok at) = ok (
      page_of limit
        (take (suc limit) (newest_first (select_where (λ e. matches f e && is_past at e) rows))))

  -- `ListEvents`.
  unfoldable pub list_events :
      List Event → EventFilter → (max limit : ℕ) → String → Result AuditError Page
  list_events rows f max limit cursor =
      page_from rows f (norm max limit) (decode_event_cursor cursor)
