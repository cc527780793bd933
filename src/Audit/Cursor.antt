-- ===== src/Audit/Cursor.antt =====
-- The cursor of an access event, read back (internal/audit/read.go, decodeEventCursor).
use Prim.Native.Char.{code}
use Prim.Native.String.append
use Prim.Native.String.{String, ◌∷◌, [], ◌++◌}
use dilion.Base.{
  ℕ, ◌≡◌, refl, sym, ap, ◌∙◌, Bool, true, false, ◌==◌, some, none, eqb, leb, eq_iff, Bool-cases,
  inl, inr, arith, if◌then◌else◌,
}
use dilion.Exec.{ok}
use dilion.Audit.Events.{Codec, cut_at_bar, encode_event_cursor, decode_event_cursor}

unfoldable pub has_bar : String → Bool
has_bar [] = false
has_bar (c ∷ s) = let rest = has_bar s in if eqb (code c) 124 then true else rest

-- What is documented of base64, and of the format of a time before a horizon: the year 10000.
pub record IsCodec (codec : Codec) (horizon : ℕ) : Type 0 where
  pub base64_decodes : (s : String) → codec.decode_base64 (codec.encode_base64 s) ≡ some s
  pub base64_empty : codec.encode_base64 "" ≡ ""
  pub time_parses :
      (t : ℕ) → leb horizon t ≡ false → codec.parse_time (codec.format_time t) ≡ some t
  pub time_has_no_bar : (t : ℕ) → has_bar (codec.format_time t) ≡ false

-- The first bar is the one that was put there.
cut_at_bar-append :
    (s id : String) → has_bar s ≡ false → cut_at_bar (s ++ ("|" ∷ id)) ≡ some (s, id)
unfolding cut_at_bar has_bar
cut_at_bar-append [] id h = ap cut_at_bar (append.nil ("|" ∷ id))
cut_at_bar-append (c ∷ s) id h = elim (Bool-cases (eqb (code c) 124)) [
  | inl bar ↦ absurd (ground arith)
  | inr plain ↦
      ap cut_at_bar (append.cons c s ("|" ∷ id))
      ∙ rw (plain, cut_at_bar-append s id (ground arith)) refl
]

module _ (codec : Codec) (id_less : String → String → Bool) (horizon : ℕ)
    (laws : IsCodec codec horizon) (t : ℕ) (id : String) where
  abbrev raw : String
  raw = codec.format_time t ++ ("|" ∷ id)

  something : (a b : String) → some a ≡ some b → cut_at_bar a ≡ cut_at_bar b
  something a b e = cc

  nothing : (k : String × String) → none ≡ some k → ⊥
  nothing k e = cc

  cut_raw : cut_at_bar raw ≡ some (codec.format_time t, id)
  cut_raw = cut_at_bar-append (codec.format_time t) id (laws.time_has_no_bar t)

  not_blank : (encode_event_cursor codec id_less t id == "") ≡ false
  unfolding encode_event_cursor cut_at_bar
  not_blank = elim (Bool-cases (encode_event_cursor codec id_less t id == "")) [
    | inl blank ↦ absurd (
        nothing (codec.format_time t, id)
          (something "" raw (
              sym (laws.base64_decodes "")
              ∙ ap codec.decode_base64 (
                  laws.base64_empty
                  ∙ sym ((eq_iff (encode_event_cursor codec id_less t id) "").0 blank))
              ∙ laws.base64_decodes raw)
            ∙ cut_raw))
    | inr full ↦ full
  ]

  -- An identifier that is not empty is read back; an empty one would be refused.
  pub decode-encode :
      leb horizon t ≡ false
      → (id == "") ≡ false
      → decode_event_cursor codec id_less (encode_event_cursor codec id_less t id)
        ≡ ok (some (t, id))
  unfolding decode_event_cursor encode_event_cursor
  decode-encode early named =
      rw (not_blank, laws.base64_decodes raw, cut_raw, named, laws.time_parses t early) refl
