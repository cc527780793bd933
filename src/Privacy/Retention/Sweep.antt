-- ===== src/Privacy/Retention/Sweep.antt =====
-- `sweepConsentShredDue` and `shredConsentKeys` (internal/privacy/retention.go).
use Prim.Native.String.compare
use Prim.Native.Nat.{Ordering}
use dilion.Base.{
  ℕ, Bool, true, false, ◌&&◌, ◌||◌, not, String, List, [], ◌∷◌, Option, none, some, if◌then◌else◌,
  take, any, map, select_where, is_none, ltb, leb, eqb,
}
use dilion.Exec.{Result, ok, err, pure, attempt, query, check_ctx, ◌>>=◌, ◌>>◌}
use dilion.Privacy.Domain
use dilion.Privacy.Db.{Db, Error, M, SubjectKey, consent_scope, database, canceled_context}
use dilion.Privacy.Pipeline.Runner.{active_hold_for, blocks}
use dilion.Privacy.Pipeline.Vault.{is_consent, destroy_dek, stamp_key}

abbrev is_past : ℕ → Option ℕ → Bool
is_past t none = false
is_past t (some s) = leb s t

abbrev time_of : Option ℕ → ℕ
time_of none = 0
time_of (some t) = t

-- `order by shred_after, user_id`.
abbrev text_leb : String → String → Bool
text_leb s t = elim (Prim.Native.String.compare s t) [ Ordering.gt ↦ false | _ ↦ true ]

abbrev before : SubjectKey → SubjectKey → Bool
before k l =
    ltb (time_of k.shred_after) (time_of l.shred_after)
    || (eqb (time_of k.shred_after) (time_of l.shred_after) && text_leb k.user_id l.user_id)

unfoldable pub insert_key : SubjectKey → List SubjectKey → List SubjectKey
insert_key k [] = k ∷ []
insert_key k (x ∷ xs) = let rest = insert_key k xs in if before k x then k ∷ x ∷ xs else x ∷ rest

unfoldable pub by_shred_time : List SubjectKey → List SubjectKey
by_shred_time [] = []
by_shred_time (k ∷ ks) = insert_key k (by_shred_time ks)

-- A key whose time has come, and whose owner is under no hold.
abbrev pub shred_due : ℕ → Db → SubjectKey → Bool
shred_due t db k =
    is_consent k.scope
    && (is_none k.shredded_at
        && (is_past t k.shred_after
            && not (any (blocks k.user_id Domain.consent_evidence) db.legal_holds)))

unfoldable pub due_users : ℕ → ℕ → Db → List String
due_users t batch db =
    map (λ k. k.user_id)
      (take batch (by_shred_time (select_where (shred_due t db) db.subject_keys)))

-- A key that the KMS could not destroy is left for the next sweep.
unfoldable pub after_destroy : String → Result Error (Unit {0}) → M (Unit {0})
after_destroy user (ok t) = stamp_key user consent_scope
after_destroy user (err e) = pure tt

unfoldable pub shred_key : String → M (Unit {0})
shred_key user = do r ← attempt (destroy_dek user consent_scope); after_destroy user r

-- `shredConsentKeys`: every person's holds are looked up again.
unfoldable pub shred_consent_keys : List String → M (Unit {0})
shred_consent_keys [] = pure tt
shred_consent_keys (user ∷ rest) = do
  check_ctx canceled_context
  held ← active_hold_for user Domain.consent_evidence
  if held then pure tt else shred_key user
  shred_consent_keys rest

-- `sweepConsentShredDue`.
unfoldable pub sweep_consent_shred_due : ℕ → ℕ → M (Unit {0})
sweep_consent_shred_due t batch = do
  users ← query database (due_users t batch)
  shred_consent_keys users
