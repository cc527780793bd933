-- ===== src/Privacy/Retention/Gate.antt =====
-- The second gate of legal holds (internal/privacy/retention.go).
use dilion.Base.{
  ℕ, ◌≡◌, refl, sym, ◌∙◌, ap, Bool, true, false, String, ◌==◌, List, [], ◌∷◌, any, select_where,
  update_where, Bool-cases, inl, inr, eq_iff, if◌then◌else◌, both_true, select-update_where,
  select-append,
}
use dilion.Exec.{World, Result, ok, err, pure}
use dilion.Exec.Grows.{
  IsPreorder, Grows, Grows-bind, Grows-attempt, Grows-now, Grows-pure, Grows-query, Grows-statement,
}
use dilion.Exec.Yields.{Yields-anything}
use dilion.Exec.From.{
  GrowsFrom, GrowsFrom-of_Grows, GrowsFrom-query, GrowsFrom-bind, GrowsFrom-same,
  Grows-of_GrowsFrom,
}
use dilion.Privacy.Domain
use dilion.Privacy.Db.{Db, Error, SubjectKey, consent_scope}
use dilion.Privacy.Pipeline.Runner.{blocks, active_hold_for}
use dilion.Privacy.Pipeline.Vault.{key_of, destroyed, new_key, destroy_key, destroy_dek, stamp_key}
use dilion.Privacy.Retention.Sweep.{
  shred_key, after_destroy, shred_consent_keys, sweep_consent_shred_due,
}

abbrev pub keys_of : String → Db → List SubjectKey
keys_of user s = select_where (λ k. k.user_id == user) s.subject_keys

-- The person's consent evidence is under an active hold.
abbrev pub holds_evidence : String → Db → Bool
holds_evidence user s = any (blocks user Domain.consent_evidence) s.legal_holds

-- Holds stay, and so do the keys of the people who are under one.
pub record SparesHeld (s t : Db) : Type 0 where
  pub legal_holds : t.legal_holds ≡ s.legal_holds
  pub keys : (user : String) → holds_evidence user s ≡ true → keys_of user t ≡ keys_of user s

pre : IsPreorder SparesHeld
pre = record {
  same = λ s. record { legal_holds = refl; keys = λ u h. refl };
  chain = λ s t u h k. record {
    legal_holds = k.legal_holds ∙ h.legal_holds;
    keys = λ x e. k.keys x (rw (h.legal_holds) e) ∙ h.keys x e;
  };
}

-- Nothing changes but the keys of one person.
pub record OnlyKeys (user : String) (s t : Db) : Type 0 where
  pub legal_holds : t.legal_holds ≡ s.legal_holds
  pub keys : (u : String) → (user == u) ≡ false → keys_of u t ≡ keys_of u s

module _ (user : String) where
  only : IsPreorder (OnlyKeys user)
  only = record {
    same = λ s. record { legal_holds = refl; keys = λ u h. refl };
    chain = λ s t u h k. record {
      legal_holds = k.legal_holds ∙ h.legal_holds;
      keys = λ x e. k.keys x e ∙ h.keys x e;
    };
  }

  apart :
      (u : String) (k : SubjectKey)
      → (user == u) ≡ false
      → key_of user consent_scope k ≡ true
      → (k.user_id == u) ≡ false
  apart u k other mine =
      rw ((eq_iff k.user_id user).0 (both_true (k.user_id == user) _ mine).0) other

  update_leaf :
      (f : SubjectKey → SubjectKey) (s : Db)
      → ((k : SubjectKey) → (f k).user_id ≡ k.user_id)
      → OnlyKeys user s
          (record s { subject_keys = update_where (key_of user consent_scope) f s.subject_keys })
  update_leaf f s h = record {
    legal_holds = refl;
    keys = λ u e.
        select-update_where (λ k. k.user_id == u) (key_of user consent_scope) f
          (λ k m. (apart u k e m, rw (h k) (apart u k e m))) s.subject_keys;
  }

  destroy_leaf :
      (t : ℕ) (s : Db)
      → OnlyKeys user s
          (record s { subject_keys = destroy_key user consent_scope t s.subject_keys })
  destroy_leaf t s = elim (Bool-cases (any (key_of user consent_scope) s.subject_keys)) [
    | inl held ↦ rw held (update_leaf (destroyed t) s (λ k. refl))
    | inr nothing ↦ rw nothing (record {
      legal_holds = refl;
      keys = λ u e.
          select-append (λ k. k.user_id == u) s.subject_keys (new_key user consent_scope t) e;
    })
  ]

  after_destroy-OnlyKeys :
      (r : Result Error (Unit {0})) → Grows (OnlyKeys user) (after_destroy user r)
  unfolding after_destroy stamp_key
  after_destroy-OnlyKeys (ok t) =
      Grows-bind only _ _ (Grows-now only)
        (λ t. Grows-statement only _ _ (λ s. update_leaf _ s (λ k. refl)))
  after_destroy-OnlyKeys (err e) = Grows-pure only _

  shred_key-OnlyKeys : Grows (OnlyKeys user) (shred_key user)
  unfolding shred_key destroy_dek
  shred_key-OnlyKeys =
      Grows-bind only _ _
        (Grows-attempt only _
          (Grows-bind only _ _ (Grows-now only) (λ t. Grows-statement only _ _ (destroy_leaf t))))
        after_destroy-OnlyKeys

  of_OnlyKeys : (s t : Db) → holds_evidence user s ≡ false → OnlyKeys user s t → SparesHeld s t
  of_OnlyKeys s t free o = record {
    legal_holds = o.legal_holds;
    keys = λ u held. elim (Bool-cases (user == u)) [
      | inl same ↦ cc (ap (λ x. holds_evidence x s) ((eq_iff user u).0 same), free, held)
      | inr other ↦ o.keys u other
    ];
  }

  -- One round of `shredConsentKeys`.
  round-SparesHeld :
      (held : Bool)
      → GrowsFrom
          (λ s. Unit {0} × (held ≡ holds_evidence user s))
          SparesHeld
          (if held then pure tt else shred_key user)
  round-SparesHeld true = GrowsFrom-same pre _
  round-SparesHeld false = record {
    at = λ w p. of_OnlyKeys w.db _ (sym p.1) (shred_key-OnlyKeys.at w);
  }

shred_consent_keys-SparesHeld : (users : List String) → Grows SparesHeld (shred_consent_keys users)
unfolding shred_consent_keys active_hold_for
shred_consent_keys-SparesHeld [] = Grows-pure pre _
shred_consent_keys-SparesHeld (user ∷ rest) =
    Grows-bind pre _ _ (Grows-statement pre _ _ pre.same) (λ _. Grows-of_GrowsFrom _ (
      GrowsFrom-query SparesHeld pre.same _ _ _ _ (λ held.
        GrowsFrom-bind pre (λ _ s. Unit {0}) _ _ (round-SparesHeld user held) (Yields-anything _)
          (λ _. GrowsFrom-of_Grows _ (shred_consent_keys-SparesHeld rest)))))

-- A sweep destroys no key of a person whose consent evidence is under an active hold, whatever
-- fails and whoever else is swept, and it releases no hold.
pub sweep_consent_shred_due-SparesHeld :
    (t batch : ℕ) (w : World Db) → SparesHeld w.db (sweep_consent_shred_due t batch w).0.db
unfolding sweep_consent_shred_due
sweep_consent_shred_due-SparesHeld t batch w =
    (Grows-bind pre _ _ (Grows-query pre _ _) shred_consent_keys-SparesHeld).at w
