-- ===== src/Audit/Order.antt =====
-- The order of access events, and the events below one.
use Prim.Native.String.{String}
use mathlib.Core.List.Perm as Permutation
use mathlib.Core.List.{Perm}
use dilion.Base.{
  ℕ, leb, ◌≡◌, refl, sym, ap, ◌∙◌, Bool, true, false, ◌||◌, ◌==◌, List, [], ◌∷◌, ◌++◌, select_where,
  any, Bool-cases, inl, inr, arith, if◌then◌else◌,
}
use dilion.Audit.Events.{Event, Codec, is_below, insert_event, newest_first}

-- The order of the identifiers is strict, and tells any two apart.
pub record IsOrder (id_less : String → String → Bool) : Type 0 where
  pub irreflexive : (a : String) → id_less a a ≡ false
  pub transitive : (a b c : String) → id_less a b ≡ true → id_less b c ≡ true → id_less a c ≡ true
  pub total : (a b : String) → (a == b) ≡ false → id_less a b ≡ false → id_less b a ≡ true

abbrev pub is_id : String → Event → Bool
is_id id e = e.id == id

-- From the horizon on, where a formatted time may no longer be parsed: the year 10000.
abbrev pub is_late : ℕ → Event → Bool
is_late horizon e = leb horizon e.created_at

-- The identifiers are a primary key.
abbrev pub DistinctIds : List Event → Type 0
DistinctIds [] = Unit
DistinctIds (a ∷ as_) = (any (is_id a.id) as_ ≡ false) × DistinctIds as_

module _ (codec : Codec) (id_less : String → String → Bool) where
  abbrev pub below : Event → Event → Bool
  below a b = is_below codec id_less (a.created_at, a.id) b

  abbrev AllBelow : Event → List Event → Type 0
  AllBelow a [] = Unit
  AllBelow a (b ∷ bs) = (below a b ≡ true) × AllBelow a bs

  -- The newest event first; at one time, the greater identifier first.
  abbrev pub NewestFirst : List Event → Type 0
  NewestFirst [] = Unit
  NewestFirst (a ∷ as_) = AllBelow a as_ × NewestFirst as_

  select-AllBelow :
      (p : Event → Bool) (a : Event) (bs : List Event)
      → AllBelow a bs
      → AllBelow a (select_where p bs)
  select-AllBelow p a [] h = h
  select-AllBelow p a (b ∷ bs) h = elim (Bool-cases (p b)) [
    | inl t ↦ rw t (h.0, select-AllBelow p a bs h.1)
    | inr f ↦ rw f (select-AllBelow p a bs h.1)
  ]

  AllBelow-select : (a : Event) (bs : List Event) → AllBelow a bs → select_where (below a) bs ≡ bs
  AllBelow-select a [] h = refl
  AllBelow-select a (b ∷ bs) h = rw h.0 (ap (λ x. b ∷ x) (AllBelow-select a bs h.1))

  AllBelow-insert :
      (a : Event) (bs : List Event) → AllBelow a bs → insert_event codec id_less a bs ≡ a ∷ bs
  AllBelow-insert a [] h = refl
  AllBelow-insert a (b ∷ bs) h = rw h.0 refl

  insert-Perm : (a : Event) (bs : List Event) → Perm (insert_event codec id_less a bs) (a ∷ bs)
  insert-Perm a [] = Permutation.refl (a ∷ [])
  insert-Perm a (b ∷ bs) = elim (Bool-cases (below a b)) [
    | inl t ↦ rw t (Permutation.refl (a ∷ b ∷ bs))
    | inr f ↦
        rw f (Permutation.trans (Permutation.cons b (insert-Perm a bs)) (Permutation.swap a b bs))
  ]

  pub newest_first-Perm : (es : List Event) → Perm (newest_first codec id_less es) es
  unfolding newest_first
  newest_first-Perm [] = Permutation.refl []
  newest_first-Perm (a ∷ as_) =
      Permutation.trans (insert-Perm a (newest_first codec id_less as_))
        (Permutation.cons a (newest_first-Perm as_))

  any-insert :
      (p : Event → Bool) (a : Event) (bs : List Event)
      → any p (insert_event codec id_less a bs) ≡ any p (a ∷ bs)
  any-insert p a [] = refl
  any-insert p a (b ∷ bs) = ground (arith, any-insert p a bs)

  pub any-newest_first :
      (p : Event → Bool) (es : List Event) → any p (newest_first codec id_less es) ≡ any p es
  unfolding newest_first
  any-newest_first p [] = refl
  any-newest_first p (a ∷ as_) =
      any-insert p a (newest_first codec id_less as_) ∙ ap (λ b. p a || b) (any-newest_first p as_)

  pub any-select :
      (p q : Event → Bool) (es : List Event) → any p es ≡ false → any p (select_where q es) ≡ false
  any-select p q [] h = refl
  any-select p q (e ∷ es) h = ground (arith, any-select p q es)

  pub select-DistinctIds :
      (p : Event → Bool) (es : List Event) → DistinctIds es → DistinctIds (select_where p es)
  select-DistinctIds p [] h = h
  select-DistinctIds p (a ∷ as_) (new, rest) = elim (Bool-cases (p a)) [
    | inl t ↦ rw t (any-select (is_id a.id) p as_ new, select-DistinctIds p as_ rest)
    | inr f ↦ rw f (select-DistinctIds p as_ rest)
  ]

  module _ (order : IsOrder id_less) where
    below_irreflexive : (a : Event) → below a a ≡ false
    below_irreflexive a = ground (arith, order.irreflexive a.id)

    below_transitive : (a b c : Event) → below a b ≡ true → below b c ≡ true → below a c ≡ true
    below_transitive a b c h k = ground (arith, order.transitive c.id b.id a.id)

    below_asymmetric : (a b : Event) → below a b ≡ true → below b a ≡ false
    below_asymmetric a b h = elim (Bool-cases (below b a)) [
      | inl back ↦ absurd (contrary (sym (below_irreflexive a) ∙ below_transitive a b a h back))
      | inr not_back ↦ not_back
    ]
      where
        contrary : false ≡ true → ⊥
        contrary e = cc

    below_total : (a b : Event) → (b.id == a.id) ≡ false → below a b ≡ false → below b a ≡ true
    below_total a b h f = ground (arith, order.total b.id a.id h)

    below-AllBelow :
        (a b : Event) (bs : List Event) → below a b ≡ true → AllBelow b bs → AllBelow a bs
    below-AllBelow a b [] h k = k
    below-AllBelow a b (c ∷ bs) h k = (below_transitive a b c h k.0, below-AllBelow a b bs h k.1)

    insert-AllBelow :
        (a b : Event) (bs : List Event)
        → below b a ≡ true
        → AllBelow b bs
        → AllBelow b (insert_event codec id_less a bs)
    insert-AllBelow a b [] h k = (h, tt)
    insert-AllBelow a b (c ∷ bs) h k = elim (Bool-cases (below a c)) [
      | inl t ↦ rw t (h, k)
      | inr f ↦ rw f (k.0, insert-AllBelow a b bs h k.1)
    ]

    insert-NewestFirst :
        (a : Event) (bs : List Event)
        → any (is_id a.id) bs ≡ false
        → NewestFirst bs
        → NewestFirst (insert_event codec id_less a bs)
    insert-NewestFirst a [] new n = (tt, tt)
    insert-NewestFirst a (b ∷ bs) new (all_below, n) = elim (Bool-cases (below a b)) [
      | inl t ↦ rw t ((t, below-AllBelow a b bs t all_below), (all_below, n))
      | inr f ↦ rw f (
        insert-AllBelow a b bs (below_total a b (ground arith) f) all_below,
        insert-NewestFirst a bs (ground arith) n,
      )
    ]

    pub newest_first-NewestFirst :
        (es : List Event) → DistinctIds es → NewestFirst (newest_first codec id_less es)
    unfolding newest_first
    newest_first-NewestFirst [] d = tt
    newest_first-NewestFirst (a ∷ as_) (new, d) =
        insert-NewestFirst a (newest_first codec id_less as_)
          (any-newest_first (is_id a.id) as_ ∙ new) (newest_first-NewestFirst as_ d)

    select-insert :
        (p : Event → Bool) (a : Event) (bs : List Event)
        → NewestFirst bs
        → select_where p (insert_event codec id_less a bs)
          ≡ (if p a then insert_event codec id_less a (select_where p bs) else select_where p bs)
    select-insert p a [] n = refl
    select-insert p a (b ∷ bs) (all_below, n) = elim (Bool-cases (below a b)) [
      | inl t ↦
          rw
            (
              t,
              AllBelow-insert a (select_where p (b ∷ bs))
                  (select-AllBelow p a (b ∷ bs) (t, below-AllBelow a b bs t all_below)),
            )
            refl
      | inr f ↦ ground (arith, f, select-insert p a bs n)
    ]

    -- A filter may come before the order or after it.
    pub select-newest_first :
        (p : Event → Bool) (es : List Event)
        → DistinctIds es
        → select_where p (newest_first codec id_less es)
          ≡ newest_first codec id_less (select_where p es)
    unfolding newest_first
    select-newest_first p [] d = refl
    select-newest_first p (a ∷ as_) (new, d) =
        select-insert p a (newest_first codec id_less as_) (newest_first-NewestFirst as_ d)
        ∙ elim (Bool-cases (p a)) [
          | inl t ↦ rw (t, select-newest_first p as_ d) refl
          | inr f ↦ rw (f, select-newest_first p as_ d) refl
        ]

    not_below :
        (b a : Event) (done post : List Event) → AllBelow b (done ++ a ∷ post) → below a b ≡ false
    not_below b a [] post h = below_asymmetric b a h.0
    not_below b a (d ∷ done) post h = not_below b a done post h.1

    -- The events below one are those that follow it.
    pub select-below :
        (done : List Event) (a : Event) (post : List Event)
        → NewestFirst (done ++ a ∷ post)
        → select_where (below a) (done ++ a ∷ post) ≡ post
    select-below [] a post (b, n) = rw (below_irreflexive a) (AllBelow-select a post b)
    select-below (d ∷ done) a post (b, n) =
        rw (not_below d a done post b) (select-below done a post n)
