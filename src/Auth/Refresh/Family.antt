-- ===== src/Auth/Refresh/Family.antt =====
-- The tokens that descend from one, and the rounds that find them all (internal/auth/store.go,
-- revokeTokenFamily).
use dilion.Base.{
  ℕ, zero, suc, ◌≡◌, refl, sym, ap, ◌∙◌, subst, ◌≤◌, ◌<◌, Bool, true, false, ◌&&◌, ◌||◌, not,
  String, List, [], ◌∷◌, ◌++◌, map, any, count, length, contains, select_where, eq_refl, arith,
  Bool-cases, inl, inr,
}
use dilion.Auth.Refresh.Tables.{RefreshToken, family, child_of}

-- A token descends from itself; and with a token, so do those that have it as their parent.
pub data Descends (ks : List RefreshToken) (root : String) : String → Type 0 where
  itself : Descends ks root root
  child :
      (pre post : List RefreshToken) (k : RefreshToken)
      → ks ≡ pre ++ k ∷ post
      → Descends ks root k.parent
      → Descends ks root k.token

contains-append :
    (xs ys : List String) (s : String) → contains (xs ++ ys) s ≡ (contains xs s || contains ys s)
contains-append [] ys s = refl
contains-append (x ∷ xs) ys s = ground (arith, contains-append xs ys s)

none-in :
    {A : Type 0} (p : A → Bool) (pre : List A) (a : A) (post : List A)
    → any p (pre ++ a ∷ post) ≡ false
    → p a ≡ false
none-in p [] a post h = ground arith
none-in p (b ∷ pre) a post h = none-in p pre a post (ground arith)

select-none : {A : Type 0} (p : A → Bool) (xs : List A) → any p xs ≡ false → select_where p xs ≡ []
select-none p [] h = refl
select-none p (x ∷ xs) h = ground (arith, select-none p xs)

append-nil : (xs : List String) → xs ++ [] ≡ xs
append-nil [] = refl
append-nil (x ∷ xs) = ap (λ ys. x ∷ ys) (append-nil xs)

-- The rows that are not among the names.
abbrev beside : List String → RefreshToken → Bool
beside names k = not (contains names k.token)

abbrev next : List RefreshToken → List String → List String
next ks names = names ++ map (λ k. k.token) (select_where (child_of names) ks)

next-narrows :
    (names more : List String) (ks : List RefreshToken)
    → count (beside (names ++ more)) ks ≤ count (beside names) ks
next-narrows names more [] = omega arith
next-narrows names more (k ∷ ks) =
    ground (arith, contains-append names more k.token, next-narrows names more ks)

count-length : {A : Type 0} (p : A → Bool) (xs : List A) → count p xs ≤ length xs
count-length p [] = omega arith
count-length p (x ∷ xs) = ground (arith, count-length p xs)

none-beside :
    (names : List String) (ks : List RefreshToken)
    → count (beside names) ks ≡ 0
    → any (child_of names) ks ≡ false
none-beside names [] h = refl
none-beside names (k ∷ ks) h = ground (arith, none-beside names ks)

module _ {A : Type 0} (p : A → Bool) where
  any-split :
      (xs : List A)
      → any p xs ≡ true
      → (pre : List A) × (x : A) × (post : List A) × (xs ≡ pre ++ x ∷ post) × (p x ≡ true)
  any-split [] h = absurd (ground arith)
  any-split (x ∷ xs) h = elim (Bool-cases (p x)) [
    | inl t ↦ ([], x, xs, refl, t)
    | inr f ↦
        let (pre, y, post, e, t) = any-split xs (ground (arith, f)) in
        (x ∷ pre, y, post, ap (λ ys. x ∷ ys) e, t)
  ]

  any-here : (pre : List A) (x : A) (post : List A) → p x ≡ true → any p (pre ++ x ∷ post) ≡ true
  any-here [] x post h = rw h refl
  any-here (y ∷ pre) x post h = ground (arith, any-here pre x post h)

contains-selected :
    (p : RefreshToken → Bool) (pre : List RefreshToken) (k : RefreshToken)
    (post : List RefreshToken)
    → p k ≡ true
    → contains (map (λ x. x.token) (select_where p (pre ++ k ∷ post))) k.token ≡ true
contains-selected p [] k post h = rw (h, eq_refl k.token) refl
contains-selected p (x ∷ pre) k post h = ground (arith, contains-selected p pre k post h)

drops :
    (names more : List String) (ks : List RefreshToken)
    → any (λ k. child_of names k && contains more k.token) ks ≡ true
    → count (beside (names ++ more)) ks < count (beside names) ks
drops names more [] h = absurd (ground arith)
drops names more (k ∷ ks) h =
    ground
      (arith, contains-append names more k.token, next-narrows names more ks, drops names more ks)

next-drops :
    (names : List String) (ks : List RefreshToken)
    → any (child_of names) ks ≡ true
    → count (beside (next ks names)) ks < count (beside names) ks
next-drops names ks h =
    let (pre, k, post, e, t) = any-split (child_of names) ks h in
    drops names _ ks (
      subst
        (λ xs.
          any
            (λ x.
              child_of names x
              && contains (map (λ y. y.token) (select_where (child_of names) xs)) x.token)
            xs
          ≡ true)
        (sym e)
        (any-here _ pre k post (rw (t, contains-selected (child_of names) pre k post t) refl)))

family_closed :
    (rounds : ℕ) (ks : List RefreshToken) (names : List String)
    → count (beside names) ks ≤ rounds
    → any (child_of (family rounds ks names)) ks ≡ false
unfolding family
family_closed zero ks names h = none-beside names ks (omega (arith, h))
family_closed (suc rounds) ks names h = elim (Bool-cases (any (child_of names) ks)) [
  | inl more ↦ family_closed rounds ks (next ks names) (omega (arith, h, next-drops names ks more))
  | inr closed ↦
      rw (select-none (child_of names) ks closed, append-nil names) (stays rounds ks names closed)
]
  where
    stays :
        (rounds : ℕ) (ks : List RefreshToken) (names : List String)
        → any (child_of names) ks ≡ false
        → any (child_of (family rounds ks names)) ks ≡ false
    stays zero ks names c = c
    stays (suc rounds) ks names c =
        rw (select-none (child_of names) ks c, append-nil names) (stays rounds ks names c)

family-widens :
    (rounds : ℕ) (ks : List RefreshToken) (names : List String) (s : String)
    → contains names s ≡ true
    → contains (family rounds ks names) s ≡ true
unfolding family
family-widens zero ks names s h = h
family-widens (suc rounds) ks names s h =
    family-widens rounds ks (next ks names) s
      (contains-append names (map (λ k. k.token) (select_where (child_of names) ks)) s ∙ rw h refl)

-- As many rounds as there are tokens find every descendant.
pub family-Descends :
    (ks : List RefreshToken) (root s : String)
    → Descends ks root s
    → contains (family (length ks) ks (root ∷ [])) s ≡ true
family-Descends ks root s itself =
    family-widens (length ks) ks (root ∷ []) root (rw (eq_refl root) refl)
family-Descends ks root s (child pre post k e d) =
    let names = family (length ks) ks (root ∷ []) in
    let parent = family-Descends ks root k.parent d in
    let closed = none-in (child_of names) pre k post (
      subst (λ xs. any (child_of names) xs ≡ false) e
        (family_closed (length ks) ks (root ∷ []) (count-length (beside (root ∷ [])) ks))) in
    ground (arith, parent, closed)
