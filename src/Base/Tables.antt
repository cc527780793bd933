-- ===== src/Base/Tables.antt =====
-- The rows of a table that an operation leaves alone.
use Prim.Native.Nat.{◌≤◌}
use mathlib.Core.Path.{◌≡◌, refl}
use mathlib.Core.Bool.{Bool, true, false, not, ◌&&◌}
use mathlib.Core.Option.{some}
use mathlib.Core.List.{List, [], ◌∷◌, ◌++◌}
use native.Mathlib.Omega.{arith}
use dilion.Base.Lists.{select_where, delete_where, update_where, any, all, count, find}

-- The rows of a table that `mine` does not claim.
abbrev pub others {ℓ} : {A : Type ℓ} → (A → Bool) → List A → List A
others mine xs = select_where (λ x. not (mine x)) xs

module _ {ℓ} {A : Type ℓ} (mine p : A → Bool) (claim : (x : A) → p x ≡ true → mine x ≡ true) where
  pub others-delete_where : (xs : List A) → others mine (delete_where p xs) ≡ others mine xs
  others-delete_where [] = refl
  others-delete_where (x ∷ xs) = ground (arith, claim x, others-delete_where xs)

  pub others-update_where :
      (f : A → A) (xs : List A)
      → ((x : A) → mine x ≡ true → mine (f x) ≡ true)
      → others mine (update_where p f xs) ≡ others mine xs
  others-update_where f [] keep = refl
  others-update_where f (x ∷ xs) keep =
      ground (arith, claim x, keep x, others-update_where f xs keep)

module _ {ℓ} {A : Type ℓ} (mine : A → Bool) where
  pub others-append :
      (xs : List A) (x : A) → mine x ≡ true → others mine (xs ++ x ∷ []) ≡ others mine xs
  others-append [] x h = ground arith
  others-append (y ∷ xs) x h = ground (arith, others-append xs x h)

module _ {ℓ} {A : Type ℓ} (p q : A → Bool) (f : A → A)
    (back : (x : A) → p x ≡ true → q (f x) ≡ true → q x ≡ true) where
  -- An update that makes no row satisfy a test finds the rows that satisfied it before.
  pub any-update_where : (xs : List A) → any q (update_where p f xs) ≡ true → any q xs ≡ true
  any-update_where [] h = h
  any-update_where (x ∷ xs) h = ground (arith, back x, any-update_where xs)

-- How many rows satisfy a test, after an update and after an insertion.
module _ {ℓ} {A : Type ℓ} (q : A → Bool) where
  pub count-update_where :
      (p : A → Bool) (f : A → A)
      → ((x : A) → p x ≡ true → q (f x) ≡ true → q x ≡ true)
      → (xs : List A) → count q (update_where p f xs) ≤ count q xs
  count-update_where p f back [] = ground arith
  count-update_where p f back (x ∷ xs) = ground (arith, back x, count-update_where p f back xs)

  pub count-append_none : (xs : List A) (x : A) → q x ≡ false → count q (xs ++ x ∷ []) ≡ count q xs
  count-append_none [] x h = ground arith
  count-append_none (y ∷ xs) x h = ground (arith, count-append_none xs x h)

  pub count-append_one : (xs : List A) (x : A) → any q xs ≡ false → count q (xs ++ x ∷ []) ≤ 1
  count-append_one [] x h = ground arith
  count-append_one (y ∷ xs) x h = ground (arith, count-append_one xs x)

pub any-cong {ℓ} :
    {A : Type ℓ} (p q : A → Bool) → ((x : A) → p x ≡ q x) → (xs : List A) → any p xs ≡ any q xs
any-cong p q h [] = refl
any-cong p q h (x ∷ xs) = rw (h x, any-cong p q h xs) refl

pub both_true : (a b : Bool) → (a && b) ≡ true → (a ≡ true) × (b ≡ true)
both_true true true h = (refl, refl)
both_true true false h = cc
both_true false b h = cc

-- The row that an update finds by a narrower test is the one that the wider test finds after it.
module _ {ℓ} {A : Type ℓ} (mine p : A → Bool) (claim : (x : A) → p x ≡ true → mine x ≡ true) where
  pub count-find : (xs : List A) (x : A) → find p xs ≡ some x → 1 ≤ count mine xs
  count-find [] x h = cc
  count-find (y ∷ xs) x h = ground (arith, count-find xs x, claim y)

  pub find-update_where :
      (f : A → A)
      → ((x : A) → mine x ≡ true → mine (f x) ≡ true)
      → (xs : List A) (x : A) → count mine xs ≤ 1
      → find p xs ≡ some x
      → find mine (update_where p f xs) ≡ some (f x)
  find-update_where f keep [] x one h = cc
  find-update_where f keep (y ∷ xs) x one h =
      ground (arith, find-update_where f keep xs x, count-find xs x, claim y, keep y)

-- A selection that an update or an insertion passes by.
module _ {ℓ} {A : Type ℓ} (q : A → Bool) where
  pub select-update_where :
      (p : A → Bool) (f : A → A)
      → ((x : A) → p x ≡ true → (q x ≡ false) × (q (f x) ≡ false))
      → (xs : List A) → select_where q (update_where p f xs) ≡ select_where q xs
  select-update_where p f apart [] = refl
  select-update_where p f apart (x ∷ xs) = ground (arith, apart x, select-update_where p f apart xs)

  pub select-append :
      (xs : List A) (x : A) → q x ≡ false → select_where q (xs ++ x ∷ []) ≡ select_where q xs
  select-append [] x h = ground arith
  select-append (y ∷ xs) x h = ground (arith, select-append xs x h)

-- A test that every row satisfies, after an insertion and after an update.
module _ {ℓ} {A : Type ℓ} (q : A → Bool) where
  pub all-append :
      (xs : List A) (x : A) → all q xs ≡ true → q x ≡ true → all q (xs ++ x ∷ []) ≡ true
  all-append [] x h k = ground arith
  all-append (y ∷ xs) x h k = ground (arith, all-append xs x)

  pub all-update_where :
      (p : A → Bool) (f : A → A)
      → ((x : A) → q x ≡ true → q (f x) ≡ true)
      → (xs : List A) → all q xs ≡ true
      → all q (update_where p f xs) ≡ true
  all-update_where p f keep [] h = refl
  all-update_where p f keep (x ∷ xs) h = ground (arith, keep x, all-update_where p f keep xs)
