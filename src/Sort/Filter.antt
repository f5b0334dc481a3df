-- ===== src/Sort/Filter.antt =====
-- The stable sort keeps the order of what a filter keeps.
use stplr.Base.{◌≡◌, refl, Bool, true, false, List, [], ◌∷◌, arith, nat_Eq, filter_by, All}
use stplr.Sort.{insert_by, sort_by, IsSorted, sort_by-IsSorted}

module _ {ℓ} {A : Type ℓ} (le : A → A → Bool) where
  insert_by-head : (x : A) (xs : List A) → All (λ y. le x y ≡ true) xs → insert_by le x xs ≡ x ∷ xs
  unfolding insert_by
  insert_by-head x [] a = refl
  insert_by-head x (y ∷ ys) a = ground arith

  All-filter_by :
      (x : A) (q : A → Bool) (xs : List A)
      → All (λ y. le x y ≡ true) xs
      → All (λ y. le x y ≡ true) (filter_by q xs)
  All-filter_by x q [] a = tt
  All-filter_by x q (y ∷ ys) a = ground (arith, All-filter_by x q ys a.1)

  insert_by-dropped :
      (q : A → Bool) (x : A) (xs : List A)
      → q x ≡ false
      → filter_by q (insert_by le x xs) ≡ filter_by q xs
  unfolding insert_by
  insert_by-dropped q x [] h = ground arith
  insert_by-dropped q x (y ∷ ys) h = ground (arith, insert_by-dropped q x ys h)

module _ {ℓ} {A : Type ℓ} (le : A → A → Bool)
    (le_trans : (x y z : A) → le x y ≡ true → le y z ≡ true → le x z ≡ true)
    (le_total : (x y : A) → le x y ≡ false → le y x ≡ true) where
  All-below :
      (x y : A) (ys : List A)
      → le x y ≡ true
      → All (λ z. le y z ≡ true) ys
      → All (λ z. le x z ≡ true) ys
  All-below x y [] h a = tt
  All-below x y (z ∷ zs) h a = (le_trans x y z h a.0, All-below x y zs h a.1)

  insert_by-kept :
      (q : A → Bool) (x : A) (xs : List A)
      → q x ≡ true
      → IsSorted le xs
      → filter_by q (insert_by le x xs) ≡ insert_by le x (filter_by q xs)
  unfolding insert_by
  insert_by-kept q x [] h s = ground arith
  insert_by-kept q x (y ∷ ys) h s = ground (
    arith,
    insert_by-kept q x ys h s.1,
    All-below x y ys,
    All-filter_by le x q ys,
    insert_by-head le x (filter_by q ys),
  )

  pub filter_by-sort_by :
      (q : A → Bool) (xs : List A) → filter_by q (sort_by le xs) ≡ sort_by le (filter_by q xs)
  unfolding sort_by
  filter_by-sort_by q [] = refl
  filter_by-sort_by q (x ∷ xs) = ground (
    arith,
    filter_by-sort_by q xs,
    insert_by-kept q x (sort_by le xs),
    sort_by-IsSorted le le_trans le_total xs,
    insert_by-dropped le q x (sort_by le xs),
  )
