-- ===== src/Sort.antt =====
-- Rust's stable `sort_by`: what it promises is fixed by the test, so insertion stands for it.
pub mod Filter
use stplr.Base.{
  suc, ◌≡◌, refl, Bool, true, false, ◌||◌, List, [], ◌∷◌, arith, if◌then◌else◌, Eq, ◌==◌, nat_Eq,
  length, All, contains, Distinct,
}

module _ {ℓ} {A : Type ℓ} (le : A → A → Bool) where
  unfoldable pub insert_by : A → List A → List A
  insert_by x [] = x ∷ []
  insert_by x (y ∷ ys) = if le x y then x ∷ y ∷ ys else y ∷ insert_by x ys

  -- `x` goes before the later items that it ties with.
  unfoldable pub sort_by : List A → List A
  unfolding insert_by
  sort_by [] = []
  sort_by (x ∷ xs) = insert_by x (sort_by xs)

  abbrev pub IsSorted : List A → Type 0
  IsSorted [] = Unit
  IsSorted (x ∷ xs) = All (λ y. le x y ≡ true) xs × IsSorted xs

  pub length-insert_by : (x : A) (xs : List A) → length (insert_by x xs) ≡ suc (length xs)
  unfolding insert_by
  length-insert_by x [] = refl
  length-insert_by x (y ∷ ys) = ground (arith, length-insert_by x ys)

  pub length-sort_by : (xs : List A) → length (sort_by xs) ≡ length xs
  unfolding sort_by
  length-sort_by [] = refl
  length-sort_by (x ∷ xs) = ground (arith, length-insert_by x (sort_by xs), length-sort_by xs)

  All-insert_by : (P : A → Type 0) (x : A) (xs : List A) → P x → All P xs → All P (insert_by x xs)
  unfolding insert_by
  All-insert_by P x [] p a = (p, tt)
  All-insert_by P x (y ∷ ys) p a = ground (arith, All-insert_by P x ys p a.1)

module _ {ℓ} {A : Type ℓ} (le : A → A → Bool)
    (le_trans : (x y z : A) → le x y ≡ true → le y z ≡ true → le x z ≡ true)
    (le_total : (x y : A) → le x y ≡ false → le y x ≡ true) where
  All-le :
      (x y : A) (ys : List A)
      → le x y ≡ true
      → All (λ z. le y z ≡ true) ys
      → All (λ z. le x z ≡ true) ys
  All-le x y [] h a = tt
  All-le x y (z ∷ zs) h a = (le_trans x y z h a.0, All-le x y zs h a.1)

  insert_by-IsSorted : (x : A) (xs : List A) → IsSorted le xs → IsSorted le (insert_by le x xs)
  unfolding insert_by
  insert_by-IsSorted x [] s = (tt, tt)
  insert_by-IsSorted x (y ∷ ys) s = ground (
    arith,
    All-le x y ys,
    All-insert_by le (λ z. le y z ≡ true) x ys,
    le_total x y,
    insert_by-IsSorted x ys s.1,
  )

  pub sort_by-IsSorted : (xs : List A) → IsSorted le (sort_by le xs)
  unfolding sort_by
  sort_by-IsSorted [] = tt
  sort_by-IsSorted (x ∷ xs) = insert_by-IsSorted x (sort_by le xs) (sort_by-IsSorted xs)

module _ {ℓ} {A : Type ℓ} ⦃e : Eq A⦄ (le : A → A → Bool) where
  pub contains-insert_by :
      (x : A) (xs : List A) (a : A) → contains (insert_by le x xs) a ≡ ((x == a) || contains xs a)
  unfolding insert_by
  contains-insert_by x [] a = refl
  contains-insert_by x (y ∷ ys) a = ground (arith, contains-insert_by x ys a)

  pub contains-sort_by : (xs : List A) (a : A) → contains (sort_by le xs) a ≡ contains xs a
  unfolding sort_by
  contains-sort_by [] a = refl
  contains-sort_by (x ∷ xs) a =
      ground (arith, contains-insert_by x (sort_by le xs) a, contains-sort_by xs a)

  insert_by-Distinct :
      (x : A) (xs : List A) → contains xs x ≡ false → Distinct xs → Distinct (insert_by le x xs)
  unfolding insert_by
  insert_by-Distinct x [] h d = (h, d)
  insert_by-Distinct x (y ∷ ys) h d =
      ground
        (arith, insert_by-Distinct x ys, contains-insert_by x ys y, e.beq_iff x y, e.beq_iff y x)

  pub sort_by-Distinct : (xs : List A) → Distinct xs → Distinct (sort_by le xs)
  unfolding sort_by
  sort_by-Distinct [] d = tt
  sort_by-Distinct (x ∷ xs) d =
      insert_by-Distinct x (sort_by le xs) (rw contains-sort_by d.0) (sort_by-Distinct xs d.1)
