-- ===== src/Store/Keys.antt =====
-- Ascending lists of keys, as the scans of store.rs walk them.
use stplr.Base.{
  ℕ, zero, suc, ◌≡◌, refl, subst, Bool, true, false, some, List, [], ◌∷◌, arith, nat_Eq, take,
  filter_by, All, drop, contains, Distinct,
}
use stplr.Text.{Text, text_Eq, text_eq_iff, text_lt, text_lt_self, text_lt_trans, text_lt_total}
use stplr.Sort.{sort_by, IsSorted, sort_by-IsSorted, sort_by-Distinct}
use stplr.Store.{text_le, last_key}

-- Strictly rising, so each key once.
abbrev pub Ascending : List Text → Type 0
Ascending [] = Unit
Ascending (k ∷ ks) = All (λ x. text_lt k x ≡ true) ks × Ascending ks

lt_of_le :
    (k : Text) (ks : List Text)
    → contains ks k ≡ false
    → All (λ x. text_le k x ≡ true) ks
    → All (λ x. text_lt k x ≡ true) ks
lt_of_le k [] h a = tt
lt_of_le k (x ∷ ks) h a = ground (arith, lt_of_le k ks, text_lt_total k x, text_eq_iff x k)

sorted-Ascending : (ks : List Text) → IsSorted text_le ks → Distinct ks → Ascending ks
sorted-Ascending [] s d = tt
sorted-Ascending (k ∷ ks) s d = (lt_of_le k ks d.0 s.0, sorted-Ascending ks s.1 d.1)

le_trans : (x y z : Text) → text_le x y ≡ true → text_le y z ≡ true → text_le x z ≡ true
le_trans x y z h k = ground (
  arith,
  text_lt_trans z x y,
  text_lt_trans x y z,
  text_lt_total y x,
  text_lt_total x y,
  text_lt_trans y z x,
  text_lt_total z y,
)

le_total : (x y : Text) → text_le x y ≡ false → text_le y x ≡ true
le_total x y h = ground (arith, text_lt_trans x y x, text_lt_self x)

pub sort_by-Ascending : (ks : List Text) → Distinct ks → Ascending (sort_by text_le ks)
sort_by-Ascending ks d =
    sorted-Ascending (sort_by text_le ks) (sort_by-IsSorted text_le le_trans le_total ks)
      (sort_by-Distinct text_le ks d)

module _ (P : Text → Type 0) where
  pub All-filter_by : (q : Text → Bool) (ks : List Text) → All P ks → All P (filter_by q ks)
  All-filter_by q [] a = tt
  All-filter_by q (k ∷ ks) a = ground (arith, All-filter_by q ks a.1)

  pub All-take : (n : ℕ) (ks : List Text) → All P ks → All P (take n ks)
  All-take zero ks a = tt
  All-take (suc n) [] a = tt
  All-take (suc n) (k ∷ ks) a = (a.0, All-take n ks a.1)

pub filter_by-Ascending :
    (q : Text → Bool) (ks : List Text) → Ascending ks → Ascending (filter_by q ks)
filter_by-Ascending q [] a = tt
filter_by-Ascending q (k ∷ ks) a =
    ground (arith, All-filter_by (λ x. text_lt k x ≡ true) q ks a.0, filter_by-Ascending q ks a.1)

pub take-Ascending : (n : ℕ) (ks : List Text) → Ascending ks → Ascending (take n ks)
take-Ascending zero ks a = tt
take-Ascending (suc n) [] a = tt
take-Ascending (suc n) (k ∷ ks) a =
    (All-take (λ x. text_lt k x ≡ true) n ks a.0, take-Ascending n ks a.1)

abbrev beyond : Text → List Text → List Text
beyond l = filter_by (λ k. text_lt l k)

beyond-all : (l : Text) (ks : List Text) → All (λ x. text_lt l x ≡ true) ks → beyond l ks ≡ ks
beyond-all l [] a = refl
beyond-all l (k ∷ ks) a = ground (arith, beyond-all l ks a.1)

last-above :
    (k l : Text) (n : ℕ) (ks : List Text)
    → All (λ x. text_lt k x ≡ true) ks
    → last_key (take n ks) ≡ some l
    → text_lt k l ≡ true
last-above k l zero ks a h = absurd (cc)
last-above k l (suc n) [] a h = absurd (cc)
last-above k l (suc zero) (x ∷ ks) a h = ground arith
last-above k l (suc (suc n)) (x ∷ []) a h = ground arith
last-above k l (suc (suc n)) (x ∷ x' ∷ ks) a h = last-above k l (suc n) (x' ∷ ks) a.1 h

not-above : (k l : Text) → text_lt k l ≡ true → text_lt l k ≡ false
not-above k l h = ground (arith, text_lt_trans k l k, text_lt_self k)

beyond_self :
    (k : Text) (ks : List Text) → All (λ x. text_lt k x ≡ true) ks → beyond k (k ∷ ks) ≡ ks
beyond_self k ks a = ground (arith, text_lt_self k, beyond-all k ks a)

-- What lies beyond the last key of a page is what was left after the page.
pub beyond-last :
    (n : ℕ) (ks : List Text) (l : Text)
    → Ascending ks
    → last_key (take n ks) ≡ some l
    → filter_by (λ k. text_lt l k) ks ≡ drop n ks
beyond-last zero ks l a h = absurd (cc)
beyond-last (suc n) [] l a h = refl
beyond-last (suc zero) (k ∷ ks) l a h =
    subst (λ (m : Text). filter_by (λ x. text_lt m x) (k ∷ ks) ≡ ks) (ground arith)
      (beyond_self k ks a.0)
beyond-last (suc (suc n)) (k ∷ []) l a h =
    subst (λ (m : Text). filter_by (λ x. text_lt m x) (k ∷ []) ≡ []) (ground arith)
      (beyond_self k [] a.0)
beyond-last (suc (suc n)) (k ∷ k' ∷ ks) l a h =
    rw (not-above k l (last-above k l (suc n) (k' ∷ ks) a.0 h))
      (beyond-last (suc n) (k' ∷ ks) l a.1 h)
