-- ===== src/Partitioner/Pick.antt =====
-- The two passes of `pick` of partitioner.rs as plain list expressions.
use stplr.Base.{
  ℕ, zero, suc, ◌+◌, ◌-◌, ◌≤◌, ◌<◌, ◌≡◌, refl, sym, true, false, not, List, [], ◌∷◌, ◌++◌,
  append-nil, arith, if◌then◌else◌, nat_Eq, length, take, filter_by, All, length-append, contains,
  Distinct, contains-append,
}
use stplr.Text.{Text, text_Eq, text_eq_iff}
use stplr.Dict.{Dict}
use stplr.Partitioner.{NodeId, domain_of, pass_one, pass_two}

-- The first node of each domain that is not in `used`.
unfoldable pub firsts : Dict NodeId Text → List NodeId → List Text → List NodeId
firsts topology [] used = []
firsts topology (n ∷ pl) used =
    let skip = firsts topology pl used in
    let push = n ∷ firsts topology pl (domain_of topology n ∷ used) in
    if contains used (domain_of topology n) then skip else push

unfoldable pub fresh : List NodeId → List NodeId → List NodeId
fresh chosen pl = filter_by (λ n. not (contains chosen n)) pl

take-past : (r : ℕ) (k : ℕ) (xs : List NodeId) → r ≤ k → take (r - k) xs ≡ []
take-past r k xs h = rw (let e : r - k ≡ 0 = omega arith in e) refl

take-step :
    (r k : ℕ) (x : NodeId) (xs : List NodeId)
    → k < r
    → take (r - k) (x ∷ xs) ≡ x ∷ take (r - (k + 1)) xs
take-step r k x xs h = let e : r - k ≡ suc (r - (k + 1)) = omega arith in rw e refl

append-snoc :
    (xs : List NodeId) (x : NodeId) (ys : List NodeId) → (xs ++ x ∷ []) ++ ys ≡ xs ++ x ∷ ys
append-snoc [] x ys = refl
append-snoc (y ∷ xs) x ys = ground (arith, append-snoc xs x ys)

length-snoc : (xs : List NodeId) (x : NodeId) → length (xs ++ x ∷ []) ≡ length xs + 1
length-snoc xs x = length-append xs (x ∷ [])

take-nil : (k : ℕ) → take {A = NodeId} k [] ≡ []
take-nil zero = refl
take-nil (suc k) = refl

-- Pass 1 takes as many first-of-their-domain nodes as there is room for.
pub pass_one_lem :
    (topology : Dict NodeId Text) (r : ℕ) (pl chosen : List NodeId) (used : List Text)
    → pass_one topology r pl chosen used
      ≡ chosen ++ take (r - length chosen) (firsts topology pl used)
unfolding pass_one firsts
pass_one_lem topology r [] chosen used = rw (take-nil (r - length chosen)) (sym (append-nil chosen))
pass_one_lem topology r (n ∷ pl) chosen used =
    let used' = domain_of topology n ∷ used in
    ground (
      arith,
      take-past r (length chosen) (firsts topology (n ∷ pl) used),
      append-nil chosen,
      take-step r (length chosen) n (firsts topology pl used'),
      append-snoc chosen n (take (r - (length chosen + 1)) (firsts topology pl used')),
      length-snoc chosen n,
      pass_one_lem topology r pl chosen used,
      pass_one_lem topology r pl (chosen ++ n ∷ []) used',
    )

fresh-snoc :
    (chosen : List NodeId) (n : NodeId) (pl : List NodeId)
    → contains pl n ≡ false
    → fresh (chosen ++ n ∷ []) pl ≡ fresh chosen pl
unfolding fresh
fresh-snoc chosen n [] h = refl
fresh-snoc chosen n (m ∷ pl) h = ground (
  arith,
  fresh-snoc chosen n pl,
  contains-append chosen (n ∷ []) m,
  text_eq_iff n m,
  text_eq_iff m n,
)

-- Pass 2 takes as many nodes that were not chosen as there is room for.
pub pass_two_lem :
    (r : ℕ) (pl chosen : List NodeId)
    → Distinct pl
    → pass_two r pl chosen ≡ chosen ++ take (r - length chosen) (fresh chosen pl)
unfolding pass_two fresh
pass_two_lem r [] chosen d = rw (take-nil (r - length chosen)) (sym (append-nil chosen))
pass_two_lem r (n ∷ pl) chosen d = ground (
  arith,
  take-past r (length chosen) (fresh chosen (n ∷ pl)),
  append-nil chosen,
  take-step r (length chosen) n (fresh chosen pl),
  append-snoc chosen n (take (r - (length chosen + 1)) (fresh chosen pl)),
  length-snoc chosen n,
  fresh-snoc chosen n pl d.0,
  pass_two_lem r pl chosen d.1,
  pass_two_lem r pl (chosen ++ n ∷ []) d.1,
)

fresh-absent :
    (x : NodeId) (chosen pl : List NodeId)
    → contains pl x ≡ false
    → fresh (x ∷ chosen) pl ≡ fresh chosen pl
unfolding fresh
fresh-absent x chosen [] h = refl
fresh-absent x chosen (m ∷ pl) h =
    ground (arith, fresh-absent x chosen pl, text_eq_iff x m, text_eq_iff m x)

fresh-cons :
    (x : NodeId) (chosen pl : List NodeId)
    → Distinct pl
    → contains chosen x ≡ false
    → contains pl x ≡ true
    → length (fresh (x ∷ chosen) pl) + 1 ≡ length (fresh chosen pl)
unfolding fresh
fresh-cons x chosen [] d h k = cc
fresh-cons x chosen (m ∷ pl) d h k = ground (
  arith,
  fresh-cons x chosen pl d.1 h,
  fresh-absent x chosen pl,
  text_eq_iff x m,
  text_eq_iff m x,
)

fresh-nil : (pl : List NodeId) → fresh [] pl ≡ pl
unfolding fresh
fresh-nil [] = refl
fresh-nil (m ∷ pl) = ground (arith, fresh-nil pl)

-- Of distinct nodes, those that are chosen and those that are not make up all.
pub length-fresh :
    (chosen pl : List NodeId)
    → Distinct pl
    → Distinct chosen
    → All (λ n. contains pl n ≡ true) chosen
    → length (fresh chosen pl) + length chosen ≡ length pl
length-fresh [] pl d c a = rw (fresh-nil pl) (omega arith)
length-fresh (x ∷ chosen) pl d c a =
    omega (arith, fresh-cons x chosen pl d c.0 a.0, length-fresh chosen pl d c.1 a.1)
