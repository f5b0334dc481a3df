-- ===== src/Partitioner/Replicas.antt =====
-- What `pick` of partitioner.rs chooses from a preference list of distinct nodes.
use stplr.Base.{
  ℕ, zero, suc, ◌-◌, ◌≤◌, ◌<◌, min, ◌≡◌, refl, ◌∙◌, true, false, not, some, List, [], ◌∷◌, ◌++◌,
  arith, nat_Eq, length, take, first, All, length-append, length-take, take-all, contains, Distinct,
  beq_self, contains-append, Distinct-take, contains-filter_by, Distinct-filter_by,
}
use stplr.Text.{Text, text_Eq, text_eq_iff}
use stplr.Dict.{Dict}
use stplr.Partitioner.{NodeId, domain_of, pass_one, pass_two}
use stplr.Partitioner.Pick.{firsts, fresh, pass_one_lem, pass_two_lem, length-fresh}
use stplr.Partitioner.Firsts.{
  contains-domains-append, domains, AllIn, AllIn-take, AllIn-append, firsts-AllIn, firsts-Distinct,
  domains-firsts-Distinct, domains-firsts_all, domains-take-Distinct,
}

pub AllIn-self :
    (ns pl : List NodeId)
    → ((n : NodeId) → contains ns n ≡ true → contains pl n ≡ true)
    → AllIn pl ns
AllIn-self [] pl h = tt
AllIn-self (n ∷ ns) pl h =
    (h n (ground (arith, beq_self n)), AllIn-self ns pl (λ m k. h m (ground arith)))

fresh-AllIn : (chosen pl : List NodeId) → AllIn pl (fresh chosen pl)
unfolding fresh
fresh-AllIn chosen pl =
    AllIn-self (fresh chosen pl) pl
      (λ n h. ground (arith, contains-filter_by (λ m. not (contains chosen m)) pl n))

fresh-new : (chosen pl : List NodeId) → All (λ n. contains chosen n ≡ false) (fresh chosen pl)
unfolding fresh
fresh-new chosen [] = tt
fresh-new chosen (n ∷ pl) = ground (arith, fresh-new chosen pl)

All-take-new :
    (chosen : List NodeId) (r : ℕ) (ns : List NodeId)
    → All (λ n. contains chosen n ≡ false) ns
    → All (λ n. contains chosen n ≡ false) (take r ns)
All-take-new chosen zero ns a = tt
All-take-new chosen (suc r) [] a = tt
All-take-new chosen (suc r) (n ∷ ns) a = (a.0, All-take-new chosen r ns a.1)

new-not-contains :
    (n : NodeId) (chosen ns : List NodeId)
    → All (λ m. contains (n ∷ chosen) m ≡ false) ns
    → (contains ns n ≡ false) × All (λ m. contains chosen m ≡ false) ns
new-not-contains n chosen [] a = (refl, tt)
new-not-contains n chosen (m ∷ ns) a =
    ground (arith, new-not-contains n chosen ns a.1, text_eq_iff m n, text_eq_iff n m)

Distinct-append :
    (xs ys : List NodeId)
    → Distinct xs
    → Distinct ys
    → All (λ y. contains xs y ≡ false) ys
    → Distinct (xs ++ ys)
Distinct-append [] ys d e a = e
Distinct-append (x ∷ xs) ys d e a =
    let (apart, rest) = new-not-contains x xs ys a in
    ground (arith, contains-append xs ys x, apart, Distinct-append xs ys d.1 e rest)

module _ (topology : Dict NodeId Text) (pl : List NodeId) (r : ℕ) where
  unfoldable pub first_pass : List NodeId
  first_pass = take r (firsts topology pl [])

  unfoldable pub second_pass : List NodeId
  unfolding first_pass
  second_pass = first_pass ++ take (r - length first_pass) (fresh first_pass pl)

  pub first_pass_lem : pass_one topology r pl [] [] ≡ first_pass
  unfolding first_pass
  first_pass_lem = pass_one_lem topology r pl [] [] ∙ (let e : r - 0 ≡ r = omega arith in rw e refl)

  pub length-first_pass : length first_pass ≡ min r (length (firsts topology pl []))
  unfolding first_pass
  length-first_pass = length-take r (firsts topology pl [])

  pub first_pass-AllIn : AllIn pl first_pass
  unfolding first_pass
  first_pass-AllIn = AllIn-take r pl (firsts topology pl []) (firsts-AllIn topology pl [])

  pub second_pass-AllIn : AllIn pl second_pass
  unfolding second_pass
  second_pass-AllIn =
      AllIn-append pl first_pass (take (r - length first_pass) (fresh first_pass pl))
        first_pass-AllIn
        (AllIn-take (r - length first_pass) pl (fresh first_pass pl) (fresh-AllIn first_pass pl))

  pub first_pass_racks :
      (length first_pass < r
        → (n : NodeId) → contains pl n ≡ true
        → contains (domains topology first_pass) (domain_of topology n) ≡ true)
      × Distinct (domains topology first_pass)
  unfolding first_pass
  first_pass_racks = (
    λ short n h.
        rw
          (take-all r (firsts topology pl [])
            (omega (arith, length-take r (firsts topology pl []))))
          (domains-firsts_all topology pl [] n h),
    domains-take-Distinct topology r (firsts topology pl [])
        (domains-firsts-Distinct topology pl []),
  )

  pub domains-second_pass :
      (domain : Text)
      → contains (domains topology first_pass) domain ≡ true
      → contains (domains topology second_pass) domain ≡ true
  unfolding second_pass
  domains-second_pass domain =
      contains-domains-append topology first_pass
        (take (r - length first_pass) (fresh first_pass pl)) domain

first-pass_two :
    (r : ℕ) (pl : List NodeId) (n : NodeId) (chosen : List NodeId)
    → first (pass_two r pl (n ∷ chosen)) ≡ some n
unfolding pass_two
first-pass_two r [] n chosen = refl
first-pass_two r (m ∷ pl) n chosen =
    ground (arith, first-pass_two r pl n chosen, first-pass_two r pl n (chosen ++ m ∷ []))

-- Pass 1 begins with the head of the list, and pass 2 keeps it.
pub pass_one_head :
    (topology : Dict NodeId Text) (n : NodeId) (pl : List NodeId) (r : ℕ)
    → (rest : List NodeId) × (pass_one topology (suc r) (n ∷ pl) [] [] ≡ n ∷ rest)
unfolding first_pass firsts
pass_one_head topology n pl r = (
  take r (firsts topology pl (domain_of topology n ∷ [])),
  first_pass_lem topology (n ∷ pl) (suc r),
)

pub first-passes :
    (topology : Dict NodeId Text) (n : NodeId) (pl : List NodeId) (r : ℕ)
    → let chosen = pass_one topology (suc r) (n ∷ pl) [] [] in
      (first chosen ≡ some n) × (first (pass_two (suc r) (n ∷ pl) chosen) ≡ some n)
first-passes topology n pl r =
    let (rest, e) = pass_one_head topology n pl r in
    (rw e refl, rw e (first-pass_two (suc r) (n ∷ pl) n rest))

module _ (topology : Dict NodeId Text) (pl : List NodeId) (r : ℕ) (d : Distinct pl) where
  pub first_pass-Distinct : Distinct (first_pass topology pl r)
  unfolding first_pass
  first_pass-Distinct = Distinct-take r (firsts topology pl []) (firsts-Distinct topology pl [] d)

  pub second_pass_lem : pass_two r pl (first_pass topology pl r) ≡ second_pass topology pl r
  unfolding second_pass
  second_pass_lem = pass_two_lem r pl (first_pass topology pl r) d

  pub second_pass-Distinct : Distinct (second_pass topology pl r)
  unfolding second_pass fresh
  second_pass-Distinct =
      let chosen = first_pass topology pl r in
      let rest = fresh chosen pl in
      Distinct-append chosen (take (r - length chosen) rest) first_pass-Distinct
        (Distinct-take (r - length chosen) rest
          (Distinct-filter_by (λ n. not (contains chosen n)) pl d))
        (All-take-new chosen (r - length chosen) rest (fresh-new chosen pl))

  pub length-second_pass : r ≤ length pl → length (second_pass topology pl r) ≡ r
  unfolding second_pass
  length-second_pass fits =
      let chosen = first_pass topology pl r in
      omega (
        arith,
        length-append chosen (take (r - length chosen) (fresh chosen pl)),
        length-take (r - length chosen) (fresh chosen pl),
        length-fresh chosen pl d first_pass-Distinct (first_pass-AllIn topology pl r),
        length-first_pass topology pl r,
      )
