-- ===== src/Partitioner/Firsts.antt =====
-- The nodes that pass 1 of `pick` (partitioner.rs) goes through: one for each domain.
use stplr.Base.{
  ℕ, zero, suc, ◌≡◌, refl, true, false, ◌||◌, List, [], ◌∷◌, ◌++◌, arith, nat_Eq, take, All,
  contains, Distinct, beq_self, Distinct-take,
}
use stplr.Text.{Text, text_Eq, text_eq_iff}
use stplr.Dict.{Dict}
use stplr.Partitioner.{NodeId, domain_of}
use stplr.Partitioner.Pick.{firsts}

-- The racks of some nodes.
abbrev pub domains : Dict NodeId Text → List NodeId → List Text
domains topology [] = []
domains topology (n ∷ ns) = domain_of topology n ∷ domains topology ns

abbrev pub AllIn : List NodeId → List NodeId → Type 0
AllIn pl ns = All (λ n. contains pl n ≡ true) ns

pub AllIn-cons : (m : NodeId) (pl ns : List NodeId) → AllIn pl ns → AllIn (m ∷ pl) ns
AllIn-cons m pl [] a = tt
AllIn-cons m pl (n ∷ ns) a = (ground arith, AllIn-cons m pl ns a.1)

pub AllIn-take : (r : ℕ) (pl ns : List NodeId) → AllIn pl ns → AllIn pl (take r ns)
AllIn-take zero pl ns a = tt
AllIn-take (suc r) pl [] a = tt
AllIn-take (suc r) pl (n ∷ ns) a = (a.0, AllIn-take r pl ns a.1)

pub AllIn-append : (pl ns ms : List NodeId) → AllIn pl ns → AllIn pl ms → AllIn pl (ns ++ ms)
AllIn-append pl [] ms a b = b
AllIn-append pl (n ∷ ns) ms a b = (a.0, AllIn-append pl ns ms a.1 b)

pub not-contains :
    (pl ns : List NodeId) (n : NodeId) → AllIn pl ns → contains pl n ≡ false → contains ns n ≡ false
not-contains pl [] n a h = refl
not-contains pl (m ∷ ns) n a h = ground (arith, not-contains pl ns n, text_eq_iff m n)

module _ (topology : Dict NodeId Text) where
  pub firsts-AllIn : (pl : List NodeId) (used : List Text) → AllIn pl (firsts topology pl used)
  unfolding firsts
  firsts-AllIn [] used = tt
  firsts-AllIn (n ∷ pl) used =
      let used' = domain_of topology n ∷ used in
      ground (
        arith,
        AllIn-cons n pl (firsts topology pl used) (firsts-AllIn pl used),
        AllIn-cons n pl (firsts topology pl used') (firsts-AllIn pl used'),
        beq_self n,
      )

  pub firsts-Distinct :
      (pl : List NodeId) (used : List Text) → Distinct pl → Distinct (firsts topology pl used)
  unfolding firsts
  firsts-Distinct [] used d = tt
  firsts-Distinct (n ∷ pl) used d =
      let used' = domain_of topology n ∷ used in
      ground (
        arith,
        firsts-Distinct pl used d.1,
        firsts-Distinct pl used' d.1,
        not-contains pl (firsts topology pl used') n (firsts-AllIn pl used') d.0,
      )

  -- No node of a used domain comes again.
  pub domains-firsts_used :
      (pl : List NodeId) (used : List Text) (d : Text)
      → contains used d ≡ true
      → contains (domains topology (firsts topology pl used)) d ≡ false
  unfolding firsts
  domains-firsts_used [] used d h = refl
  domains-firsts_used (n ∷ pl) used d h =
      let used' = domain_of topology n ∷ used in
      ground (
        arith,
        domains-firsts_used pl used d,
        domains-firsts_used pl used' d,
        text_eq_iff (domain_of topology n) d,
      )

  pub domains-firsts-Distinct :
      (pl : List NodeId) (used : List Text) → Distinct (domains topology (firsts topology pl used))
  unfolding firsts
  domains-firsts-Distinct [] used = tt
  domains-firsts-Distinct (n ∷ pl) used =
      let used' = domain_of topology n ∷ used in
      ground (
        arith,
        domains-firsts-Distinct pl used,
        domains-firsts-Distinct pl used',
        domains-firsts_used pl used' (domain_of topology n),
        beq_self (domain_of topology n),
      )

  -- Every domain of the list is used or has its first node.
  pub domains-firsts_all :
      (pl : List NodeId) (used : List Text) (n : NodeId)
      → contains pl n ≡ true
      → (contains used (domain_of topology n)
          || contains (domains topology (firsts topology pl used)) (domain_of topology n))
        ≡ true
  unfolding firsts
  domains-firsts_all [] used n h = cc
  domains-firsts_all (m ∷ pl) used n h =
      let used' = domain_of topology m ∷ used in
      ground (
        arith,
        domains-firsts_all pl used n,
        domains-firsts_all pl used' n,
        text_eq_iff m n,
        beq_self (domain_of topology n),
      )

  domains-take :
      (r : ℕ) (ns : List NodeId) → domains topology (take r ns) ≡ take r (domains topology ns)
  domains-take zero ns = refl
  domains-take (suc r) [] = refl
  domains-take (suc r) (n ∷ ns) = ground (arith, domains-take r ns)

  pub domains-take-Distinct :
      (r : ℕ) (ns : List NodeId)
      → Distinct (domains topology ns)
      → Distinct (domains topology (take r ns))
  domains-take-Distinct r ns d = rw (domains-take r ns) (Distinct-take r (domains topology ns) d)

pub contains-domains-append :
    (topology : Dict NodeId Text) (ns ms : List NodeId) (d : Text)
    → contains (domains topology ns) d ≡ true
    → contains (domains topology (ns ++ ms)) d ≡ true
contains-domains-append topology [] ms d h = cc
contains-domains-append topology (n ∷ ns) ms d h =
    ground (arith, contains-domains-append topology ns ms d)
