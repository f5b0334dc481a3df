-- ===== src/Partitioner/Placement.antt =====
-- `pick`, `owners_of_bucket` and `replica_set` of partitioner.rs: how many replicas, which ones, and
-- on which racks.
use stplr.Base.{
  ℕ, zero, suc, ◌+◌, ◌-◌, ◌≤◌, ◌<◌, min, ◌≡◌, refl, sym, subst, ◌∙◌, ◌⊎◌, inl, inr, true, none,
  some, List, [], ◌∷◌, arith, ltb, if◌then◌else◌, ltb→lt, Bool-cases, nat_Eq, length, get_elem?,
  first, All, length-take, contains, Distinct, Distinct-take,
}
use stplr.Text.{Text, text_Eq}
use stplr.Dict.{Dict}
use stplr.Partitioner.{
  pass_one, preference_list, pick, owners_of_bucket, replica_set, num_buckets, rank, bucket_of,
  set_topology, rank_from, Partitioner, new, set_nodes, NodeId, domain_of, pick_clamped,
}
use stplr.Partitioner.Firsts.{domains, AllIn-take}
use stplr.Partitioner.Rank.{length-rank, contains-rank, rank-Distinct}
use stplr.Partitioner.Replicas.{
  first_pass_racks, domains-second_pass, first-passes, AllIn-self, first_pass, second_pass,
  first_pass_lem, length-first_pass, first_pass-AllIn, second_pass-AllIn, first_pass-Distinct,
  second_pass_lem, second_pass-Distinct, length-second_pass,
}

-- What a choice of `r` replicas from a preference list is to be.
pub record IsPlacement (pl : List NodeId) (r : ℕ) (chosen : List NodeId) : Type 0 where
  pub sized : length chosen ≡ r
  pub distinct : Distinct chosen
  pub listed : All (λ n. contains pl n ≡ true) chosen

-- The choice takes distinct racks, or it has a node on every rack of the list.
abbrev pub IsSpread : Dict NodeId Text → List NodeId → List NodeId → Type 0
IsSpread topology pl chosen =
    Distinct (domains topology chosen)
    ⊎ ((n : NodeId)
        → contains pl n ≡ true
        → contains (domains topology chosen) (domain_of topology n) ≡ true)

module _ (pl : List NodeId) (r : ℕ) (d : Distinct pl) (fits : r ≤ length pl) where
  pick_clamped-racked :
      (entry : NodeId × Text) (racks : Dict NodeId Text)
      → pick_clamped (entry ∷ racks) pl r ≡ (
          if ltb (length (first_pass (entry ∷ racks) pl r)) r
          then second_pass (entry ∷ racks) pl r
          else first_pass (entry ∷ racks) pl r)
  unfolding pick_clamped
  pick_clamped-racked entry racks =
      rw (first_pass_lem (entry ∷ racks) pl r, second_pass_lem (entry ∷ racks) pl r d) refl

  pick_clamped-IsPlacement :
      (topology : Dict NodeId Text) → IsPlacement pl r (pick_clamped topology pl r)
  unfolding pick_clamped
  pick_clamped-IsPlacement [] = record {
    sized = omega (arith, length-take r pl);
    distinct = Distinct-take r pl d;
    listed = AllIn-take r pl pl (AllIn-self pl pl (λ n h. h));
  }
  pick_clamped-IsPlacement (entry ∷ racks) =
      let topology = entry ∷ racks in
      rw (pick_clamped-racked entry racks) (
        ground (
          arith,
          length-first_pass topology pl r,
          first_pass-Distinct topology pl r d,
          first_pass-AllIn topology pl r,
          length-second_pass topology pl r d fits,
          second_pass-Distinct topology pl r d,
          second_pass-AllIn topology pl r,
        ))

  pick_clamped-IsSpread :
      (entry : NodeId × Text) (racks : Dict NodeId Text)
      → IsSpread (entry ∷ racks) pl (pick_clamped (entry ∷ racks) pl r)
  pick_clamped-IsSpread entry racks =
      let topology = entry ∷ racks in
      let chosen = first_pass topology pl r in
      let spread = first_pass_racks topology pl r in
      elim (Bool-cases (ltb (length chosen) r)) [
        | inl short ↦
            rw (pick_clamped-racked entry racks, short)
              (inr (λ n h.
                domains-second_pass topology pl r (domain_of topology n)
                  (spread.0 (ltb→lt (length chosen) r short) n h)))
        | inr full ↦ rw (pick_clamped-racked entry racks, full) (inl spread.1)
      ]

first-pick_clamped :
    (topology : Dict NodeId Text) (n : NodeId) (pl : List NodeId) (r : ℕ)
    → first (pick_clamped topology (n ∷ pl) (suc r)) ≡ some n
unfolding pick_clamped
first-pick_clamped [] n pl r = refl
first-pick_clamped (entry ∷ racks) n pl r =
    let kept = first-passes (entry ∷ racks) n pl r in ground (arith, kept)

-- The index of buckets is what `set_nodes` builds, and the nodes are distinct.
pub record IsValid (p : Partitioner) : Type 0 where
  pub ranked : p.buckets ≡ rank_from p.nodes 0 p.bucket_count
  pub distinct : Distinct p.nodes
  pub full : p.bucket_count ≡ num_buckets

pub new-IsValid : (nodes : List NodeId) → Distinct nodes → IsValid (new nodes)
unfolding new set_nodes
new-IsValid nodes d = record { ranked = refl; distinct = d; full = refl }

pub set_nodes-IsValid :
    (p : Partitioner) (nodes : List NodeId)
    → IsValid p
    → Distinct nodes
    → IsValid (set_nodes p nodes)
unfolding set_nodes
set_nodes-IsValid p nodes v d = record { ranked = refl; distinct = d; full = v.full }

pub set_topology-IsValid :
    (p : Partitioner) (topology : Dict NodeId Text) → IsValid p → IsValid (set_topology p topology)
unfolding set_topology
set_topology-IsValid p topology v = record {
  ranked = v.ranked;
  distinct = v.distinct;
  full = v.full;
}

get_elem?-rank_from :
    (nodes : List NodeId) (k n b : ℕ)
    → b < n
    → get_elem? (rank_from nodes k n) b ≡ some (rank nodes (k + b))
unfolding rank_from
get_elem?-rank_from nodes k zero b h = absurd (omega arith)
get_elem?-rank_from nodes k (suc n) zero h = rw (let e : k + 0 ≡ k = omega arith in e) refl
get_elem?-rank_from nodes k (suc n) (suc b) h =
    rw (let e : k + suc b ≡ suc k + b = omega arith in e)
      (get_elem?-rank_from nodes (suc k) n b (omega arith))

pub bucket_of-lt : (key : Text) → bucket_of key < num_buckets
unfolding bucket_of
bucket_of-lt key = omega arith

All-contains-rank :
    (nodes : List NodeId) (b : ℕ) (ns : List NodeId)
    → All (λ n. contains (rank nodes b) n ≡ true) ns
    → All (λ n. contains nodes n ≡ true) ns
All-contains-rank nodes b [] a = tt
All-contains-rank nodes b (n ∷ ns) a =
    (sym (contains-rank nodes b n) ∙ a.0, All-contains-rank nodes b ns a.1)

IsSpread-rank :
    (topology : Dict NodeId Text) (nodes : List NodeId) (b : ℕ) (chosen : List NodeId)
    → IsSpread topology (rank nodes b) chosen
    → IsSpread topology nodes chosen
IsSpread-rank topology nodes b chosen (inl d) = inl d
IsSpread-rank topology nodes b chosen (inr f) = inr (λ n h. f n (contains-rank nodes b n ∙ h))

first-pick_nil : (topology : Dict NodeId Text) → first (pick_clamped topology [] 0) ≡ none
unfolding pick_clamped pass_one
first-pick_nil [] = refl
first-pick_nil (entry ∷ racks) = refl

first-pick :
    (topology : Dict NodeId Text) (pl : List NodeId) (r : ℕ)
    → 0 < r
    → first (pick_clamped topology pl (min r (length pl))) ≡ first pl
first-pick topology [] r pos = rw (let e : min r 0 ≡ 0 = omega arith in e) (first-pick_nil topology)
first-pick topology (n ∷ pl) r pos =
    rw (let e : min r (suc (length pl)) ≡ suc (min r (suc (length pl)) - 1) = omega arith in e)
      (first-pick_clamped topology n pl (min r (suc (length pl)) - 1))

module _ (p : Partitioner) (v : IsValid p) where
  pub bucket_ranked : (b : ℕ) → b < num_buckets → get_elem? p.buckets b ≡ some (rank p.nodes b)
  bucket_ranked b h =
      rw (v.ranked, v.full)
        (get_elem?-rank_from p.nodes 0 num_buckets b h
          ∙ rw (let e : 0 + b ≡ b = omega arith in e) refl)

  pub owners_of_bucket_lem :
      (b r : ℕ)
      → b < num_buckets
      → owners_of_bucket p b r
        ≡ some (pick_clamped p.topology (rank p.nodes b) (min r (length p.nodes)))
  unfolding owners_of_bucket pick
  owners_of_bucket_lem b r h = rw (bucket_ranked b h, owners_of_bucket) refl

  -- A key's replicas are the owners of its bucket, and the index of buckets holds that bucket.
  pub replica_set-eq-owners :
      (key : Text) (r : ℕ) → replica_set p key r ≡ owners_of_bucket p (bucket_of key) r
  unfolding replica_set preference_list owners_of_bucket
  replica_set-eq-owners key r = refl

  -- In a valid partitioner of `n` nodes a bucket below 4096 has owners, for any `r`: distinct
  -- nodes of the membership, `min r n` of them.
  pub owners-IsPlacement :
      (b r : ℕ)
      → b < num_buckets
      → (owners : List NodeId) × (owners_of_bucket p b r ≡ some owners)
        × IsPlacement p.nodes (min r (length p.nodes)) owners
  owners-IsPlacement b r h =
      let pl = rank p.nodes b in
      let k = min r (length p.nodes) in
      let place =
        pick_clamped-IsPlacement pl k (rank-Distinct p.nodes b v.distinct)
          (omega (arith, length-rank p.nodes b)) p.topology in
      (
        pick_clamped p.topology pl k,
        owners_of_bucket_lem b r h,
        record {
          sized = place.sized;
          distinct = place.distinct;
          listed = All-contains-rank p.nodes b (pick_clamped p.topology pl k) place.listed;
        },
      )

  -- In a valid partitioner with a rack map a bucket below 4096 has owners on distinct racks, or
  -- every rack of a node has an owner of the bucket.
  pub owners-IsSpread :
      (b r : ℕ) (entry : NodeId × Text) (racks : Dict NodeId Text)
      → b < num_buckets
      → p.topology ≡ entry ∷ racks
      → (owners : List NodeId) × (owners_of_bucket p b r ≡ some owners)
        × IsSpread p.topology p.nodes owners
  owners-IsSpread b r entry racks h e =
      let pl = rank p.nodes b in
      let k = min r (length p.nodes) in
      (
        pick_clamped p.topology pl k,
        owners_of_bucket_lem b r h,
        IsSpread-rank p.topology p.nodes b (pick_clamped p.topology pl k) (
            subst (λ (T : Dict NodeId Text). IsSpread T pl (pick_clamped T pl k)) (sym e)
              (pick_clamped-IsSpread pl k (rank-Distinct p.nodes b v.distinct)
                (omega (arith, length-rank p.nodes b)) entry racks)),
      )

  -- In a valid partitioner the first owner of a bucket below 4096, if any is asked for, is the
  -- node that is ranked first, whatever the racks.
  pub owners_primary :
      (b r : ℕ)
      → b < num_buckets
      → 0 < r
      → (owners : List NodeId) × (owners_of_bucket p b r ≡ some owners)
        × (first owners ≡ first (rank p.nodes b))
  owners_primary b r h pos =
      let pl = rank p.nodes b in
      (
        pick_clamped p.topology pl (min r (length p.nodes)),
        owners_of_bucket_lem b r h,
        rw (sym (length-rank p.nodes b)) (first-pick p.topology pl r pos),
      )
