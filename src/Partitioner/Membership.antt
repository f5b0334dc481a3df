-- ===== src/Partitioner/Membership.antt =====
-- Membership changes of partitioner.rs (`set_nodes`) without a rack map.
use stplr.Base.{
  ℕ, ◌≤◌, ◌<◌, min, ◌≡◌, refl, sym, ap, ◌∙◌, false, not, some, List, [], arith, ◌==◌, nat_Eq,
  length, take, length-filter_by, contains, Distinct-filter_by,
}
use stplr.Text.{text_Eq}
use stplr.Partitioner.{
  NodeId, Partitioner, num_buckets, rank, set_nodes, pick_clamped, owners_of_bucket,
}
use stplr.Partitioner.Rank.{length-rank}
use stplr.Partitioner.Disruption.{except, take-rank-except}
use stplr.Partitioner.Placement.{IsValid, set_nodes-IsValid, owners_of_bucket_lem}

plain_owners :
    (p : Partitioner) (b r : ℕ)
    → IsValid p
    → p.topology ≡ []
    → b < num_buckets
    → r ≤ length p.nodes
    → owners_of_bucket p b r ≡ some (take r (rank p.nodes b))
unfolding pick_clamped
plain_owners p b r v e h fits =
    owners_of_bucket_lem p v b r h
    ∙ rw (e, (let m : min r (length p.nodes) ≡ r = omega arith in m)) refl

some-inj : {xs ys : List NodeId} → some xs ≡ some ys → xs ≡ ys
some-inj e = cc

-- In a valid partitioner without racks, a node that is not among the `r` owners of a bucket below
-- 4096 can leave, if `r` nodes remain, and the bucket keeps its owners, in their order.
pub owners_stable :
    (p : Partitioner) (b r : ℕ) (gone : NodeId) (owners : List NodeId)
    → IsValid p
    → p.topology ≡ []
    → b < num_buckets
    → r ≤ length (except gone p.nodes)
    → owners_of_bucket p b r ≡ some owners
    → contains owners gone ≡ false
    → owners_of_bucket (set_nodes p (except gone p.nodes)) b r ≡ some owners
unfolding set_nodes
owners_stable p b r gone owners v e h fits own out =
    let p' = set_nodes p (except gone p.nodes) in
    let v' =
      set_nodes-IsValid p (except gone p.nodes) v
        (Distinct-filter_by (λ n. not (n == gone)) p.nodes v.distinct) in
    let size = length-filter_by (λ n. not (n == gone)) p.nodes in
    let same = some-inj (sym (plain_owners p b r v e h (omega (arith, size))) ∙ own) in
    plain_owners p' b r v' e h fits
    ∙ ap some (
        take-rank-except p.nodes b r gone (rw same out) (omega (arith, length-rank p.nodes b, size))
        ∙ same)
