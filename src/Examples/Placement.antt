-- ===== src/Examples/Placement.antt =====
-- The claims about partitioner.rs and reshard.rs on three nodes.
use stplr.Base.{ℕ, ◌<◌, min, ◌≡◌, refl, ◌∙◌, some, List, [], ◌∷◌, arith, nat_Eq, length, Distinct}
use stplr.Text.{text_eq, Text, text_Eq, codes}
use stplr.Dict.{Dict}
use stplr.Partitioner.{
  NodeId, Partitioner, new, set_topology, set_nodes, fnv1a, rank, num_buckets, bucket_of,
  owners_of_bucket, replica_set,
}
use stplr.Partitioner.Placement.{
  IsValid, new-IsValid, set_topology-IsValid, IsPlacement, IsSpread, owners_of_bucket_lem,
  owners-IsPlacement, owners-IsSpread,
}
use stplr.Partitioner.Disruption.{except}
use stplr.Partitioner.Membership.{owners_stable}
use stplr.Reshard.{ReshardPlan, plan_reshard, partitioner_with, clamp}
use stplr.Reshard.Moves.{Turns, plan_reshard-Turns, partitioner_with-IsValid}

abbrev node_a : NodeId
node_a = codes "a"

abbrev node_b : NodeId
node_b = codes "b"

abbrev node_c : NodeId
node_c = codes "c"

abbrev two : List NodeId
two = node_a ∷ node_b ∷ []

abbrev three : List NodeId
three = node_a ∷ node_b ∷ node_c ∷ []

abbrev racks : Dict NodeId Text
racks = (node_a, codes "r1") ∷ (node_b, codes "r1") ∷ []

hash_a : fnv1a node_a ≡ 0xe40c292c
unfolding fnv1a
hash_a = refl

order : rank three 7 ≡ node_b ∷ node_c ∷ node_a ∷ []
unfolding rank stplr.Sort.sort_by stplr.Partitioner.bucket_score fnv1a
order = refl

three-Distinct : Distinct three
unfolding text_eq
three-Distinct = (refl, (refl, (refl, tt)))

two-Distinct : Distinct two
unfolding text_eq
two-Distinct = (refl, (refl, tt))

flat : IsValid (new three)
flat = new-IsValid three three-Distinct

racked : IsValid (set_topology (new three) racks)
racked = set_topology-IsValid (new three) racks flat

owners-IsPlacement_example :
    (owners : List NodeId) × (owners_of_bucket (set_topology (new three) racks) 7 2 ≡ some owners)
    × IsPlacement
        (set_topology (new three) racks).nodes
        (min 2 (length (set_topology (new three) racks).nodes))
        owners
owners-IsPlacement_example =
    owners-IsPlacement (set_topology (new three) racks) racked 7 2 (omega arith)

owners-IsSpread_example :
    (owners : List NodeId) × (owners_of_bucket (set_topology (new three) racks) 7 2 ≡ some owners)
    × IsSpread
        (set_topology (new three) racks).topology
        (set_topology (new three) racks).nodes
        owners
unfolding set_topology
owners-IsSpread_example =
    owners-IsSpread (set_topology (new three) racks) racked 7 2 (node_a, codes "r1")
      ((node_b, codes "r1") ∷ []) (omega arith) refl

own7 : owners_of_bucket (new three) 7 1 ≡ some (node_b ∷ [])
unfolding stplr.Partitioner.pick_clamped new set_nodes rank stplr.Sort.sort_by
    stplr.Partitioner.bucket_score fnv1a
own7 = owners_of_bucket_lem (new three) flat 7 1 (omega arith) ∙ refl

owners_stable_example :
    owners_of_bucket (set_nodes (new three) (except node_c (new three).nodes)) 7 1
    ≡ some (node_b ∷ [])
unfolding new set_nodes stplr.Text.text_eq
owners_stable_example =
    owners_stable (new three) 7 1 node_c (node_b ∷ []) flat refl (omega arith) (omega arith) own7
      refl

before_join : IsValid (partitioner_with two racks)
before_join = partitioner_with-IsValid two racks two-Distinct

after_join : IsValid (partitioner_with three racks)
after_join = partitioner_with-IsValid three racks three-Distinct

small : 7 < num_buckets
small = omega arith

abbrev owned : (p : Partitioner) → IsValid p → (r : ℕ) → List NodeId
owned p v r = (owners-IsPlacement p v 7 r small).0

plan_reshard-Turns_example :
    (plan : ReshardPlan) × (plan_reshard two three 2 racks ≡ some plan)
    × Turns plan 7
        (owned (partitioner_with two racks) before_join (clamp 2 2))
        (owned (partitioner_with three racks) after_join (clamp 2 3))
plan_reshard-Turns_example =
    plan_reshard-Turns node_a (node_b ∷ []) three 2 racks two-Distinct three-Distinct 7
      (owned (partitioner_with two racks) before_join (clamp 2 2))
      (owned (partitioner_with three racks) after_join (clamp 2 3)) small
      (owners-IsPlacement (partitioner_with two racks) before_join 7 (clamp 2 2) small).1
      (owners-IsPlacement (partitioner_with three racks) after_join 7 (clamp 2 3) small).1
