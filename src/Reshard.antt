-- ===== src/Reshard.antt =====
-- reshard.rs: the planner, which diffs two memberships bucket by bucket.
pub mod Plan
pub mod Buckets
pub mod Moves
use stplr.Base.{
  ℕ, zero, suc, ◌+◌, min, max, ◌&&◌, Option, none, some, List, [], ◌∷◌, ◌++◌, nat_eq, if◌then◌else◌,
  nat_Eq, length, first, contains,
}
use stplr.Text.{Text, text_Eq}
use stplr.Dict.{Dict}
use stplr.Partitioner.{NodeId, Partitioner, new, set_topology, owners_of_bucket}

pub record Copy : Type 0 where
  pub bucket : ℕ
  pub from : NodeId
  pub to : NodeId

pub record Drop : Type 0 where
  pub bucket : ℕ
  pub node : NodeId

pub record ReshardPlan : Type 0 where
  pub copies : List Copy
  pub drops : List Drop
  pub buckets : ℕ
  pub moved_buckets : ℕ

-- The loop over the new owners: a copy for each that was no owner, if there is a source.
unfoldable pub copies_of : ℕ → Option NodeId → List NodeId → List NodeId → List Copy
copies_of b none old_owners new_owners = []
copies_of b (some src) old_owners [] = []
copies_of b (some src) old_owners (to ∷ new_owners) =
    let rest = copies_of b (some src) old_owners new_owners in
    if contains old_owners to then rest else record { bucket = b; from = src; to = to } ∷ rest

-- The loop over the old owners: a drop for each that is an owner no more.
unfoldable pub drops_of : ℕ → List NodeId → List NodeId → List Drop
drops_of b new_owners [] = []
drops_of b new_owners (node ∷ old_owners) =
    let rest = drops_of b new_owners old_owners in
    if contains new_owners node then rest else record { bucket = b; node = node } ∷ rest

-- One round of the loop over the buckets, on the owners before and after.
unfoldable pub plan_bucket : ℕ → List NodeId → List NodeId → ReshardPlan → ReshardPlan
plan_bucket b old_owners new_owners plan =
    let copies = copies_of b (first old_owners) old_owners new_owners in
    let drops = drops_of b new_owners old_owners in
    record plan {
      copies = plan.copies ++ copies;
      drops = plan.drops ++ drops;
      moved_buckets =
          if nat_eq (length copies) 0 && nat_eq (length drops) 0
          then plan.moved_buckets
          else plan.moved_buckets + 1;
    }

-- `none` is the panic of an index out of bounds.
unfoldable pub old_owners_of : List NodeId → Partitioner → ℕ → ℕ → Option (List NodeId)
old_owners_of [] old_p b r = some []
old_owners_of (n ∷ old) old_p b r = owners_of_bucket old_p b r

abbrev pub both :
    Option (List NodeId)
    → Option (List NodeId)
    → (List NodeId → List NodeId → Option ReshardPlan)
    → Option ReshardPlan
both (some xs) (some ys) f = f xs ys
both _ _ f = none

-- The loop over the `n` buckets from `b` on.
unfoldable pub plan_from :
    List NodeId → Partitioner → ℕ → Partitioner → ℕ → ℕ → ℕ → ReshardPlan → Option ReshardPlan
plan_from old old_p r_old new_p r_new b zero plan = some plan
plan_from old old_p r_old new_p r_new b (suc n) plan =
    both (old_owners_of old old_p b r_old) (owners_of_bucket new_p b r_new)
      (λ old_owners new_owners.
        plan_from old old_p r_old new_p r_new (suc b) n (plan_bucket b old_owners new_owners plan))

-- A partitioner with the rack map, if there is one.
unfoldable pub partitioner_with : List NodeId → Dict NodeId Text → Partitioner
partitioner_with nodes [] = new nodes
partitioner_with nodes (entry ∷ racks) = set_topology (new nodes) (entry ∷ racks)

unfoldable pub clamp : ℕ → ℕ → ℕ
clamp target n = max (min target (max n 1)) 1

unfoldable pub plan_reshard : List NodeId → List NodeId → ℕ → Dict NodeId Text → Option ReshardPlan
plan_reshard old new_nodes replication topology =
    let old_p = partitioner_with old topology in
    let new_p = partitioner_with new_nodes topology in
    let r_old = clamp replication (length old) in
    let r_new = clamp replication (length new_nodes) in
    let buckets = new_p.bucket_count in
    plan_from old old_p r_old new_p r_new 0 buckets
      (record { copies = []; drops = []; buckets = buckets; moved_buckets = 0 })
