-- ===== src/Reshard/Moves.antt =====
-- `plan_reshard` of reshard.rs as a whole: the moves of its plan and the owners of each bucket.
use stplr.Base.{
  ℕ, ◌<◌, ◌≡◌, refl, sym, ap, ◌∙◌, true, false, not, ◌&&◌, ◌||◌, some, List, [], ◌∷◌, arith, nat_Eq,
  length, contains, Distinct, beq_self,
}
use stplr.Text.{text_eq_iff, Text, text_Eq}
use stplr.Dict.{Dict}
use stplr.Partitioner.{
  NodeId, Partitioner, num_buckets, new, set_topology, owners_of_bucket, set_nodes,
}
use stplr.Partitioner.Placement.{IsValid, new-IsValid, set_topology-IsValid, owners-IsPlacement}
use stplr.Reshard.{ReshardPlan, old_owners_of, plan_from, partitioner_with, clamp, plan_reshard}
use stplr.Reshard.Plan.{copied, dropped, Covers, Total}
use stplr.Reshard.Buckets.{IsFresh, plan_from-IsPlanned}

pub partitioner_with-IsValid :
    (nodes : List NodeId) (topology : Dict NodeId Text)
    → Distinct nodes
    → IsValid (partitioner_with nodes topology)
unfolding partitioner_with
partitioner_with-IsValid nodes [] d = new-IsValid nodes d
partitioner_with-IsValid nodes (entry ∷ racks) d =
    set_topology-IsValid (new nodes) (entry ∷ racks) (new-IsValid nodes d)

nodes-partitioner_with :
    (nodes : List NodeId) (topology : Dict NodeId Text)
    → (partitioner_with nodes topology).nodes ≡ nodes
unfolding partitioner_with new set_topology set_nodes
nodes-partitioner_with nodes [] = refl
nodes-partitioner_with nodes (entry ∷ racks) = refl

-- The moves of `plan` on the bucket `b` turn the owners `xs` into the owners `ys`: each copy comes
-- from one source, an old owner, to a node that held nothing; each drop is at an old owner.
pub record Turns (plan : ReshardPlan) (b : ℕ) (xs ys : List NodeId) : Type 0 where
  pub source : NodeId
  pub source_holds : contains xs source ≡ true
  pub after_moves :
      (n : NodeId)
      → ((contains xs n || copied plan.copies b source n) && not (dropped plan.drops b n))
        ≡ contains ys n
  pub one_source : (from to : NodeId) → copied plan.copies b from to ≡ true → source ≡ from
  pub copies_new :
      (from to : NodeId)
      → copied plan.copies b from to ≡ true
      → (contains xs to ≡ false) × (contains ys to ≡ true)
  pub drops_old :
      (n : NodeId)
      → dropped plan.drops b n ≡ true
      → (contains xs n ≡ true) × (contains ys n ≡ false)

Covers-Turns :
    (plan : ReshardPlan) (b : ℕ) (x : NodeId) (xs ys : List NodeId)
    → Covers plan b (x ∷ xs) ys
    → Turns plan b (x ∷ xs) ys
Covers-Turns plan b x xs ys c = record {
  source = x;
  source_holds = ground (arith, beq_self x);
  after_moves = λ n. ground (arith, c.copies_lem x n, c.drops_lem n, beq_self x);
  one_source = λ from to h. ground (arith, c.copies_lem from to, text_eq_iff x from);
  copies_new = λ from to h. ground (arith, c.copies_lem from to);
  drops_old = λ n h. ground (arith, c.drops_lem n);
}

clamp-pos : (r n : ℕ) → 0 < clamp r n
unfolding clamp
clamp-pos r n = omega arith

turn_step :
    (plan : ReshardPlan) (b : ℕ) (xs ys : List NodeId)
    → 0 < length xs
    → Covers plan b xs ys
    → Turns plan b xs ys
turn_step plan b [] ys h c = absurd (omega arith)
turn_step plan b (x ∷ xs) ys h c = Covers-Turns plan b x xs ys c

-- The plan that the loop starts from.
abbrev start : ReshardPlan
start = record { copies = []; drops = []; buckets = num_buckets; moved_buckets = 0 }

start-IsFresh : IsFresh start 0
unfolding copied dropped
start-IsFresh = record { no_copies = λ b' from to h. refl; no_drops = λ b' node h. refl }

module _ (o : NodeId) (os new_ : List NodeId) (r : ℕ) (topology : Dict NodeId Text) where
  abbrev old_p : Partitioner
  old_p = partitioner_with (o ∷ os) topology

  abbrev new_p : Partitioner
  new_p = partitioner_with new_ topology

  abbrev r_old : ℕ
  r_old = clamp r (length (o ∷ os))

  abbrev r_new : ℕ
  r_new = clamp r (length new_)

  module _ (d : Distinct (o ∷ os)) (d' : Distinct new_) where
    total : Total (o ∷ os) old_p r_old new_p r_new
    unfolding old_owners_of
    total b h =
        let (xs, e, p) =
          owners-IsPlacement old_p (partitioner_with-IsValid (o ∷ os) topology d) b r_old h in
        let (ys, f, q) =
          owners-IsPlacement new_p (partitioner_with-IsValid new_ topology d') b r_new h in
        (xs, ys, e, f)

    some_owner :
        (b : ℕ) (xs : List NodeId)
        → b < num_buckets
        → owners_of_bucket old_p b r_old ≡ some xs
        → 0 < length xs
    some_owner b xs h e =
        let (xs', e', p) =
          owners-IsPlacement old_p (partitioner_with-IsValid (o ∷ os) topology d) b r_old h in
        let same : some xs' ≡ some xs = sym e' ∙ e in
        let size : length xs' ≡ length xs = ground arith in
        let nodes = ap (λ (l : List NodeId). length l) (nodes-partitioner_with (o ∷ os) topology) in
        omega (arith, p.sized, size, nodes, clamp-pos r (length (o ∷ os)))

    -- From distinct old nodes, at least one, to distinct new ones the planner ends with a plan,
    -- and on a bucket below 4096 its moves turn the owners before into the owners after: each copy
    -- comes from one old owner and goes to a node that held nothing, each drop is at an old owner.
    pub plan_reshard-Turns :
        (b : ℕ) (xs ys : List NodeId)
        → b < num_buckets
        → owners_of_bucket old_p b r_old ≡ some xs
        → owners_of_bucket new_p b r_new ≡ some ys
        → (plan : ReshardPlan) × (plan_reshard (o ∷ os) new_ r topology ≡ some plan)
          × Turns plan b xs ys
    unfolding plan_reshard old_owners_of
    plan_reshard-Turns b xs ys h e f =
        let full = (partitioner_with-IsValid new_ topology d').full in
        let (plan, found, planned) =
          plan_from-IsPlanned (o ∷ os) old_p r_old new_p r_new total num_buckets 0 start
            (omega arith) start-IsFresh in
        (
          plan,
          ap
                (λ (n : ℕ).
                  plan_from (o ∷ os) old_p r_old new_p r_new 0 n
                    (record { copies = []; drops = []; buckets = n; moved_buckets = 0 }))
                full
              ∙ found,
          turn_step plan b xs ys (some_owner b xs h e)
              (planned.covered b xs ys (omega arith) (omega arith) e f),
        )
