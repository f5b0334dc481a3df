-- ===== src/Cluster/Partitions.antt =====
-- cluster.rs: the read partitions of `partition_plan`.
use stplr.Base.{
  ℕ, zero, suc, ◌+◌, ◌≤◌, ◌<◌, ◌≡◌, refl, ap, ◌∙◌, Bool, true, false, not, ◌&&◌, ◌||◌, Option, none,
  some, List, [], ◌∷◌, ◌++◌, arith, ltb, leb, nat_eq, nat_eq_iff, if◌then◌else◌, ◌==◌, nat_Eq,
  first, contains, contains-append,
}
use stplr.Text.{Text, text_Eq, text_eq_iff, text_lt}
use stplr.Dict.{Dict, get, insert, get-insert}
use stplr.Sort.{sort_by}
use stplr.Partitioner.{NodeId, Partitioner, num_buckets, owners_of_bucket, rank}
use stplr.Partitioner.Placement.{IsValid, owners_primary}
use stplr.Cluster.{Cluster, has_client}

pub record Partition : Type 0 where
  pub id : NodeId
  pub endpoint : Text
  pub buckets : List ℕ

abbrev pub list_or_none : {A : Type 0} → Option (List A) → List A
list_or_none none = []
list_or_none (some xs) = xs

-- `by.entry(node).or_default().push(x)`
unfoldable pub push_to : {A : Type 0} → Dict NodeId (List A) → NodeId → A → Dict NodeId (List A)
push_to m node x = insert m node (list_or_none (get m node) ++ x ∷ [])

abbrev pub push_first : Dict NodeId (List ℕ) → Option NodeId → ℕ → Dict NodeId (List ℕ)
push_first m none b = m
push_first m (some node) b = push_to m node b

-- The loop of `partition_plan` over `n` buckets from `b` on.
unfoldable pub group_primaries :
    Partitioner → ℕ → ℕ → Dict NodeId (List ℕ) → Option (Dict NodeId (List ℕ))
group_primaries p b zero m = some m
group_primaries p b (suc n) m = elim (owners_of_bucket p b 1) [
  | none ↦ none
  | some ns ↦ group_primaries p (suc b) n (push_first m (first ns) b)
]

abbrev pub by_id : Partition → Partition → Bool
by_id a b = not (text_lt b.id a.id)

unfoldable pub partitions : Cluster → (NodeId → Text) → Dict NodeId (List ℕ) → List Partition
partitions c endpoint [] = []
partitions c endpoint ((id, buckets) ∷ m) =
    record { id = id; endpoint = if has_client c id then endpoint id else []; buckets = buckets }
    ∷ partitions c endpoint m

-- `endpoint` is the base URL of a node's client.
unfoldable pub partition_plan : Cluster → (NodeId → Text) → Option (List Partition)
partition_plan c endpoint = elim (group_primaries c.partitioner 0 c.partitioner.bucket_count []) [
  | none ↦ none
  | some m ↦ some (sort_by by_id (partitions c endpoint m))
]

-- Whether a node is ranked first for a bucket.
abbrev pub is_primary : Partitioner → ℕ → NodeId → Bool
is_primary p b node = elim (first (rank p.nodes b)) [ none ↦ false | some n ↦ n == node ]

abbrev pub has_bucket : Dict NodeId (List ℕ) → NodeId → ℕ → Bool
has_bucket m node b = contains (list_or_none (get m node)) b

push_first_lem :
    (m : Dict NodeId (List ℕ)) (found : Option NodeId) (b : ℕ) (node : NodeId) (x : ℕ)
    → has_bucket (push_first m found b) node x
      ≡ ((nat_eq b x && elim found [ none ↦ false | some n ↦ n == node ]) || has_bucket m node x)
unfolding push_to
push_first_lem m none b node x = ground arith
push_first_lem m (some n) b node x =
    let old = list_or_none (get m n) in
    rw (get-insert m n (old ++ b ∷ []) node)
      (ground (arith, text_eq_iff n node, contains-append old (b ∷ []) x))

module _ (p : Partitioner) (v : IsValid p) where
  primary_at :
      (b x : ℕ) (node : NodeId) → nat_eq b x ≡ true → is_primary p b node ≡ is_primary p x node
  primary_at b x node same = ap (λ (i : ℕ). is_primary p i node) ((nat_eq_iff b x).0 same)

  in_all :
      (b : ℕ) (node : NodeId)
      → b < num_buckets
      → (((leb 0 b && ltb b (0 + num_buckets)) && is_primary p b node) || has_bucket [] node b)
        ≡ is_primary p b node
  unfolding get
  in_all b node h = ground arith

  group_primaries_lem :
      (n b : ℕ) (m : Dict NodeId (List ℕ))
      → b + n ≤ num_buckets
      → (m' : Dict NodeId (List ℕ)) × (group_primaries p b n m ≡ some m')
        × ((node : NodeId) (x : ℕ)
            → has_bucket m' node x
              ≡ (((leb b x && ltb x (b + n)) && is_primary p x node) || has_bucket m node x))
  unfolding group_primaries
  group_primaries_lem zero b m fits = (m, refl, λ node x. ground arith)
  group_primaries_lem (suc n) b m fits =
      let (ns, found, head) = owners_primary p v b 1 (omega arith) (omega arith) in
      let (m', rest, lem) =
        group_primaries_lem n (suc b) (push_first m (first ns) b) (omega arith) in
      (
        m',
        rw (found, group_primaries) rest,
        λ node x.
            lem node x
            ∙ rw (push_first_lem m (first ns) b node x, head) (ground (arith, primary_at b x node)),
      )

  -- In a valid partitioner the partitions are found, and a bucket below 4096 is in the partition
  -- of a node exactly when the node is ranked first for it.
  pub has_bucket-group_primaries :
      (b : ℕ) (node : NodeId)
      → b < num_buckets
      → (m : Dict NodeId (List ℕ)) × (group_primaries p 0 p.bucket_count [] ≡ some m)
        × (has_bucket m node b ≡ is_primary p b node)
  has_bucket-group_primaries b node h =
      let (m, found, lem) = group_primaries_lem num_buckets 0 [] (omega arith) in
      (m, ap (λ (n : ℕ). group_primaries p 0 n []) v.full ∙ found, lem node b ∙ in_all b node h)
