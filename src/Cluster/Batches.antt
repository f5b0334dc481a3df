-- ===== src/Cluster/Batches.antt =====
-- cluster.rs: the batch calls `mget` and `bulk_load`, and `apply_membership`.
use stplr.Base.{ℕ, zero, suc, Option, none, some, List, [], ◌∷◌, if◌then◌else◌, nat_Eq, get_elem?}
use stplr.Text.{Text, text_Eq}
use stplr.Dict.{Dict, get}
use stplr.Partitioner.{NodeId, replica_set}
use stplr.Client.{ShardClients}
use stplr.Cluster.{Cluster, has_client, live_owner, add_node}
use stplr.Cluster.Migration.{MigrateSummary, rebalance}
use stplr.Cluster.Partitions.{push_to}

module _ {V : Type 0} where
  -- `out[i] = v`
  unfoldable pub set_at : List (Option V) → ℕ → Option V → List (Option V)
  set_at [] i v = []
  set_at (x ∷ out) zero v = v ∷ out
  set_at (x ∷ out) (suc i) v = x ∷ set_at out i v

  -- The loop over one shard's indices and the values that it sent.
  unfoldable pub fill : List (Option V) → List ℕ → List (Option V) → List (Option V)
  fill out [] vals = out
  fill out (i ∷ idxs) [] = fill (set_at out i none) idxs []
  fill out (i ∷ idxs) (v ∷ vals) = fill (set_at out i v) idxs vals

  unfoldable pub blanks : List Text → List (Option V)
  blanks [] = []
  blanks (k ∷ keys) = none ∷ blanks keys

-- The indices of the keys by the node that serves them.
unfoldable pub by_owner : Cluster → ℕ → List Text → Dict NodeId (List ℕ) → Dict NodeId (List ℕ)
by_owner c i [] m = m
by_owner c i (k ∷ keys) m = elim (live_owner c k) [
  | none ↦ by_owner c (suc i) keys m
  | some owner ↦ by_owner c (suc i) keys (push_to m owner i)
]

unfoldable pub keys_at : List Text → List ℕ → List Text
keys_at keys [] = []
keys_at keys (i ∷ idxs) = elim (get_elem? keys i) [
  | none ↦ keys_at keys idxs
  | some k ↦ k ∷ keys_at keys idxs
]

module _ {W V : Type 0} (o : ShardClients W V) where
  -- The loop over the nodes; a node without a client or whose call fails leaves its keys `None`.
  unfoldable pub mget_nodes :
      Cluster → W → Text → List Text → List (Option V) → Dict NodeId (List ℕ) → List (Option V)
  mget_nodes c w coll keys out [] = out
  mget_nodes c w coll keys out ((node, idxs) ∷ m) =
      let filled : List (Option V) = elim (o.mget w node coll (keys_at keys idxs)) [
        | none ↦ out
        | some vals ↦ fill out idxs vals
      ] in
      mget_nodes c w coll keys (if has_client c node then filled else out) m

  unfoldable pub mget : Cluster → W → Text → List Text → List (Option V)
  mget c w coll keys = mget_nodes c w coll keys (blanks keys) (by_owner c 0 keys [])

  unfoldable pub push_all :
      Dict NodeId (List (Text × V)) → List NodeId → Text × V → Dict NodeId (List (Text × V))
  push_all per [] entry = per
  push_all per (n ∷ ns) entry = push_all (push_to per n entry) ns entry

  -- The entries by owner; `none` is the panic of an index out of bounds.
  unfoldable pub per_owner :
      Cluster
      → List (Text × V)
      → Dict NodeId (List (Text × V))
      → Option (Dict NodeId (List (Text × V)))
  per_owner c [] per = some per
  per_owner c ((key, obj) ∷ entries) per = elim (replica_set c.partitioner key c.replication) [
    | none ↦ none
    | some ns ↦ per_owner c entries (push_all per ns (key, obj))
  ]

  unfoldable pub import_all : W → Text → Dict NodeId (List (Text × V)) → List NodeId → W
  import_all w coll per [] = w
  import_all w coll per (id ∷ ids) =
      let w' : W = elim (get per id) [ none ↦ w | some es ↦ (o.import_entries w id coll es).0 ] in
      import_all w' coll per ids

  unfoldable pub bulk_load : Cluster → W → Text → List (Text × V) → Option W
  bulk_load c w coll entries = elim (per_owner c entries []) [
    | none ↦ none
    | some per ↦ some (import_all w coll per c.clients)
  ]

  unfoldable pub add_nodes : Cluster → List NodeId → Cluster
  add_nodes c [] = c
  add_nodes c (id ∷ ids) = add_nodes (add_node c id) ids

  unfoldable pub apply_membership :
      Cluster → W → List NodeId → Option (Cluster × W × MigrateSummary)
  apply_membership c w target = rebalance o (add_nodes c target) w target
