-- ===== src/Cluster/Migration/Cutover.antt =====
-- Migrations of cluster.rs: the chunks, and the journal and routing at each stop and at the end.
use stplr.Base.{
  ℕ, zero, suc, ◌≤◌, ◌<◌, ◌≡◌, refl, sym, ap, inl, inr, true, Option, none, some, List, [], ◌∷◌,
  ◌++◌, arith, leb, nat_eq, if◌then◌else◌, Bool-cases, nat_Eq, length, drop, take-drop, length-drop,
  contains,
}
use stplr.Text.{Text, text_Eq}
use stplr.Dict.{Dict}
use stplr.Partitioner
use stplr.Partitioner.{
  NodeId, Partitioner, num_buckets, bucket_of, owners_of_bucket, replica_set, preference_list, pick,
  set_nodes, rank_from,
}
use stplr.Reshard.{ReshardPlan, clamp}
use stplr.Journal.{save}
use stplr.Client.{ShardClients}
use stplr.Cluster.{Cluster, Overlay, owners, make_partitioner, save_record, commit_membership}
use stplr.Cluster.Migration.{
  Progress, chunks_of, cut_over, move_chunk, run_chunks, overlay_for, finish,
}

abbrev pub concat : List (List ℕ) → List ℕ
concat [] = []
concat (bs ∷ bss) = bs ++ concat bss

concat-chunks_by :
    (fuel size : ℕ) (bs : List ℕ) → length bs ≤ fuel → concat (chunks_of fuel (suc size) bs) ≡ bs
unfolding chunks_of
concat-chunks_by zero size [] h = refl
concat-chunks_by zero size (b ∷ bs) h = absurd (omega arith)
concat-chunks_by (suc fuel) size [] h = refl
concat-chunks_by (suc fuel) size (b ∷ bs) h =
    let rest = concat-chunks_by fuel size (drop size bs) (omega (arith, length-drop size bs)) in
    rw rest (ap (λ (l : List ℕ). b ∷ l) (take-drop size bs))

-- With fuel for every bucket the chunks hold all of them, in their order.
pub concat-chunks_of :
    (size : ℕ) (bs : List ℕ) → 0 < size → concat (chunks_of (length bs) size bs) ≡ bs
concat-chunks_of zero bs pos = absurd (omega arith)
concat-chunks_of (suc size) bs pos = concat-chunks_by (length bs) size bs (omega arith)

-- The journal has the buckets that are done, and the overlay routes those to their new owners.
pub record IsTracked {W : Type 0} (old new_nodes : List NodeId) (ov : Overlay) (p : Progress W)
    : Type 0 where
  pub routed : p.cluster.overlay ≡ some (record ov { migrated = p.done })
  pub recorded :
      p.cluster.journal
      ≡ some (record {
        old_nodes = old;
        new_nodes = new_nodes;
        replication = p.cluster.replication_target;
        done = p.done;
      })

module _ {W V : Type 0} (o : ShardClients W V) (old new_nodes : List NodeId) (plan : ReshardPlan)
    (ov : Overlay) where
  move_chunk-IsTracked :
      (p : Progress W) (chunk : List ℕ)
      → IsTracked old new_nodes ov p
      → IsTracked old new_nodes ov (move_chunk o old new_nodes plan p chunk)
  unfolding move_chunk cut_over save_record save
  move_chunk-IsTracked p chunk h = record {
    routed = rw (h.routed, cut_over) refl;
    recorded = rw (h.routed, cut_over) refl;
  }

  -- If the journal has exactly the buckets that the overlay routes to their new owners, then it
  -- has so wherever the loop over the chunks stops, at its end or early.
  pub run_chunks-IsTracked :
      (stop_after : Option ℕ) (i : ℕ) (p : Progress W) (chunks : List (List ℕ))
      → IsTracked old new_nodes ov p
      → IsTracked old new_nodes ov (run_chunks o old new_nodes plan stop_after i p chunks).0
  unfolding run_chunks
  run_chunks-IsTracked stop_after i p [] h = h
  run_chunks-IsTracked none i p (chunk ∷ chunks) h =
      run_chunks-IsTracked none (suc i) (move_chunk o old new_nodes plan p chunk) chunks
        (move_chunk-IsTracked p chunk h)
  run_chunks-IsTracked (some max_) i p (chunk ∷ chunks) h =
      let rest =
        run_chunks-IsTracked (some max_) (suc i) (move_chunk o old new_nodes plan p chunk) chunks
          (move_chunk-IsTracked p chunk h) in
      elim (Bool-cases (leb max_ i)) [
        | inl stop ↦ rw (stop, run_chunks) h
        | inr go ↦ rw (go, run_chunks) rest
      ]

plain_or_racked :
    (topology : Dict NodeId Text) (nodes : List NodeId)
    → (if nat_eq (length topology) 0
        then Partitioner.new nodes
        else Partitioner.set_topology (Partitioner.new nodes) topology)
      ≡ record (Partitioner.new nodes) { topology = topology }
unfolding Partitioner.new Partitioner.set_topology set_nodes
plain_or_racked [] nodes = refl
plain_or_racked (entry ∷ racks) nodes = ground arith

finished_routes :
    (c : Cluster) (nodes : List NodeId) (key : Text)
    → c.partitioner.topology ≡ c.topology
    → c.partitioner.bucket_count ≡ num_buckets
    → owners_of_bucket
        (make_partitioner c nodes)
        (bucket_of key)
        (clamp c.replication_target (length nodes))
      ≡ replica_set (set_nodes c.partitioner nodes) key (clamp c.replication_target (length nodes))
unfolding make_partitioner replica_set preference_list owners_of_bucket pick set_nodes
    Partitioner.new
finished_routes c nodes key racks full = rw (plain_or_racked c.topology nodes, racks, full) refl

-- If the partitioner has the cluster's racks and 4096 buckets, then the end of a migration, which
-- drops the overlay, leaves a key of a migrated bucket the owners that the overlay gave it.
pub owners-finish :
    (c : Cluster) (old new_nodes : List NodeId) (done migrated : List ℕ) (key : Text)
    → c.overlay ≡ some (record (overlay_for c old new_nodes done) { migrated = migrated })
    → contains migrated (bucket_of key) ≡ true
    → c.partitioner.topology ≡ c.topology
    → c.partitioner.bucket_count ≡ num_buckets
    → owners (finish new_nodes c) key ≡ owners c key
unfolding owners finish commit_membership overlay_for
owners-finish c old new_nodes done migrated key ov moved racks full =
    rw (ov, moved, owners) (sym (finished_routes c new_nodes key racks full))
