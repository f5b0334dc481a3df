-- ===== src/Cluster/Migration.antt =====
-- cluster.rs: `run_migration` and its callers, between whose chunks the gates keep operations out.
pub mod Cutover
pub mod Others
use stplr.Base.{
  ℕ, zero, suc, ◌+◌, ◌-◌, ◌*◌, ◌/◌, ◌%◌, ◌^◌, ◌≤◌, ◌<◌, min, max, ◌≡◌, refl, sym, ap, subst, ◌∙◌,
  ◌≡⟨◌⟩◌, ◌∎, ◌≢◌, ◌↔◌, ◌⊎◌, inl, inr, Bool, true, false, not, ◌&&◌, ◌||◌, Option, none, some, List,
  [], ◌∷◌, ◌++◌, map, reverse, append-nil, append_assoc, arith, ltb, leb, nat_eq, nat_eq_iff,
  if◌then◌else◌, ltb→lt, leb→le, Bool-cases, Eq, ◌==◌, nat_Eq, is_some, length, take, get_elem?,
  first, filter_by, any, all, All, length-append, length-take, drop, take-drop, length-drop,
  take-all, length-filter_by, filter_by-append, contains, Distinct, beq_self, contains-append,
  contains-take, Distinct-take, contains-filter_by, Distinct-filter_by,
}
use stplr.Text.{Text, text_Eq, text_lt}
use stplr.Sort.{sort_by}
use stplr.Dict.{Dict, get, insert, keys}
use stplr.Partitioner.{NodeId, Partitioner}
use stplr.Reshard.{Copy, Drop, ReshardPlan, clamp, plan_reshard}
use stplr.Journal.{load, clear}
use stplr.Cluster.{Cluster, Overlay, make_partitioner, has_client, save_record, commit_membership}
use stplr.Client.{ShardClients}

pub record MigrateSummary : Type 0 where
  pub buckets : ℕ
  pub moved_buckets : ℕ
  pub copied : ℕ
  pub dropped : ℕ

-- A number put in its place in a `BTreeMap`'s keys.
unfoldable pub insert_bucket : ℕ → List ℕ → List ℕ
insert_bucket b [] = b ∷ []
insert_bucket b (x ∷ xs) =
    if nat_eq x b then x ∷ xs else if ltb b x then b ∷ x ∷ xs else x ∷ insert_bucket b xs

-- The keys of `actions`: the buckets of the plan's moves that are not done.
unfoldable pub copy_buckets : List ℕ → List Copy → List ℕ → List ℕ
copy_buckets done [] found = found
copy_buckets done (c ∷ cs) found =
    copy_buckets done cs (if contains done c.bucket then found else insert_bucket c.bucket found)

unfoldable pub drop_buckets_of : List ℕ → List Drop → List ℕ → List ℕ
drop_buckets_of done [] found = found
drop_buckets_of done (d ∷ ds) found =
    drop_buckets_of done ds (if contains done d.bucket then found else insert_bucket d.bucket found)

-- `actions[&bk]`
unfoldable pub copies_at : ReshardPlan → ℕ → List Copy
copies_at plan b = filter_by (λ c. nat_eq c.bucket b) plan.copies

unfoldable pub drops_at : ReshardPlan → ℕ → List Drop
drops_at plan b = filter_by (λ d. nat_eq d.bucket b) plan.drops

-- A bucket pushed to its pair of nodes, in a `BTreeMap` of pairs.
unfoldable pub push_pair :
    NodeId → NodeId → ℕ → List ((NodeId × NodeId) × List ℕ) → List ((NodeId × NodeId) × List ℕ)
push_pair from to b [] = ((from, to), b ∷ []) ∷ []
push_pair from to b (((f, t), bs) ∷ pairs) =
    let rest = push_pair from to b pairs in
    if (f == from) && (t == to)
    then ((f, t), bs ++ b ∷ []) ∷ pairs
    else if text_lt from f || ((f == from) && text_lt to t)
    then ((from, to), b ∷ []) ∷ ((f, t), bs) ∷ pairs
    else ((f, t), bs) ∷ rest

unfoldable pub push_node : NodeId → ℕ → List (NodeId × List ℕ) → List (NodeId × List ℕ)
push_node node b [] = (node, b ∷ []) ∷ []
push_node node b ((n, bs) ∷ nodes) =
    let rest = push_node node b nodes in
    if n == node
    then (n, bs ++ b ∷ []) ∷ nodes
    else if text_lt node n
    then (node, b ∷ []) ∷ (n, bs) ∷ nodes
    else (n, bs) ∷ rest

unfoldable pub push_copies :
    ℕ → List Copy → List ((NodeId × NodeId) × List ℕ) → List ((NodeId × NodeId) × List ℕ)
push_copies b [] pairs = pairs
push_copies b (c ∷ cs) pairs = push_copies b cs (push_pair c.from c.to b pairs)

unfoldable pub push_drops : ℕ → List Drop → List (NodeId × List ℕ) → List (NodeId × List ℕ)
push_drops b [] nodes = nodes
push_drops b (d ∷ ds) nodes = push_drops b ds (push_node d.node b nodes)

-- The maps of one chunk's moves.
unfoldable pub pair_buckets :
    ReshardPlan → List ℕ → List ((NodeId × NodeId) × List ℕ) → List ((NodeId × NodeId) × List ℕ)
pair_buckets plan [] pairs = pairs
pair_buckets plan (b ∷ bs) pairs = pair_buckets plan bs (push_copies b (copies_at plan b) pairs)

unfoldable pub node_drops : ReshardPlan → List ℕ → List (NodeId × List ℕ) → List (NodeId × List ℕ)
node_drops plan [] nodes = nodes
node_drops plan (b ∷ bs) nodes = node_drops plan bs (push_drops b (drops_at plan b) nodes)

module _ {W V : Type 0} (o : ShardClients W V) where
  abbrev pub entries_or_none : Option (List (Text × V)) → List (Text × V)
  entries_or_none none = []
  entries_or_none (some entries) = entries

  -- One pair's export and import, collection by collection, with the count of entries.
  unfoldable pub copy_colls : NodeId → NodeId → List ℕ → W × ℕ → List Text → W × ℕ
  copy_colls from to buckets (w, copied) [] = (w, copied)
  copy_colls from to buckets (w, copied) (coll ∷ colls) =
      let entries = entries_or_none (o.export_entries w from coll buckets) in
      copy_colls from to buckets
        (
          if nat_eq (length entries) 0 then w else (o.import_entries w to coll entries).0,
          copied + length entries,
        )
        colls

  unfoldable pub copy_pairs : Cluster → W × ℕ → List ((NodeId × NodeId) × List ℕ) → W × ℕ
  copy_pairs c state [] = state
  copy_pairs c state (((from, to), buckets) ∷ pairs) =
      copy_pairs c
        (if has_client c from && has_client c to
          then copy_colls from to buckets state c.colls
          else state)
        pairs

  abbrev count_or_none : Option ℕ → ℕ
  count_or_none none = 0
  count_or_none (some n) = n

  unfoldable pub drop_colls : NodeId → List ℕ → W × ℕ → List Text → W × ℕ
  drop_colls node buckets (w, dropped) [] = (w, dropped)
  drop_colls node buckets (w, dropped) (coll ∷ colls) =
      let (w', reply) = o.drop_buckets w node coll buckets in
      drop_colls node buckets (w', dropped + count_or_none reply) colls

  unfoldable pub drop_nodes : Cluster → W × ℕ → List (NodeId × List ℕ) → W × ℕ
  drop_nodes c state [] = state
  drop_nodes c state ((node, buckets) ∷ nodes) =
      drop_nodes c (if has_client c node then drop_colls node buckets state c.colls else state)
        nodes

-- The order of `member_ids`.
abbrev pub id_le : NodeId → NodeId → Bool
id_le m n = not (text_lt n m)

-- `bucket_list.chunks(size)`, by fuel.
unfoldable pub chunks_of : ℕ → ℕ → List ℕ → List (List ℕ)
chunks_of zero size bs = []
chunks_of (suc fuel) size [] = []
chunks_of (suc fuel) size (b ∷ bs) = take size (b ∷ bs) ∷ chunks_of fuel size (drop size (b ∷ bs))

unfoldable pub mark_migrated : List ℕ → List ℕ → List ℕ
mark_migrated migrated [] = migrated
mark_migrated migrated (b ∷ bs) =
    mark_migrated (if contains migrated b then migrated else b ∷ migrated) bs

unfoldable pub cut_over : Cluster → List ℕ → Cluster
cut_over c chunk = elim c.overlay [
  | none ↦ c
  | some ov ↦ record c { overlay = some (record ov { migrated = mark_migrated ov.migrated chunk }) }
]

-- The overlay that a migration routes by.
unfoldable pub overlay_for : Cluster → List NodeId → List NodeId → List ℕ → Overlay
overlay_for c old new_nodes done = record {
  old_p = make_partitioner c old;
  r_old = clamp c.replication_target (length old);
  new_p = make_partitioner c new_nodes;
  r_new = clamp c.replication_target (length new_nodes);
  migrated = done;
}

unfoldable pub finish : List NodeId → Cluster → Cluster
finish new_nodes c = record (commit_membership (record c { journal = clear c.journal }) new_nodes) {
  overlay = none;
}

unfoldable pub same_nodes : List NodeId → List NodeId → Bool
same_nodes old new_nodes =
    nat_eq (length old) (length new_nodes) && all (λ n. contains new_nodes n) old

-- What the loop over the chunks carries.
pub record Progress (W : Type 0) : Type 0 where
  pub cluster : Cluster
  pub shards : W
  pub done : List ℕ
  pub copied : ℕ
  pub dropped : ℕ

module _ {W V : Type 0} (o : ShardClients W V) where
  -- One chunk, between its freeze and its unfreeze.
  unfoldable pub move_chunk :
      List NodeId → List NodeId → ReshardPlan → Progress W → List ℕ → Progress W
  move_chunk old new_nodes plan p chunk =
      let c = p.cluster in
      let (w, copied) = copy_pairs o c (p.shards, p.copied) (pair_buckets plan chunk []) in
      let c' = cut_over c chunk in
      let (w', dropped) = drop_nodes o c' (w, p.dropped) (node_drops plan chunk []) in
      let done = mark_migrated p.done chunk in
      record {
        cluster = save_record c' old new_nodes done;
        shards = w';
        done = done;
        copied = copied;
        dropped = dropped;
      }

  -- The loop over the chunks; `false` is its early return at `stop_after`.
  unfoldable pub run_chunks :
      List NodeId
      → List NodeId
      → ReshardPlan
      → Option ℕ
      → ℕ
      → Progress W
      → List (List ℕ)
      → Progress W × Bool
  run_chunks old new_nodes plan stop_after i p [] = (p, true)
  run_chunks old new_nodes plan none i p (chunk ∷ chunks) =
      run_chunks old new_nodes plan none (suc i) (move_chunk old new_nodes plan p chunk) chunks
  run_chunks old new_nodes plan (some max_) i p (chunk ∷ chunks) =
      let rest =
        run_chunks old new_nodes plan (some max_) (suc i) (move_chunk old new_nodes plan p chunk)
          chunks in
      if leb max_ i then (p, false) else rest

  -- `run_migration` with its plan.
  unfoldable pub migrate :
      Cluster
      → W
      → List NodeId
      → List NodeId
      → List ℕ
      → Option ℕ
      → ReshardPlan
      → Cluster × W × MigrateSummary
  migrate c w old new_nodes done stop_after plan =
      let c' = record c { overlay = some (overlay_for c old new_nodes done) } in
      let bucket_list = drop_buckets_of done plan.drops (copy_buckets done plan.copies []) in
      let start : Progress W = record {
        cluster = save_record c' old new_nodes done;
        shards = w;
        done = done;
        copied = 0;
        dropped = 0;
      } in
      let (p, finished) =
        run_chunks old new_nodes plan stop_after 0 start
          (chunks_of (length bucket_list) c.chunk bucket_list) in
      let summary : MigrateSummary = record {
        buckets = c.partitioner.bucket_count;
        moved_buckets = plan.moved_buckets;
        copied = p.copied;
        dropped = p.dropped;
      } in
      (if finished then finish new_nodes p.cluster else p.cluster, p.shards, summary)

  unfoldable pub run_migration :
      Cluster
      → W
      → List NodeId
      → List NodeId
      → List ℕ
      → Option ℕ
      → Option (Cluster × W × MigrateSummary)
  run_migration c w old new_nodes done stop_after =
      if same_nodes old new_nodes
      then some (
        commit_membership (record c { journal = clear c.journal }) new_nodes,
        w,
        record { buckets = c.partitioner.bucket_count; moved_buckets = 0; copied = 0; dropped = 0 },
      )
      else (elim (plan_reshard old new_nodes c.replication_target c.topology) [
        | none ↦ none
        | some plan ↦ some (migrate c w old new_nodes done stop_after plan)
      ])

  unfoldable pub rebalance : Cluster → W → List NodeId → Option (Cluster × W × MigrateSummary)
  rebalance c w new_ids = run_migration c w (sort_by id_le c.partitioner.nodes) new_ids [] none

  unfoldable pub rebalance_partial :
      Cluster → W → List NodeId → ℕ → Option (Cluster × W × MigrateSummary)
  rebalance_partial c w new_ids max_chunks =
      run_migration c w (sort_by id_le c.partitioner.nodes) new_ids [] (some max_chunks)

  unfoldable pub drain : Cluster → W → NodeId → Option (Cluster × W × MigrateSummary)
  drain c w node =
      rebalance c w (filter_by (λ n. not (n == node)) (sort_by id_le c.partitioner.nodes))

  -- `None` from a journal with no record is the inner `none`.
  unfoldable pub resume_migration : Cluster → W → Option (Option (Cluster × W × MigrateSummary))
  resume_migration c w = elim (load c.journal) [
    | none ↦ none
    | some rec ↦ some (
        run_migration (record c { replication_target = max rec.replication 1 }) w rec.old_nodes
          rec.new_nodes rec.done none)
  ]
