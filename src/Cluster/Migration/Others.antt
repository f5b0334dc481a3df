-- ===== src/Cluster/Migration/Others.antt =====
-- Migrations of cluster.rs over in-process shards: collections that the cluster does not manage.
use stplr.Base.{
  ℕ, suc, ◌+◌, ◌≡◌, refl, sym, subst, ◌∙◌, inl, inr, Bool, true, false, ◌&&◌, Option, none, some,
  List, [], ◌∷◌, arith, leb, nat_eq, if◌then◌else◌, Bool-cases, ◌==◌, nat_Eq, length, All,
}
use stplr.Text.{Text, text_Eq, text_eq_iff}
use stplr.Dict.{get, insert, get-insert, keys}
use stplr.Json.{Json}
use stplr.Partitioner.{NodeId}
use stplr.Store.{IndexStore}
use stplr.Store.Laws.{StoreLaws}
use stplr.Shard.{Shard, object, put_all, delete_all, entries_in, import_entries, drop_buckets}
use stplr.Client.{ShardClients, Shards, in_process}
use stplr.Cluster.{Cluster, has_client, save_record}
use stplr.Cluster.Migration.{
  ReshardPlan, Progress, copy_colls, copy_pairs, drop_colls, drop_nodes, move_chunk, run_chunks,
  migrate, cut_over, pair_buckets, node_drops,
}
use stplr.Cluster.{save_record}
use stplr.Cluster.Migration.{
  Progress, move_chunk, run_chunks, migrate, cut_over, pair_buckets, node_drops, entries_or_none,
}
use stplr.Cluster.Data.Reads.{AllValid, insert-AllValid}

module _ {S V : Type 0} {Valid : S → Type 0} (o : IndexStore S V) ⦃j : Json V⦄
    (laws : StoreLaws o Valid) (now at : ℕ) (other key : Text) where
  -- What a node reads in the other collection.
  abbrev seen : Option (Shard S) → Option (Option V)
  seen none = none
  seen (some sh) = some (object o at sh other key)

  pub record Same (w w' : Shards S) : Type 0 where
    pub valid : AllValid o ⦃j = j⦄ laws w'
    pub kept : (n : NodeId) → seen (get w' n) ≡ seen (get w n)

  Same-self : (w : Shards S) → AllValid o ⦃j = j⦄ laws w → Same w w
  Same-self w v = record { valid = v; kept = λ n. refl }

  Same-after : (u v w : Shards S) → Same u v → Same v w → Same u w
  Same-after u v w p q = record { valid = q.valid; kept = λ n. q.kept n ∙ p.kept n }

  insert-Same :
      (w : Shards S) (n : NodeId) (sh sh' : Shard S)
      → AllValid o ⦃j = j⦄ laws w
      → get w n ≡ some sh
      → Valid sh'.store
      → object o at sh' other key ≡ object o at sh other key
      → Same w (insert w n sh')
  insert-Same w n sh sh' valid e v same = record {
    valid = insert-AllValid o ⦃j = j⦄ laws w n sh' valid v;
    kept = λ m. rw (get-insert w n sh' m) (ground (arith, text_eq_iff n m, e, same));
  }

  put_all-other :
      (s : S) (coll : Text) (entries : List (Text × V))
      → Valid s
      → (coll == other) ≡ false
      → Valid (put_all o s coll entries)
        × (o.get_object at (put_all o s coll entries) other key ≡ o.get_object at s other key)
  unfolding put_all
  put_all-other s coll [] v apart = (v, refl)
  put_all-other s coll ((id, obj) ∷ entries) v apart =
      let (v', kept) =
        put_all-other (o.put_object s coll id obj) coll entries
          (laws.put_object-Valid s coll id obj v) apart in
      (v', kept ∙ rw (laws.get-put at s coll id obj other key v) (ground arith))

  delete_all-other :
      (s : S) (coll : Text) (ids : List Text)
      → Valid s
      → (coll == other) ≡ false
      → Valid (delete_all o s coll ids)
        × (o.get_object at (delete_all o s coll ids) other key ≡ o.get_object at s other key)
  unfolding delete_all
  delete_all-other s coll [] v apart = (v, refl)
  delete_all-other s coll (id ∷ ids) v apart =
      let (v', kept) =
        delete_all-other (o.delete_object s coll id) coll ids (laws.delete_object-Valid s coll id v)
          apart in
      (v', kept ∙ rw (laws.get-delete at s coll id other key v) (ground arith))

  abbrev calls : ShardClients (Shards S) V
  calls = in_process o now

  imported :
      (w : Shards S) (n : NodeId) (coll : Text) (entries : List (Text × V))
      (found : Option (Shard S))
      → get w n ≡ found
      → AllValid o ⦃j = j⦄ laws w
      → (coll == other) ≡ false
      → Same w
          (elim found as (λ x. Shards S × Bool) [
            | none ↦ (w, false)
            | some sh ↦ (insert w n (import_entries o sh coll entries), true)
          ]).0
  unfolding import_entries object
  imported w n coll entries none e valid apart = Same-self w valid
  imported w n coll entries (some sh) e valid apart =
      let (v, same) = put_all-other sh.store coll entries (valid n sh e) apart in
      insert-Same w n sh (record sh { store = put_all o sh.store coll entries }) valid e v same

  import-Same :
      (w : Shards S) (n : NodeId) (coll : Text) (entries : List (Text × V))
      → AllValid o ⦃j = j⦄ laws w
      → (coll == other) ≡ false
      → Same w (calls.import_entries w n coll entries).0
  unfolding in_process
  import-Same w n coll entries valid apart = imported w n coll entries (get w n) refl valid apart

  dropped_at :
      (w : Shards S) (n : NodeId) (coll : Text) (buckets : List ℕ) (found : Option (Shard S))
      → get w n ≡ found
      → AllValid o ⦃j = j⦄ laws w
      → (coll == other) ≡ false
      → Same w
          (elim found as (λ x. Shards S × Option ℕ) [
            | none ↦ (w, none)
            | some sh ↦ (
              insert w n (drop_buckets o now sh coll buckets).0,
              some (drop_buckets o now sh coll buckets).1,
            )
          ]).0
  unfolding drop_buckets object
  dropped_at w n coll buckets none e valid apart = Same-self w valid
  dropped_at w n coll buckets (some sh) e valid apart =
      let ids = keys (entries_in buckets (o.scan_entries now sh.store coll)) in
      let (v, same) = delete_all-other sh.store coll ids (valid n sh e) apart in
      insert-Same w n sh (record sh { store = delete_all o sh.store coll ids }) valid e v same

  drop-Same :
      (w : Shards S) (n : NodeId) (coll : Text) (buckets : List ℕ)
      → AllValid o ⦃j = j⦄ laws w
      → (coll == other) ≡ false
      → Same w (calls.drop_buckets w n coll buckets).0
  unfolding in_process
  drop-Same w n coll buckets valid apart = dropped_at w n coll buckets (get w n) refl valid apart

  -- None of the collections is the other one.
  abbrev pub Apart : List Text → Type 0
  Apart colls = All (λ c. (c == other) ≡ false) colls

  chosen-Same :
      (b : Bool) (w w' : Shards S)
      → AllValid o ⦃j = j⦄ laws w
      → Same w w'
      → Same w (if b then w else w')
  chosen-Same true w w' v h = Same-self w v
  chosen-Same false w w' v h = h

  copy_colls-Same :
      (from to : NodeId) (buckets : List ℕ) (w : Shards S) (copied : ℕ) (colls : List Text)
      → AllValid o ⦃j = j⦄ laws w
      → Apart colls
      → Same w (copy_colls calls from to buckets (w, copied) colls).0
  unfolding copy_colls
  copy_colls-Same from to buckets w copied [] v a = Same-self w v
  copy_colls-Same from to buckets w copied (coll ∷ colls) v a =
      let entries = entries_or_none calls (calls.export_entries w from coll buckets) in
      let nothing = nat_eq (length entries) 0 in
      let w' = (calls.import_entries w to coll entries).0 in
      let one = chosen-Same nothing w w' v (import-Same w to coll entries v a.0) in
      let next = if nothing then w else w' in
      Same-after w next (copy_colls calls from to buckets (w, copied) (coll ∷ colls)).0 one
        (copy_colls-Same from to buckets next (copied + length entries) colls one.valid a.1)

  copy_pairs-Same :
      (c : Cluster) (state : Shards S × ℕ) (pairs : List ((NodeId × NodeId) × List ℕ))
      → AllValid o ⦃j = j⦄ laws state.0
      → Apart c.colls
      → Same state.0 (copy_pairs calls c state pairs).0
  unfolding copy_pairs
  copy_pairs-Same c state [] v a = Same-self state.0 v
  copy_pairs-Same c state (((from, to), buckets) ∷ pairs) v a =
      elim (Bool-cases (has_client c from && has_client c to)) [
        | inl both ↦
            let one = copy_colls-Same from to buckets state.0 state.1 c.colls v a in
            let next = copy_colls calls from to buckets state c.colls in
            rw (both, copy_pairs)
              (Same-after state.0 next.0 (copy_pairs calls c next pairs).0 one
                (copy_pairs-Same c next pairs one.valid a))
        | inr missing ↦ rw (missing, copy_pairs) (copy_pairs-Same c state pairs v a)
      ]

  drop_colls-Same :
      (node : NodeId) (buckets : List ℕ) (w : Shards S) (dropped : ℕ) (colls : List Text)
      → AllValid o ⦃j = j⦄ laws w
      → Apart colls
      → Same w (drop_colls calls node buckets (w, dropped) colls).0
  unfolding drop_colls
  drop_colls-Same node buckets w dropped [] v a = Same-self w v
  drop_colls-Same node buckets w dropped (coll ∷ colls) v a =
      let one = drop-Same w node coll buckets v a.0 in
      let next = calls.drop_buckets w node coll buckets in
      Same-after w next.0 (drop_colls calls node buckets (w, dropped) (coll ∷ colls)).0 one
        (drop_colls-Same node buckets next.0 _ colls one.valid a.1)

  drop_nodes-Same :
      (c : Cluster) (state : Shards S × ℕ) (nodes : List (NodeId × List ℕ))
      → AllValid o ⦃j = j⦄ laws state.0
      → Apart c.colls
      → Same state.0 (drop_nodes calls c state nodes).0
  unfolding drop_nodes
  drop_nodes-Same c state [] v a = Same-self state.0 v
  drop_nodes-Same c state ((node, buckets) ∷ nodes) v a = elim (Bool-cases (has_client c node)) [
    | inl there ↦
        let one = drop_colls-Same node buckets state.0 state.1 c.colls v a in
        let next = drop_colls calls node buckets state c.colls in
        rw (there, drop_nodes)
          (Same-after state.0 next.0 (drop_nodes calls c next nodes).0 one
            (drop_nodes-Same c next nodes one.valid a))
    | inr missing ↦ rw (missing, drop_nodes) (drop_nodes-Same c state nodes v a)
  ]

  colls-cut_over : (c : Cluster) (chunk : List ℕ) → (cut_over c chunk).colls ≡ c.colls
  unfolding cut_over
  colls-cut_over c chunk = ground arith

  move_chunk-Same :
      (old new_nodes : List NodeId) (plan : ReshardPlan) (p : Progress (Shards S)) (chunk : List ℕ)
      → AllValid o ⦃j = j⦄ laws p.shards
      → Apart p.cluster.colls
      → Same p.shards (move_chunk calls old new_nodes plan p chunk).shards
        × ((move_chunk calls old new_nodes plan p chunk).cluster.colls ≡ p.cluster.colls)
  unfolding move_chunk save_record
  move_chunk-Same old new_nodes plan p chunk v a =
      let copies =
        copy_pairs-Same p.cluster (p.shards, p.copied) (pair_buckets plan chunk []) v a in
      let moved = copy_pairs calls p.cluster (p.shards, p.copied) (pair_buckets plan chunk []) in
      let kept = colls-cut_over p.cluster chunk in
      let apart = subst (λ (cs : List Text). Apart cs) (sym kept) a in
      let drops =
        drop_nodes-Same (cut_over p.cluster chunk) (moved.0, p.dropped) (node_drops plan chunk [])
          copies.valid apart in
      (
        Same-after p.shards moved.0
            (drop_nodes calls (cut_over p.cluster chunk) (moved.0, p.dropped)
              (node_drops plan chunk [])).0
            copies drops,
        kept,
      )

  run_chunks-Same :
      (old new_nodes : List NodeId) (plan : ReshardPlan) (stop_after : Option ℕ) (i : ℕ)
      (p : Progress (Shards S)) (chunks : List (List ℕ))
      → AllValid o ⦃j = j⦄ laws p.shards
      → Apart p.cluster.colls
      → Same p.shards (run_chunks calls old new_nodes plan stop_after i p chunks).0.shards
  unfolding run_chunks
  run_chunks-Same old new_nodes plan stop_after i p [] v a = Same-self p.shards v
  run_chunks-Same old new_nodes plan none i p (chunk ∷ chunks) v a =
      let (one, kept) = move_chunk-Same old new_nodes plan p chunk v a in
      let next = move_chunk calls old new_nodes plan p chunk in
      Same-after p.shards next.shards
        (run_chunks calls old new_nodes plan none (suc i) next chunks).0.shards one
        (run_chunks-Same old new_nodes plan none (suc i) next chunks one.valid
          (subst (λ (cs : List Text). Apart cs) (sym kept) a))
  run_chunks-Same old new_nodes plan (some max_) i p (chunk ∷ chunks) v a =
      let (one, kept) = move_chunk-Same old new_nodes plan p chunk v a in
      let next = move_chunk calls old new_nodes plan p chunk in
      let rest =
        Same-after p.shards next.shards
          (run_chunks calls old new_nodes plan (some max_) (suc i) next chunks).0.shards one
          (run_chunks-Same old new_nodes plan (some max_) (suc i) next chunks one.valid
            (subst (λ (cs : List Text). Apart cs) (sym kept) a)) in
      elim (Bool-cases (leb max_ i)) [
        | inl stop ↦ rw (stop, run_chunks) (Same-self p.shards v)
        | inr go ↦ rw (go, run_chunks) rest
      ]

  migrate-Same :
      (c : Cluster) (w : Shards S) (old new_nodes : List NodeId) (done : List ℕ)
      (stop_after : Option ℕ) (plan : ReshardPlan)
      → AllValid o ⦃j = j⦄ laws w
      → Apart c.colls
      → Same w (migrate calls c w old new_nodes done stop_after plan).1
  unfolding migrate save_record
  migrate-Same c w old new_nodes done stop_after plan v a =
      run_chunks-Same old new_nodes plan stop_after 0 _ _ v a

  object-seen :
      (w : Shards S) (n : NodeId) → (in_process o at).object w n other key ≡ seen (get w n)
  unfolding in_process
  object-seen w n =
      elim (get w n)
        as (λ f.
          (elim f as (λ x. Option (Option V)) [
            | none ↦ none
            | some sh ↦ some (object o at sh other key)
          ])
          ≡ seen f) [ none ↦ refl | some sh ↦ refl ]

  -- Over in-process shards with well-formed stores that keep the laws, a migration by any plan,
  -- stopped early or not, leaves every node reading what it read in a collection that is not among
  -- those of the cluster, such as that of the leases.
  pub object-migrate :
      (c : Cluster) (w : Shards S) (old new_nodes : List NodeId) (done : List ℕ)
      (stop_after : Option ℕ) (plan : ReshardPlan) (n : NodeId)
      → AllValid o ⦃j = j⦄ laws w
      → Apart c.colls
      → (in_process o at).object
          (migrate calls c w old new_nodes done stop_after plan).1
          n
          other
          key
        ≡ (in_process o at).object w n other key
  object-migrate c w old new_nodes done stop_after plan n v a =
      let w' = (migrate calls c w old new_nodes done stop_after plan).1 in
      object-seen w' n
      ∙ ((migrate-Same c w old new_nodes done stop_after plan v a).kept n ∙ sym (object-seen w n))
