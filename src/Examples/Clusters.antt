-- ===== src/Examples/Clusters.antt =====
-- The claims about cluster.rs on two nodes with in-memory stores.
use stplr.Partitioner.{num_buckets, bucket_of}
use stplr.Reshard.{ReshardPlan}
use stplr.Store.Memory.{memory_store}
use stplr.Store.Memory.Laws.{IsValid, memory-StoreLaws}
use stplr.Client.{in_process}
use stplr.Cluster.Data.{get_object, put}
use stplr.Cluster.Data.Reads.{AllValid, get_object-put}
use stplr.Cluster.Migration.{Progress, chunks_of, run_chunks, overlay_for}
use stplr.Cluster.Migration.Cutover.{IsTracked, concat, concat-chunks_of, run_chunks-IsTracked}
use stplr.Examples.Values.{number, value_Json, some_store-IsValid}
use stplr.Dict.{get}
use stplr.Shard.{Shard}
use stplr.Store.Memory.{MemoryStore}
use stplr.Text.{text_Eq}
use stplr.Lease.{lease_coll, leader_key}
use stplr.Cluster.Migration.{migrate}
use stplr.Cluster.Migration.Others.{object-migrate}
use stplr.Partitioner.{NodeId}
use stplr.Dict.{Dict}
use stplr.Text.{text_eq}
use stplr.Cluster
use stplr.Base.{
  ◌≡◌, refl, subst, Bool, true, false, none, some, [], ◌∷◌, arith, if◌then◌else◌, ◌==◌, nat_Eq,
}
use stplr.Text.{text_Eq, codes}
use stplr.Partitioner.{NodeId, num_buckets, bucket_of}
use stplr.Reshard.{ReshardPlan}
use stplr.Store.Memory.{MemoryStore}
use stplr.Client.{Shards}
use stplr.Cluster
use stplr.Cluster.{Cluster, Overlay, owners}
use stplr.Examples.Values.{Value, value_Json, kv, hello, some_store}

abbrev node_a : NodeId
node_a = codes "a"

abbrev node_b : NodeId
node_b = codes "b"

abbrev shards : Shards (MemoryStore Value)
shards =
    (node_a, record { id = node_a; store = some_store })
    ∷ (node_b, record { id = node_b; store = some_store })
    ∷ []

abbrev pair : Cluster
pair = Cluster.new (node_a ∷ node_b ∷ []) 2 (kv ∷ [])

route : owners pair hello ≡ some (node_a ∷ node_b ∷ [])
unfolding owners Cluster.new stplr.Partitioner.replica_set stplr.Partitioner.preference_list
    stplr.Partitioner.new stplr.Partitioner.set_nodes stplr.Partitioner.rank_from bucket_of
    stplr.Partitioner.pick stplr.Partitioner.pick_clamped stplr.Reshard.clamp stplr.Partitioner.rank
    stplr.Sort.sort_by stplr.Partitioner.bucket_score
route = refl

two_valid :
    (in_a in_b : Bool) (x y sh : Shard (MemoryStore Value))
    → (if in_a then some x else if in_b then some y else none) ≡ some sh
    → IsValid x.store
    → IsValid y.store
    → IsValid sh.store
two_valid true in_b x y sh e u v =
    let same : x ≡ sh = ground arith in
    subst (λ (s : Shard (MemoryStore Value)). IsValid s.store) same u
two_valid false true x y sh e u v =
    let same : y ≡ sh = ground arith in
    subst (λ (s : Shard (MemoryStore Value)). IsValid s.store) same v
two_valid false false x y sh e u v = absurd (cc)

shards-AllValid : AllValid memory_store ⦃j = value_Json⦄ (memory-StoreLaws {V = Value}) shards
unfolding get
shards-AllValid n sh e =
    two_valid (node_a == n) (node_b == n) (record { id = node_a; store = some_store })
      (record { id = node_b; store = some_store }) sh e some_store-IsValid some_store-IsValid

get_object-put_example :
    (w' : Shards (MemoryStore Value)) × (put
        (in_process memory_store 5)
        pair
        shards
        kv
        hello
        (number 9)
      ≡ some w')
    × (get_object (in_process memory_store 99) (record pair { down = node_a ∷ [] }) w' kv hello
        ≡ some (some (number 9)))
unfolding stplr.Dict.get stplr.Text.text_eq Cluster.new
get_object-put_example =
    get_object-put memory_store (memory-StoreLaws {V = Value}) 5 99 kv hello (number 9) pair shards
      (node_a ∷ []) (node_a ∷ node_b ∷ []) node_b shards-AllValid route (refl, (refl, tt)) tt refl
      refl

abbrev no_plan : ReshardPlan
no_plan = record { copies = []; drops = []; buckets = num_buckets; moved_buckets = 0 }

abbrev begun : Progress (Shards (MemoryStore Value))
begun = record {
  cluster = record pair {
    overlay = some (overlay_for pair (node_a ∷ node_b ∷ []) (node_a ∷ []) []);
    journal = some (record {
      old_nodes = node_a ∷ node_b ∷ [];
      new_nodes = node_a ∷ [];
      replication = pair.replication_target;
      done = [];
    });
  };
  shards = shards;
  done = [];
  copied = 0;
  dropped = 0;
}

begun-IsTracked :
    IsTracked
      (node_a ∷ node_b ∷ [])
      (node_a ∷ [])
      (overlay_for pair (node_a ∷ node_b ∷ []) (node_a ∷ []) [])
      begun
unfolding overlay_for
begun-IsTracked = record { routed = refl; recorded = refl }

run_chunks-IsTracked_example :
    IsTracked
      (node_a ∷ node_b ∷ [])
      (node_a ∷ [])
      (overlay_for pair (node_a ∷ node_b ∷ []) (node_a ∷ []) [])
      (run_chunks
        (in_process memory_store 5)
        (node_a ∷ node_b ∷ [])
        (node_a ∷ [])
        no_plan
        (some 1)
        0
        begun
        ((1 ∷ 2 ∷ []) ∷ (3 ∷ []) ∷ [])).0
run_chunks-IsTracked_example =
    run_chunks-IsTracked (in_process memory_store 5) (node_a ∷ node_b ∷ []) (node_a ∷ []) no_plan
      (overlay_for pair (node_a ∷ node_b ∷ []) (node_a ∷ []) []) (some 1) 0 begun
      ((1 ∷ 2 ∷ []) ∷ (3 ∷ []) ∷ []) begun-IsTracked

abbrev moved : Cluster
moved = record pair {
  overlay = some (record (overlay_for pair (node_a ∷ node_b ∷ []) (node_a ∷ []) []) {
    migrated = bucket_of hello ∷ [];
  });
}

concat-chunks_of_test : concat (chunks_of 5 2 (1 ∷ 2 ∷ 3 ∷ 4 ∷ 5 ∷ [])) ≡ 1 ∷ 2 ∷ 3 ∷ 4 ∷ 5 ∷ []
concat-chunks_of_test = concat-chunks_of 2 (1 ∷ 2 ∷ 3 ∷ 4 ∷ 5 ∷ []) (omega arith)

abbrev one_copy : ReshardPlan
one_copy = record no_plan {
  copies = record { bucket = bucket_of hello; from = node_a; to = node_b } ∷ [];
}

object-migrate_example :
    (in_process memory_store 9).object
      (migrate
        (in_process memory_store 5)
        pair
        shards
        (node_a ∷ [])
        (node_a ∷ node_b ∷ [])
        []
        none
        one_copy).1
      node_b
      lease_coll
      leader_key
    ≡ (in_process memory_store 9).object shards node_b lease_coll leader_key
unfolding Cluster.new stplr.Text.text_eq
object-migrate_example =
    object-migrate memory_store (memory-StoreLaws {V = Value}) 5 9 lease_coll leader_key pair shards
      (node_a ∷ []) (node_a ∷ node_b ∷ []) [] none one_copy node_b shards-AllValid (refl, tt)
