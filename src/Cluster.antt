-- ===== src/Cluster.antt =====
-- cluster.rs: the state of a cluster, its membership, and the routing of a key to its owners.
pub mod Data
pub mod Migration
pub mod Partitions
pub mod Batches
use stplr.Base.{
  ℕ, zero, suc, ◌+◌, ◌-◌, ◌*◌, ◌/◌, ◌%◌, ◌^◌, ◌≤◌, ◌<◌, min, max, ◌≡◌, refl, sym, ap, subst, ◌∙◌,
  ◌≡⟨◌⟩◌, ◌∎, ◌≢◌, ◌↔◌, ◌⊎◌, inl, inr, Bool, true, false, not, ◌&&◌, ◌||◌, Option, none, some, List,
  [], ◌∷◌, ◌++◌, map, reverse, append-nil, append_assoc, arith, ltb, leb, nat_eq, nat_eq_iff,
  if◌then◌else◌, ltb→lt, leb→le, Bool-cases, Eq, ◌==◌, nat_Eq, is_some, length, take, get_elem?,
  first, filter_by, any, all, All, length-append, length-take, drop, take-drop, length-drop,
  take-all, length-filter_by, filter_by-append, contains, Distinct, beq_self, contains-append,
  contains-take, Distinct-take, contains-filter_by, Distinct-filter_by,
}
use stplr.Text.{Text, text_Eq}
use stplr.Word.{add_u64}
use stplr.Dict.{Dict}
use stplr.Partitioner
use stplr.Partitioner.{NodeId, Partitioner, bucket_of, owners_of_bucket, replica_set, set_nodes}
use stplr.Reshard.{clamp}
use stplr.Journal.{Journal, MigrationRecord, save}

pub record Overlay : Type 0 where
  pub old_p : Partitioner
  pub r_old : ℕ
  pub new_p : Partitioner
  pub r_new : ℕ
  pub migrated : List ℕ

-- `clients` holds the ids of the client map.
pub record Cluster : Type 0 where
  pub partitioner : Partitioner
  pub clients : List NodeId
  pub replication_target : ℕ
  pub replication : ℕ
  pub chunk : ℕ
  pub down : List NodeId
  pub journal : Journal
  pub overlay : Option Overlay
  pub colls : List Text
  pub topology : Dict NodeId Text
  pub epoch : ℕ

unfoldable pub new : List NodeId → ℕ → List Text → Cluster
new ids replication colls =
    let rt = max replication 1 in
    record {
      partitioner = Partitioner.new ids;
      clients = ids;
      replication_target = rt;
      replication = clamp rt (length ids);
      chunk = 256;
      down = [];
      journal = none;
      overlay = none;
      colls = colls;
      topology = [];
      epoch = 1;
    }

unfoldable pub set_topology : Cluster → Dict NodeId Text → Cluster
set_topology c topology = record c {
  topology = topology;
  partitioner = Partitioner.set_topology c.partitioner topology;
}

unfoldable pub make_partitioner : Cluster → List NodeId → Partitioner
make_partitioner c nodes =
    if nat_eq (length c.topology) 0
    then Partitioner.new nodes
    else Partitioner.set_topology (Partitioner.new nodes) c.topology

unfoldable pub with_chunk : Cluster → ℕ → Cluster
with_chunk c chunk = record c { chunk = max chunk 1 }

unfoldable pub mark_down : Cluster → NodeId → Cluster
mark_down c id = record c { down = if contains c.down id then c.down else id ∷ c.down }

unfoldable pub add_node : Cluster → NodeId → Cluster
add_node c id = record c { clients = if contains c.clients id then c.clients else id ∷ c.clients }

unfoldable pub is_migrating : Cluster → Bool
is_migrating c = is_some c.overlay

-- `none` is the panic of an index out of bounds.
unfoldable pub owners : Cluster → Text → Option (List NodeId)
owners c key = elim c.overlay [
  | some o ↦
      let b = bucket_of key in
      if contains o.migrated b
      then owners_of_bucket o.new_p b o.r_new
      else owners_of_bucket o.old_p b o.r_old
  | none ↦ replica_set c.partitioner key c.replication
]

abbrev pub is_down : Cluster → NodeId → Bool
is_down c node = contains c.down node

-- `client_of`: whether there is a client for the node.
abbrev pub has_client : Cluster → NodeId → Bool
has_client c node = contains c.clients node

unfoldable pub live_owner : Cluster → Text → Option NodeId
live_owner c key = elim (owners c key) [
  | none ↦ none
  | some ns ↦ first (filter_by (λ n. not (is_down c n)) ns)
]

unfoldable pub save_record : Cluster → List NodeId → List NodeId → List ℕ → Cluster
save_record c old new_nodes done = record c {
  journal = save c.journal (record {
    old_nodes = old;
    new_nodes = new_nodes;
    replication = c.replication_target;
    done = done;
  });
}

unfoldable pub commit_membership : Cluster → List NodeId → Cluster
commit_membership c new_nodes = record c {
  epoch = add_u64 c.epoch 1;
  partitioner = set_nodes c.partitioner new_nodes;
  replication = clamp c.replication_target (length new_nodes);
  clients = filter_by (λ id. contains new_nodes id) c.clients;
  down = filter_by (λ id. not (contains c.clients id) || contains new_nodes id) c.down;
}
