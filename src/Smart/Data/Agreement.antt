-- ===== src/Smart/Data/Agreement.antt =====
-- The data plane of smart.rs beside that of cluster.rs.
use stplr.Json.{Json}
use stplr.Client.{ShardClients}
use stplr.Base.{
  ℕ, ◌≡◌, refl, Bool, Option, none, some, List, [], if◌then◌else◌, nat_Eq, is_some, all,
}
use stplr.Text.{text_Eq, Text}
use stplr.Dict.{Dict, keys}
use stplr.Partitioner.{NodeId}
use stplr.Cluster
use stplr.Cluster.{Cluster}
use stplr.Smart
use stplr.Smart.{SmartClient}

-- The client's view is the cluster's: the same ranking of the nodes, the same clients in one order,
-- and as many replicas; the cluster migrates nothing and has marked no node down.
pub record IsView (sc : SmartClient) (c : Cluster) : Type 0 where
  pub same_partitioner : sc.partitioner ≡ c.partitioner
  pub same_clients : keys sc.clients ≡ c.clients
  pub same_replication : sc.replication ≡ c.replication
  pub settled : c.overlay ≡ none
  pub none_down : c.down ≡ []

module _ (sc : SmartClient) (c : Cluster) (v : IsView sc c) where
  usable-eq : (n : NodeId) → Cluster.Data.usable c n ≡ Smart.has_client sc n
  usable-eq n = rw (v.same_clients, v.none_down) refl

  -- Whether the routing of each of the keys finds its owners.
  abbrev pub all_routed : List Text → Bool
  all_routed ks = all (λ k. is_some (Cluster.owners c k)) ks

  abbrev Grouped : ℕ → List Text → Dict NodeId (List ℕ) → Type 0
  Grouped i ks m =
      Smart.Data.by_first_owner sc i ks m
      ≡ (if all_routed ks then some (Cluster.Batches.by_owner c i ks m) else none)

  -- The answer of each operation of the client beside the cluster's.
  pub record Agrees {W V : Type 0} (o : ShardClients W V) ⦃j : Json V⦄ (w : W) (coll key : Text)
      : Type 0 where
    pub get : Smart.Data.get_object o sc w coll key ≡ Cluster.Data.get_object o c w coll key
    pub put : (obj : V) → Smart.Data.put o sc w coll key obj ≡ Cluster.Data.put o c w coll key obj
    pub put_ttl :
        (obj : V) (ttl_ms : ℕ)
        → Smart.Data.put_ttl o sc w coll key obj ttl_ms
          ≡ Cluster.Data.put_ttl o c w coll key obj ttl_ms
    pub delete : Smart.Data.delete o sc w coll key ≡ Cluster.Data.delete o c w coll key
    pub set_add :
        (m : Text) → Smart.Data.set_add o sc w coll key m ≡ Cluster.Data.set_add o c w coll key m
    pub set_remove :
        (m : Text)
        → Smart.Data.set_remove o sc w coll key m ≡ Cluster.Data.set_remove o c w coll key m
    pub cas :
        (expect : Option V) (new : V)
        → Smart.Data.cas o sc w coll key expect new ≡ Cluster.Data.cas o c w coll key expect new
    pub incr :
        (delta : ℕ) → Smart.Data.incr o sc w coll key delta ≡ Cluster.Data.incr o c w coll key delta
    pub scan_range :
        (after prefix end : Option Text) (limit : ℕ)
        → Smart.Data.scan_range o sc w coll after prefix end limit
          ≡ Cluster.Data.scan_range o c w coll after prefix end limit
    -- The client panics where the routing of a key does.
    pub mget :
        (ks : List Text)
        → Smart.Data.mget o sc w coll ks
          ≡ (if all_routed ks then some (Cluster.Batches.mget o c w coll ks) else none)
