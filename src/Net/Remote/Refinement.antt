-- ===== src/Net/Remote/Refinement.antt =====
-- `HttpShardClient` of net.rs beside the in-process client of client.rs.
use stplr.Base.{ℕ, min, ◌≡◌, Bool, Option, none, some, List, [], ◌∷◌, nat_Eq}
use stplr.Text.{text_Eq, Text}
use stplr.Json.{Json}
use stplr.Store.{IndexStore}
use stplr.Shard
use stplr.Shard.{Shard}
use stplr.Client.{ShardClients, Shards}
use stplr.Net.Server.{
  scan_cap, object, mget, set_add, set_remove, cas, incr, delete_object, drop_buckets,
  lease_acquire, Server, Call, Reply, handle,
}
use stplr.Net.Remote.{non_null, each_non_null, Servers}

-- The shards behind the servers.
abbrev pub shards : {S : Type 0} → Servers S → Shards S
shards [] = []
shards ((n, s) ∷ w) = (n, s.shard) ∷ shards w

abbrev shard_of : {S : Type 0} → Option (Server S) → Option (Shard S)
shard_of none = none
shard_of (some s) = some s.shard

-- Two answers to one call: the same result, and the same shards after it.
abbrev Same : {S A : Type 0} → Servers S × A → Shards S × A → Type 0
Same p q = (shards p.0 ≡ q.0) × (p.1 ≡ q.1)

module _ {S V : Type 0} (o : IndexStore S V) ⦃j : Json V⦄ (now : ℕ) (w : Servers S) (n : Text) where
  -- A call and its reading answer as a step on the shard does.
  abbrev AsStep : {A : Type 0} → Call V → (Reply V → A) → (Shard S → Shard S × A) → Type 0
  AsStep c read f =
      (s : Server S)
      → ((handle o now s c).0.shard ≡ (f s.shard).0) × (read (handle o now s c).1 ≡ (f s.shard).1)

-- An `Ok` answer, changed by a function.
abbrev map_ok : {A B : Type 0} → (A → B) → Option A → Option B
map_ok f none = none
map_ok f (some a) = some (f a)

-- Each method of the one client gives, at the shard `n`, what the method of the other gives, and
-- leaves the shards behind it as the other does. A `null` that is stored reads as no value, one that
-- `cas` expects is sent as no value, and a scan has a cap.
pub record Agrees {S V : Type 0} (is_null : V → Bool) (remote : ShardClients (Servers S) V)
    (local : ShardClients (Shards S) V) (w : Servers S) (n : Text) : Type 0 where
  pub object :
      (coll key : Text)
      → remote.object w n coll key ≡ map_ok (non_null is_null) (local.object (shards w) n coll key)
  pub scan_range :
      (coll : Text) (after prefix end : Option Text) (limit : ℕ)
      → remote.scan_range w n coll after prefix end limit
        ≡ local.scan_range (shards w) n coll after prefix end (min limit scan_cap)
  pub mget :
      (coll : Text) (ks : List Text)
      → remote.mget w n coll ks ≡ map_ok (each_non_null is_null) (local.mget (shards w) n coll ks)
  pub set_add :
      (coll key m : Text)
      → Same (remote.set_add w n coll key m) (local.set_add (shards w) n coll key m)
  pub set_remove :
      (coll key m : Text)
      → Same (remote.set_remove w n coll key m) (local.set_remove (shards w) n coll key m)
  pub write_object :
      (coll key : Text) (obj : V)
      → Same (remote.write_object w n coll key obj) (local.write_object (shards w) n coll key obj)
  pub write_object_ttl :
      (coll key : Text) (obj : V) (ttl_ms : ℕ)
      → Same
          (remote.write_object_ttl w n coll key obj ttl_ms)
          (local.write_object_ttl (shards w) n coll key obj ttl_ms)
  pub cas :
      (coll key : Text) (expect : Option V) (new : V)
      → Same
          (remote.cas w n coll key expect new)
          (local.cas (shards w) n coll key (non_null is_null expect) new)
  pub incr :
      (coll key : Text) (delta : ℕ)
      → Same (remote.incr w n coll key delta) (local.incr (shards w) n coll key delta)
  pub delete_object :
      (coll key : Text)
      → Same (remote.delete_object w n coll key) (local.delete_object (shards w) n coll key)
  pub export_entries :
      (coll : Text) (buckets : List ℕ)
      → remote.export_entries w n coll buckets ≡ local.export_entries (shards w) n coll buckets
  pub import_entries :
      (coll : Text) (es : List (Text × V))
      → Same (remote.import_entries w n coll es) (local.import_entries (shards w) n coll es)
  pub drop_buckets :
      (coll : Text) (buckets : List ℕ)
      → Same (remote.drop_buckets w n coll buckets) (local.drop_buckets (shards w) n coll buckets)
  pub lease_acquire :
      (key holder : Text) (ttl_ms : ℕ)
      → Same
          (remote.lease_acquire w n key holder ttl_ms)
          (local.lease_acquire (shards w) n key holder ttl_ms)
