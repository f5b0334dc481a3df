-- ===== src/Client.antt =====
-- client.rs: the trait `ShardClient` as the methods of all shards, each by its shard's id, and the
-- in-process client. `none` and `false` are `Err`.
use stplr.Base.{ℕ, Bool, true, false, Option, none, some, List, nat_Eq}
use stplr.Text.{Text, text_Eq}
use stplr.Dict.{Dict, get, insert}
use stplr.Json.{Json}
use stplr.Lease.{LeaseOutcome}
use stplr.Partitioner.{NodeId}
use stplr.Store.{IndexStore}
use stplr.Shard
use stplr.Shard.{Shard}

pub record ShardClients (W V : Type 0) : Type 0 where
  pub object : W → NodeId → Text → Text → Option (Option V)
  pub scan_range :
      W → NodeId → Text → Option Text → Option Text → Option Text → ℕ → Option (List Text)
  pub mget : W → NodeId → Text → List Text → Option (List (Option V))
  pub set_add : W → NodeId → Text → Text → Text → W × Option Bool
  pub set_remove : W → NodeId → Text → Text → Text → W × Option Bool
  pub write_object : W → NodeId → Text → Text → V → W × Bool
  pub write_object_ttl : W → NodeId → Text → Text → V → ℕ → W × Bool
  pub cas : W → NodeId → Text → Text → Option V → V → W × Option Bool
  pub incr : W → NodeId → Text → Text → ℕ → W × Option (Option ℕ)
  pub delete_object : W → NodeId → Text → Text → W × Bool
  pub export_entries : W → NodeId → Text → List ℕ → Option (List (Text × V))
  pub import_entries : W → NodeId → Text → List (Text × V) → W × Bool
  pub drop_buckets : W → NodeId → Text → List ℕ → W × Option ℕ
  pub lease_acquire : W → NodeId → Text → Text → ℕ → W × Option LeaseOutcome

-- The shards that in-process clients lock, by id.
abbrev pub Shards : Type 0 → Type 0
Shards S = Dict NodeId (Shard S)

module _ {S : Type 0} where
  abbrev pub ask : {A : Type 0} → Shards S → NodeId → (Shard S → A) → Option A
  ask w n f = elim (get w n) [ none ↦ none | some sh ↦ some (f sh) ]

  abbrev pub tell : {A : Type 0} → Shards S → NodeId → (Shard S → Shard S × A) → Shards S × Option A
  tell w n f = elim (get w n) [ none ↦ (w, none) | some sh ↦ (insert w n (f sh).0, some (f sh).1) ]

  abbrev pub do_ : Shards S → NodeId → (Shard S → Shard S) → Shards S × Bool
  do_ w n f = elim (get w n) [ none ↦ (w, false) | some sh ↦ (insert w n (f sh), true) ]

-- `impl ShardClient for InProcessShardClient`
unfoldable pub in_process :
    {S V : Type 0} → IndexStore S V → ⦃j : Json V⦄ → ℕ → ShardClients (Shards S) V
in_process o now = record {
  object = λ w n coll key. ask w n (λ sh. Shard.object o now sh coll key);
  scan_range = λ w n coll after prefix end limit.
      ask w n (λ sh. Shard.scan_range o now sh coll after prefix end limit);
  mget = λ w n coll keys. ask w n (λ sh. Shard.mget o now sh coll keys);
  set_add = λ w n coll key m. tell w n (λ sh. Shard.set_add o now sh coll key m);
  set_remove = λ w n coll key m. tell w n (λ sh. Shard.set_remove o now sh coll key m);
  write_object = λ w n coll key obj. do_ w n (λ sh. Shard.write_object o sh coll key obj);
  write_object_ttl = λ w n coll key obj ttl_ms.
      do_ w n (λ sh. Shard.write_object_ttl o now sh coll key obj ttl_ms);
  cas = λ w n coll key expect new. tell w n (λ sh. Shard.cas o now sh coll key expect new);
  incr = λ w n coll key delta. tell w n (λ sh. Shard.incr o now sh coll key delta);
  delete_object = λ w n coll key. do_ w n (λ sh. Shard.delete_object o sh coll key);
  export_entries = λ w n coll buckets. ask w n (λ sh. Shard.export_entries o now sh coll buckets);
  import_entries = λ w n coll entries. do_ w n (λ sh. Shard.import_entries o sh coll entries);
  drop_buckets = λ w n coll buckets. tell w n (λ sh. Shard.drop_buckets o now sh coll buckets);
  lease_acquire =
      λ w n key holder ttl_ms. tell w n (λ sh. Shard.lease_acquire o now sh key holder ttl_ms);
}
