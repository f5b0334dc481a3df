-- ===== src/Net/Remote.antt =====
-- `HttpShardClient` of net.rs: the trait `ShardClient` by requests to the shards' servers. A server
-- that is not there is an `Err`; requests of a client that is let in arrive as they were sent.
pub mod Refinement
use stplr.Base.{
  ℕ, zero, suc, ◌+◌, ◌-◌, ◌*◌, ◌/◌, ◌%◌, ◌^◌, ◌≤◌, ◌<◌, min, max, ◌≡◌, refl, sym, ap, subst, ◌∙◌,
  ◌≡⟨◌⟩◌, ◌∎, ◌≢◌, ◌↔◌, ◌⊎◌, inl, inr, Bool, true, false, not, ◌&&◌, ◌||◌, Option, none, some, List,
  [], ◌∷◌, ◌++◌, map, reverse, append-nil, append_assoc, arith, ltb, leb, nat_eq, nat_eq_iff,
  if◌then◌else◌, ltb→lt, leb→le, Bool-cases, Eq, ◌==◌, nat_Eq, is_some, length, take, get_elem?,
  first, filter_by, any, all, All, length-append, length-take, drop, take-drop, length-drop,
  take-all, length-filter_by, filter_by-append, contains, Distinct, beq_self, contains-append,
  contains-take, Distinct-take, contains-filter_by, Distinct-filter_by,
}
use stplr.Text.{text_Eq, Text}
use stplr.Dict.{Dict, get, insert}
use stplr.Json.{Json}
use stplr.Lease.{LeaseOutcome}
use stplr.Partitioner.{NodeId}
use stplr.Store.{IndexStore}
use stplr.Client.{ShardClients}
use stplr.Net.Server.{
  Server, Call, Reply, handle, found, values, keys, flag, done, number, entries, dropped, outcome,
  object, mget, scan, set_add, set_remove, write, cas, incr, delete_object, export, import,
  drop_buckets, lease_acquire,
}

abbrev pub Servers : Type 0 → Type 0
Servers S = Dict NodeId (Server S)

-- What a method reads of an answer. An answer of another shape reads as its default.
module _ {V : Type 0} where
  -- `v.get("object").cloned().filter(|o| !o.is_null())`
  abbrev pub non_null : (V → Bool) → Option V → Option V
  non_null is_null none = none
  non_null is_null (some v) = if is_null v then none else some v

  abbrev pub object_of : (V → Bool) → Reply V → Option V
  object_of is_null (found v) = non_null is_null v
  object_of is_null _ = none

  -- `null` in the answer is `None`.
  abbrev pub each_non_null : (V → Bool) → List (Option V) → List (Option V)
  each_non_null is_null [] = []
  each_non_null is_null (v ∷ vs) = non_null is_null v ∷ each_non_null is_null vs

  abbrev pub values_of : (V → Bool) → Reply V → List (Option V)
  values_of is_null (values vs) = each_non_null is_null vs
  values_of is_null _ = []

  abbrev pub keys_of : Reply V → List Text
  keys_of (keys (some ks)) = ks
  keys_of _ = []

  abbrev pub flag_of : Reply V → Bool
  flag_of (flag b) = b
  flag_of _ = false

  abbrev pub number_of : Reply V → Option ℕ
  number_of (number n) = n
  number_of _ = none

  abbrev pub entries_of : Reply V → List (Text × V)
  entries_of (entries es) = es
  entries_of _ = []

  abbrev pub dropped_of : Reply V → ℕ
  dropped_of (dropped n) = n
  dropped_of _ = 0

  abbrev pub outcome_of : Reply V → LeaseOutcome
  outcome_of (outcome l) = l
  outcome_of _ = record {
    granted = false;
    lease = record { holder = []; expires_ms = 0; token = 0 };
  }

  -- `post_ok` reads no more than the status.
  abbrev pub done_of : Reply V → Unit {0}
  done_of r = tt

module _ {S V : Type 0} (o : IndexStore S V) ⦃j : Json V⦄ (now : ℕ) where
  abbrev answered :
      {A : Type 0} → Servers S → NodeId → (Reply V → A) → Server S × Reply V → Servers S × Option A
  answered w n read (s, r) = (insert w n s, some (read r))

  -- One request and its answer.
  unfoldable pub request :
      {A : Type 0} → Servers S → NodeId → Call V → (Reply V → A) → Servers S × Option A
  unfolding handle
  request w n c read = elim (get w n) [
    | none ↦ (w, none)
    | some s ↦ answered w n read (handle o now s c)
  ]

  abbrev pub sent : {A : Type 0} → Servers S × Option A → Servers S × Bool
  sent (w, r) = (w, is_some r)

  -- `impl ShardClient for HttpShardClient`
  unfoldable pub http_client : (V → Bool) → ShardClients (Servers S) V
  unfolding request
  http_client is_null = record {
    object = λ w n coll key. (request w n (object coll key) (object_of is_null)).1;
    scan_range = λ w n coll after prefix end limit.
        (request w n (scan coll after prefix end limit) keys_of).1;
    mget = λ w n coll ks. (request w n (mget coll ks) (values_of is_null)).1;
    set_add = λ w n coll key m. request w n (set_add coll key m) flag_of;
    set_remove = λ w n coll key m. request w n (set_remove coll key m) flag_of;
    write_object = λ w n coll key obj. sent (request w n (write coll key obj none) done_of);
    write_object_ttl =
        λ w n coll key obj ttl_ms. sent (request w n (write coll key obj (some ttl_ms)) done_of);
    -- `Some(null)` is written as `null`, which the server reads as `None`.
    cas =
        λ w n coll key expect new. request w n (cas coll key (non_null is_null expect) new) flag_of;
    incr = λ w n coll key delta. request w n (incr coll key delta) number_of;
    delete_object = λ w n coll key. sent (request w n (delete_object coll key) done_of);
    export_entries = λ w n coll buckets. (request w n (export coll buckets) entries_of).1;
    import_entries = λ w n coll es. sent (request w n (import coll es) done_of);
    drop_buckets = λ w n coll buckets. request w n (drop_buckets coll buckets) dropped_of;
    lease_acquire =
        λ w n key holder ttl_ms. request w n (lease_acquire key holder ttl_ms) outcome_of;
  }
