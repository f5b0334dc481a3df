-- ===== src/Smart/Data.antt =====
-- The data plane of smart.rs: reads that fail over, writes to every replica, and merged scans.
pub mod Agreement
use stplr.Base.{
  ℕ, zero, suc, ◌+◌, ◌-◌, ◌*◌, ◌/◌, ◌%◌, ◌^◌, ◌≤◌, ◌<◌, min, max, ◌≡◌, refl, sym, ap, subst, ◌∙◌,
  ◌≡⟨◌⟩◌, ◌∎, ◌≢◌, ◌↔◌, ◌⊎◌, inl, inr, Bool, true, false, not, ◌&&◌, ◌||◌, Option, none, some, List,
  [], ◌∷◌, ◌++◌, map, reverse, append-nil, append_assoc, arith, ltb, leb, nat_eq, nat_eq_iff,
  if◌then◌else◌, ltb→lt, leb→le, Bool-cases, Eq, ◌==◌, nat_Eq, is_some, length, take, get_elem?,
  first, filter_by, any, all, All, length-append, length-take, drop, take-drop, length-drop,
  take-all, length-filter_by, filter_by-append, contains, Distinct, beq_self, contains-append,
  contains-take, Distinct-take, contains-filter_by, Distinct-filter_by,
}
use stplr.Text.{text_Eq, Text}
use stplr.Dict.{Dict, get, keys}
use stplr.Json.{Json}
use stplr.Sort.{sort_by}
use stplr.Partitioner.{NodeId}
use stplr.Client.{ShardClients}
use stplr.Cluster.Data.{merge_keys, last_of}
use stplr.Cluster.Partitions.{Partition, push_to, group_primaries, by_id}
use stplr.Cluster.Batches.{fill, blanks, keys_at}
use stplr.Smart.{SmartClient, owners, has_client}

-- The loop of `mget` over the keys: their indices by their first owner; `none` is a panic.
unfoldable pub by_first_owner :
    SmartClient → ℕ → List Text → Dict NodeId (List ℕ) → Option (Dict NodeId (List ℕ))
by_first_owner c i [] m = some m
by_first_owner c i (k ∷ ks) m = elim (owners c k) [
  | none ↦ none
  | some [] ↦ by_first_owner c (suc i) ks m
  | some (owner ∷ ns) ↦ by_first_owner c (suc i) ks (push_to m owner i)
]

abbrev endpoint_of : Option Text → Text
endpoint_of none = []
endpoint_of (some endpoint) = endpoint

unfoldable pub plan_of : SmartClient → Dict NodeId (List ℕ) → List Partition
plan_of c [] = []
plan_of c ((id, buckets) ∷ m) =
    record { id = id; endpoint = endpoint_of (get c.clients id); buckets = buckets } ∷ plan_of c m

unfoldable pub partitions : SmartClient → Option (List Partition)
partitions c = elim (group_primaries c.partitioner 0 c.partitioner.bucket_count []) [
  | none ↦ none
  | some m ↦ some (sort_by by_id (plan_of c m))
]

module _ {W V : Type 0} (o : ShardClients W V) where
  -- The loop of `get` over the owners.
  unfoldable pub get_from : SmartClient → W → Text → Text → List NodeId → Option V
  get_from c w coll key [] = none
  get_from c w coll key (n ∷ ns) =
      let next = get_from c w coll key ns in
      if has_client c n
      then elim (o.object w n coll key) [ some found ↦ found | none ↦ next ]
      else next

  unfoldable pub get_object : SmartClient → W → Text → Text → Option (Option V)
  get_object c w coll key = elim (owners c key) [
    | none ↦ none
    | some ns ↦ some (get_from c w coll key ns)
  ]

  -- The loop of the writes over the owners.
  unfoldable pub each_owner : SmartClient → (W → NodeId → W) → W → List NodeId → W
  each_owner c op w [] = w
  each_owner c op w (n ∷ ns) = each_owner c op (if has_client c n then op w n else w) ns

  unfoldable pub all_owners : SmartClient → (W → NodeId → W) → W → Text → Option W
  all_owners c op w key = elim (owners c key) [
    | none ↦ none
    | some ns ↦ some (each_owner c op w ns)
  ]

  unfoldable pub put : SmartClient → W → Text → Text → V → Option W
  put c w coll key obj = all_owners c (λ s n. (o.write_object s n coll key obj).0) w key

  unfoldable pub put_ttl : SmartClient → W → Text → Text → V → ℕ → Option W
  put_ttl c w coll key obj ttl_ms =
      all_owners c (λ s n. (o.write_object_ttl s n coll key obj ttl_ms).0) w key

  unfoldable pub delete : SmartClient → W → Text → Text → Option W
  delete c w coll key = all_owners c (λ s n. (o.delete_object s n coll key).0) w key

  unfoldable pub set_add : SmartClient → W → Text → Text → Text → Option W
  set_add c w coll key m = all_owners c (λ s n. (o.set_add s n coll key m).0) w key

  unfoldable pub set_remove : SmartClient → W → Text → Text → Text → Option W
  set_remove c w coll key m = all_owners c (λ s n. (o.set_remove s n coll key m).0) w key

  -- The loop of `cas` and `incr` over the replicas.
  unfoldable pub replicate : SmartClient → W → Text → Text → V → List NodeId → W
  replicate c w coll key obj [] = w
  replicate c w coll key obj (n ∷ ns) =
      replicate c (if has_client c n then (o.write_object w n coll key obj).0 else w) coll key obj
        ns

  unfoldable pub cas_on : SmartClient → W → Text → Text → Option V → V → List NodeId → W × Bool
  cas_on c w coll key expect new [] = (w, false)
  cas_on c w coll key expect new (primary ∷ replicas) =
      let (w', reply) = o.cas w primary coll key expect new in
      if has_client c primary
      then elim reply [
        | none ↦ (w', false)
        | some set ↦ (if set then (replicate c w' coll key new replicas, true) else (w', false))
      ]
      else (w, false)

  unfoldable pub cas : SmartClient → W → Text → Text → Option V → V → Option (W × Bool)
  cas c w coll key expect new = elim (owners c key) [
    | none ↦ none
    | some ns ↦ some (cas_on c w coll key expect new ns)
  ]

  -- The loop of `scan_range` over the clients.
  unfoldable pub scan_all :
      W → Text → Option Text → Option Text → Option Text → ℕ → List Text → List NodeId → List Text
  scan_all w coll after prefix end limit merged [] = merged
  scan_all w coll after prefix end limit merged (n ∷ ns) =
      let found : List Text = elim (o.scan_range w n coll after prefix end limit) [
        | none ↦ merged
        | some ks ↦ merge_keys merged ks
      ] in
      scan_all w coll after prefix end limit found ns

  unfoldable pub scan_range :
      SmartClient → W → Text → Option Text → Option Text → Option Text → ℕ → List Text × Option Text
  scan_range c w coll after prefix end limit =
      let page = take limit (scan_all w coll after prefix end limit [] (keys c.clients)) in
      (page, if leb limit (length page) then last_of page else none)

  unfoldable pub scan_keys : SmartClient → W → Text → Option Text → ℕ → List Text × Option Text
  scan_keys c w coll after limit = scan_range c w coll after none none limit

  -- The loop of `mget` over the nodes.
  unfoldable pub mget_nodes :
      SmartClient → W → Text → List Text → List (Option V) → Dict NodeId (List ℕ) → List (Option V)
  mget_nodes c w coll ks out [] = out
  mget_nodes c w coll ks out ((node, idxs) ∷ m) =
      let filled : List (Option V) = elim (o.mget w node coll (keys_at ks idxs)) [
        | none ↦ out
        | some vals ↦ fill out idxs vals
      ] in
      mget_nodes c w coll ks (if has_client c node then filled else out) m

  unfoldable pub mget : SmartClient → W → Text → List Text → Option (List (Option V))
  mget c w coll ks = elim (by_first_owner c 0 ks []) [
    | none ↦ none
    | some m ↦ some (mget_nodes c w coll ks (blanks ks) m)
  ]

module _ {W V : Type 0} (o : ShardClients W V) ⦃j : Json V⦄ where
  unfoldable pub incr_on : SmartClient → W → Text → Text → ℕ → List NodeId → W × Option ℕ
  incr_on c w coll key delta [] = (w, none)
  incr_on c w coll key delta (primary ∷ replicas) =
      let (w', reply) = o.incr w primary coll key delta in
      if has_client c primary
      then elim reply [
        | none ↦ (w', none)
        | some none ↦ (w', none)
        | some (some new) ↦ (replicate o c w' coll key (j.from_i64 new) replicas, some new)
      ]
      else (w, none)

  unfoldable pub incr : SmartClient → W → Text → Text → ℕ → Option (W × Option ℕ)
  incr c w coll key delta = elim (owners c key) [
    | none ↦ none
    | some ns ↦ some (incr_on c w coll key delta ns)
  ]
