-- ===== src/Cluster/Data.antt =====
-- cluster.rs: the data plane. An operation runs while its bucket's gate is open, on the shards' state
-- `w`; `none` is the panic of an index out of bounds in the routing.
pub mod Reads
use stplr.Base.{
  ℕ, zero, suc, ◌+◌, ◌-◌, ◌*◌, ◌/◌, ◌%◌, ◌^◌, ◌≤◌, ◌<◌, min, max, ◌≡◌, refl, sym, ap, subst, ◌∙◌,
  ◌≡⟨◌⟩◌, ◌∎, ◌≢◌, ◌↔◌, ◌⊎◌, inl, inr, Bool, true, false, not, ◌&&◌, ◌||◌, Option, none, some, List,
  [], ◌∷◌, ◌++◌, map, reverse, append-nil, append_assoc, arith, ltb, leb, nat_eq, nat_eq_iff,
  if◌then◌else◌, ltb→lt, leb→le, Bool-cases, Eq, ◌==◌, nat_Eq, is_some, length, take, get_elem?,
  first, filter_by, any, all, All, length-append, length-take, drop, take-drop, length-drop,
  take-all, length-filter_by, filter_by-append, contains, Distinct, beq_self, contains-append,
  contains-take, Distinct-take, contains-filter_by, Distinct-filter_by,
}
use stplr.Text.{Text, text_Eq, text_lt}
use stplr.Dict.{Dict, get, insert}
use stplr.Json.{Json}
use stplr.Lease.{LeaseOutcome, leader_key}
use stplr.Partitioner.{NodeId, bucket_of}
use stplr.Client.{ShardClients}
use stplr.Cluster.{Cluster, owners, is_down, has_client, live_owner}

-- A node that an operation calls.
abbrev pub usable : Cluster → NodeId → Bool
usable c n = not (is_down c n) && has_client c n

-- A key put in its place in a `BTreeSet`.
unfoldable pub insert_key : Text → List Text → List Text
insert_key k [] = k ∷ []
insert_key k (x ∷ xs) =
    if x == k then x ∷ xs else if text_lt k x then k ∷ x ∷ xs else x ∷ insert_key k xs

unfoldable pub merge_keys : List Text → List Text → List Text
merge_keys merged [] = merged
merge_keys merged (k ∷ ks) = merge_keys (insert_key k merged) ks

abbrev pub last_of : List Text → Option Text
last_of [] = none
last_of (k ∷ []) = some k
last_of (k ∷ k' ∷ ks) = last_of (k' ∷ ks)

module _ {W V : Type 0} (o : ShardClients W V) where
  -- The loop of `get` over the owners.
  unfoldable pub get_from : Cluster → W → Text → Text → List NodeId → Option V
  get_from c w coll key [] = none
  get_from c w coll key (n ∷ ns) =
      let next = get_from c w coll key ns in
      if usable c n then elim (o.object w n coll key) [ some found ↦ found | none ↦ next ] else next

  unfoldable pub get_object : Cluster → W → Text → Text → Option (Option V)
  get_object c w coll key = elim (owners c key) [
    | none ↦ none
    | some ns ↦ some (get_from c w coll key ns)
  ]

  -- The loop of `broadcast` over the owners.
  unfoldable pub broadcast_to : Cluster → (W → NodeId → W) → W → List NodeId → W
  broadcast_to c op w [] = w
  broadcast_to c op w (n ∷ ns) = broadcast_to c op (if usable c n then op w n else w) ns

  unfoldable pub broadcast : Cluster → (W → NodeId → W) → W → Text → Option W
  broadcast c op w key = elim (owners c key) [
    | none ↦ none
    | some ns ↦ some (broadcast_to c op w ns)
  ]

  unfoldable pub put : Cluster → W → Text → Text → V → Option W
  put c w coll key obj = broadcast c (λ s n. (o.write_object s n coll key obj).0) w key

  unfoldable pub put_ttl : Cluster → W → Text → Text → V → ℕ → Option W
  put_ttl c w coll key obj ttl_ms =
      broadcast c (λ s n. (o.write_object_ttl s n coll key obj ttl_ms).0) w key

  unfoldable pub delete : Cluster → W → Text → Text → Option W
  delete c w coll key = broadcast c (λ s n. (o.delete_object s n coll key).0) w key

  unfoldable pub set_add : Cluster → W → Text → Text → Text → Option W
  set_add c w coll key m = broadcast c (λ s n. (o.set_add s n coll key m).0) w key

  unfoldable pub set_remove : Cluster → W → Text → Text → Text → Option W
  set_remove c w coll key m = broadcast c (λ s n. (o.set_remove s n coll key m).0) w key

  -- The loop of `cas` and `incr` over the other live owners.
  unfoldable pub replicate : Cluster → W → Text → Text → V → List NodeId → W
  replicate c w coll key obj [] = w
  replicate c w coll key obj (n ∷ ns) =
      replicate c (if has_client c n then (o.write_object w n coll key obj).0 else w) coll key obj
        ns

  abbrev pub live : Cluster → List NodeId → List NodeId
  live c ns = filter_by (λ n. not (is_down c n)) ns

  -- `cas` on the live owners, the primary first.
  unfoldable pub cas_on : Cluster → W → Text → Text → Option V → V → List NodeId → W × Bool
  cas_on c w coll key expect new [] = (w, false)
  cas_on c w coll key expect new (primary ∷ replicas) =
      let (w', reply) = o.cas w primary coll key expect new in
      if has_client c primary
      then elim reply [
        | none ↦ (w', false)
        | some set ↦ (if set then (replicate c w' coll key new replicas, true) else (w', false))
      ]
      else (w, false)

  unfoldable pub cas : Cluster → W → Text → Text → Option V → V → Option (W × Bool)
  cas c w coll key expect new = elim (owners c key) [
    | none ↦ none
    | some ns ↦ some (cas_on c w coll key expect new (live c ns))
  ]

  -- `lease_acquire` at the first owner alone.
  unfoldable pub lease_on : Cluster → W → Text → Text → ℕ → List NodeId → W × Option LeaseOutcome
  lease_on c w key holder ttl_ms [] = (w, none)
  lease_on c w key holder ttl_ms (owner ∷ ns) =
      if usable c owner then o.lease_acquire w owner key holder ttl_ms else (w, none)

  unfoldable pub lease_acquire : Cluster → W → Text → Text → ℕ → Option (W × Option LeaseOutcome)
  lease_acquire c w key holder ttl_ms = elim (owners c key) [
    | none ↦ none
    | some ns ↦ some (lease_on c w key holder ttl_ms ns)
  ]

  unfoldable pub try_acquire_leadership : Cluster → W → Text → ℕ → Option (W × Option LeaseOutcome)
  try_acquire_leadership c w holder ttl_ms = lease_acquire c w leader_key holder ttl_ms

  -- The loop of `scan_range` over the clients.
  unfoldable pub scan_all :
      Cluster
      → W
      → Text
      → Option Text
      → Option Text
      → Option Text
      → ℕ
      → List Text
      → List NodeId
      → List Text
  scan_all c w coll after prefix end limit merged [] = merged
  scan_all c w coll after prefix end limit merged (n ∷ ns) =
      let found : List Text = elim (o.scan_range w n coll after prefix end limit) [
        | none ↦ merged
        | some keys ↦ merge_keys merged keys
      ] in
      scan_all c w coll after prefix end limit (if is_down c n then merged else found) ns

  unfoldable pub scan_range :
      Cluster → W → Text → Option Text → Option Text → Option Text → ℕ → List Text × Option Text
  scan_range c w coll after prefix end limit =
      let page = take limit (scan_all c w coll after prefix end limit [] c.clients) in
      (page, if leb limit (length page) then last_of page else none)

  unfoldable pub scan_keys : Cluster → W → Text → Option Text → ℕ → List Text × Option Text
  scan_keys c w coll after limit = scan_range c w coll after none none limit

module _ {W V : Type 0} (o : ShardClients W V) ⦃j : Json V⦄ where
  unfoldable pub incr_on : Cluster → W → Text → Text → ℕ → List NodeId → W × Option ℕ
  incr_on c w coll key delta [] = (w, none)
  incr_on c w coll key delta (primary ∷ replicas) =
      let (w', reply) = o.incr w primary coll key delta in
      if has_client c primary
      then elim reply [
        | none ↦ (w', none)
        | some none ↦ (w', none)
        | some (some new) ↦ (replicate o c w' coll key (j.from_i64 new) replicas, some new)
      ]
      else (w, none)

  unfoldable pub incr : Cluster → W → Text → Text → ℕ → Option (W × Option ℕ)
  incr c w coll key delta = elim (owners c key) [
    | none ↦ none
    | some ns ↦ some (incr_on c w coll key delta (live o c ns))
  ]
