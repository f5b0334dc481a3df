-- ===== src/Shard.antt =====
-- shard.rs: one node's local data. Every operation runs under the shard's lock, at one time `now`.
pub mod Moves
pub mod Leases
use stplr.Base.{
  ℕ, zero, suc, ◌+◌, ◌-◌, ◌*◌, ◌/◌, ◌%◌, ◌^◌, ◌≤◌, ◌<◌, min, max, ◌≡◌, refl, sym, ap, subst, ◌∙◌,
  ◌≡⟨◌⟩◌, ◌∎, ◌≢◌, ◌↔◌, ◌⊎◌, inl, inr, Bool, true, false, not, ◌&&◌, ◌||◌, Option, none, some, List,
  [], ◌∷◌, ◌++◌, map, reverse, append-nil, append_assoc, arith, ltb, leb, nat_eq, nat_eq_iff,
  if◌then◌else◌, ltb→lt, leb→le, Bool-cases, Eq, ◌==◌, nat_Eq, is_some, length, take, get_elem?,
  first, filter_by, any, all, All, length-append, length-take, take-all, length-filter_by,
  filter_by-append, contains, Distinct, beq_self, contains-append, contains-take, Distinct-take,
  contains-filter_by, Distinct-filter_by,
}
use stplr.Text.{Text, text_Eq}
use stplr.Word.{add_u64}
use stplr.Dict.{keys}
use stplr.Json.{Json}
use stplr.Lease.{Lease, LeaseOutcome, lease_coll, evaluate}
use stplr.Partitioner.{bucket_of}
use stplr.Store
use stplr.Store.{IndexStore}

pub record Shard (S : Type 0) : Type 0 where
  pub id : Text
  pub store : S

-- A store's step on the shard that holds it.
abbrev pub with_store : {S A : Type 0} → Shard S → S × A → Shard S × A
with_store sh (s, a) = (record sh { store = s }, a)

-- Whether a key's bucket is wanted (`want.contains(&bucket_of(id))`).
abbrev pub in_buckets : List ℕ → Text → Bool
in_buckets buckets id = contains buckets (bucket_of id)

module _ {V : Type 0} where
  unfoldable pub entries_in : List ℕ → List (Text × V) → List (Text × V)
  entries_in buckets [] = []
  entries_in buckets ((id, obj) ∷ entries) =
      let rest = entries_in buckets entries in
      if in_buckets buckets id then (id, obj) ∷ rest else rest

module _ {S V : Type 0} (o : IndexStore S V) where
  unfoldable pub object : ℕ → Shard S → Text → Text → Option V
  object now sh coll key = o.get_object now sh.store coll key

  unfoldable pub scan_range :
      ℕ → Shard S → Text → Option Text → Option Text → Option Text → ℕ → List Text
  scan_range now sh coll after prefix end limit =
      Store.scan_range o now sh.store coll after prefix end limit

  unfoldable pub mget : ℕ → Shard S → Text → List Text → List (Option V)
  mget now sh coll keys = Store.mget o now sh.store coll keys

  unfoldable pub scan_buckets : ℕ → Shard S → Text → List ℕ → Option Text → ℕ → Option (List Text)
  scan_buckets now sh coll buckets after limit =
      Store.scan_buckets o now sh.store coll buckets after limit

  unfoldable pub write_object : Shard S → Text → Text → V → Shard S
  write_object sh coll key obj = record sh { store = o.put_object sh.store coll key obj }

  unfoldable pub write_object_ttl : ℕ → Shard S → Text → Text → V → ℕ → Shard S
  write_object_ttl now sh coll key obj ttl_ms =
      if nat_eq ttl_ms 0
      then record sh { store = o.put_object sh.store coll key obj }
      else record sh { store = o.put_object_at sh.store coll key obj (add_u64 now ttl_ms) }

  unfoldable pub sweep_expired : ℕ → Shard S → Shard S × ℕ
  sweep_expired now sh = with_store sh (o.sweep_expired sh.store now)

  unfoldable pub write_batch : Shard S → List (Text × Text × V) → Shard S
  write_batch sh items = record sh { store = Store.put_batch o sh.store items }

  unfoldable pub delete_object : Shard S → Text → Text → Shard S
  delete_object sh coll key = record sh { store = o.delete_object sh.store coll key }

  unfoldable pub export_entries : ℕ → Shard S → Text → List ℕ → List (Text × V)
  export_entries now sh coll buckets = entries_in buckets (o.scan_entries now sh.store coll)

  -- The loop of `import_entries` on the store.
  unfoldable pub put_all : S → Text → List (Text × V) → S
  put_all s coll [] = s
  put_all s coll ((id, obj) ∷ entries) = put_all (o.put_object s coll id obj) coll entries

  unfoldable pub import_entries : Shard S → Text → List (Text × V) → Shard S
  import_entries sh coll entries = record sh { store = put_all sh.store coll entries }

  -- The loop of `drop_buckets` on the store.
  unfoldable pub delete_all : S → Text → List Text → S
  delete_all s coll [] = s
  delete_all s coll (id ∷ ids) = delete_all (o.delete_object s coll id) coll ids

  unfoldable pub drop_buckets : ℕ → Shard S → Text → List ℕ → Shard S × ℕ
  drop_buckets now sh coll buckets =
      let ids = keys (entries_in buckets (o.scan_entries now sh.store coll)) in
      (record sh { store = delete_all sh.store coll ids }, length ids)

module _ {V : Type 0} ⦃j : Json V⦄ where
  -- `and_then(|v| from_value(v).ok())`
  abbrev pub lease_at : Option V → Option Lease
  lease_at none = none
  lease_at (some v) = j.to_lease v

module _ {S V : Type 0} (o : IndexStore S V) ⦃j : Json V⦄ where
  unfoldable pub set_add : ℕ → Shard S → Text → Text → Text → Shard S × Bool
  set_add now sh coll key member = with_store sh (Store.set_add o now sh.store coll key member)

  unfoldable pub set_remove : ℕ → Shard S → Text → Text → Text → Shard S × Bool
  set_remove now sh coll key member =
      with_store sh (Store.set_remove o now sh.store coll key member)

  unfoldable pub set_members : ℕ → Shard S → Text → Text → List Text
  set_members now sh coll key = Store.set_members o now sh.store coll key

  unfoldable pub cas : ℕ → Shard S → Text → Text → Option V → V → Shard S × Bool
  cas now sh coll key expect new = with_store sh (Store.cas o now sh.store coll key expect new)

  unfoldable pub incr : ℕ → Shard S → Text → Text → ℕ → Shard S × Option ℕ
  incr now sh coll key delta = with_store sh (Store.incr o now sh.store coll key delta)

  unfoldable pub lease_acquire : ℕ → Shard S → Text → Text → ℕ → Shard S × LeaseOutcome
  lease_acquire now sh key holder ttl_ms =
      let outcome =
        evaluate (lease_at (o.get_object now sh.store lease_coll key)) holder ttl_ms now in
      (
        if outcome.granted
            then record sh {
              store = o.put_object sh.store lease_coll key (j.from_lease outcome.lease);
            }
            else sh,
        outcome,
      )
