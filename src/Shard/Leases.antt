-- ===== src/Shard/Leases.antt =====
-- `lease_acquire` of shard.rs beside the pure transition of lease.rs.
use stplr.Base.{ℕ, ◌≡◌, refl, arith, nat_Eq}
use stplr.Text.{Text, text_Eq}
use stplr.Json.{Json, IsJson}
use stplr.Lease.{lease_coll, evaluate}
use stplr.Lease.Election.{serve}
use stplr.Store.{IndexStore}
use stplr.Store.Laws.{StoreLaws}
use stplr.Store.Atomic.{same_key_self}
use stplr.Shard.{Shard, object, lease_at, lease_acquire}

module _ {S V : Type 0} {Valid : S → Type 0} (o : IndexStore S V) ⦃j : Json V⦄
    (laws : StoreLaws o Valid) (lawful : IsJson j) where
  -- With a well-formed store and JSON values that keep their laws: a shard replies to a lease
  -- request as `evaluate` does on the lease that it reads, and reads at the same time afterwards
  -- the lease that the election stores.
  pub lease-acquire :
      (now : ℕ) (sh : Shard S) (key holder : Text) (ttl : ℕ)
      → Valid sh.store
      → ((lease_acquire o now sh key holder ttl).1
          ≡ evaluate (lease_at (object o now sh lease_coll key)) holder ttl now)
        × (lease_at (object o now (lease_acquire o now sh key holder ttl).0 lease_coll key)
            ≡ serve
                (lease_at (object o now sh lease_coll key))
                (record { asker = holder; ttl_ms = ttl; now_ms = now }))
  unfolding lease_acquire object serve
  lease-acquire now sh key holder ttl h =
      let outcome = evaluate (lease_at (o.get_object now sh.store lease_coll key)) holder ttl now in
      (
        refl,
        ground (
          arith,
          laws.get-put now sh.store lease_coll key (j.from_lease outcome.lease) lease_coll key h,
          same_key_self lease_coll key,
          lawful.to_lease-from_lease outcome.lease,
        ),
      )
