-- ===== src/Examples/Storage.antt =====
-- The claims about store.rs and shard.rs on the in-memory store.
use stplr.Base.{
  ◌≡◌, refl, ◌&&◌, none, some, List, [], ◌∷◌, arith, if◌then◌else◌, ◌==◌, nat_Eq, length, take,
}
use stplr.Text.{Text, text_Eq, codes}
use stplr.Dict.{keys}
use stplr.Lease.{evaluate, lease_coll}
use stplr.Lease.Election.{serve}
use stplr.Store
use stplr.Store.{IndexStore, scan_buckets, scan_range, in_range, counter_value, option_eq, cas}
use stplr.Store.Laws.{StoreLaws, same_key}
use stplr.Store.Memory.{MemoryStore, memory_store}
use stplr.Store.Memory.Laws.{IsValid, memory-StoreLaws}
use stplr.Store.Atomic.{get-cas}
use stplr.Store.Scan.{IsPage, IsWanted, scan_range-IsPage}
use stplr.Store.Paging.{scan_buckets-eq-filter, wanted}
use stplr.Shard.{Shard, object, in_buckets, lease_at, lease_acquire, export_entries, import_entries}
use stplr.Shard.Moves.{or_get, object-import-export}
use stplr.Shard.Leases.{lease-acquire}
use stplr.Examples.Values.{
  Value, number, value_Json, value-IsJson, kv, hello, tags, some_store, some_store-IsValid,
}

abbrev ops : IndexStore (MemoryStore Value) Value
ops = memory_store

abbrev laws : StoreLaws ops IsValid
laws = memory-StoreLaws {V = Value}

abbrev a_shard : Shard (MemoryStore Value)
a_shard = record { id = codes "s0"; store = some_store }

abbrev expired : List Text
expired = codes "hello" ∷ codes "tags" ∷ []

all_keys : Store.scan_keys ops 60 some_store kv none 10 ≡ expired
unfolding Store.scan_keys scan_range memory_store stplr.Sort.sort_by keys
    stplr.Store.Memory.scan_entries stplr.Store.Memory.live_entries stplr.Store.Memory.coll_of
    stplr.Dict.get stplr.Store.Memory.put_object_at stplr.Store.Memory.insert_in stplr.Dict.insert
    stplr.Store.Memory.put_object stplr.Store.Memory.new stplr.Text.text_eq
    stplr.Store.Memory.is_expired stplr.Store.Memory.remove_in stplr.Text.text_lt
all_keys = refl

memory-StoreLaws_example : StoreLaws (memory_store {V = Value}) IsValid
memory-StoreLaws_example = memory-StoreLaws {V = Value}

scan_buckets-eq-filter_example :
    scan_buckets ops 0 some_store kv (1 ∷ 2 ∷ []) none 5
    ≡ some (
        take 5 (
          wanted (1 ∷ 2 ∷ []) (
            scan_range ops 0 some_store kv none none none
              (length (ops.scan_entries 0 some_store kv)))))
scan_buckets-eq-filter_example =
    scan_buckets-eq-filter ops laws 0 some_store kv (1 ∷ 2 ∷ []) none 5 some_store-IsValid
      (omega arith)

scan_range-IsPage_example :
    IsPage
      (IsWanted ops laws 60 some_store kv some_store-IsValid none (some (codes "he")) (some tags))
      2
      (scan_range ops 60 some_store kv none (some (codes "he")) (some tags) 2)
scan_range-IsPage_example =
    scan_range-IsPage ops laws 60 some_store kv some_store-IsValid none (some (codes "he"))
      (some tags) 2

get-cas_example :
    ((cas ops 0 some_store kv hello (some (number 7)) (number 8)).1
      ≡ option_eq (ops.get_object 0 some_store kv hello) (some (number 7)))
    × (ops.get_object 9 (cas ops 0 some_store kv hello (some (number 7)) (number 8)).0 kv hello ≡ (
        if (cas ops 0 some_store kv hello (some (number 7)) (number 8)).1
          && same_key kv hello kv hello
        then some (number 8)
        else ops.get_object 9 some_store kv hello))
get-cas_example =
    get-cas ops laws 0 9 some_store kv hello (some (number 7)) (number 8) kv hello
      some_store-IsValid

object-import-export_example :
    object ops 99
      (import_entries ops a_shard kv (export_entries ops 0 a_shard kv (1 ∷ [])))
      kv
      hello
    ≡ (if (kv == kv) && in_buckets (1 ∷ []) hello
        then or_get (object ops 0 a_shard kv hello) (object ops 99 a_shard kv hello)
        else object ops 99 a_shard kv hello)
object-import-export_example =
    object-import-export ops laws 0 99 a_shard a_shard kv (1 ∷ []) kv hello some_store-IsValid
      some_store-IsValid

lease-acquire_example :
    ((lease_acquire ops 5 a_shard hello tags 10).1
      ≡ evaluate (lease_at (object ops 5 a_shard lease_coll hello)) tags 10 5)
    × (lease_at (object ops 5 (lease_acquire ops 5 a_shard hello tags 10).0 lease_coll hello)
        ≡ serve
            (lease_at (object ops 5 a_shard lease_coll hello))
            (record { asker = tags; ttl_ms = 10; now_ms = 5 }))
lease-acquire_example =
    lease-acquire ops laws value-IsJson 5 a_shard hello tags 10 some_store-IsValid
