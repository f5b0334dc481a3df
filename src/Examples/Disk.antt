-- ===== src/Examples/Disk.antt =====
-- The claims about lmdb.rs, with values that are written as they are.
use stplr.Base.{
  ◌≡◌, refl, subst, not, ◌&&◌, none, some, List, [], ◌∷◌, arith, nat_Eq, take, filter_by,
}
use stplr.Text.{Text, codes}
use stplr.SeqKey.{parse_u64, parse_u64-to_decimal}
use stplr.StrDb.{Codec, IsCodec, list_db, list_db-IsStrDb}
use stplr.Store.{in_range}
use stplr.Lmdb.{get_object, LmdbStore, open_env, put_object, put_object_at, is_expired}
use stplr.Lmdb.Order.{IsOrdered, put_object-IsOrdered, put_object_at-IsOrdered}
use stplr.Lmdb.Batch.{put_batch-default}
use stplr.Store
use stplr.Lmdb.Bulk.{put_batch, lmdb_store, scan_range}
use stplr.Lmdb.Scan.{stored_keys, scan_range-filter}
use stplr.Lmdb.Named.{NamedLaws, lmdb-NamedLaws}
use stplr.Lmdb.Swept.{IsNumeric, IsSound}
use stplr.Examples.Values.{kv, hello, tags}

abbrev plain : Codec Text
plain = record { to_string = λ t. t; from_str = λ t. some t }

plain-IsCodec : IsCodec plain
plain-IsCodec = record { from_str-to_string = λ t. refl }

plain-IsNumeric : IsNumeric plain parse_u64
plain-IsNumeric = record {
  as_u64-from_str = λ n v fits e.
      subst (λ (t : Text). parse_u64 t ≡ some n) (ground (arith, e)) (parse_u64-to_decimal n fits);
}

nothing : list_db.iter [] ≡ []
unfolding list_db
nothing = refl

abbrev Db : Type 0
Db = LmdbStore (List (Text × Text))

-- Two objects, one of which runs out at 50.
abbrev one_object : Db
one_object = put_object list_db [] plain parse_u64 (open_env list_db [] []) kv hello (codes "v")

abbrev two_objects : Db
two_objects = put_object_at list_db [] plain parse_u64 one_object kv tags (codes "w") 50

opened-IsOrdered : IsOrdered list_db (open_env list_db [] []).env
unfolding open_env stplr.Dict.get
opened-IsOrdered name d e = absurd (cc)

two_objects-IsOrdered : IsOrdered list_db two_objects.env
two_objects-IsOrdered =
    put_object_at-IsOrdered list_db [] list_db-IsStrDb nothing plain parse_u64 one_object kv tags
      (put_object-IsOrdered list_db [] list_db-IsStrDb nothing plain parse_u64
        (open_env list_db [] []) kv hello opened-IsOrdered (codes "v"))
      (codes "w") 50

lmdb-NamedLaws_example :
    NamedLaws
      (lmdb_store list_db [] plain parse_u64)
      (IsSound list_db [] list_db-IsStrDb nothing plain parse_u64)
lmdb-NamedLaws_example =
    lmdb-NamedLaws list_db [] plain parse_u64 list_db-IsStrDb nothing plain-IsCodec plain-IsNumeric

scan_range-filter_example :
    scan_range list_db [] plain parse_u64 60 two_objects kv
      (some (codes "a"))
      (some (codes "h"))
      none
      5
    ≡ take 5 (
        filter_by
          (λ k.
            in_range (some (codes "a")) (some (codes "h")) none k
            && not (is_expired list_db [] 60 two_objects kv k))
          (stored_keys list_db two_objects.env kv))
scan_range-filter_example =
    scan_range-filter list_db [] plain parse_u64 60 two_objects kv (some (codes "a"))
      (some (codes "h")) none 5 two_objects-IsOrdered

abbrev batch : List (Text × Text × Text)
batch = (kv, tags, codes "x") ∷ (kv, hello, codes "y") ∷ (kv, tags, codes "z") ∷ []

put_batch-default_example :
    get_object list_db [] plain parse_u64 60
      (put_batch list_db [] plain parse_u64 two_objects batch)
      kv
      tags
    ≡ get_object list_db [] plain parse_u64 60
        (Store.put_batch (lmdb_store list_db [] plain parse_u64) two_objects batch)
        kv
        tags
put_batch-default_example =
    put_batch-default list_db [] list_db-IsStrDb nothing plain parse_u64 60 two_objects batch kv
      tags
