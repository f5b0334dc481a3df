-- ===== src/Lmdb/Batch.antt =====
-- `put_batch` of lmdb.rs, in one transaction, beside the default of store.rs, which writes the items
-- one by one.
use stplr.Base.{
  ℕ, ◌≡◌, refl, ◌∙◌, Bool, true, false, ◌&&◌, Option, none, some, List, [], ◌∷◌, arith,
  if◌then◌else◌, ◌==◌, nat_Eq,
}
use stplr.Text.{text_Eq, Text}
use stplr.StrDb.{StrDb, IsStrDb, Codec}
use stplr.Store
use stplr.Lmdb.{
  Env, LmdbStore, put_object, get_object, put_in, delete_in, fetch_in, obj_db, exp_db, exp_key,
}
use stplr.Lmdb.Env.{fetch-put_in, fetch-delete_in}
use stplr.Lmdb.Writes.{env-maybe_sync, ttl-maybe_sync, fetch-put_object, ttl-put_object}
use stplr.Lmdb.Laws.{get_object-reading}
use stplr.Lmdb.Bulk.{put_items, put_batch, lmdb_store}

module _ {D V : Type 0} (db : StrDb D) (empty : D) (lawful : IsStrDb db)
    (nothing : db.iter empty ≡ []) (codec : Codec V) (as_u64 : V → Option ℕ) where
  -- One item in the transaction.
  abbrev put_item : Bool → Env D → Text → Text → V → Env D
  put_item ttl env coll id obj =
      let env' = put_in db empty env (obj_db coll) id (codec.to_string obj) in
      if ttl then delete_in db empty env' exp_db (exp_key coll id) else env'

  fetch-put_item :
      (ttl : Bool) (env : Env D) (coll id : Text) (obj : V) (name key : Text)
      → fetch_in db empty (put_item ttl env coll id obj) name key ≡ (
          if ttl && ((exp_db == name) && (exp_key coll id == key))
          then none
          else if (obj_db coll == name) && (id == key)
          then some (codec.to_string obj)
          else fetch_in db empty env name key)
  fetch-put_item true env coll id obj name key =
      let env' = put_in db empty env (obj_db coll) id (codec.to_string obj) in
      fetch-delete_in db empty lawful nothing env' exp_db (exp_key coll id) name key
      ∙ rw
          (fetch-put_in db empty lawful nothing env (obj_db coll) id (codec.to_string obj) name key)
          refl
  fetch-put_item false env coll id obj name key =
      fetch-put_in db empty lawful nothing env (obj_db coll) id (codec.to_string obj) name key

  -- Two environments that read the same, a transaction in the one and the writes in the other.
  fetch-put_items :
      (items : List (Text × Text × V)) (ttl : Bool) (env : Env D) (s : LmdbStore D)
      → s.has_any_ttl ≡ ttl
      → ((name key : Text) → fetch_in db empty env name key ≡ fetch_in db empty s.env name key)
      → (name key : Text)
      → fetch_in db empty (put_items db empty codec as_u64 ttl env items) name key
        ≡ fetch_in db empty
            (Store.put_batch (lmdb_store db empty codec as_u64) s items).env
            name
            key
  unfolding put_items Store.put_batch lmdb_store
  fetch-put_items [] ttl env s on same name key = same name key
  fetch-put_items ((coll, id, obj) ∷ items) ttl env s on same name key =
      fetch-put_items items ttl (put_item ttl env coll id obj)
        (put_object db empty codec as_u64 s coll id obj)
        (ttl-put_object db empty lawful nothing codec as_u64 s coll id obj ∙ on)
        (λ n j.
          fetch-put_item ttl env coll id obj n j
          ∙ rw
              (
                fetch-put_object db empty lawful nothing codec as_u64 s coll id obj n j,
                on,
                same n j,
              )
              refl)
        name key

  ttl-puts :
      (items : List (Text × Text × V)) (s : LmdbStore D)
      → (Store.put_batch (lmdb_store db empty codec as_u64) s items).has_any_ttl ≡ s.has_any_ttl
  unfolding Store.put_batch lmdb_store
  ttl-puts [] s = refl
  ttl-puts ((coll, id, obj) ∷ items) s =
      ttl-puts items (put_object db empty codec as_u64 s coll id obj)
      ∙ ttl-put_object db empty lawful nothing codec as_u64 s coll id obj

  env-put_batch :
      (s : LmdbStore D) (items : List (Text × Text × V))
      → ((put_batch db empty codec as_u64 s items).has_any_ttl ≡ s.has_any_ttl)
        × ((put_batch db empty codec as_u64 s items).env
            ≡ put_items db empty codec as_u64 s.has_any_ttl s.env items)
  unfolding put_batch put_items
  env-put_batch s [] = (refl, refl)
  env-put_batch s (item ∷ items) =
      let s' = record s {
        env = put_items db empty codec as_u64 s.has_any_ttl s.env (item ∷ items);
      } in
      (ground (arith, ttl-maybe_sync s'), ground (arith, env-maybe_sync s'))

  -- Over ordered databases: after a batch, which the LMDB store writes in one transaction, every
  -- key of every collection reads, at any time, what it reads after the default of the trait,
  -- which writes the items one by one.
  pub put_batch-default :
      (now : ℕ) (s : LmdbStore D) (items : List (Text × Text × V)) (c k : Text)
      → get_object db empty codec as_u64 now (put_batch db empty codec as_u64 s items) c k
        ≡ get_object db empty codec as_u64 now
            (Store.put_batch (lmdb_store db empty codec as_u64) s items)
            c
            k
  put_batch-default now s items c k =
      let batch = put_batch db empty codec as_u64 s items in
      let one_by_one = Store.put_batch (lmdb_store db empty codec as_u64) s items in
      let (ttl, env) = env-put_batch s items in
      let each = fetch-put_items items s.has_any_ttl s.env s refl (λ name key. refl) in
      get_object-reading db empty lawful nothing codec as_u64 now batch c k
      ∙ rw
          (
            ttl,
            env,
            each exp_db (exp_key c k),
            each (obj_db c) k,
            get_object-reading db empty lawful nothing codec as_u64 now one_by_one c k,
            ttl-puts items s,
          )
          refl
