-- ===== src/Lmdb/Writes.antt =====
-- What the operations of lmdb.rs on one key leave in the databases.
use stplr.Base.{
  ℕ, ◌≡◌, refl, ap, ◌∙◌, inl, inr, true, ◌&&◌, Option, none, some, [], arith, if◌then◌else◌,
  Bool-cases, ◌==◌, nat_Eq,
}
use stplr.Text.{text_Eq, text_eq_iff, Text}
use stplr.SeqKey.{to_decimal}
use stplr.Dict.{get}
use stplr.StrDb.{StrDb, IsStrDb, Codec}
use stplr.Lmdb.{
  if_ttl, deleted, LmdbStore, Env, maybe_sync, put_in, delete_in, fetch_in, put_str, clear_expiry,
  obj_db, exp_db, exp_key, put_object, delete_object, put_object_at,
}
use stplr.Lmdb.Env.{fetch-put_in, fetch-delete_in}

module _ {D : Type 0} where
  pub env-maybe_sync : (s : LmdbStore D) → (maybe_sync s).env ≡ s.env
  unfolding maybe_sync
  env-maybe_sync s = ground arith

  pub ttl-maybe_sync : (s : LmdbStore D) → (maybe_sync s).has_any_ttl ≡ s.has_any_ttl
  unfolding maybe_sync
  ttl-maybe_sync s = ground arith

module _ {D V : Type 0} (db : StrDb D) (empty : D) (lawful : IsStrDb db)
    (nothing : db.iter empty ≡ []) (codec : Codec V) (as_u64 : V → Option ℕ) where
  abbrev fetched : LmdbStore D → Text → Text → Option Text
  fetched s name key = fetch_in db empty s.env name key

  fetch-put_str :
      (s : LmdbStore D) (name key val name' key' : Text)
      → fetched (put_str db empty s name key val) name' key'
        ≡ (if (name == name') && (key == key') then some val else fetched s name' key')
  unfolding put_str
  fetch-put_str s name key val name' key' =
      ap (λ (e : Env D). fetch_in db empty e name' key')
        (env-maybe_sync (record s { env = put_in db empty s.env name key val }))
      ∙ fetch-put_in db empty lawful nothing s.env name key val name' key'

  fetch-clear_expiry :
      (s : LmdbStore D) (c k name' key' : Text)
      → fetched (clear_expiry db empty s c k) name' key'
        ≡ (if (exp_db == name') && (exp_key c k == key') then none else fetched s name' key')
  unfolding clear_expiry
  fetch-clear_expiry s c k name' key' =
      fetch-delete_in db empty lawful nothing s.env exp_db (exp_key c k) name' key'

  ttl-put_str :
      (s : LmdbStore D) (name key val : Text)
      → (put_str db empty s name key val).has_any_ttl ≡ s.has_any_ttl
  unfolding put_str
  ttl-put_str s name key val =
      ttl-maybe_sync (record s { env = put_in db empty s.env name key val })

  -- No key is stored in a database that is not there.
  absent_lem :
      (s : LmdbStore D) (c k : Text)
      → get s.env (obj_db c) ≡ none
      → (name' key' : Text)
      → fetched s name' key'
        ≡ (if (obj_db c == name') && (k == key') then none else fetched s name' key')
  unfolding fetch_in
  absent_lem s c k e name' key' = ground (arith, e, text_eq_iff (obj_db c) name')

  pub ttl-put_object :
      (s : LmdbStore D) (c k : Text) (v : V)
      → (put_object db empty codec as_u64 s c k v).has_any_ttl ≡ s.has_any_ttl
  unfolding put_object put_str clear_expiry
  ttl-put_object s c k v = ground (
    arith,
    ttl-maybe_sync (record s { env = put_in db empty s.env (obj_db c) k (codec.to_string v) }),
  )

  fetch-if_ttl :
      (s : LmdbStore D) (c k name' key' : Text)
      → fetched (if_ttl db empty s (clear_expiry db empty s c k)) name' key' ≡ (
          if s.has_any_ttl && ((exp_db == name') && (exp_key c k == key'))
          then none
          else fetched s name' key')
  fetch-if_ttl s c k name' key' = elim (Bool-cases s.has_any_ttl) [
    | inl ttl ↦ simp (ttl, fetch-clear_expiry s c k name' key')
    | inr none_yet ↦ simp none_yet
  ]

  pub fetch-put_object :
      (s : LmdbStore D) (c k : Text) (v : V) (name' key' : Text)
      → fetched (put_object db empty codec as_u64 s c k v) name' key' ≡ (
          if s.has_any_ttl && ((exp_db == name') && (exp_key c k == key'))
          then none
          else if (obj_db c == name') && (k == key')
          then some (codec.to_string v)
          else fetched s name' key')
  unfolding put_object
  fetch-put_object s c k v name' key' =
      fetch-if_ttl (put_str db empty s (obj_db c) k (codec.to_string v)) c k name' key'
      ∙ rw
          (
            ttl-put_str s (obj_db c) k (codec.to_string v),
            fetch-put_str s (obj_db c) k (codec.to_string v) name' key',
          )
          refl

  -- `delete_object` before it turns to the expiry.
  abbrev removed : LmdbStore D → Text → Text → LmdbStore D
  removed s c k = deleted db empty s c k (get s.env (obj_db c))

  removed_lem :
      (s : LmdbStore D) (c k : Text) (found : Option D)
      → get s.env (obj_db c) ≡ found
      → (name' key' : Text)
      → (fetched (deleted db empty s c k found) name' key'
          ≡ (if (obj_db c == name') && (k == key') then none else fetched s name' key'))
        × ((deleted db empty s c k found).has_any_ttl ≡ s.has_any_ttl)
  removed_lem s c k none e name' key' = (absent_lem s c k e name' key', refl)
  removed_lem s c k (some d) e name' key' =
      let s' = record s { env = delete_in db empty s.env (obj_db c) k } in
      (
        ap (λ (en : Env D). fetch_in db empty en name' key') (env-maybe_sync s')
            ∙ fetch-delete_in db empty lawful nothing s.env (obj_db c) k name' key',
        ttl-maybe_sync s',
      )

  pub ttl-delete_object :
      (s : LmdbStore D) (c k : Text)
      → (delete_object db empty codec as_u64 s c k).has_any_ttl ≡ s.has_any_ttl
  unfolding delete_object clear_expiry
  ttl-delete_object s c k = ground (arith, (removed_lem s c k (get s.env (obj_db c)) refl [] []).1)

  pub fetch-delete_object :
      (s : LmdbStore D) (c k name' key' : Text)
      → fetched (delete_object db empty codec as_u64 s c k) name' key' ≡ (
          if s.has_any_ttl && ((exp_db == name') && (exp_key c k == key'))
          then none
          else if (obj_db c == name') && (k == key')
          then none
          else fetched s name' key')
  unfolding delete_object
  fetch-delete_object s c k name' key' =
      let (gone, ttl) = removed_lem s c k (get s.env (obj_db c)) refl name' key' in
      fetch-if_ttl (removed s c k) c k name' key' ∙ rw (ttl, gone) refl

  pub fetch-put_object_at :
      (s : LmdbStore D) (c k : Text) (v : V) (at : ℕ) (name' key' : Text)
      → fetched (put_object_at db empty codec as_u64 s c k v at) name' key' ≡ (
          if (exp_db == name') && (exp_key c k == key')
          then some (to_decimal at)
          else if (obj_db c == name') && (k == key')
          then some (codec.to_string v)
          else fetched s name' key')
  unfolding put_object_at
  fetch-put_object_at s c k v at name' key' =
      let s' = put_str db empty s (obj_db c) k (codec.to_string v) in
      ap (λ (en : Env D). fetch_in db empty en name' key')
        (env-maybe_sync (record s' {
          env = put_in db empty s'.env exp_db (exp_key c k) (to_decimal at);
          has_any_ttl = true;
        }))
      ∙ (fetch-put_in db empty lawful nothing s'.env exp_db (exp_key c k) (to_decimal at) name' key'
          ∙ rw (fetch-put_str s (obj_db c) k (codec.to_string v) name' key') refl)

  pub ttl-put_object_at :
      (s : LmdbStore D) (c k : Text) (v : V) (at : ℕ)
      → (put_object_at db empty codec as_u64 s c k v at).has_any_ttl ≡ true
  unfolding put_object_at
  ttl-put_object_at s c k v at =
      let s' = put_str db empty s (obj_db c) k (codec.to_string v) in
      ttl-maybe_sync (record s' {
        env = put_in db empty s'.env exp_db (exp_key c k) (to_decimal at);
        has_any_ttl = true;
      })
