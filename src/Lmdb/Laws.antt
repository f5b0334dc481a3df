-- ===== src/Lmdb/Laws.antt =====
-- The store of lmdb.rs beside what the clients of a store rely on.
use stplr.Base.{
  ℕ, ◌<◌, ◌≡◌, refl, ◌∙◌, Bool, true, false, ◌&&◌, Option, none, some, [], arith, leb,
  if◌then◌else◌, ◌==◌, nat_Eq, beq_self,
}
use stplr.Text.{text_Eq, Text}
use stplr.Word.{u64_mod}
use stplr.SeqKey.{parse_u64-to_decimal, to_decimal}
use stplr.StrDb.{StrDb, IsStrDb, Codec, IsCodec}
use stplr.Store.Laws.{same_key}
use stplr.Lmdb.{
  LmdbStore, fetch_in, parsed_expiry, passed, decoded, obj_db, exp_db, exp_key, put_object,
  get_object, delete_object, put_object_at,
}
use stplr.Lmdb.Env.{IsName, exp_key-eq, obj_db-eq, obj_db-exp_db, exp_db-obj_db}
use stplr.Lmdb.Writes.{
  ttl-delete_object, ttl-put_object_at, fetch-put_object, ttl-put_object, fetch-delete_object,
  fetch-put_object_at,
}

module _ {D V : Type 0} (db : StrDb D) (empty : D) (lawful : IsStrDb db)
    (nothing : db.iter empty ≡ []) (codec : Codec V) (as_u64 : V → Option ℕ) where
  abbrev pub at_name : LmdbStore D → Text → Text → Option Text
  at_name s name key = fetch_in db empty s.env name key

  -- Without the guard no expiry is stored, and each expiry is a number in decimal.
  pub record IsGuarded (s : LmdbStore D) : Type 0 where
    pub guarded : (key : Text) → s.has_any_ttl ≡ false → at_name s exp_db key ≡ none
    pub numbers :
        (key t : Text)
        → at_name s exp_db key ≡ some t
        → (n : ℕ) × (n < u64_mod) × (t ≡ to_decimal n)

  -- What is read from the expiry and the value that are stored.
  abbrev pub reading : ℕ → Bool → Option Text → Option Text → Option V
  reading now ttl exp obj =
      if ttl && passed db empty now (parsed_expiry db empty exp)
      then none
      else decoded db empty codec as_u64 obj

  pub get_object-reading :
      (now : ℕ) (s : LmdbStore D) (c k : Text)
      → get_object db empty codec as_u64 now s c k
        ≡ reading now s.has_any_ttl (at_name s exp_db (exp_key c k)) (at_name s (obj_db c) k)
  unfolding get_object
  get_object-reading now s c k = refl

  module _ (c k c' k' : Text) (name : IsName c) (name' : IsName c') where
    -- The expiry and the value of a key after a plain write, a write with an expiry and a deletion.
    exp-put :
        (s : LmdbStore D) (v : V)
        → at_name (put_object db empty codec as_u64 s c k v) exp_db (exp_key c' k')
          ≡ (if s.has_any_ttl && same_key c k c' k' then none else at_name s exp_db (exp_key c' k'))
    exp-put s v =
        fetch-put_object db empty lawful nothing codec as_u64 s c k v exp_db (exp_key c' k')
        ∙ rw (beq_self exp_db, exp_key-eq c k c' k' name name', obj_db-exp_db c) refl

    obj-put :
        (s : LmdbStore D) (v : V)
        → at_name (put_object db empty codec as_u64 s c k v) (obj_db c') k'
          ≡ (if same_key c k c' k' then some (codec.to_string v) else at_name s (obj_db c') k')
    obj-put s v =
        fetch-put_object db empty lawful nothing codec as_u64 s c k v (obj_db c') k'
        ∙ rw (exp_db-obj_db c', obj_db-eq c c') (ground arith)

    exp-delete :
        (s : LmdbStore D)
        → at_name (delete_object db empty codec as_u64 s c k) exp_db (exp_key c' k')
          ≡ (if s.has_any_ttl && same_key c k c' k' then none else at_name s exp_db (exp_key c' k'))
    exp-delete s =
        fetch-delete_object db empty lawful nothing codec as_u64 s c k exp_db (exp_key c' k')
        ∙ rw (beq_self exp_db, exp_key-eq c k c' k' name name', obj_db-exp_db c) refl

    obj-delete :
        (s : LmdbStore D)
        → at_name (delete_object db empty codec as_u64 s c k) (obj_db c') k'
          ≡ (if same_key c k c' k' then none else at_name s (obj_db c') k')
    obj-delete s =
        fetch-delete_object db empty lawful nothing codec as_u64 s c k (obj_db c') k'
        ∙ rw (exp_db-obj_db c', obj_db-eq c c') (ground arith)

    exp-put_at :
        (s : LmdbStore D) (v : V) (at : ℕ)
        → at_name (put_object_at db empty codec as_u64 s c k v at) exp_db (exp_key c' k')
          ≡ (if same_key c k c' k' then some (to_decimal at) else at_name s exp_db (exp_key c' k'))
    exp-put_at s v at =
        fetch-put_object_at db empty lawful nothing codec as_u64 s c k v at exp_db (exp_key c' k')
        ∙ rw (beq_self exp_db, exp_key-eq c k c' k' name name', obj_db-exp_db c) refl

    obj-put_at :
        (s : LmdbStore D) (v : V) (at : ℕ)
        → at_name (put_object_at db empty codec as_u64 s c k v at) (obj_db c') k'
          ≡ (if same_key c k c' k' then some (codec.to_string v) else at_name s (obj_db c') k')
    obj-put_at s v at =
        fetch-put_object_at db empty lawful nothing codec as_u64 s c k v at (obj_db c') k'
        ∙ rw (exp_db-obj_db c', obj_db-eq c c') refl

    pub get-put :
        (now : ℕ) (s : LmdbStore D) (v : V)
        → IsCodec codec
        → IsGuarded s
        → get_object db empty codec as_u64 now (put_object db empty codec as_u64 s c k v) c' k'
          ≡ (if same_key c k c' k' then some v else get_object db empty codec as_u64 now s c' k')
    get-put now s v coded valid =
        let s' = put_object db empty codec as_u64 s c k v in
        get_object-reading now s' c' k'
        ∙ rw
            (
              ttl-put_object db empty lawful nothing codec as_u64 s c k v,
              exp-put s v,
              obj-put s v,
              get_object-reading now s c' k',
            )
            (ground (arith, valid.guarded (exp_key c' k'), coded.from_str-to_string v))

    pub get-delete :
        (now : ℕ) (s : LmdbStore D)
        → IsGuarded s
        → get_object db empty codec as_u64 now (delete_object db empty codec as_u64 s c k) c' k'
          ≡ (if same_key c k c' k' then none else get_object db empty codec as_u64 now s c' k')
    get-delete now s valid =
        get_object-reading now (delete_object db empty codec as_u64 s c k) c' k'
        ∙ rw
            (
              ttl-delete_object db empty lawful nothing codec as_u64 s c k,
              exp-delete s,
              obj-delete s,
              get_object-reading now s c' k',
            )
            (ground (arith, valid.guarded (exp_key c' k')))

    pub get-put_at :
        (now : ℕ) (s : LmdbStore D) (v : V) (at : ℕ)
        → IsCodec codec
        → at < u64_mod
        → IsGuarded s
        → get_object db empty codec as_u64 now
            (put_object_at db empty codec as_u64 s c k v at)
            c'
            k'
          ≡ (if same_key c k c' k'
              then (if leb at now then none else some v)
              else get_object db empty codec as_u64 now s c' k')
    get-put_at now s v at coded fits valid =
        get_object-reading now (put_object_at db empty codec as_u64 s c k v at) c' k'
        ∙ rw
            (
              ttl-put_object_at db empty lawful nothing codec as_u64 s c k v at,
              exp-put_at s v at,
              obj-put_at s v at,
              get_object-reading now s c' k',
            )
            (ground (
              arith,
              valid.guarded (exp_key c' k'),
              coded.from_str-to_string v,
              parse_u64-to_decimal at fits,
            ))

  pub put_object-IsGuarded :
      (s : LmdbStore D) (c k : Text) (v : V)
      → IsGuarded s
      → IsGuarded (put_object db empty codec as_u64 s c k v)
  put_object-IsGuarded s c k v valid = record {
    guarded = λ key off.
        fetch-put_object db empty lawful nothing codec as_u64 s c k v exp_db key
        ∙ ground (
          arith,
          obj_db-exp_db c,
          valid.guarded key,
          ttl-put_object db empty lawful nothing codec as_u64 s c k v,
        );
    numbers = λ key t e. valid.numbers key t (
        ground (
          arith,
          obj_db-exp_db c,
          fetch-put_object db empty lawful nothing codec as_u64 s c k v exp_db key,
        ));
  }

  pub delete_object-IsGuarded :
      (s : LmdbStore D) (c k : Text)
      → IsGuarded s
      → IsGuarded (delete_object db empty codec as_u64 s c k)
  delete_object-IsGuarded s c k valid = record {
    guarded = λ key off.
        fetch-delete_object db empty lawful nothing codec as_u64 s c k exp_db key
        ∙ ground (
          arith,
          obj_db-exp_db c,
          valid.guarded key,
          ttl-delete_object db empty lawful nothing codec as_u64 s c k,
        );
    numbers = λ key t e. valid.numbers key t (
        ground (
          arith,
          obj_db-exp_db c,
          fetch-delete_object db empty lawful nothing codec as_u64 s c k exp_db key,
        ));
  }

  number_at :
      (b : Bool) (at : ℕ) (old : Option Text) (t : Text)
      → at < u64_mod
      → ((t : Text) → old ≡ some t → (n : ℕ) × (n < u64_mod) × (t ≡ to_decimal n))
      → (if b then some (to_decimal at) else old) ≡ some t
      → (n : ℕ) × (n < u64_mod) × (t ≡ to_decimal n)
  number_at true at old t fits numbers e = (at, fits, ground (arith, e))
  number_at false at old t fits numbers e = numbers t e

  pub put_object_at-IsGuarded :
      (s : LmdbStore D) (c k : Text) (v : V) (at : ℕ)
      → at < u64_mod
      → IsGuarded s
      → IsGuarded (put_object_at db empty codec as_u64 s c k v at)
  put_object_at-IsGuarded s c k v at fits valid = record {
    guarded = λ key off.
        absurd
          (ground (arith, off, ttl-put_object_at db empty lawful nothing codec as_u64 s c k v at));
    numbers = λ key t e.
        number_at (exp_key c k == key) at (at_name s exp_db key) t fits (valid.numbers key) (
          ground (
            arith,
            obj_db-exp_db c,
            beq_self exp_db,
            fetch-put_object_at db empty lawful nothing codec as_u64 s c k v at exp_db key,
          ));
  }
