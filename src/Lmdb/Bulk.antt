-- ===== src/Lmdb/Bulk.antt =====
-- lmdb.rs: the operations on many keys, and the store as an `IndexStore`.
use stplr.Base.{
  ℕ, Bool, true, false, not, Option, none, some, List, [], ◌∷◌, ◌++◌, ltb, leb, nat_eq,
  if◌then◌else◌, nat_Eq, length, filter_by,
}
use stplr.Text.{text_Eq, Text, text_lt, starts_with}
use stplr.Dict.{keys, insert}
use stplr.StrDb.{StrDb, Codec}
use stplr.Store.{IndexStore}
use stplr.Lmdb.{
  LmdbStore, Env, exp_db, obj_db, exp_key, split_once, maybe_sync, read_db, put_in, delete_in,
  is_expired, entries, put_object, get_object, scan_entries, delete_object, put_object_at,
  expiry_of,
}

-- The tighter of the cursor, which is left out, and the prefix, which is let in.
pub data Bound : Type 0 where
  excluded included : Text → Bound
  unbounded : Bound

unfoldable pub lower : Option Text → Option Text → Bound
lower (some a) (some p) = if not (text_lt a p) then excluded a else included p
lower (some a) none = excluded a
lower none (some p) = included p
lower none none = unbounded

unfoldable pub within : Bound → Text → Bool
within (excluded a) k = text_lt a k
within (included p) k = not (text_lt k p)
within unbounded k = true

abbrev pub some_and : Option Text → (Text → Bool) → Bool
some_and none p = false
some_and (some t) p = p t

-- The loop of `scan_range` over the entries from the lower bound on, with the keys so far.
unfoldable pub scan_loop :
    Option Text → Option Text → ℕ → (Text → Bool) → List Text → List Text → List Text
scan_loop prefix end limit expired out [] = out
scan_loop prefix end limit expired out (k ∷ ks) =
    let skip = scan_loop prefix end limit expired out ks in
    let push = scan_loop prefix end limit expired (out ++ k ∷ []) ks in
    if leb limit (length out)
    then out
    else if some_and end (λ e. not (text_lt k e))
    then out
    else if some_and prefix (λ p. not (starts_with k p))
    then out
    else if expired k
    then skip
    else push

module _ {D V : Type 0} (db : StrDb D) (empty : D) (codec : Codec V) (as_u64 : V → Option ℕ) where
  -- `db.range(lower..)` gives the entries from the bound on, in the order of their keys.
  unfoldable pub scan_range :
      ℕ → LmdbStore D → Text → Option Text → Option Text → Option Text → ℕ → List Text
  unfolding scan_loop lower within is_expired
  scan_range now s coll after prefix end limit = elim (read_db s.env (obj_db coll)) [
    | none ↦ []
    | some d ↦
        scan_loop prefix end limit (is_expired db empty now s coll) []
          (filter_by (within (lower after prefix)) (keys (db.iter d)))
  ]

  unfoldable pub clear_collection : LmdbStore D → Text → LmdbStore D
  unfolding maybe_sync
  clear_collection s coll = elim (read_db s.env (obj_db coll)) [
    | none ↦ s
    | some d ↦ maybe_sync (record s { env = insert s.env (obj_db coll) empty })
  ]

  -- The loop of `put_batch` in its transaction.
  unfoldable pub put_items : Bool → Env D → List (Text × Text × V) → Env D
  unfolding put_in delete_in
  put_items ttl env [] = env
  put_items ttl env ((coll, id, obj) ∷ items) =
      let env' = put_in db empty env (obj_db coll) id (codec.to_string obj) in
      put_items ttl (if ttl then delete_in db empty env' exp_db (exp_key coll id) else env') items

  unfoldable pub put_batch : LmdbStore D → List (Text × Text × V) → LmdbStore D
  unfolding put_items maybe_sync
  put_batch s items =
      if nat_eq (length items) 0
      then s
      else maybe_sync (record s { env = put_items s.has_any_ttl s.env items })

  -- An entry of the expiries that is due, with its collection and its id.
  abbrev pub due_at : ℕ → Text → Option ℕ → Option (Text × Text) → Option (Text × Text × Text)
  due_at now_ms ekey none split = none
  due_at now_ms ekey (some e) none = none
  due_at now_ms ekey (some e) (some (coll, id)) =
      if ltb now_ms e then none else some (ekey, coll, id)

  abbrev pub due : ℕ → Text → V → Option (Text × Text × Text)
  due now_ms ekey v = due_at now_ms ekey (as_u64 v) (split_once ekey)

  unfoldable pub dead_of : ℕ → List (Text × V) → List (Text × Text × Text)
  unfolding split_once
  dead_of now_ms [] = []
  dead_of now_ms ((ekey, v) ∷ m) = elim (due now_ms ekey v) [
    | none ↦ dead_of now_ms m
    | some d ↦ d ∷ dead_of now_ms m
  ]

  -- The loop over the dead; a collection that is not there keeps the expiry.
  unfoldable pub delete_dead : Env D → List (Text × Text × Text) → Env D
  unfolding delete_in
  delete_dead env [] = env
  delete_dead env ((ekey, coll, id) ∷ dead) =
      let env' : Env D = elim (read_db env (obj_db coll)) [
        | none ↦ env
        | some d ↦ delete_in db empty (delete_in db empty env (obj_db coll) id) exp_db ekey
      ] in
      delete_dead env' dead

  unfoldable pub sweep_dead : LmdbStore D → List (Text × Text × Text) → LmdbStore D × ℕ
  unfolding delete_dead maybe_sync
  sweep_dead s dead =
      let s' = record s { env = delete_dead s.env dead } in
      (if nat_eq (length dead) 0 then s' else maybe_sync s', length dead)

  unfoldable pub sweep_expired : LmdbStore D → ℕ → LmdbStore D × ℕ
  unfolding sweep_dead dead_of entries
  sweep_expired s now_ms = if not s.has_any_ttl then (s, 0) else elim (read_db s.env exp_db) [
    | none ↦ (s, 0)
    | some d ↦ sweep_dead s (dead_of now_ms (entries db empty codec as_u64 s exp_db))
  ]

  -- `impl IndexStore for LmdbStore`; `scan_range` and `put_batch` take the place of the defaults.
  unfoldable pub lmdb_store : IndexStore (LmdbStore D) V
  lmdb_store = record {
    put_object = put_object db empty codec as_u64;
    get_object = get_object db empty codec as_u64;
    scan_entries = scan_entries db empty codec as_u64;
    clear_collection = clear_collection;
    delete_object = delete_object db empty codec as_u64;
    put_object_at = put_object_at db empty codec as_u64;
    expiry_of = expiry_of db empty codec as_u64;
    sweep_expired = sweep_expired;
  }
