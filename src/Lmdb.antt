-- ===== src/Lmdb.antt =====
-- lmdb.rs: the store on LMDB. An environment is its named databases, each a database of strings
-- (heed, as in StrDb); a handle stands for its database, so the cache of handles is left out. Calls
-- of heed are taken to succeed. `disk` is the environment as the last forced sync left it.
pub mod Bulk
pub mod Env
pub mod Writes
pub mod Order
pub mod Sweep
pub mod Swept
pub mod Named
pub mod Batch
pub mod Scan
pub mod Laws
use stplr.Base.{
  ℕ, zero, suc, ◌+◌, ◌-◌, ◌*◌, ◌/◌, ◌%◌, ◌^◌, ◌≤◌, ◌<◌, min, max, ◌≡◌, refl, sym, ap, subst, ◌∙◌,
  ◌≡⟨◌⟩◌, ◌∎, ◌≢◌, ◌↔◌, ◌⊎◌, inl, inr, Bool, true, false, not, ◌&&◌, ◌||◌, Option, none, some, List,
  [], ◌∷◌, ◌++◌, map, reverse, append-nil, append_assoc, arith, ltb, leb, nat_eq, nat_eq_iff,
  if◌then◌else◌, ltb→lt, leb→le, Bool-cases, Eq, ◌==◌, nat_Eq, is_some, length, take, get_elem?,
  first, filter_by, any, all, All, length-append, length-take, drop, take-drop, length-drop,
  take-all, length-filter_by, filter_by-append, contains, Distinct, beq_self, contains-append,
  contains-take, Distinct-take, contains-filter_by, Distinct-filter_by,
}
use stplr.Text.{text_Eq, Text, codes, text_lt, starts_with}
use stplr.Word.{add_u64}
use stplr.SeqKey.{to_decimal, parse_u64}
use stplr.Dict.{Dict, get, insert}
use stplr.StrDb.{StrDb, Codec}
use stplr.Store.{IndexStore}
use stplr.Store.Memory.{live_entries, Row}

abbrev pub tables_db : Text
tables_db = codes "__tables"

abbrev pub exp_db : Text
exp_db = codes "__expiry"

abbrev pub sync_every : ℕ
sync_every = 2048

abbrev pub Env : Type 0 → Type 0
Env D = Dict Text D

pub record LmdbStore (D : Type 0) : Type 0 where
  pub env : Env D
  pub disk : Env D
  pub writes : ℕ
  pub has_any_ttl : Bool

unfoldable pub obj_db : Text → Text
obj_db coll = b'o' ∷ b':' ∷ coll

unfoldable pub tbl_db : Text → Text
tbl_db table = b't' ∷ b':' ∷ table

unfoldable pub exp_key : Text → Text → Text
exp_key coll id = coll ++ 0 ∷ id

-- A character before the two parts that the rest splits into.
abbrev pub split_char : ℕ → Text → Option (Text × Text) → Option (Text × Text)
split_char c s none = if c == 0 then some ([], s) else none
split_char c s (some (a, b)) = if c == 0 then some ([], s) else some (c ∷ a, b)

-- `key.split_once('\u{0}')`
unfoldable pub split_once : Text → Option (Text × Text)
split_once [] = none
split_once (c ∷ s) = split_char c s (split_once s)

module _ {D : Type 0} where
  unfoldable pub maybe_sync : LmdbStore D → LmdbStore D
  maybe_sync s =
      let synced = record s { writes = add_u64 s.writes 1; disk = s.env } in
      if nat_eq (s.writes % sync_every) (sync_every - 1)
      then synced
      else record s { writes = add_u64 s.writes 1 }

  -- `read_db`: the database, if it is there.
  abbrev pub read_db : Env D → Text → Option D
  read_db env name = get env name

module _ {D : Type 0} (db : StrDb D) (empty : D) where
  abbrev pub or_created : Option D → D
  or_created none = empty
  or_created (some d) = d

  -- `db`: the database, created if it is not there.
  abbrev pub opened : Env D → Text → D
  opened env name = or_created (get env name)

  unfoldable pub put_in : Env D → Text → Text → Text → Env D
  put_in env name key val = insert env name (db.put (opened env name) key val)

  unfoldable pub delete_in : Env D → Text → Text → Env D
  delete_in env name key = insert env name (db.delete (opened env name) key).0

  abbrev pub fetch_at : Option D → Text → Option Text
  fetch_at none key = none
  fetch_at (some d) key = db.fetch d key

  unfoldable pub fetch_in : Env D → Text → Text → Option Text
  fetch_in env name key = fetch_at (read_db env name) key

  unfoldable pub put_str : LmdbStore D → Text → Text → Text → LmdbStore D
  unfolding maybe_sync put_in
  put_str s name key val = maybe_sync (record s { env = put_in s.env name key val })

  abbrev pub parsed_expiry : Option Text → Option ℕ
  parsed_expiry none = none
  parsed_expiry (some t) = parse_u64 t

  unfoldable pub read_expiry : LmdbStore D → Text → Text → Option ℕ
  unfolding fetch_in
  read_expiry s coll id = parsed_expiry (fetch_in s.env exp_db (exp_key coll id))

  abbrev pub passed : ℕ → Option ℕ → Bool
  passed now none = false
  passed now (some e) = leb e now

  unfoldable pub is_expired : ℕ → LmdbStore D → Text → Text → Bool
  unfolding read_expiry
  is_expired now s coll id = s.has_any_ttl && passed now (read_expiry s coll id)

  unfoldable pub clear_expiry : LmdbStore D → Text → Text → LmdbStore D
  unfolding delete_in
  clear_expiry s coll id = record s { env = delete_in s.env exp_db (exp_key coll id) }

  -- The guard that spares a store without expiries the work.
  abbrev pub if_ttl : LmdbStore D → LmdbStore D → LmdbStore D
  if_ttl s s' = if s.has_any_ttl then s' else s

  -- The part of `delete_object` under `if let Some(db)`.
  abbrev pub deleted : LmdbStore D → Text → Text → Option D → LmdbStore D
  deleted s coll id none = s
  deleted s coll id (some d) = maybe_sync (record s { env = delete_in s.env (obj_db coll) id })

  -- `open` on the files that a store left.
  unfoldable pub open_env : Env D → LmdbStore D
  open_env env = record {
    env = env;
    disk = env;
    writes = 0;
    has_any_ttl = elim (read_db env exp_db) [ none ↦ false | some d ↦ is_some (first (db.iter d)) ];
  }

module _ {D V : Type 0} (db : StrDb D) (empty : D) (codec : Codec V) (as_u64 : V → Option ℕ) where
  abbrev pub decoded : Option Text → Option V
  decoded none = none
  decoded (some t) = codec.from_str t

  -- The entries whose values can be read.
  unfoldable pub parse_entries : List (Text × Text) → List (Text × V)
  parse_entries [] = []
  parse_entries ((k, t) ∷ m) = elim (codec.from_str t) [
    | none ↦ parse_entries m
    | some v ↦ (k, v) ∷ parse_entries m
  ]

  unfoldable pub entries : LmdbStore D → Text → List (Text × V)
  unfolding parse_entries
  entries s name = elim (read_db s.env name) [ none ↦ [] | some d ↦ parse_entries (db.iter d) ]

  unfoldable pub add_row : LmdbStore D → Text → Text → V → LmdbStore D
  unfolding put_str
  add_row s table row_id doc =
      put_str db empty (put_str db empty s (tbl_db table) row_id (codec.to_string doc)) tables_db
        table (codes "1")

  unfoldable pub firsts : List (Text × V) → List Text
  firsts [] = []
  firsts ((k, v) ∷ m) = k ∷ firsts m

  unfoldable pub list_tables : LmdbStore D → List Text
  unfolding entries firsts
  list_tables s = firsts (entries s tables_db)

  unfoldable pub rows_of : List (Text × V) → List (Row V)
  rows_of [] = []
  rows_of ((k, v) ∷ m) = record { row_id = k; doc = v } ∷ rows_of m

  unfoldable pub scan_table : LmdbStore D → Text → List (Row V)
  unfolding entries rows_of
  scan_table s table = rows_of (entries s (tbl_db table))

  unfoldable pub get_row : LmdbStore D → Text → Text → Option V
  unfolding fetch_in
  get_row s table row_id = decoded (fetch_in db empty s.env (tbl_db table) row_id)

  unfoldable pub put_object : LmdbStore D → Text → Text → V → LmdbStore D
  unfolding put_str clear_expiry
  put_object s coll id obj =
      let s' = put_str db empty s (obj_db coll) id (codec.to_string obj) in
      if_ttl db empty s' (clear_expiry db empty s' coll id)

  unfoldable pub get_object : ℕ → LmdbStore D → Text → Text → Option V
  unfolding is_expired fetch_in
  get_object now s coll id =
      if is_expired db empty now s coll id
      then none
      else decoded (fetch_in db empty s.env (obj_db coll) id)

  unfoldable pub scan_entries : ℕ → LmdbStore D → Text → List (Text × V)
  unfolding entries is_expired
  scan_entries now s coll =
      let es = entries s (obj_db coll) in
      if s.has_any_ttl then live_entries (is_expired db empty now s coll) es else es

  unfoldable pub delete_object : LmdbStore D → Text → Text → LmdbStore D
  unfolding clear_expiry
  delete_object s coll id =
      let s' = deleted db empty s coll id (read_db s.env (obj_db coll)) in
      if_ttl db empty s' (clear_expiry db empty s' coll id)

  unfoldable pub put_object_at : LmdbStore D → Text → Text → V → ℕ → LmdbStore D
  unfolding put_str put_in maybe_sync
  put_object_at s coll id obj expire_at_ms =
      let s' = put_str db empty s (obj_db coll) id (codec.to_string obj) in
      maybe_sync (record s' {
        env = put_in db empty s'.env exp_db (exp_key coll id) (to_decimal expire_at_ms);
        has_any_ttl = true;
      })

  unfoldable pub expiry_of : LmdbStore D → Text → Text → Option ℕ
  unfolding read_expiry
  expiry_of s coll id = read_expiry db empty s coll id
