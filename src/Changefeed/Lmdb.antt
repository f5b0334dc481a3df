-- ===== src/Changefeed/Lmdb.antt =====
-- changefeed.rs: the log on an LMDB database. A state holds both databases, so a crash keeps them
-- and loses the counter.
use stplr.Base.{
  ℕ, ◌+◌, ◌-◌, Option, none, some, List, [], ◌∷◌, ◌++◌, ltb, leb, nat_eq, if◌then◌else◌, nat_Eq,
  length,
}
use stplr.Text.{Text, text_Eq}
use stplr.Word.{add_u64}
use stplr.StrDb.{StrDb, Codec}
use stplr.SeqKey.{key, parse_u64, to_decimal}
use stplr.Changefeed.{ChangeEvent, or_zero}

pub record LmdbChangeLog (D : Type 0) : Type 0 where
  pub db : D
  pub offsets : D
  pub next : ℕ

-- `db.last()` with `and_then(|(k, _)| k.parse().ok())`
unfoldable pub last_number : List (Text × Text) → Option ℕ
last_number [] = none
last_number ((k, v) ∷ []) = parse_u64 k
last_number (e ∷ e' ∷ es) = last_number (e' ∷ es)

abbrev pub offset_in : Option Text → ℕ
offset_in none = 0
offset_in (some v) = or_zero (parse_u64 v)

-- The loop of `compact` that collects keys.
unfoldable pub keys_before : ℕ → List (Text × Text) → List Text
keys_before before [] = []
keys_before before ((k, v) ∷ items) =
    let rest = keys_before before items in
    elim (parse_u64 k) [ none ↦ rest | some seq ↦ if ltb seq before then k ∷ rest else [] ]

module _ {D : Type 0} (o : StrDb D) (codec : Codec ChangeEvent) where
  unfoldable pub open_log : D → D → LmdbChangeLog D
  open_log db offsets = record {
    db = db;
    offsets = offsets;
    next = add_u64 (or_zero (last_number (o.iter db))) 1;
  }

  unfoldable pub append : LmdbChangeLog D → Text → Text → Text → Text → LmdbChangeLog D × ℕ
  append log op value set doc_id =
      let seq = log.next in
      let ev : ChangeEvent = record {
        seq = seq;
        op = op;
        value = value;
        set = set;
        doc_id = doc_id;
      } in
      (record log { db = o.put log.db (key seq) (codec.to_string ev); next = add_u64 seq 1 }, seq)

  -- The loop of `read`: an event is pushed before the limit is looked at.
  unfoldable pub read_loop : ℕ → ℕ → List ChangeEvent → List (Text × Text) → List ChangeEvent
  read_loop since limit out [] = out
  read_loop since limit out ((k, v) ∷ items) =
      let skip = read_loop since limit out items in
      elim (codec.from_str v) [
        | none ↦ skip
        | some ev ↦
            let out' = out ++ ev ∷ [] in
            let push = read_loop since limit out' items in
            if ltb since ev.seq then (if leb limit (length out') then out' else push) else skip
      ]

  unfoldable pub read : LmdbChangeLog D → ℕ → ℕ → List ChangeEvent
  read log since limit = read_loop since limit [] (o.iter log.db)

  unfoldable pub latest_seq : LmdbChangeLog D → ℕ
  latest_seq log = log.next - 1

  unfoldable pub delete_keys : D → List Text → D × ℕ
  delete_keys d [] = (d, 0)
  delete_keys d (k ∷ ks) =
      let (d', found) = o.delete d k in
      let (d'', n) = delete_keys d' ks in (d'', if found then n + 1 else n)

  unfoldable pub compact : LmdbChangeLog D → ℕ → LmdbChangeLog D × ℕ
  compact log before =
      let to_delete = keys_before before (o.iter log.db) in
      let (db', removed) = delete_keys log.db to_delete in
      if leb before 1
      then (log, 0)
      else if nat_eq (length to_delete) 0
      then (log, 0)
      else (record log { db = db' }, removed)

  -- The trait's default, on this log.
  unfoldable pub retain_latest : LmdbChangeLog D → ℕ → LmdbChangeLog D × ℕ
  unfolding latest_seq
  retain_latest log max_ =
      let latest = latest_seq log in
      if ltb max_ latest then compact log (latest - max_ + 1) else (log, 0)

  unfoldable pub committed_offset : LmdbChangeLog D → Text → ℕ
  committed_offset log group = offset_in (o.fetch log.offsets group)

  unfoldable pub commit_offset : LmdbChangeLog D → Text → ℕ → LmdbChangeLog D
  commit_offset log group seq = record log { offsets = o.put log.offsets group (to_decimal seq) }

  unfoldable pub read_group : LmdbChangeLog D → Text → ℕ → List ChangeEvent
  unfolding committed_offset
  read_group log group limit = read log (committed_offset log group) limit
