-- ===== src/Ingest.antt =====
-- ingest.rs: the durable ingest queue. A state holds both databases, so a crash keeps them and loses
-- the two counters.
pub mod Log
pub mod Queue
pub mod Drain
pub mod Restart
use stplr.Base.{
  ℕ, ◌+◌, ◌-◌, Bool, Option, none, some, List, [], ◌∷◌, ◌++◌, ltb, leb, nat_eq, if◌then◌else◌,
  nat_Eq, length,
}
use stplr.Text.{Text, text_Eq, codes}
use stplr.Word.{add_u64}
use stplr.StrDb.{StrDb, Codec}
use stplr.SeqKey.{key, parse_u64, to_decimal}

pub data IngestOp (V : Type 0) : Type 0 where
  put : Text → Text → V → IngestOp V
  set_add set_remove : Text → Text → Text → IngestOp V
  delete : Text → Text → IngestOp V

pub record IngestQueue (D : Type 0) : Type 0 where
  pub queue : D
  pub meta : D
  pub next : ℕ
  pub committed : ℕ

abbrev pub committed_key : Text
committed_key = codes "committed"

-- `db.last()` with `and_then(|(k, _)| k.parse().ok())`
unfoldable pub last_seq : List (Text × Text) → Option ℕ
last_seq [] = none
last_seq ((k, v) ∷ []) = parse_u64 k
last_seq (e ∷ e' ∷ es) = last_seq (e' ∷ es)

abbrev pub or_zero : Option ℕ → ℕ
or_zero none = 0
or_zero (some n) = n

abbrev pub parsed : Option Text → Option ℕ
parsed none = none
parsed (some v) = parse_u64 v

-- The loop of `compact` that collects the keys of applied entries.
unfoldable pub applied_keys : ℕ → List (Text × Text) → List Text
applied_keys committed [] = []
applied_keys committed ((k, v) ∷ items) =
    let rest = applied_keys committed items in
    elim (parse_u64 k) [ none ↦ rest | some seq ↦ if leb seq committed then k ∷ rest else [] ]

module _ {D V : Type 0} (db : StrDb D) (codec : Codec (IngestOp V)) where
  -- `open` on the databases that are on the disk.
  unfoldable pub open_queue : D → D → IngestQueue D
  open_queue queue meta = record {
    queue = queue;
    meta = meta;
    next = add_u64 (or_zero (last_seq (db.iter queue))) 1;
    committed = or_zero (parsed (db.fetch meta committed_key));
  }

  unfoldable pub enqueue : IngestQueue D → IngestOp V → IngestQueue D × ℕ
  enqueue q op =
      let seq = q.next in
      (
        record q { queue = db.put q.queue (key seq) (codec.to_string op); next = add_u64 seq 1 },
        seq,
      )

  -- `saturating_sub` stops at 0, as `-` does.
  unfoldable pub latest_seq : IngestQueue D → ℕ
  latest_seq q = q.next - 1

  unfoldable pub pending : IngestQueue D → ℕ
  unfolding latest_seq
  pending q = latest_seq q - q.committed

  -- The loop of `read_uncommitted`: an entry is pushed before the limit is looked at.
  unfoldable pub read_loop :
      ℕ → ℕ → List (ℕ × IngestOp V) → List (Text × Text) → List (ℕ × IngestOp V)
  read_loop from limit out [] = out
  read_loop from limit out ((k, v) ∷ items) =
      let skip = read_loop from limit out items in
      elim (parse_u64 k) [
        | none ↦ skip
        | some seq ↦
            if ltb from seq
            then (elim (codec.from_str v) [
              | none ↦ skip
              | some op ↦
                  let out' = out ++ (seq, op) ∷ [] in
                  let push = read_loop from limit out' items in
                  if leb limit (length out') then out' else push
            ])
            else skip
      ]

  unfoldable pub read_uncommitted : IngestQueue D → ℕ → ℕ → List (ℕ × IngestOp V)
  read_uncommitted q from limit = read_loop from limit [] (db.iter q.queue)

  unfoldable pub persist_committed : IngestQueue D → ℕ → IngestQueue D
  persist_committed q seq = record q {
    meta = db.put q.meta committed_key (to_decimal seq);
    committed = seq;
  }

  unfoldable pub delete_keys : D → List Text → D × ℕ
  delete_keys d [] = (d, 0)
  delete_keys d (k ∷ ks) =
      let (d', found) = db.delete d k in
      let (d'', n) = delete_keys d' ks in (d'', if found then n + 1 else n)

  unfoldable pub compact : IngestQueue D → IngestQueue D × ℕ
  compact q =
      if nat_eq q.committed 0
      then (q, 0)
      else (let to_delete = applied_keys q.committed (db.iter q.queue) in
          let (queue', removed) = delete_keys q.queue to_delete in
          if nat_eq (length to_delete) 0 then (q, 0) else (record q { queue = queue' }, removed))

  -- The sink is a state and its `apply`, which says whether it succeeded.
  module _ {W : Type 0} (apply : W → IngestOp V → W × Bool) where
    -- The loop of `drain`: the sink, the last sequence applied, and how many were.
    unfoldable pub drain_loop : W → ℕ → ℕ → List (ℕ × IngestOp V) → W × ℕ × ℕ
    drain_loop w last_ok applied [] = (w, last_ok, applied)
    drain_loop w last_ok applied ((seq, op) ∷ ops) =
        let (w', done) = apply w op in
        let rest = drain_loop w' seq (applied + 1) ops in
        if done then rest else (w', last_ok, applied)

    unfoldable pub drain : W → IngestQueue D → ℕ → W × IngestQueue D × ℕ
    drain w q limit =
        let from = q.committed in
        let (w', last_ok, applied) = drain_loop w from 0 (read_uncommitted q from limit) in
        if ltb from last_ok
        then (w', (compact (persist_committed q last_ok)).0, applied)
        else (w', q, applied)
