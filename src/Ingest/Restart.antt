-- ===== src/Ingest/Restart.antt =====
-- `open` of ingest.rs, on a log that `drain` has compacted.
use stplr.Base.{ℕ, ◌<◌, ◌≡◌, Bool, [], arith, nat_Eq}
use stplr.Text.{Text, text_Eq}
use stplr.Word.{add_u64, add_u64-eq}
use stplr.StrDb.{StrDb, IsStrDb, Codec, put_sorted}
use stplr.SeqKey.{key, parse_u64-key}
use stplr.Ingest.{
  IngestOp, IngestQueue, or_zero, open_queue, enqueue, read_uncommitted, read_loop, drain,
  drain_loop, last_seq,
}
use stplr.Ingest.Log.{log_of}
use stplr.Ingest.Queue.{IsQueue}

module _ {D V : Type 0} (db : StrDb D) (codec : Codec (IngestOp V)) where
  -- The queue after a restart on an empty log, and one more operation.
  abbrev pub accepted : IngestQueue D → IngestOp V → IngestQueue D
  accepted q op = (enqueue db codec (open_queue db codec q.queue q.meta) op).0

  restart_number : (lo : ℕ) → add_u64 (or_zero (last_seq (log_of codec lo []))) 1 ≡ 1
  unfolding log_of last_seq
  restart_number lo = add_u64-eq 0 1 (omega arith)

  one_entry :
      (lo committed limit : ℕ) (v : Text)
      → 0 < committed
      → read_loop db codec committed limit [] (put_sorted (log_of codec lo []) (key 1) v) ≡ []
  unfolding log_of put_sorted read_loop
  one_entry lo committed limit v pos = rw (parse_u64-key 1 (omega arith), read_loop) (ground arith)

  reads_nothing :
      (lawful : IsStrDb db) (q : IngestQueue D) (lo : ℕ) (op : IngestOp V) (limit : ℕ)
      → IsQueue db codec q lo [] []
      → 0 < q.committed
      → read_uncommitted db codec (accepted q op) (accepted q op).committed limit ≡ []
  unfolding read_uncommitted enqueue open_queue
  reads_nothing lawful q lo op limit h pos =
      let number = add_u64 (or_zero (last_seq (db.iter q.queue))) 1 in
      let first_again : number ≡ 1 = rw h.logged (restart_number lo) in
      rw
        (
          h.durable,
          lawful.iter-put q.queue (key number) (codec.to_string op),
          first_again,
          h.logged,
        )
        (one_entry lo q.committed limit (codec.to_string op) pos)

  -- If no entry is left in the log of a queue that keeps the invariant, and its cursor is above 0,
  -- then an operation that is accepted after a restart is not handed to the sink by `drain`,
  -- whatever the sink and the limit.
  pub drain-accepted :
      (lawful : IsStrDb db) (q : IngestQueue D) (lo : ℕ) (op : IngestOp V) {W : Type 0}
      (apply : W → IngestOp V → W × Bool) (w : W) (limit : ℕ)
      → IsQueue db codec q lo [] []
      → 0 < q.committed
      → drain db codec apply w (accepted q op) limit ≡ (w, accepted q op, 0)
  unfolding drain drain_loop
  drain-accepted lawful q lo op apply w limit h pos =
      rw (reads_nothing lawful q lo op limit h pos, drain) (ground arith)
