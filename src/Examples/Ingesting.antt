-- ===== src/Examples/Ingesting.antt =====
-- The claims about ingest.rs on a sorted list of entries, with a codec that writes lengths.
use stplr.Changefeed.{ChangeEvent}
use stplr.Changefeed.Lmdb
use stplr.Changefeed.Lmdb.{open_log, committed_offset, read_group}
use stplr.Changefeed.Restart.{read_group-append}
use stplr.Base.{
  ℕ, suc, ◌+◌, ◌<◌, ◌≡◌, refl, Bool, true, false, Option, none, some, List, [], ◌∷◌, ◌++◌, arith,
  nat_eq, if◌then◌else◌, nat_Eq, length, take, drop,
}
use stplr.Text.{Text, text_Eq, codes}
use stplr.Word.{u64_mod}
use stplr.StrDb.{list_db, list_db-IsStrDb, Codec, IsCodec}
use stplr.SeqKey.{parse_u64, to_decimal, parse_u64-to_decimal}
use stplr.Ingest.{
  persist_committed, IngestOp, IngestQueue, put, delete, open_queue, enqueue, pending, compact,
  drain,
}
use stplr.Ingest.Log.{log_of}
use stplr.Ingest.Queue.{
  IsQueue, enqueue-IsQueue, compact-IsQueue, persist_committed-IsQueue, open_queue-IsQueue,
}
use stplr.Ingest.Drain.{after_all, successes, drain-IsQueue}
use stplr.Ingest.Restart.{accepted, drain-accepted}

unfoldable write : IngestOp ℕ → Text
write (put c k v) = 0 ∷ v ∷ length c ∷ c ++ k
write (IngestOp.set_add c k m) = 1 ∷ length c ∷ length k ∷ c ++ (k ++ m)
write (IngestOp.set_remove c k m) = 2 ∷ length c ∷ length k ∷ c ++ (k ++ m)
write (delete c k) = 3 ∷ length c ∷ 0 ∷ c ++ k

unfoldable read : Text → Option (IngestOp ℕ)
read (t ∷ n ∷ m ∷ s) = some (
    if nat_eq t 0
    then put (take m s) (drop m s) n
    else if nat_eq t 1
    then IngestOp.set_add (take n s) (take m (drop n s)) (drop m (drop n s))
    else if nat_eq t 2
    then IngestOp.set_remove (take n s) (take m (drop n s)) (drop m (drop n s))
    else delete (take n s) (drop n s))
read _ = none

take-prefix : (s t : Text) → take (length s) (s ++ t) ≡ s
take-prefix [] t = refl
take-prefix (c ∷ s) t = ground (arith, take-prefix s t)

drop-prefix : (s t : Text) → drop (length s) (s ++ t) ≡ t
drop-prefix [] t = refl
drop-prefix (c ∷ s) t = drop-prefix s t

codec : Codec (IngestOp ℕ)
codec = record { to_string = write; from_str = read }

read-write : (op : IngestOp ℕ) → read (write op) ≡ some op
unfolding write read
read-write (put c k v) = rw (take-prefix c k, drop-prefix c k) refl
read-write (IngestOp.set_add c k m) =
    rw (take-prefix c (k ++ m), drop-prefix c (k ++ m), take-prefix k m, drop-prefix k m) refl
read-write (IngestOp.set_remove c k m) =
    rw (take-prefix c (k ++ m), drop-prefix c (k ++ m), take-prefix k m, drop-prefix k m) refl
read-write (delete c k) = rw (take-prefix c k, drop-prefix c k) refl

codec-IsCodec : IsCodec codec
unfolding codec
codec-IsCodec = record { from_str-to_string = read-write }

abbrev Db : Type 0
Db = List (Text × Text)

abbrev fresh : IngestQueue Db
fresh = record { queue = []; meta = []; next = 1; committed = 0 }

opened : open_queue list_db codec [] [] ≡ fresh
unfolding open_queue list_db stplr.Word.add_u64 stplr.Dict.get stplr.Ingest.last_seq
opened = refl

fresh-IsQueue : IsQueue list_db codec fresh 1 [] []
unfolding list_db log_of stplr.Dict.get
fresh-IsQueue = record {
  logged = refl;
  position = refl;
  next_number = refl;
  positive = omega arith;
  fits = omega arith;
  durable = refl;
}

abbrev op_a : IngestOp ℕ
op_a = put (codes "kv") (codes "a") 1

abbrev op_b : IngestOp ℕ
op_b = delete (codes "kv") (codes "b")

abbrev one : IngestQueue Db
one = (enqueue list_db codec fresh op_a).0

one-IsQueue : IsQueue list_db codec one 1 [] (op_a ∷ [])
one-IsQueue =
    enqueue-IsQueue list_db codec list_db-IsStrDb fresh 1 [] [] op_a fresh-IsQueue (omega arith)

abbrev two : IngestQueue Db
two = (enqueue list_db codec one op_b).0

next_of_one : one.next + 1 < u64_mod
unfolding enqueue stplr.Word.add_u64
next_of_one = omega arith

enqueue-IsQueue_example : IsQueue list_db codec two 1 [] (op_a ∷ op_b ∷ [])
enqueue-IsQueue_example =
    enqueue-IsQueue list_db codec list_db-IsStrDb one 1 [] (op_a ∷ []) op_b one-IsQueue next_of_one

two-IsQueue : IsQueue list_db codec two 1 [] (op_a ∷ op_b ∷ [])
two-IsQueue =
    enqueue-IsQueue list_db codec list_db-IsStrDb one 1 [] (op_a ∷ []) op_b one-IsQueue next_of_one

-- A sink that takes writes and refuses deletions, and counts what it took.
unfoldable sink : ℕ → IngestOp ℕ → ℕ × Bool
sink n (put c k v) = (suc n, true)
sink n _ = (n, false)

taken : successes sink 0 (op_a ∷ op_b ∷ []) ≡ 1
unfolding successes sink
taken = refl

drain-IsQueue_example :
    (q' : IngestQueue Db) × (lo' : ℕ) × (done' : List (IngestOp ℕ)) × (drain list_db codec sink 0
        two 5
      ≡ (
        after_all sink 0 (take 5 (op_a ∷ op_b ∷ [])),
        q',
        successes sink 0 (take 5 (op_a ∷ op_b ∷ [])),
      ))
    × IsQueue list_db codec q' lo' done'
        (drop (successes sink 0 (take 5 (op_a ∷ op_b ∷ []))) (op_a ∷ op_b ∷ []))
drain-IsQueue_example =
    drain-IsQueue list_db codec list_db-IsStrDb codec-IsCodec sink 0 two 1 [] (op_a ∷ op_b ∷ []) 5
      two-IsQueue (omega arith)

open_queue-IsQueue_example : open_queue list_db codec two.queue two.meta ≡ two
open_queue-IsQueue_example =
    open_queue-IsQueue list_db codec list_db-IsStrDb two 1 [] (op_a ∷ op_b ∷ []) two-IsQueue
      (omega arith)

abbrev applied : IngestQueue Db
applied = persist_committed list_db codec one (one.committed + 1)

applied-IsQueue : IsQueue list_db codec applied 1 (op_a ∷ []) []
applied-IsQueue =
    persist_committed-IsQueue list_db codec list_db-IsStrDb one 1 [] (op_a ∷ []) [] one-IsQueue

abbrev emptied : IngestQueue Db
emptied = (compact list_db codec applied).0

emptied-IsQueue : IsQueue list_db codec emptied (1 + 1) [] []
emptied-IsQueue =
    (compact-IsQueue list_db codec list_db-IsStrDb applied 1 (op_a ∷ []) [] applied-IsQueue).0

moved : 0 < emptied.committed
moved = omega (arith, emptied-IsQueue.position)

drain-accepted_example :
    drain list_db codec sink 0 (accepted list_db codec emptied op_a) 5
    ≡ (0, accepted list_db codec emptied op_a, 0)
drain-accepted_example =
    drain-accepted list_db codec list_db-IsStrDb emptied 2 op_a sink 0 5 emptied-IsQueue moved

parse_u64-to_decimal_example : parse_u64 (to_decimal 1040) ≡ some 1040
parse_u64-to_decimal_example = parse_u64-to_decimal 1040 (omega arith)

unfoldable write_event : ChangeEvent → Text
write_event e =
    e.seq ∷ length e.op ∷ length e.value ∷ length e.set ∷ e.op ++ (e.value ++ (e.set ++ e.doc_id))

unfoldable read_event : Text → Option ChangeEvent
read_event (seq ∷ a ∷ b ∷ c ∷ s) = some (record {
  seq = seq;
  op = take a s;
  value = take b (drop a s);
  set = take c (drop b (drop a s));
  doc_id = drop c (drop b (drop a s));
})
read_event _ = none

read-write_event : (e : ChangeEvent) → read_event (write_event e) ≡ some e
unfolding write_event read_event
read-write_event e =
    rw
      (
        take-prefix e.op (e.value ++ (e.set ++ e.doc_id)),
        drop-prefix e.op (e.value ++ (e.set ++ e.doc_id)),
        take-prefix e.value (e.set ++ e.doc_id),
        drop-prefix e.value (e.set ++ e.doc_id),
        take-prefix e.set e.doc_id,
        drop-prefix e.set e.doc_id,
      )
      refl

event_codec : Codec ChangeEvent
event_codec = record { to_string = write_event; from_str = read_event }

event_codec-IsCodec : IsCodec event_codec
unfolding event_codec
event_codec-IsCodec = record { from_str-to_string = read-write_event }

abbrev group_offsets : Db
group_offsets = (codes "g", codes "5") ∷ []

behind :
    0
    < committed_offset list_db event_codec
        (open_log list_db event_codec [] group_offsets)
        (codes "g")
unfolding committed_offset list_db stplr.Dict.get open_log stplr.Text.text_eq parse_u64
behind = omega arith

read_group-append_example :
    read_group list_db event_codec
      (Lmdb.append list_db event_codec
        (open_log list_db event_codec [] group_offsets)
        (codes "add")
        (codes "v")
        (codes "s")
        (codes "d")).0
      (codes "g")
      10
    ≡ []
unfolding list_db
read_group-append_example =
    read_group-append list_db event_codec list_db-IsStrDb event_codec-IsCodec [] group_offsets
      (codes "add") (codes "v") (codes "s") (codes "d") (codes "g") 10 refl behind
