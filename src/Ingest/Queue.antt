-- ===== src/Ingest/Queue.antt =====
-- The queue of ingest.rs: the invariant that ties its databases and counters to the operations that
-- wait, and what each call makes of it.
use stplr.Base.{
  ℕ, ◌+◌, ◌≤◌, ◌<◌, ◌≡◌, refl, sym, ap, subst, ◌∙◌, false, List, [], ◌∷◌, ◌++◌, append_assoc, arith,
  nat_eq, nat_Eq, length, length-append,
}
use stplr.Text.{text_Eq}
use stplr.Word.{add_u64, u64_mod, add_u64-eq}
use stplr.Dict.{keys}
use stplr.StrDb.{get-put_sorted, StrDb, IsStrDb, Codec}
use stplr.SeqKey.{parse_u64-to_decimal, key}
use stplr.Ingest.{
  delete_keys, Text, last_seq, open_queue, to_decimal, compact, persist_committed, IngestOp,
  IngestQueue, committed_key, or_zero, parsed, enqueue, latest_seq, pending,
}
use stplr.Ingest.Log.{
  last_seq-log_of, delete_keys-log_of, applied_keys-log_of, log_of, put_sorted-log_of,
}

module _ {D V : Type 0} (db : StrDb D) (codec : Codec (IngestOp V)) where
  number_after :
      (n : ℕ) (ops : List (IngestOp V))
      → 0 < length ops
      → n + length ops < u64_mod
      → add_u64 (or_zero (last_seq (log_of codec n ops))) 1 ≡ n + length ops
  number_after n [] some_ fits = absurd (omega arith)
  number_after n (op ∷ ops) some_ fits =
      rw (last_seq-log_of codec n op ops (omega arith))
        (add_u64-eq (n + length ops) 1 (omega arith) ∙ omega arith)

  some_keys :
      (n : ℕ) (op : IngestOp V) (ops : List (IngestOp V))
      → nat_eq (length (keys (log_of codec n (op ∷ ops)))) 0 ≡ false
  unfolding log_of keys
  some_keys n op ops = ground arith

  -- The log holds the operations `done`, which are applied, and `rest`, which wait, from the number
  -- `lo` on. The cursor stands between them, in memory and on the disk.
  pub record IsQueue (q : IngestQueue D) (lo : ℕ) (done rest : List (IngestOp V)) : Type 0 where
    pub logged : db.iter q.queue ≡ log_of codec lo (done ++ rest)
    pub position : lo + length done ≡ q.committed + 1
    pub next_number : q.next ≡ lo + length (done ++ rest)
    pub positive : 0 < lo
    pub fits : q.next < u64_mod
    pub durable : or_zero (parsed (db.fetch q.meta committed_key)) ≡ q.committed

  module _ (lawful : IsStrDb db) where
    -- What counts as pending is what waits.
    pub pending-IsQueue :
        (q : IngestQueue D) (lo : ℕ) (done rest : List (IngestOp V))
        → IsQueue q lo done rest
        → pending db codec q ≡ length rest
    unfolding pending latest_seq
    pending-IsQueue q lo done rest h =
        omega (arith, h.position, h.next_number, h.positive, length-append done rest)

    -- In a queue that keeps the invariant an accepted operation waits behind the others, in the
    -- log too, if the number after its own is in range.
    pub enqueue-IsQueue :
        (q : IngestQueue D) (lo : ℕ) (done rest : List (IngestOp V)) (op : IngestOp V)
        → IsQueue q lo done rest
        → q.next + 1 < u64_mod
        → IsQueue (enqueue db codec q op).0 lo done (rest ++ op ∷ [])
    unfolding enqueue
    enqueue-IsQueue q lo done rest op h more = record {
      logged =
          lawful.iter-put q.queue (key q.next) (codec.to_string op)
          ∙ rw (h.logged, h.next_number)
              (put_sorted-log_of codec lo (done ++ rest) op (omega (arith, h.fits, h.next_number))
                ∙ ap (λ (ops : List (IngestOp V)). log_of codec lo ops)
                    (append_assoc done rest (op ∷ [])));
      position = h.position;
      next_number = omega (
        arith,
        add_u64-eq q.next 1 more,
        h.next_number,
        length-append done rest,
        length-append done (rest ++ op ∷ []),
        length-append rest (op ∷ []),
      );
      positive = h.positive;
      fits = omega (arith, add_u64-eq q.next 1 more);
      durable = h.durable;
    }

    -- The cursor moves over operations that were applied, on the disk too.
    pub persist_committed-IsQueue :
        (q : IngestQueue D) (lo : ℕ) (done xs ys : List (IngestOp V))
        → IsQueue q lo done (xs ++ ys)
        → IsQueue (persist_committed db codec q (q.committed + length xs)) lo (done ++ xs) ys
    unfolding persist_committed
    persist_committed-IsQueue q lo done xs ys h =
        let seq = q.committed + length xs in
        let shape = append_assoc done xs ys in
        let size = length-append done (xs ++ ys) in
        let inner = length-append xs ys in
        record {
          logged = h.logged ∙ ap (λ (ops : List (IngestOp V)). log_of codec lo ops) (sym shape);
          position = omega (arith, h.position, length-append done xs);
          next_number =
              h.next_number ∙ ap (λ (ops : List (IngestOp V)). lo + length ops) (sym shape);
          positive = h.positive;
          fits = h.fits;
          durable =
              rw
                (
                  lawful.fetch_lem (db.put q.meta committed_key (to_decimal seq)) committed_key,
                  lawful.iter-put q.meta committed_key (to_decimal seq),
                  get-put_sorted (db.iter q.meta) committed_key (to_decimal seq),
                  parse_u64-to_decimal seq
                      (omega (arith, h.position, h.next_number, h.fits, h.positive, size, inner)),
                )
                refl;
        }

    compact-some :
        (q : IngestQueue D) (lo : ℕ) (x : IngestOp V) (xs rest : List (IngestOp V))
        → IsQueue q lo (x ∷ xs) rest
        → IsQueue (compact db codec q).0 (lo + length (x ∷ xs)) [] rest
          × ((compact db codec q).1 ≡ length (x ∷ xs))
    unfolding compact
    compact-some q lo x xs rest h =
        let size = length-append (x ∷ xs) rest in
        let bound : lo + length ((x ∷ xs) ++ rest) ≤ u64_mod =
          omega (arith, h.next_number, h.fits) in
        let applied = applied_keys-log_of codec lo q.committed (x ∷ xs) rest h.position bound in
        let (left, count) =
          delete_keys-log_of codec db lawful q.queue lo (x ∷ xs) rest h.logged bound in
        let moved : nat_eq q.committed 0 ≡ false = ground (arith, h.position, h.positive) in
        let deleted = delete_keys db codec q.queue (keys (log_of codec lo (x ∷ xs))) in
        let fired : compact db codec q ≡ (record q { queue = deleted.0 }, deleted.1) =
          rw (moved, h.logged, applied, compact) (ground (arith, some_keys lo x xs)) in
        rw fired (
          record {
            logged = left;
            position = omega (arith, h.position);
            next_number = omega (arith, h.next_number, size);
            positive = omega (arith, h.positive);
            fits = h.fits;
            durable = h.durable;
          },
          count,
        )

    -- In a queue that keeps the invariant `compact` deletes the applied operations, as many as it
    -- says, and none that waits.
    pub compact-IsQueue :
        (q : IngestQueue D) (lo : ℕ) (done rest : List (IngestOp V))
        → IsQueue q lo done rest
        → IsQueue (compact db codec q).0 (lo + length done) [] rest
          × ((compact db codec q).1 ≡ length done)
    unfolding compact log_of keys
    compact-IsQueue q lo [] rest h =
        let none_applied =
          applied_keys-log_of codec lo q.committed [] rest h.position
            (omega (arith, h.next_number, h.fits)) in
        let same : lo ≡ lo + 0 = omega arith in
        let stays : compact db codec q ≡ (q, 0) =
          rw (h.logged, none_applied, compact) (ground arith) in
        rw stays (subst (λ (l : ℕ). IsQueue q l [] rest) same h, refl)
    compact-IsQueue q lo (x ∷ xs) rest h = compact-some q lo x xs rest h

    -- If the log of a queue that keeps the invariant has an entry, then `open` on its databases
    -- gives the queue back, both counters included.
    pub open_queue-IsQueue :
        (q : IngestQueue D) (lo : ℕ) (done rest : List (IngestOp V))
        → IsQueue q lo done rest
        → 0 < length (done ++ rest)
        → open_queue db codec q.queue q.meta ≡ q
    unfolding open_queue
    open_queue-IsQueue q lo done rest h some_ =
        let number =
          ap (λ (items : List (Text × Text)). add_u64 (or_zero (last_seq items)) 1) h.logged
          ∙ number_after lo (done ++ rest) some_ (omega (arith, h.next_number, h.fits))
          ∙ sym h.next_number in
        let stored = or_zero (parsed (db.fetch q.meta committed_key)) in
        ap (λ (n : ℕ). record q { next = n; committed = stored }) number
        ∙ ap (λ (c : ℕ). record q { committed = c }) h.durable
