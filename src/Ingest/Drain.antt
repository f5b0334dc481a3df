-- ===== src/Ingest/Drain.antt =====
-- `drain` of ingest.rs: what the sink gets, and what stays in the queue.
use stplr.Base.{
  ℕ, zero, suc, ◌+◌, ◌-◌, ◌≤◌, ◌<◌, ◌≡◌, sym, ap, subst, ◌∙◌, Bool, true, false, List, [], ◌∷◌,
  ◌++◌, arith, ltb, if◌then◌else◌, nat_Eq, length, take, length-append, length-take, drop,
  take-drop,
}
use stplr.Text.{text_Eq}
use stplr.StrDb.{IsStrDb, StrDb, Codec, IsCodec}
use stplr.Ingest.{
  persist_committed, compact, drain, IngestOp, IngestQueue, read_uncommitted, drain_loop,
}
use stplr.Ingest.Log.{numbered, log_of, log_of-append, read_loop-skip, read_loop-take}
use stplr.Ingest.Queue.{compact-IsQueue, persist_committed-IsQueue, IsQueue}

module _ {V W : Type 0} (apply : W → IngestOp V → W × Bool) where
  -- The sink after it was given operations up to the first that fails.
  unfoldable pub after_all : W → List (IngestOp V) → W
  after_all w [] = w
  after_all w (op ∷ ops) =
      let rest = after_all (apply w op).0 ops in if (apply w op).1 then rest else (apply w op).0

  -- How many succeeded.
  unfoldable pub successes : W → List (IngestOp V) → ℕ
  successes w [] = 0
  successes w (op ∷ ops) =
      let rest = successes (apply w op).0 ops in if (apply w op).1 then suc rest else 0

  successes-le : (w : W) (ops : List (IngestOp V)) → successes w ops ≤ length ops
  unfolding successes
  successes-le w [] = omega arith
  successes-le w (op ∷ ops) = ground (arith, successes-le (apply w op).0 ops)

if_triple :
    {W Q : Type 0} (b : Bool) (w : W) (q q' : Q) (k : ℕ)
    → ◌≡◌ {A = W × Q × ℕ}
        (if b then (w, q, 0 + k) else (w, q', 0 + k))
        (w, (if b then q else q'), k)
if_triple true w q q' k = ap (λ (n : ℕ). (w, q, n)) (omega arith)
if_triple false w q q' k = ap (λ (n : ℕ). (w, q', n)) (omega arith)

module _ {D V : Type 0} (db : StrDb D) (codec : Codec (IngestOp V)) where
  pub read_uncommitted-IsQueue :
      (lawful : IsCodec codec) (q : IngestQueue D) (lo : ℕ) (done rest : List (IngestOp V))
      (limit : ℕ)
      → IsQueue db codec q lo done rest
      → 0 < limit
      → read_uncommitted db codec q q.committed limit ≡ numbered (suc q.committed) (take limit rest)
  unfolding read_uncommitted
  read_uncommitted-IsQueue lawful q lo done rest limit h pos =
      let size = length-append done rest in
      let from = suc q.committed in
      let e : lo + length done ≡ from = omega (arith, h.position) in
      let split = log_of-append codec lo done rest in
      let room : suc (limit - 1) ≡ limit = omega arith in
      rw (h.logged, split)
        (read_loop-skip codec db lo q.committed limit done (log_of codec (lo + length done) rest)
            (omega (arith, e)) (omega (arith, h.next_number, h.fits, size))
          ∙ rw e (
              read_loop-take codec lawful db (limit - 1) from q.committed limit [] rest
                (omega arith) (omega arith) (omega (arith, h.next_number, h.fits, size, e))
              ∙ ap (λ (n : ℕ). numbered from (take n rest)) room))

  module _ {W : Type 0} (apply : W → IngestOp V → W × Bool) where
    drain_loop_lem :
        (w : W) (last applied : ℕ) (ops : List (IngestOp V))
        → drain_loop db codec apply w last applied (numbered (suc last) ops)
          ≡ (after_all apply w ops, last + successes apply w ops, applied + successes apply w ops)
    unfolding drain_loop numbered after_all successes
    drain_loop_lem w last applied [] = ground arith
    drain_loop_lem w last applied (op ∷ ops) =
        ground (arith, drain_loop_lem (apply w op).0 (suc last) (applied + 1) ops)

  -- The queue once `k` operations of those that wait were applied.
  abbrev advanced : IngestQueue D → ℕ → IngestQueue D
  advanced q k =
      if ltb q.committed (q.committed + k)
      then (compact db codec (persist_committed db codec q (q.committed + k))).0
      else q

  advanced-IsQueue :
      (lawful : IsStrDb db) (q : IngestQueue D) (lo : ℕ) (done rest : List (IngestOp V)) (k : ℕ)
      → IsQueue db codec q lo done rest
      → k ≤ length rest
      → (lo' : ℕ) × (done' : List (IngestOp V)) × IsQueue db codec
          (advanced q k)
          lo'
          done'
          (drop k rest)
  advanced-IsQueue lawful q lo done rest zero h le =
      let stays : ltb q.committed (q.committed + 0) ≡ false = ground arith in (lo, done, rw stays h)
  advanced-IsQueue lawful q lo done rest (suc k) h le =
      let moves : ltb q.committed (q.committed + suc k) ≡ true = ground arith in
      let xs = take (suc k) rest in
      let ys = drop (suc k) rest in
      let size : length xs ≡ suc k = omega (arith, length-take (suc k) rest) in
      let persisted = persist_committed-IsQueue db codec lawful q lo done xs ys (
        subst (λ (ops : List (IngestOp V)). IsQueue db codec q lo done ops)
          (sym (take-drop (suc k) rest)) h) in
      let cursor =
        subst
          (λ (n : ℕ).
            IsQueue db codec (persist_committed db codec q (q.committed + n)) lo (done ++ xs) ys)
          size persisted in
      (
        lo + length (done ++ xs),
        [],
        rw moves
            (compact-IsQueue db codec lawful (persist_committed db codec q (q.committed + suc k)) lo
              (done ++ xs) ys cursor).0,
      )

  -- From a queue that keeps the invariant, for a positive limit, `drain` hands the operations that
  -- wait to the sink in their order, up to the limit and to the first that fails; it counts those
  -- that succeeded, and exactly those no longer wait, in a queue that keeps the invariant.
  pub drain-IsQueue :
      (lawful : IsStrDb db) (codec_lawful : IsCodec codec) {W : Type 0}
      (apply : W → IngestOp V → W × Bool) (w : W) (q : IngestQueue D) (lo : ℕ)
      (done rest : List (IngestOp V)) (limit : ℕ)
      → IsQueue db codec q lo done rest
      → 0 < limit
      → (q' : IngestQueue D) × (lo' : ℕ) × (done' : List (IngestOp V)) × (drain db codec apply w q
            limit
          ≡ (after_all apply w (take limit rest), q', successes apply w (take limit rest)))
        × IsQueue db codec q' lo' done' (drop (successes apply w (take limit rest)) rest)
  unfolding drain
  drain-IsQueue lawful codec_lawful apply w q lo done rest limit h pos =
      let tried = take limit rest in
      let k = successes apply w tried in
      let le : k ≤ length rest =
        omega (arith, successes-le apply w tried, length-take limit rest) in
      let (lo', done', h') = advanced-IsQueue lawful q lo done rest k h le in
      (
        advanced q k,
        lo',
        done',
        rw
            (
              read_uncommitted-IsQueue codec_lawful q lo done rest limit h pos,
              drain_loop_lem apply w q.committed 0 tried,
              drain,
            )
            (if_triple (ltb q.committed (q.committed + k)) (after_all apply w tried)
              (compact db codec (persist_committed db codec q (q.committed + k))).0 q k),
        h',
      )
