-- ===== src/Ingest/Log.antt =====
-- The log of ingest.rs as a run of numbered operations, and what the functions over its entries make
-- of it.
use stplr.Base.{
  ℕ, zero, suc, ◌+◌, ◌≤◌, ◌<◌, ◌≡◌, refl, sym, ap, ◌∙◌, true, false, some, List, [], ◌∷◌, ◌++◌,
  append-nil, append_assoc, arith, nat_Eq, length, take, length-append, contains,
}
use stplr.Text.{Text, text_Eq}
use stplr.Word.{u64_mod}
use stplr.Dict.{remove, keys, remove_absent}
use stplr.StrDb.{StrDb, IsStrDb, put_sorted, Codec, IsCodec}
use stplr.SeqKey.{key, text_lt-key, text_eq-key, parse_u64-key}
use stplr.Ingest.{IngestOp, last_seq, applied_keys, read_loop, delete_keys}

module _ {V : Type 0} where
  -- The operations numbered from `n` on.
  unfoldable pub numbered : ℕ → List (IngestOp V) → List (ℕ × IngestOp V)
  numbered n [] = []
  numbered n (op ∷ ops) = (n, op) ∷ numbered (suc n) ops

module _ {V : Type 0} (codec : Codec (IngestOp V)) where
  -- The entries of the database for the operations from `n` on.
  unfoldable pub log_of : ℕ → List (IngestOp V) → List (Text × Text)
  log_of n [] = []
  log_of n (op ∷ ops) = (key n, codec.to_string op) ∷ log_of (suc n) ops

  pub log_of-append :
      (n : ℕ) (xs ys : List (IngestOp V))
      → log_of n (xs ++ ys) ≡ log_of n xs ++ log_of (n + length xs) ys
  unfolding log_of
  log_of-append n [] ys = rw (let e : n + 0 ≡ n = omega arith in e) refl
  log_of-append n (x ∷ xs) ys =
      rw (log_of-append (suc n) xs ys)
        (let e : suc n + length xs ≡ n + suc (length xs) = omega arith in rw e refl)

  -- A new entry with the next number comes last.
  pub put_sorted-log_of :
      (n : ℕ) (ops : List (IngestOp V)) (op : IngestOp V)
      → n + length ops < u64_mod
      → put_sorted (log_of n ops) (key (n + length ops)) (codec.to_string op)
        ≡ log_of n (ops ++ op ∷ [])
  unfolding log_of put_sorted
  put_sorted-log_of n [] op fits = let e : n + 0 ≡ n = omega arith in rw e refl
  put_sorted-log_of n (x ∷ xs) op fits =
      let e : suc n + length xs ≡ n + suc (length xs) = omega arith in
      let rest = put_sorted-log_of (suc n) xs op (omega arith) in
      ground (
        arith,
        rest,
        e,
        text_eq-key n (n + suc (length xs)) (omega arith) fits,
        text_lt-key (n + suc (length xs)) n fits (omega arith),
      )

  pub last_seq-log_of :
      (n : ℕ) (op : IngestOp V) (ops : List (IngestOp V))
      → n + length ops < u64_mod
      → last_seq (log_of n (op ∷ ops)) ≡ some (n + length ops)
  unfolding log_of last_seq
  last_seq-log_of n op [] fits = rw (parse_u64-key n (omega arith)) (ap some (omega arith))
  last_seq-log_of n op (x ∷ xs) fits =
      last_seq-log_of (suc n) x xs (omega arith) ∙ ap some (omega arith)

  absent-log_of :
      (n m : ℕ) (ops : List (IngestOp V))
      → n < m
      → m + length ops ≤ u64_mod
      → contains (keys (log_of m ops)) (key n) ≡ false
  unfolding log_of keys
  absent-log_of n m [] lt fits = refl
  absent-log_of n m (x ∷ xs) lt fits =
      ground (arith, absent-log_of n (suc m) xs, text_eq-key m n (omega arith) (omega arith))

  -- The entries up to the cursor.
  pub applied_keys-log_of :
      (n committed : ℕ) (xs ys : List (IngestOp V))
      → n + length xs ≡ committed + 1
      → n + length (xs ++ ys) ≤ u64_mod
      → applied_keys committed (log_of n (xs ++ ys)) ≡ keys (log_of n xs)
  unfolding log_of applied_keys keys
  applied_keys-log_of n committed [] [] at_ fits = refl
  applied_keys-log_of n committed [] (y ∷ ys) at_ fits =
      rw (parse_u64-key n (omega arith), applied_keys) (ground arith)
  applied_keys-log_of n committed (x ∷ xs) ys at_ fits =
      rw (parse_u64-key n (omega arith), applied_keys)
        (ground (arith, applied_keys-log_of (suc n) committed xs ys (omega arith) (omega arith)))

  -- Reading goes past the entries up to `from`.
  pub read_loop-skip :
      {D : Type 0} (db : StrDb D) (n from limit : ℕ) (xs : List (IngestOp V))
      (items : List (Text × Text))
      → n + length xs ≤ from + 1
      → n + length xs ≤ u64_mod
      → read_loop db codec from limit [] (log_of n xs ++ items)
        ≡ read_loop db codec from limit [] items
  unfolding log_of read_loop
  read_loop-skip db n from limit [] items below fits = refl
  read_loop-skip db n from limit (x ∷ xs) items below fits =
      rw (parse_u64-key n (omega arith), read_loop)
        (ground (arith, read_loop-skip db (suc n) from limit xs items (omega arith) (omega arith)))

  -- Past the cursor, reading takes as many operations as there is room for.
  pub read_loop-take :
      (lawful : IsCodec codec)
      → {D : Type 0} (db : StrDb D) (room n from limit : ℕ) (out : List (ℕ × IngestOp V))
        (ops : List (IngestOp V))
      → from < n
      → length out + suc room ≡ limit
      → n + length ops ≤ u64_mod
      → read_loop db codec from limit out (log_of n ops) ≡ out ++ numbered n (take (suc room) ops)
  unfolding log_of read_loop numbered
  read_loop-take lawful db room n from limit out [] past size fits = sym (append-nil out)
  read_loop-take lawful db zero n from limit out (op ∷ ops) past size fits =
      let more = length-append out ((n, op) ∷ []) in
      rw (parse_u64-key n (omega arith), lawful.from_str-to_string op, read_loop)
        (ground (arith, more))
  read_loop-take lawful db (suc room) n from limit out (op ∷ ops) past size fits =
      let more = length-append out ((n, op) ∷ []) in
      let rest =
        read_loop-take lawful db room (suc n) from limit (out ++ (n, op) ∷ []) ops (omega arith)
          (omega (arith, more)) (omega arith) in
      let shape = append_assoc out ((n, op) ∷ []) (numbered (suc n) (take (suc room) ops)) in
      rw (parse_u64-key n (omega arith), lawful.from_str-to_string op, read_loop)
        (ground (arith, more, rest, shape))

  remove-log_of :
      (n : ℕ) (op : IngestOp V) (ops : List (IngestOp V))
      → n + suc (length ops) ≤ u64_mod
      → remove (log_of n (op ∷ ops)) (key n) ≡ log_of (suc n) ops
  unfolding log_of remove
  remove-log_of n op ops fits = ground (
    arith,
    text_eq-key n n (omega arith) (omega arith),
    remove_absent (log_of (suc n) ops) (key n)
        (absent-log_of n (suc n) ops (omega arith) (omega arith)),
  )

  module _ {D : Type 0} (db : StrDb D) (lawful : IsStrDb db) where
    -- Deleting the keys of the first entries leaves the others.
    pub delete_keys-log_of :
        (d : D) (n : ℕ) (xs ys : List (IngestOp V))
        → db.iter d ≡ log_of n (xs ++ ys)
        → n + length (xs ++ ys) ≤ u64_mod
        → (db.iter (delete_keys db codec d (keys (log_of n xs))).0 ≡ log_of (n + length xs) ys)
          × ((delete_keys db codec d (keys (log_of n xs))).1 ≡ length xs)
    unfolding log_of keys delete_keys
    delete_keys-log_of d n [] ys e fits =
        (e ∙ (let z : n ≡ n + 0 = omega arith in ap (λ (i : ℕ). log_of i ys) z), refl)
    delete_keys-log_of d n (x ∷ xs) ys e fits =
        let rest =
          delete_keys-log_of (db.delete d (key n)).0 (suc n) xs ys
            (lawful.iter-delete d (key n) ∙ rw e (remove-log_of n x (xs ++ ys) (omega arith)))
            (omega arith) in
        let z : suc n + length xs ≡ n + suc (length xs) = omega arith in
        let found : (db.delete d (key n)).1 ≡ true =
          lawful.delete_found d (key n)
          ∙ rw e (ground (arith, text_eq-key n n (omega arith) (omega arith))) in
        (rest.0 ∙ ap (λ (i : ℕ). log_of i ys) z, rw found (omega (arith, rest.1)))
