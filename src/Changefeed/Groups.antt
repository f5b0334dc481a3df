-- ===== src/Changefeed/Groups.antt =====
-- The log of changefeed.rs: numbers, retention, and the reads and commits of consumer groups.
use stplr.Base.{
  ℕ, zero, suc, ◌+◌, ◌-◌, ◌≤◌, ◌<◌, ◌≡◌, refl, sym, ap, subst, ◌∙◌, inl, inr, Bool, List, [], ◌∷◌,
  ◌++◌, arith, ltb, leb, ltb→lt, Bool-cases, nat_Eq, length, take, filter_by, length-append, drop,
  length-drop, beq_self,
}
use stplr.Text.{Text, text_Eq}
use stplr.Word.{u64_mod, add_u64, add_u64-eq}
use stplr.Dict.{get, insert, get-insert}
use stplr.Changefeed.{
  or_zero, committed_offset, commit_offset, read_group, ChangeEvent, MemoryChangeLog, new, append,
  read, latest_seq, compact, retain_latest,
}

-- The events have the numbers from `n` on without a gap.
abbrev pub Numbered : ℕ → List ChangeEvent → Type 0
Numbered n [] = Unit
Numbered n (e ∷ es) = (e.seq ≡ n) × Numbered (suc n) es

-- The buffer holds the last events, without a gap, up to the last number given.
pub record IsLog (log : MemoryChangeLog) : Type 0 where
  pub lowest : ℕ
  pub numbered : Numbered lowest log.inner
  pub upto : lowest + length log.inner ≡ log.next + 1
  pub positive : 0 < lowest

pub new-IsLog : IsLog new
unfolding new
new-IsLog = record { lowest = 1; numbered = tt; upto = refl; positive = omega arith }

Numbered-snoc :
    (n : ℕ) (es : List ChangeEvent) (e : ChangeEvent)
    → Numbered n es
    → e.seq ≡ n + length es
    → Numbered n (es ++ e ∷ [])
Numbered-snoc n [] e h s = (omega arith, tt)
Numbered-snoc n (x ∷ es) e h s = (h.0, Numbered-snoc (suc n) es e h.1 (omega arith))

-- An event gets the next number and comes last.
pub append-IsLog :
    (log : MemoryChangeLog) (op value set doc_id : Text)
    → IsLog log
    → log.next + 1 < u64_mod
    → IsLog (append log op value set doc_id).0 × ((append log op value set doc_id).1 ≡ log.next + 1)
unfolding append
append-IsLog log op value set doc_id h fits =
    let n = add_u64 log.next 1 in
    let event : ChangeEvent = record {
      seq = n;
      op = op;
      value = value;
      set = set;
      doc_id = doc_id;
    } in
    let number = add_u64-eq log.next 1 fits in
    (
      record {
        lowest = h.lowest;
        numbered =
            Numbered-snoc h.lowest log.inner event h.numbered (omega (arith, h.upto, number));
        upto = omega (arith, h.upto, number, length-append log.inner (event ∷ []));
        positive = h.positive;
      },
      number,
    )

drop-nil : (k : ℕ) → drop {A = ChangeEvent} k [] ≡ []
drop-nil zero = refl
drop-nil (suc k) = refl

-- What a reader behind `since` sees of events numbered from `n` on.
after-drop :
    (n since : ℕ) (es : List ChangeEvent)
    → Numbered n es
    → filter_by (λ e. ltb since e.seq) es ≡ drop (suc since - n) es
after-drop n since [] h = sym (drop-nil (suc since - n))
after-drop n since (e ∷ es) h =
    let rest = after-drop (suc n) since es h.1 in
    elim (Bool-cases (ltb since e.seq)) [
      | inl newer ↦
          let a : suc since - n ≡ 0 = omega (arith, ltb→lt since e.seq newer, h.0) in
          let b : suc since - suc n ≡ 0 = omega (arith, ltb→lt since e.seq newer, h.0) in
          rw (newer, a) (ap (λ (l : List ChangeEvent). e ∷ l) (rest ∙ ap (λ (k : ℕ). drop k es) b))
      | inr older ↦
          let a : suc since - n ≡ suc (suc since - suc n) = ground (arith, h.0) in
          rw (older, a) rest
    ]

-- A read gives the events behind the offset in order, without a gap, up to the limit.
pub read-IsLog :
    (log : MemoryChangeLog) (since limit : ℕ)
    → (h : IsLog log) → read log since limit ≡ take limit (drop (suc since - h.lowest) log.inner)
unfolding read
read-IsLog log since limit h =
    ap (λ (l : List ChangeEvent). take limit l) (after-drop h.lowest since log.inner h.numbered)

leb-as-ltb : (before k : ℕ) → leb (suc before) k ≡ ltb before k
leb-as-ltb before k = ground arith

filter_by-same :
    (p q : ChangeEvent → Bool) (es : List ChangeEvent)
    → ((e : ChangeEvent) → p e ≡ q e)
    → filter_by p es ≡ filter_by q es
filter_by-same p q [] h = refl
filter_by-same p q (e ∷ es) h = ground (arith, h e, filter_by-same p q es h)

Numbered-drop :
    (k n : ℕ) (es : List ChangeEvent) → Numbered n es → k ≤ length es → Numbered (n + k) (drop k es)
Numbered-drop zero n es h le =
    let e : n ≡ n + 0 = omega arith in subst (λ (m : ℕ). Numbered m es) e h
Numbered-drop (suc k) n [] h le = absurd (omega arith)
Numbered-drop (suc k) n (e ∷ es) h le =
    let s : suc n + k ≡ n + suc k = omega arith in
    subst (λ (m : ℕ). Numbered m (drop k es)) s (Numbered-drop k (suc n) es h.1 (omega arith))

abbrev left_with : MemoryChangeLog → List ChangeEvent → MemoryChangeLog × ℕ
left_with log es = (record log { inner = es }, length log.inner - length es)

compact_lem :
    (log : MemoryChangeLog) (m : ℕ) (h : IsLog log)
    → compact log (m + 1) ≡ left_with log (drop (suc m - h.lowest) log.inner)
unfolding compact
compact_lem log m h =
    ap (λ (es : List ChangeEvent). left_with log es)
      (filter_by-same (λ e. leb (m + 1) e.seq) (λ e. ltb m e.seq) log.inner (λ e. ground arith)
        ∙ after-drop h.lowest m log.inner h.numbered)

-- In a log without gaps retention keeps the newest `keep` events, or all if there are no more, and
-- says how many went; the log stays without gaps, and the next number is the same.
pub retain_latest-IsLog :
    (log : MemoryChangeLog) (keep : ℕ)
    → IsLog log
    → IsLog (retain_latest log keep).0
      × ((retain_latest log keep).0.inner ≡ drop (length log.inner - keep) log.inner)
      × ((retain_latest log keep).0.next ≡ log.next)
      × ((retain_latest log keep).1 ≡ length log.inner - keep)
unfolding retain_latest
retain_latest-IsLog log keep h = elim (Bool-cases (ltb keep (latest_seq log))) [
  | inl more ↦
      let m = latest_seq log - keep in
      let d = length log.inner - keep in
      let bound : d ≤ length log.inner = omega arith in
      let same : suc m - h.lowest ≡ d = omega (arith, h.upto, ltb→lt keep (latest_seq log) more) in
      let left : compact log (m + 1) ≡ left_with log (drop d log.inner) =
        compact_lem log m h ∙ ap (λ (k : ℕ). left_with log (drop k log.inner)) same in
      rw (more, left, retain_latest)
        (
          record {
            lowest = h.lowest + d;
            numbered = Numbered-drop d h.lowest log.inner h.numbered bound;
            upto = omega (arith, h.upto, length-drop d log.inner, bound);
            positive = omega (arith, h.positive);
          },
          refl,
          refl,
          omega (arith, length-drop d log.inner, bound),
        )
  | inr enough ↦
      let z : 0 ≡ length log.inner - keep = ground (arith, h.upto, h.positive) in
      rw (enough, retain_latest) (h, ap (λ (k : ℕ). drop k log.inner) z, refl, z)
]

take-add : (a b : ℕ) (es : List ChangeEvent) → take (a + b) es ≡ take a es ++ take b (drop a es)
take-add zero b es = let e : 0 + b ≡ b = omega arith in rw e refl
take-add (suc a) zero [] = let e : suc a + 0 ≡ suc a = omega arith in rw e refl
take-add (suc a) (suc b) [] = let e : suc a + suc b ≡ suc (a + suc b) = omega arith in rw e refl
take-add (suc a) b (x ∷ es) =
    let e : suc a + b ≡ suc (a + b) = omega arith in
    rw e (ap (λ (l : List ChangeEvent). x ∷ l) (take-add a b es))

drop-drop : (a b : ℕ) (es : List ChangeEvent) → drop a (drop b es) ≡ drop (b + a) es
drop-drop a zero es = let e : 0 + a ≡ a = omega arith in rw e refl
drop-drop a (suc b) [] = let e : suc b + a ≡ suc (b + a) = omega arith in rw e (drop-nil a)
drop-drop a (suc b) (x ∷ es) =
    let e : suc b + a ≡ suc (b + a) = omega arith in rw e (drop-drop a b es)

-- If no event behind a group's offset was compacted away: a group that reads up to `a` events,
-- moves its offset on by `a` and reads up to `b` more gets what one read of up to `a + b` gives.
pub read_group-commit_offset :
    (log : MemoryChangeLog) (group : Text) (a b : ℕ)
    → (h : IsLog log) → h.lowest ≤ suc (committed_offset log group)
    → read_group log group a
        ++ read_group (commit_offset log group (committed_offset log group + a)) group b
      ≡ read_group log group (a + b)
unfolding read_group commit_offset committed_offset read
read_group-commit_offset log group a b h kept =
    let since = committed_offset log group in
    let moved = log.inner in
    let start = suc since - h.lowest in
    let later : start + a ≡ suc (since + a) - h.lowest = omega (arith, kept) in
    let here_ : filter_by (λ e. ltb since e.seq) moved ≡ drop start moved =
      after-drop h.lowest since moved h.numbered in
    let there : filter_by (λ e. ltb (since + a) e.seq) moved ≡ drop a (drop start moved) =
      after-drop h.lowest (since + a) moved h.numbered
      ∙ (ap (λ (k : ℕ). drop k moved) (sym later) ∙ sym (drop-drop a start moved)) in
    let offset : or_zero (get (insert log.offsets group (since + a)) group) ≡ since + a =
      rw (get-insert log.offsets group (since + a) group, beq_self group) refl in
    rw (offset, here_, there) (sym (take-add a b (drop start moved)))
