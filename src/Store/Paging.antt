-- ===== src/Store/Paging.antt =====
-- `scan_buckets` of store.rs: the paged loop beside a single pass over all keys.
use stplr.Base.{
  ℕ, zero, suc, ◌+◌, ◌-◌, ◌≤◌, ◌<◌, ◌≡◌, refl, sym, ap, ◌∙◌, inl, inr, Bool, true, false, Option,
  none, some, List, [], ◌∷◌, ◌++◌, append-nil, append_assoc, arith, leb, nat_eq, leb→le, Bool-cases,
  nat_Eq, length, take, filter_by, All, length-append, length-take, drop, take-drop, length-drop,
  take-all, length-filter_by, filter_by-append, contains,
}
use stplr.Text.{Text, text_Eq, text_lt, text_lt_trans}
use stplr.Dict.{length-keys, keys}
use stplr.Sort.{length-sort_by, sort_by}
use stplr.Partitioner.{bucket_of}
use stplr.Store.{
  scan_buckets, IndexStore, text_le, in_range, last_key, push_wanted, scan_range, scan_loop,
}
use stplr.Store.Laws.{StoreLaws}
use stplr.Store.Keys.{sort_by-Ascending, All-take, Ascending, filter_by-Ascending, beyond-last}

-- The keys of the wanted buckets.
abbrev pub wanted : List ℕ → List Text → List Text
wanted want = filter_by (λ k. contains want (bucket_of k))

take-nil : (n : ℕ) → take {A = Text} n [] ≡ []
take-nil zero = refl
take-nil (suc n) = refl

append-snoc : (xs : List Text) (x : Text) (ys : List Text) → (xs ++ x ∷ []) ++ ys ≡ xs ++ x ∷ ys
append-snoc [] x ys = refl
append-snoc (y ∷ xs) x ys = ground (arith, append-snoc xs x ys)

take-next :
    (limit n : ℕ) (k : Text) (ks : List Text)
    → n < limit
    → take (limit - n) (k ∷ ks) ≡ k ∷ take (limit - (n + 1)) ks
take-next limit n k ks h = let e : limit - n ≡ suc (limit - (n + 1)) = omega arith in rw e refl

take-none : (limit n : ℕ) (ks : List Text) → limit ≤ n → take (limit - n) ks ≡ []
take-none limit n ks h = rw (let e : limit - n ≡ 0 = omega arith in e) refl

take-append_enough : (n : ℕ) (xs ys : List Text) → n ≤ length xs → take n (xs ++ ys) ≡ take n xs
take-append_enough zero xs ys h = refl
take-append_enough (suc n) [] ys h = absurd (omega arith)
take-append_enough (suc n) (x ∷ xs) ys h = ground (arith, take-append_enough n xs ys)

take-append_more :
    (n : ℕ) (xs ys : List Text) → length xs ≤ n → take n (xs ++ ys) ≡ xs ++ take (n - length xs) ys
take-append_more n [] ys h = rw (let e : n - 0 ≡ n = omega arith in e) refl
take-append_more zero (x ∷ xs) ys h = absurd (omega arith)
take-append_more (suc n) (x ∷ xs) ys h =
    let e : suc n - suc (length xs) ≡ n - length xs = omega arith in
    rw e (ground (arith, take-append_more n xs ys))

module _ (want : List ℕ) (limit : ℕ) where
  -- The inner loop pushes what there is room for, and returns early once the limit is met.
  push_wanted_lem :
      (out page : List Text)
      → length out < limit
      → ((push_wanted want limit out page).0 ≡ out ++ take (limit - length out) (wanted want page))
        × ((push_wanted want limit out page).1 ≡ leb limit (length out + length (wanted want page)))
  unfolding push_wanted
  push_wanted_lem out [] h = ground (arith, take-nil (limit - length out), append-nil out)
  push_wanted_lem out (k ∷ page) h =
      let out' = out ++ k ∷ [] in
      ground (
        arith,
        push_wanted_lem out page h,
        push_wanted_lem out' page,
        length-append out (k ∷ []),
        take-next limit (length out) k (wanted want page),
        append-snoc out k (take (limit - (length out + 1)) (wanted want page)),
        take-none limit (length out + 1) (wanted want page),
      )

-- The keys beyond a cursor.
abbrev left : Option Text → List Text → List Text
left cursor = filter_by (in_range cursor none none)

filter_by_twice :
    (p q : Text → Bool) (ks : List Text)
    → ((k : Text) → q k ≡ true → p k ≡ true)
    → filter_by q ks ≡ filter_by q (filter_by p ks)
filter_by_twice p q [] h = refl
filter_by_twice p q (k ∷ ks) h = ground (arith, filter_by_twice p q ks h, h k)

All-kept : (p : Text → Bool) (ks : List Text) → All (λ k. p k ≡ true) (filter_by p ks)
All-kept p [] = tt
All-kept p (k ∷ ks) = ground (arith, All-kept p ks)

filter_by-same :
    (p q : Text → Bool) (ks : List Text)
    → ((k : Text) → p k ≡ q k)
    → filter_by p ks ≡ filter_by q ks
filter_by-same p q [] h = refl
filter_by-same p q (k ∷ ks) h = ground (arith, filter_by-same p q ks h, h k)

last-All :
    (p : Text → Bool) (ks : List Text) (l : Text)
    → All (λ k. p k ≡ true) ks
    → last_key ks ≡ some l
    → p l ≡ true
last-All p [] l a h = absurd (cc)
last-All p (k ∷ []) l a h = ground arith
last-All p (k ∷ k' ∷ ks) l a h = last-All p (k' ∷ ks) l a.1 h

last-in :
    (p : Text → Bool) (n : ℕ) (ks : List Text) (l : Text)
    → last_key (take n (filter_by p ks)) ≡ some l
    → p l ≡ true
last-in p n ks l h =
    last-All p (take n (filter_by p ks)) l
      (All-take (λ k. p k ≡ true) n (filter_by p ks) (All-kept p ks)) h

beyond-left :
    (cursor : Option Text) (l k : Text)
    → in_range cursor none none l ≡ true
    → in_range (some l) none none k ≡ true
    → in_range cursor none none k ≡ true
beyond-left none l k h i = refl
beyond-left (some c) l k h i = ground (arith, text_lt_trans c l k)

-- After a page that ends in `l`, the keys beyond `l` are those that the page left.
left-last :
    (n : ℕ) (ks : List Text) (cursor : Option Text) (l : Text)
    → Ascending ks
    → last_key (take n (left cursor ks)) ≡ some l
    → left (some l) ks ≡ drop n (left cursor ks)
left-last n ks cursor l a h =
    filter_by_twice (in_range cursor none none) (in_range (some l) none none) ks
      (λ k. beyond-left cursor l k (last-in (in_range cursor none none) n ks l h))
    ∙ (filter_by-same (in_range (some l) none none) (λ k. text_lt l k) (left cursor ks)
          (λ k. ground arith)
        ∙ beyond-last n (left cursor ks) l (filter_by-Ascending (in_range cursor none none) ks a) h)

empty-page : (n : ℕ) (ks : List Text) → nat_eq (length (take (suc n) ks)) 0 ≡ true → ks ≡ []
empty-page n [] h = refl
empty-page n (k ∷ ks) h = absurd (ground arith)

short-page : (n : ℕ) (ks : List Text) → nat_eq (length (take n ks)) n ≡ false → take n ks ≡ ks
short-page n ks h = take-all n ks (ground (arith, length-take n ks))

last-some : (ks : List Text) → nat_eq (length ks) 0 ≡ false → (l : Text) × (last_key ks ≡ some l)
last-some [] h = absurd (ground arith)
last-some (k ∷ []) h = (k, refl)
last-some (k ∷ k' ∷ ks) h = last-some (k' ∷ ks) (ground arith)

module _ (want : List ℕ) (limit n : ℕ) (out ks : List Text) where
  wanted-split : wanted want ks ≡ wanted want (take n ks) ++ wanted want (drop n ks)
  wanted-split =
      ap (λ (l : List Text). wanted want l) (sym (take-drop n ks))
      ∙ filter_by-append (λ k. contains want (bucket_of k)) (take n ks) (drop n ks)

  limit-met :
      leb limit (length out + length (wanted want (take n ks))) ≡ true
      → out ++ take (limit - length out) (wanted want (take n ks))
        ≡ out ++ take (limit - length out) (wanted want ks)
  limit-met h = rw wanted-split (
      ap (λ (l : List Text). out ++ l)
        (sym (
          take-append_enough (limit - length out) (wanted want (take n ks))
            (wanted want (drop n ks)) (omega (arith, leb→le _ _ h)))))

  limit-open :
      leb limit (length out + length (wanted want (take n ks))) ≡ false
      → (out' : List Text) × (out' ≡ out ++ take (limit - length out) (wanted want (take n ks)))
        × (length out' < limit)
        × (out' ++ take (limit - length out') (wanted want (drop n ks))
            ≡ out ++ take (limit - length out) (wanted want ks))
  limit-open h =
      let found = wanted want (take n ks) in
      let more = wanted want (drop n ks) in
      let below : length out + length found < limit = ground arith in
      let size = length-append out found in
      let left_over : limit - length (out ++ found) ≡ limit - length out - length found =
        omega (arith, size) in
      (
        out ++ found,
        ap (λ (l : List Text). out ++ l) (sym (take-all (limit - length out) found (omega arith))),
        omega (arith, size),
        rw (wanted-split, take-append_more (limit - length out) found more (omega arith), left_over)
            (append_assoc out found (take (limit - length out - length found) more)),
      )

module _ {S V : Type 0} (o : IndexStore S V) (now : ℕ) (s : S) (coll : Text) where
  abbrev all_keys : List Text
  all_keys = sort_by text_le (keys (o.scan_entries now s coll))

  module _ (want : List ℕ) (limit n : ℕ) (ascending : Ascending all_keys) where
    page_lem :
        (cursor : Option Text)
        → scan_range o now s coll cursor none none (suc n) ≡ take (suc n) (left cursor all_keys)
    unfolding scan_range
    page_lem cursor = refl

    -- A full page goes on behind its last key, with less left.
    next-page :
        (cursor : Option Text)
        → nat_eq (length (take (suc n) (left cursor all_keys))) 0 ≡ false
        → (l : Text) × (last_key (take (suc n) (left cursor all_keys)) ≡ some l)
          × (left (some l) all_keys ≡ drop (suc n) (left cursor all_keys))
          × (length (left (some l) all_keys) < length (left cursor all_keys))
    next-page cursor h =
        let ks = left cursor all_keys in
        let (l, e) = last-some (take (suc n) ks) h in
        let rest = left-last (suc n) all_keys cursor l ascending e in
        (l, e, rest, rw rest (ground (arith, length-drop (suc n) ks, length-take (suc n) ks)))

    nothing-left :
        (ks out : List Text) → ks ≡ [] → out ++ take (limit - length out) (wanted want ks) ≡ out
    nothing-left ks out e = rw (e, take-nil (limit - length out)) (append-nil out)

    -- The loop with fuel for every key that is left.
    scan_loop_lem :
        (fuel : ℕ) (cursor : Option Text) (out : List Text)
        → length out < limit
        → length (left cursor all_keys) < fuel
        → scan_loop o (suc n) now s coll want limit fuel cursor out
          ≡ some (out ++ take (limit - length out) (wanted want (left cursor all_keys)))
    unfolding scan_loop
    scan_loop_lem zero cursor out room fits = absurd (omega arith)
    scan_loop_lem (suc fuel) cursor out room fits =
        let ks = left cursor all_keys in
        let page = take (suc n) ks in
        let pushed = push_wanted_lem want limit out page room in
        rw (page_lem cursor, pushed.1, pushed.0)
          (elim (Bool-cases (nat_eq (length page) 0)) [
            | inl empty ↦ rw (empty, nothing-left ks out (empty-page n ks empty)) refl
            | inr found ↦ elim (Bool-cases (leb limit (length out + length (wanted want page)))) [
              | inl met ↦ rw (found, met) (ap some (limit-met want limit (suc n) out ks met))
              | inr more ↦ elim (Bool-cases (nat_eq (length page) (suc n))) [
                | inl full ↦
                    let (l, e, rest, less) = next-page cursor found in
                    let (out', same, room', goal) = limit-open want limit (suc n) out ks more in
                    rw (found, more, full, e, ← same)
                      (scan_loop_lem fuel (some l) out' room' (omega arith)
                        ∙ rw rest (ap some goal))
                | inr short ↦
                    rw (found, more, short)
                      (ap
                        (λ (l : List Text). some (out ++ take (limit - length out) (wanted want l)))
                        (short-page (suc n) ks short))
              ]
            ]
          ])

module _ {S V : Type 0} {Valid : S → Type 0} (o : IndexStore S V) (laws : StoreLaws o Valid) where
  -- Over a well-formed store that keeps the laws, for a positive limit, the paged scan by buckets
  -- ends within its fuel and gives the keys of the wanted buckets that one unpaged scan behind the
  -- cursor gives, in its order, up to the limit.
  pub scan_buckets-eq-filter :
      (now : ℕ) (s : S) (coll : Text) (buckets : List ℕ) (after : Option Text) (limit : ℕ)
      → Valid s
      → 0 < limit
      → scan_buckets o now s coll buckets after limit
        ≡ some (
            take limit (
              wanted buckets
                (scan_range o now s coll after none none (length (o.scan_entries now s coll)))))
  unfolding scan_buckets scan_range
  scan_buckets-eq-filter now s coll buckets after limit valid pos =
      let entries = o.scan_entries now s coll in
      let ks = sort_by text_le (keys entries) in
      let found = left after ks in
      let fits : length found ≤ length entries = omega (
        arith,
        length-filter_by (in_range after none none) ks,
        length-sort_by text_le (keys entries),
        length-keys entries,
      ) in
      rw (take-all (length entries) found fits) (
        scan_loop_lem o now s coll buckets limit 1023
          (sort_by-Ascending (keys entries) (laws.entries-Distinct now s coll valid))
          (suc (length entries)) after [] pos (omega arith)
        ∙ (let e : limit - 0 ≡ limit = omega arith in rw e refl))
