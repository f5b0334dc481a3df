-- ===== src/Lmdb/Scan.antt =====
-- `scan_range` of lmdb.rs beside a plain filter of the keys.
use stplr.Base.{
  ℕ, zero, suc, ◌≤◌, ◌≡◌, refl, ap, ◌∙◌, inl, inr, Bool, true, false, not, ◌&&◌, Option, none, some,
  List, [], ◌∷◌, ◌++◌, append-nil, append_assoc, arith, Bool-cases, nat_Eq, length, take, filter_by,
  All, length-append, take-all,
}
use stplr.Store.Keys.{Ascending, filter_by-Ascending}
use stplr.StrDb.{StrDb, Codec}
use stplr.Lmdb.{Env, LmdbStore, obj_db, is_expired}
use stplr.Lmdb.Order.{IsOrdered}
use stplr.Store.{map_or, in_range}
use stplr.Dict.{keys, get}
use stplr.Lmdb.Bulk.{some_and, scan_loop, within, lower, scan_range}
use stplr.Text.{text_Eq, starts_with, text_lt, Text, text_lt_trans, text_lt_total}

-- What begins with the prefix lies together: a key between the prefix and such a key is one.
pub starts_with_between :
    (p k x : Text)
    → text_lt k p ≡ false
    → text_lt k x ≡ true
    → starts_with x p ≡ true
    → starts_with k p ≡ true
unfolding text_lt starts_with
starts_with_between [] k x l h w = refl
starts_with_between (b ∷ p) [] x l h w = absurd (cc)
starts_with_between (b ∷ p) (a ∷ k) [] l h w = absurd (cc)
starts_with_between (b ∷ p) (a ∷ k) (c ∷ x) l h w = ground (arith, starts_with_between p k x)

starts_with-ge : (k p : Text) → starts_with k p ≡ true → text_lt k p ≡ false
unfolding text_lt starts_with
starts_with-ge k [] w = refl
starts_with-ge [] (b ∷ p) w = absurd (cc)
starts_with-ge (a ∷ k) (b ∷ p) w = ground (arith, starts_with-ge k p)

take_full : (n : ℕ) (out ks : List Text) → length out ≡ n → take n (out ++ ks) ≡ out
take_full zero [] ks h = refl
take_full zero (x ∷ out) ks h = absurd (omega (arith, h))
take_full (suc n) [] ks h = absurd (omega (arith, h))
take_full (suc n) (x ∷ out) ks h =
    ap (λ (u : List Text). x ∷ u) (take_full n out ks (omega (arith, h)))

filter_by-none :
    (q : Text → Bool) (ks : List Text) → All (λ x. q x ≡ false) ks → filter_by q ks ≡ []
filter_by-none q [] a = refl
filter_by-none q (k ∷ ks) a = ground (arith, filter_by-none q ks a.1)

filter_by-twice :
    (q r w : Text → Bool) (ks : List Text)
    → ((k : Text) → (q k && r k) ≡ w k)
    → filter_by r (filter_by q ks) ≡ filter_by w ks
filter_by-twice q r w [] h = refl
filter_by-twice q r w (k ∷ ks) h = ground (arith, h k, filter_by-twice q r w ks h)

-- A key that is at the prefix or behind it.
abbrev At : Option Text → Text → Type 0
At none k = Unit
At (some p) k = text_lt k p ≡ false

map_or-some_and :
    (o : Option Text) (p : Text → Bool) → map_or o p ≡ not (some_and o (λ t. not (p t)))
map_or-some_and none p = refl
map_or-some_and (some t) p = ground arith

past_end :
    (end : Option Text) (k x : Text)
    → text_lt k x ≡ true
    → some_and end (λ e. not (text_lt k e)) ≡ true
    → map_or end (λ e. text_lt x e) ≡ false
past_end none k x w h = absurd (cc)
past_end (some e) k x w h = ground (arith, text_lt_trans k x e)

past_prefix :
    (prefix : Option Text) (k x : Text)
    → At prefix k
    → text_lt k x ≡ true
    → some_and prefix (λ p. not (starts_with k p)) ≡ true
    → map_or prefix (λ p. starts_with x p) ≡ false
past_prefix none k x f w h = absurd (cc)
past_prefix (some p) k x f w h = ground (arith, starts_with_between p k x)

module _ (prefix end : Option Text) (expired : Text → Bool) where
  -- What the loop keeps.
  abbrev kept : Text → Bool
  kept k =
      map_or prefix (λ p. starts_with k p) && (map_or end (λ e. text_lt k e) && not (expired k))

  all_past_end :
      (k : Text) (ks : List Text)
      → some_and end (λ e. not (text_lt k e)) ≡ true
      → All (λ x. text_lt k x ≡ true) ks
      → All (λ x. kept x ≡ false) ks
  all_past_end k [] h a = tt
  all_past_end k (x ∷ ks) h a = (ground (arith, past_end end k x a.0 h), all_past_end k ks h a.1)

  all_past_prefix :
      (k : Text) (ks : List Text)
      → At prefix k
      → some_and prefix (λ p. not (starts_with k p)) ≡ true
      → All (λ x. text_lt k x ≡ true) ks
      → All (λ x. kept x ≡ false) ks
  all_past_prefix k [] f h a = tt
  all_past_prefix k (x ∷ ks) f h a =
      (ground (arith, past_prefix prefix k x f a.0 h), all_past_prefix k ks f h a.1)

  -- Where one of the two `break`s is taken, nothing more is kept.
  kept-past_end :
      (k : Text) (ks : List Text)
      → Ascending (k ∷ ks)
      → some_and end (λ e. not (text_lt k e)) ≡ true
      → filter_by kept (k ∷ ks) ≡ []
  kept-past_end k ks a h =
      filter_by-none kept (k ∷ ks)
        (ground (arith, map_or-some_and end (λ e. text_lt k e)), all_past_end k ks h a.0)

  kept-past_prefix :
      (k : Text) (ks : List Text)
      → Ascending (k ∷ ks)
      → At prefix k
      → some_and prefix (λ p. not (starts_with k p)) ≡ true
      → filter_by kept (k ∷ ks) ≡ []
  kept-past_prefix k ks a f h =
      filter_by-none kept (k ∷ ks) (
        ground (arith, map_or-some_and prefix (λ p. starts_with k p)),
        all_past_prefix k ks f h a.0,
      )

  stops :
      (limit : ℕ) (out ks : List Text) → length out ≤ limit → ks ≡ [] → out ≡ take limit (out ++ ks)
  stops limit out ks fits e = rw (e, append-nil out, take-all limit out fits) refl

  loop-filter :
      (limit : ℕ) (out ks : List Text)
      → Ascending ks
      → All (At prefix) ks
      → length out ≤ limit
      → scan_loop prefix end limit expired out ks ≡ take limit (out ++ filter_by kept ks)
  unfolding scan_loop
  loop-filter limit out [] a f fits = stops limit out [] fits refl
  loop-filter limit out (k ∷ ks) a f fits = ground (
    arith,
    take_full limit out (filter_by kept (k ∷ ks)),
    map_or-some_and prefix (λ p. starts_with k p),
    map_or-some_and end (λ e. text_lt k e),
    loop-filter limit out ks a.1 f.1 fits,
    loop-filter limit (out ++ k ∷ []) ks a.1 f.1,
    length-append out (k ∷ []),
    append_assoc out (k ∷ []) (filter_by kept ks),
    stops limit out (filter_by kept (k ∷ ks)) fits,
    kept-past_end k ks a,
    kept-past_prefix k ks a f.0,
  )

within-At :
    (after prefix : Option Text) (k : Text) → within (lower after prefix) k ≡ true → At prefix k
unfolding within lower
within-At after none k h = tt
within-At none (some p) k h = ground arith
within-At (some a) (some p) k h = elim (Bool-cases (text_lt a p)) [
  | inl before ↦ ground (arith, before, h)
  | inr behind ↦
      ground (arith, behind, h, text_lt_trans k p a, text_lt_trans a k p, text_lt_total a k)
]

within-kept :
    (after prefix end : Option Text) (expired : Text → Bool) (k : Text)
    → (within (lower after prefix) k && kept prefix end expired k)
      ≡ (in_range after prefix end k && not (expired k))
unfolding within lower
within-kept none none end expired k = ground arith
within-kept (some a) none end expired k = ground arith
within-kept none (some p) end expired k = ground (arith, starts_with-ge k p)
within-kept (some a) (some p) end expired k = elim (Bool-cases (text_lt a p)) [
  | inl before ↦
      rw before (ground (arith, before, starts_with-ge k p, text_lt_trans a p k, text_lt_total p k))
  | inr behind ↦ rw behind (ground arith)
]

all_within :
    (after prefix : Option Text) (ks : List Text)
    → All (At prefix) (filter_by (within (lower after prefix)) ks)
all_within after prefix [] = tt
all_within after prefix (k ∷ ks) = elim (Bool-cases (within (lower after prefix) k)) [
  | inl y ↦ rw y (within-At after prefix k y, all_within after prefix ks)
  | inr n ↦ rw n (all_within after prefix ks)
]

-- The keys of a collection, live or not.
abbrev pub stored_keys : {D : Type 0} → StrDb D → Env D → Text → List Text
stored_keys db env coll = elim (get env (obj_db coll)) [ none ↦ [] | some d ↦ keys (db.iter d) ]

module _ {D V : Type 0} (db : StrDb D) (empty : D) (codec : Codec V) (as_u64 : V → Option ℕ)
    (now : ℕ) (s : LmdbStore D) (coll : Text) (after prefix end : Option Text) (limit : ℕ) where
  loop-stored :
      (ks : List Text)
      → Ascending ks
      → scan_loop prefix end limit
          (is_expired db empty now s coll)
          []
          (filter_by (within (lower after prefix)) ks)
        ≡ take limit (
            filter_by
              (λ k. in_range after prefix end k && not (is_expired db empty now s coll k))
              ks)
  loop-stored ks a =
      let expired = is_expired db empty now s coll in
      loop-filter prefix end expired limit [] (filter_by (within (lower after prefix)) ks)
        (filter_by-Ascending (within (lower after prefix)) ks a) (all_within after prefix ks)
        (omega arith)
      ∙ ap (take limit) (
          filter_by-twice (within (lower after prefix)) (kept prefix end expired)
            (λ k. in_range after prefix end k && not (expired k)) ks
            (within-kept after prefix end expired))

  found_at :
      (found : Option D)
      → ((d : D) → found ≡ some d → Ascending (keys (db.iter d)))
      → (elim found [
        | none ↦ []
        | some d ↦
            scan_loop prefix end limit
              (is_expired db empty now s coll)
              []
              (filter_by (within (lower after prefix)) (keys (db.iter d)))
      ])
        ≡ take limit (
            filter_by
              (λ k. in_range after prefix end k && not (is_expired db empty now s coll k))
              (elim found [ none ↦ [] | some d ↦ keys (db.iter d) ]))
  unfolding scan_loop
  found_at none h = loop-stored [] tt
  found_at (some d) h = loop-stored (keys (db.iter d)) (h d refl)

  -- If every database has its keys in order, then the scan of the LMDB store, which seeks to its
  -- lower bound and breaks off early, gives the first `limit` of the collection's keys that lie in
  -- the bounds and have not expired.
  pub scan_range-filter :
      IsOrdered db s.env
      → scan_range db empty codec as_u64 now s coll after prefix end limit
        ≡ take limit (
            filter_by
              (λ k. in_range after prefix end k && not (is_expired db empty now s coll k))
              (stored_keys db s.env coll))
  unfolding scan_range
  scan_range-filter ordered = found_at (get s.env (obj_db coll)) (ordered (obj_db coll))
