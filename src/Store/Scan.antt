-- ===== src/Store/Scan.antt =====
-- `scan_range` of store.rs, over any store that keeps the laws.
use stplr.Base.{
  ℕ, zero, suc, ◌≤◌, ◌≡◌, refl, sym, ap, subst, ◌∙◌, ◌⊎◌, inl, inr, Bool, true, ◌&&◌, Option, none,
  some, List, [], ◌∷◌, ◌++◌, arith, Bool-cases, ◌==◌, nat_Eq, is_some, length, take, filter_by, All,
  length-take, contains, contains-take, contains-filter_by,
}
use stplr.Text.{Text, text_Eq, text_eq_iff, text_lt, starts_with}
use stplr.Dict.{keys, get-present}
use stplr.Sort.{sort_by, contains-sort_by}
use stplr.Store.{map_or, IndexStore, text_le, in_range, scan_range}
use stplr.Store.Laws.{StoreLaws}
use stplr.Store.Keys.{Ascending, sort_by-Ascending, filter_by-Ascending, take-Ascending}

-- A key that the bounds let in: behind the cursor, beginning with the prefix, and before the end.
pub record InBounds (after prefix end : Option Text) (k : Text) : Type 0 where
  pub behind : (a : Text) → after ≡ some a → text_lt a k ≡ true
  pub begins : (p : Text) → prefix ≡ some p → (rest : Text) × (k ≡ p ++ rest)
  pub before : (e : Text) → end ≡ some e → text_lt k e ≡ true

-- A page of at most `limit` of the keys that satisfy `P`: the first ones, in their order.
pub record IsPage (P : Text → Type 0) (limit : ℕ) (page : List Text) : Type 0 where
  pub ascending : Ascending page
  pub short : length page ≤ limit
  pub sound : (k : Text) → contains page k ≡ true → P k
  pub complete :
      (k : Text)
      → P k
      → (contains page k ≡ true) ⊎ ((length page ≡ limit) × All (λ x. text_lt x k ≡ true) page)

begins_lem : (k p : Text) → starts_with k p ≡ true → (rest : Text) × (k ≡ p ++ rest)
unfolding starts_with
begins_lem k [] h = (k, refl)
begins_lem [] (b ∷ p) h = absurd (cc)
begins_lem (a ∷ k) (b ∷ p) h =
    let same : a ≡ b = ground (arith, h) in
    let (rest, e) = begins_lem k p (ground (arith, h)) in
    (rest, ap (λ (u : Text). a ∷ u) e ∙ ap (λ (c : ℕ). c ∷ (p ++ rest)) same)

starts_with-append : (p rest : Text) → starts_with (p ++ rest) p ≡ true
unfolding starts_with
starts_with-append [] rest = refl
starts_with-append (b ∷ p) rest = ground (arith, starts_with-append p rest)

map_or-some :
    (o : Option Text) (q : Text → Bool) → map_or o q ≡ true → (t : Text) → o ≡ some t → q t ≡ true
map_or-some none q h t e = absurd (cc)
map_or-some (some u) q h t e = subst (λ (x : Text). q x ≡ true) (ground (arith, e)) h

map_or_each :
    (o : Option Text) (q : Text → Bool) → ((t : Text) → o ≡ some t → q t ≡ true) → map_or o q ≡ true
map_or_each none q h = refl
map_or_each (some t) q h = h t refl

in_range-InBounds :
    (after prefix end : Option Text) (k : Text)
    → in_range after prefix end k ≡ true
    → InBounds after prefix end k
in_range-InBounds after prefix end k h = record {
  behind = map_or-some after (λ a. text_lt a k) (ground (arith, h));
  begins =
      λ p e. begins_lem k p (map_or-some prefix (λ q. starts_with k q) (ground (arith, h)) p e);
  before = map_or-some end (λ e. text_lt k e) (ground (arith, h));
}

InBounds-in_range :
    (after prefix end : Option Text) (k : Text)
    → InBounds after prefix end k
    → in_range after prefix end k ≡ true
InBounds-in_range after prefix end k h =
    let starts = λ (p : Text) (q : prefix ≡ some p).
      let (rest, e) = h.begins p q in
      subst (λ (x : Text). starts_with x p ≡ true) (sym e) (starts_with-append p rest) in
    ground (
      arith,
      map_or_each after (λ a. text_lt a k) h.behind,
      map_or_each prefix (λ p. starts_with k p) starts,
      map_or_each end (λ e. text_lt k e) h.before,
    )

All-contains :
    (x : Text) (ks : List Text) (k : Text)
    → All (λ y. text_lt x y ≡ true) ks
    → contains ks k ≡ true
    → text_lt x k ≡ true
All-contains x [] k a h = absurd (cc)
All-contains x (y ∷ ks) k a h = ground (arith, All-contains x ks k a.1, text_eq_iff y k)

take-first :
    (n : ℕ) (ks : List Text) (k : Text)
    → Ascending ks
    → contains ks k ≡ true
    → (contains (take n ks) k ≡ true)
      ⊎ ((length (take n ks) ≡ n) × All (λ x. text_lt x k ≡ true) (take n ks))
take-first zero ks k a h = inr (refl, tt)
take-first (suc n) [] k a h = absurd (cc)
take-first (suc n) (x ∷ ks) k a h = elim (Bool-cases (x == k)) [
  | inl same ↦ inl (ground (arith, same))
  | inr apart ↦
      let there : contains ks k ≡ true = ground (arith, h, apart) in
      elim (take-first n ks k a.1 there) [
        | inl shown ↦ inl (ground (arith, shown))
        | inr (full, below) ↦ inr (omega (arith, full), (All-contains x ks k a.0 there, below))
      ]
]

was_there :
    (n : ℕ) (ks : List Text) (k : Text) → contains (take n ks) k ≡ true → contains ks k ≡ true
was_there n ks k h = ground (arith, h, contains-take n ks k)

module _ {S V : Type 0} {Valid : S → Type 0} (o : IndexStore S V) (laws : StoreLaws o Valid)
    (now : ℕ) (s : S) (coll : Text) (valid : Valid s) (after prefix end : Option Text) where
  -- Over a well-formed store that keeps the laws a page of a scan is strictly ascending and no
  -- longer than the limit, whatever the bounds.
  pub scan_range-Ascending :
      (limit : ℕ)
      → Ascending (scan_range o now s coll after prefix end limit)
        × (length (scan_range o now s coll after prefix end limit) ≤ limit)
  unfolding scan_range
  scan_range-Ascending limit =
      let found =
        filter_by (in_range after prefix end)
          (sort_by text_le (keys (o.scan_entries now s coll))) in
      (
        take-Ascending limit found (
            filter_by-Ascending (in_range after prefix end)
              (sort_by text_le (keys (o.scan_entries now s coll)))
              (sort_by-Ascending (keys (o.scan_entries now s coll))
                (laws.entries-Distinct now s coll valid))),
        omega (arith, length-take limit found),
      )

  -- Whether a key lies in the bounds and reads a value.
  abbrev pub IsWanted : Text → Type 0
  IsWanted k = InBounds after prefix end k × (is_some (o.get_object now s coll k) ≡ true)

  found_lem :
      (k : Text)
      → contains
          (filter_by
            (in_range after prefix end)
            (sort_by text_le (keys (o.scan_entries now s coll))))
          k
        ≡ (in_range after prefix end k && is_some (o.get_object now s coll k))
  found_lem k =
      contains-filter_by (in_range after prefix end)
        (sort_by text_le (keys (o.scan_entries now s coll))) k
      ∙ ap (λ (b : Bool). in_range after prefix end k && b)
          (contains-sort_by text_le (keys (o.scan_entries now s coll)) k
            ∙ (get-present (o.scan_entries now s coll) k
                ∙ ap (is_some {A = V}) (laws.get-entries now s coll k valid)))

  -- Over a well-formed store that keeps the laws: a page of a scan is strictly ascending and no
  -- longer than the limit; each of its keys lies behind the cursor, begins with the prefix, lies
  -- before the end, and reads a value; and each such key is in the page, unless the page is full
  -- of smaller ones.
  pub scan_range-IsPage :
      (limit : ℕ) → IsPage IsWanted limit (scan_range o now s coll after prefix end limit)
  unfolding scan_range
  scan_range-IsPage limit =
      let found =
        filter_by (in_range after prefix end)
          (sort_by text_le (keys (o.scan_entries now s coll))) in
      let rising =
        filter_by-Ascending (in_range after prefix end)
          (sort_by text_le (keys (o.scan_entries now s coll)))
          (sort_by-Ascending (keys (o.scan_entries now s coll))
            (laws.entries-Distinct now s coll valid)) in
      record {
        ascending = (scan_range-Ascending limit).0;
        short = (scan_range-Ascending limit).1;
        sound = λ k h.
            let there = sym (found_lem k) ∙ was_there limit found k h in
            (in_range-InBounds after prefix end k (ground (arith, there)), ground (arith, there));
        complete = λ k (w, r).
            take-first limit found k rising
              (found_lem k ∙ ground (arith, InBounds-in_range after prefix end k w, r));
      }
