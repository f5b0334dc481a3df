-- ===== src/Cluster/Data/Reads.antt =====
-- cluster.rs over in-process shards: reads after replicated writes, with owners that fail.
use stplr.Base.{
  ℕ, ◌≡◌, refl, sym, ap, subst, ◌∙◌, inl, inr, Bool, true, false, ◌&&◌, Option, none, some, List,
  [], ◌∷◌, arith, if◌then◌else◌, Bool-cases, ◌==◌, nat_Eq, is_some, All, contains,
}
use stplr.Text.{Text, text_Eq, text_eq_iff}
use stplr.Dict.{get, insert, get-insert}
use stplr.Json.{Json}
use stplr.Partitioner.{NodeId}
use stplr.Store.{IndexStore}
use stplr.Store.Laws.{StoreLaws}
use stplr.Store.Atomic.{same_key_self}
use stplr.Shard.{Shard, object, write_object}
use stplr.Client.{Shards, in_process}
use stplr.Cluster.{Cluster, owners}
use stplr.Cluster.Data.{usable, get_from, get_object, broadcast_to, broadcast, put}

owners_down :
    (c : Cluster) (down : List NodeId) (key : Text)
    → owners (record c { down = down }) key ≡ owners c key
unfolding owners
owners_down c down key = refl

All-at :
    (p : NodeId → Bool) (ns : List NodeId) (n : NodeId)
    → All (λ x. p x ≡ true) ns
    → contains ns n ≡ true
    → p n ≡ true
All-at p [] n a h = absurd (cc)
All-at p (x ∷ ns) n a h = ground (arith, text_eq_iff x n, All-at p ns n a.1)

All-in :
    (xs ys : List NodeId) (n : NodeId)
    → All (λ x. contains ys x ≡ true) xs
    → contains xs n ≡ true
    → contains ys n ≡ true
All-in xs ys n a h = All-at (λ x. contains ys x) xs n a h

module _ {S V : Type 0} {Valid : S → Type 0} (o : IndexStore S V) ⦃j : Json V⦄
    (laws : StoreLaws o Valid) where
  -- Every shard's store is well-formed.
  abbrev pub AllValid : Shards S → Type 0
  AllValid w = (n : NodeId) (sh : Shard S) → get w n ≡ some sh → Valid sh.store

  some_shard : {sh sh' : Shard S} → some sh ≡ some sh' → sh ≡ sh'
  some_shard e = ground arith

  pub insert-AllValid :
      (w : Shards S) (n : NodeId) (sh : Shard S)
      → AllValid w
      → Valid sh.store
      → AllValid (insert w n sh)
  insert-AllValid w n sh valid h n' sh' e =
      let e' = sym (get-insert w n sh n') ∙ e in
      elim (Bool-cases (n == n')) [
        | inl same ↦
            let found : some sh ≡ some sh' = rw same at e' in
            subst (λ (x : Shard S). Valid x.store) (some_shard found) h
        | inr apart ↦ let found : get w n' ≡ some sh' = rw apart at e' in valid n' sh' found
      ]

  module _ (now at : ℕ) (coll key : Text) (v : V) where
    abbrev written : Shards S → NodeId → Shards S
    written w n = ((in_process o now).write_object w n coll key v).0

    -- What a node reads later.
    abbrev reads : Shards S → NodeId → Option (Option V)
    reads w n = (in_process o at).object w n coll key

    abbrev outcome : Shards S → NodeId → Option (Shard S) → Shards S
    outcome w n none = w
    outcome w n (some sh) = insert w n (write_object o sh coll key v)

    do-outcome :
        (w : Shards S) (n : NodeId) (found : Option (Shard S))
        → (elim found as (λ x. Shards S × Bool) [
          | none ↦ (w, false)
          | some sh ↦ (insert w n (write_object o sh coll key v), true)
        ]).0
          ≡ outcome w n found
    do-outcome w n none = refl
    do-outcome w n (some sh) = refl

    written_lem : (w : Shards S) (n : NodeId) → written w n ≡ outcome w n (get w n)
    unfolding in_process
    written_lem w n = do-outcome w n (get w n)

    abbrev seen : Option (Shard S) → Option (Option V)
    seen none = none
    seen (some sh) = some (object o at sh coll key)

    reads_lem : (w : Shards S) (n : NodeId) → reads w n ≡ seen (get w n)
    unfolding in_process
    reads_lem w n =
        elim (get w n)
          as (λ f.
            (elim f as (λ x. Option (Option V)) [
              | none ↦ none
              | some sh ↦ some (object o at sh coll key)
            ])
            ≡ seen f) [ none ↦ refl | some sh ↦ refl ]

    seen_written :
        (sh : Shard S) → Valid sh.store → seen (some (write_object o sh coll key v)) ≡ some (some v)
    unfolding object write_object
    seen_written sh valid =
        rw (laws.get-put at sh.store coll key v coll key valid, same_key_self coll key) refl

    -- One write at one node, as any node sees it.
    written_at :
        (w : Shards S) (n m : NodeId) (found : Option (Shard S))
        → get w n ≡ found
        → AllValid w
        → AllValid (outcome w n found)
          × (is_some (get (outcome w n found) m) ≡ is_some (get w m))
          × (seen (get (outcome w n found) m)
              ≡ (if (n == m) && is_some found then some (some v) else seen (get w m)))
    unfolding write_object
    written_at w n m none e valid = (valid, refl, ground arith)
    written_at w n m (some sh) e valid =
        let sh' = write_object o sh coll key v in
        let valid' =
          insert-AllValid w n sh' valid
            (laws.put_object-Valid sh.store coll key v (valid n sh e)) in
        (
          valid',
          rw (get-insert w n sh' m) (ground (arith, text_eq_iff n m, e)),
          rw (get-insert w n sh' m) (ground (arith, seen_written sh (valid n sh e))),
        )

    step_at :
        (c : Cluster) (w : Shards S) (n m : NodeId)
        → AllValid w
        → AllValid (if usable c n then written w n else w)
          × (is_some (get (if usable c n then written w n else w) m) ≡ is_some (get w m))
          × (seen (get (if usable c n then written w n else w) m) ≡ (
              if (n == m) && (usable c n && is_some (get w n))
              then some (some v)
              else seen (get w m)))
    step_at c w n m valid = elim (Bool-cases (usable c n)) [
      | inl used ↦
          let (a, b, d) = written_at w n m (get w n) refl valid in
          rw (used, written_lem w n) (a, b, d)
      | inr unused ↦ rw unused (valid, refl, ground arith)
    ]

    -- After a broadcast of the write each usable owner reads it, and any other node what it read.
    broadcast_at :
        (c : Cluster) (w : Shards S) (ns : List NodeId) (m : NodeId)
        → AllValid w
        → seen (get (broadcast_to (in_process o now) c written w ns) m) ≡ (
            if contains ns m && (usable c m && is_some (get w m))
            then some (some v)
            else seen (get w m))
    unfolding broadcast_to
    broadcast_at c w [] m valid = ground arith
    broadcast_at c w (n ∷ ns) m valid =
        let (a, b, d) = step_at c w n m valid in
        let rest = broadcast_at c (if usable c n then written w n else w) ns m a in
        rest ∙ rw (b, d) (ground (arith, text_eq_iff n m))

    reads_first :
        (c : Cluster) (w : Shards S) (ns : List NodeId) (m : NodeId)
        → ((n : NodeId) → contains ns n ≡ true → usable c n ≡ true → reads w n ≡ some (some v))
        → contains ns m ≡ true
        → usable c m ≡ true
        → get_from (in_process o at) c w coll key ns ≡ some v
    unfolding get_from
    reads_first c w [] m all_read h u = absurd (cc)
    reads_first c w (n ∷ ns) m all_read h u = elim (Bool-cases (usable c n)) [
      | inl used ↦ rw (used, all_read n (ground (arith, text_eq_iff n n)) used, get_from) refl
      | inr unused ↦
          rw (unused, get_from)
            (reads_first c w ns m (λ n' h'. all_read n' (ground arith))
              (ground (arith, text_eq_iff n m)) u)
    ]

    -- Over in-process shards with well-formed stores, one for each owner of the key, a `put` is
    -- read back by a `get` at any time after it, with any set of nodes down that holds those that
    -- were down at the write, if an owner with a client is not among them.
    pub get_object-put :
        (c : Cluster) (w : Shards S) (down : List NodeId) (ns : List NodeId) (m : NodeId)
        → AllValid w
        → owners c key ≡ some ns
        → All (λ n. is_some (get w n) ≡ true) ns
        → All (λ n. contains down n ≡ true) c.down
        → contains ns m ≡ true
        → usable (record c { down = down }) m ≡ true
        → (w' : Shards S) × (put (in_process o now) c w coll key v ≡ some w')
          × (get_object (in_process o at) (record c { down = down }) w' coll key ≡ some (some v))
    unfolding put broadcast get_object
    get_object-put c w down ns m valid route present more h u =
        let w' = broadcast_to (in_process o now) c written w ns in
        let route' = owners_down c down key ∙ route in
        let all_read : (n : NodeId)
            → contains ns n ≡ true
            → usable (record c { down = down }) n ≡ true
            → reads w' n ≡ some (some v) =
          λ n k used.
            reads_lem w' n
            ∙ (broadcast_at c w ns n valid
                ∙ ground (
                  arith,
                  All-at (λ x. is_some (get w x)) ns n present k,
                  All-in c.down down n more,
                )) in
        (
          w',
          rw (route, put, broadcast) refl,
          rw (route', get_object)
              (ap (λ (x : Option V). some x)
                (reads_first (record c { down = down }) w' ns m all_read h u)),
        )
