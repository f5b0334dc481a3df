-- ===== src/Lmdb/Swept.antt =====
-- `sweep_expired` of lmdb.rs on a store whose invariants hold.
use stplr.Base.{
  ℕ, ◌≤◌, ◌<◌, ◌≡◌, refl, sym, ap, subst, ◌∙◌, inl, inr, Bool, true, false, not, Option, none, some,
  List, [], ◌∷◌, arith, if◌then◌else◌, nat_Eq, All,
}
use stplr.Text.{text_Eq, Text}
use stplr.Word.{u64_mod}
use stplr.SeqKey.{to_decimal, parse_u64-to_decimal}
use stplr.Dict.{get, keys}
use stplr.StrDb.{StrDb, IsStrDb, Codec}
use stplr.Lmdb.{
  Env, LmdbStore, get_object, entries, parsed_expiry, passed, fetch_in, delete_in, obj_db, exp_db,
  exp_key,
}
use stplr.Lmdb.Env.{IsName, fetch-delete_in}
use stplr.Lmdb.Order.{IsOrdered, delete_in-IsOrdered, Ascending-Distinct}
use stplr.Lmdb.Writes.{env-maybe_sync, ttl-maybe_sync}
use stplr.Lmdb.Bulk.{dead_of, delete_dead, sweep_dead, sweep_expired}
use stplr.Lmdb.Sweep.{IsDue, IsSwept, Reads, get-EachRow, dead_of-IsDue, delete_dead-IsSwept}
use stplr.Lmdb.Laws.{IsGuarded, reading, get_object-reading}

-- The documented behaviour of the JSON reader on decimal numbers: one that it reads is that number.
pub record IsNumeric {V : Type 0} (codec : Codec V) (as_u64 : V → Option ℕ) : Type 0 where
  pub as_u64-from_str :
      (n : ℕ) (v : V) → n < u64_mod → codec.from_str (to_decimal n) ≡ some v → as_u64 v ≡ some n

module _ {D V : Type 0} (db : StrDb D) (empty : D) (lawful : IsStrDb db)
    (nothing : db.iter empty ≡ []) (codec : Codec V) (as_u64 : V → Option ℕ) where
  -- The two invariants of the files that a store keeps.
  pub record IsSound (s : LmdbStore D) : Type 0 where
    pub is_guarded : IsGuarded db empty lawful nothing codec as_u64 s
    pub is_ordered : IsOrdered db s.env

  passed_later :
      (at now : ℕ) (e : Option ℕ)
      → at ≤ now
      → passed db empty at e ≡ true
      → passed db empty now e ≡ true
  passed_later at now none le h = cc
  passed_later at now (some e) le h = ground (arith, le, h)

  -- One item of the loop.
  abbrev one_item : Env D → Text → Text → Text → Option D → Env D
  one_item e ekey coll id found = elim found [
    | none ↦ e
    | some d ↦ delete_in db empty (delete_in db empty e (obj_db coll) id) exp_db ekey
  ]

  item-IsOrdered :
      (e : Env D) (ekey coll id : Text) (found : Option D)
      → IsOrdered db e
      → IsOrdered db (one_item e ekey coll id found)
  item-IsOrdered e ekey coll id none h = h
  item-IsOrdered e ekey coll id (some d) h =
      delete_in-IsOrdered db empty lawful nothing (delete_in db empty e (obj_db coll) id) exp_db
        ekey (delete_in-IsOrdered db empty lawful nothing e (obj_db coll) id h)

  fetch-item :
      (e : Env D) (ekey coll id : Text) (found : Option D) (key t : Text)
      → fetch_in db empty (one_item e ekey coll id found) exp_db key ≡ some t
      → fetch_in db empty e exp_db key ≡ some t
  fetch-item e ekey coll id none key t h = h
  fetch-item e ekey coll id (some d) key t h = ground (
    arith,
    fetch-delete_in db empty lawful nothing (delete_in db empty e (obj_db coll) id) exp_db ekey
        exp_db key,
    fetch-delete_in db empty lawful nothing e (obj_db coll) id exp_db key,
  )

  delete_dead-IsOrdered :
      (e : Env D) (ds : List (Text × Text × Text))
      → IsOrdered db e
      → IsOrdered db (delete_dead db empty codec as_u64 e ds)
  unfolding delete_dead
  delete_dead-IsOrdered e [] h = h
  delete_dead-IsOrdered e ((ekey, coll, id) ∷ ds) h =
      delete_dead-IsOrdered (one_item e ekey coll id (get e (obj_db coll))) ds
        (item-IsOrdered e ekey coll id (get e (obj_db coll)) h)

  -- An expiry that is left was there.
  fetch-delete_dead :
      (e : Env D) (ds : List (Text × Text × Text)) (key t : Text)
      → fetch_in db empty (delete_dead db empty codec as_u64 e ds) exp_db key ≡ some t
      → fetch_in db empty e exp_db key ≡ some t
  unfolding delete_dead
  fetch-delete_dead e [] key t h = h
  fetch-delete_dead e ((ekey, coll, id) ∷ ds) key t h =
      fetch-item e ekey coll id (get e (obj_db coll)) key t
        (fetch-delete_dead (one_item e ekey coll id (get e (obj_db coll))) ds key t h)

  reading-IsSwept :
      (at now : ℕ) (env e : Env D) (c k : Text) (name : IsName c)
      → at ≤ now
      → IsSwept db empty codec as_u64 at env lawful nothing c k name e
      → reading db empty lawful nothing codec as_u64 now true
          (fetch_in db empty e exp_db (exp_key c k))
          (fetch_in db empty e (obj_db c) k)
        ≡ reading db empty lawful nothing codec as_u64 now true
            (fetch_in db empty env exp_db (exp_key c k))
            (fetch_in db empty env (obj_db c) k)
  reading-IsSwept at now env e c k name le (inl (x, o)) = rw (x, o) refl
  reading-IsSwept at now env e c k name le (inr (p, o)) =
      rw
        (
          o,
          passed_later at now (parsed_expiry db empty (fetch_in db empty env exp_db (exp_key c k)))
              le p,
        )
        (ground arith)

  row-Reads :
      IsNumeric codec as_u64
      → (at : ℕ) (s : LmdbStore D) → IsSound s
      → (j t : Text) → fetch_in db empty s.env exp_db j ≡ some t
      → Reads db empty codec as_u64 at s.env j t
  row-Reads numeric at s sound j t e v n q r le =
      let (m, fits, same) = sound.is_guarded.numbers j t e in
      let read = numeric.as_u64-from_str m v fits (ap codec.from_str (sym same) ∙ q) in
      rw (e, same, parse_u64-to_decimal m fits) (ground (arith, le, read, r))

  -- A store with another environment, where the expiries that are left were there.
  env-sweep_dead :
      (s : LmdbStore D) (ds : List (Text × Text × Text))
      → ((sweep_dead db empty codec as_u64 s ds).0.env ≡ delete_dead db empty codec as_u64 s.env ds)
        × ((sweep_dead db empty codec as_u64 s ds).0.has_any_ttl ≡ s.has_any_ttl)
  unfolding sweep_dead
  env-sweep_dead s ds =
      let s' = record s { env = delete_dead db empty codec as_u64 s.env ds } in
      (ground (arith, env-maybe_sync s'), ground (arith, ttl-maybe_sync s'))

  sweep_dead-IsSound :
      (s : LmdbStore D) (ds : List (Text × Text × Text))
      → s.has_any_ttl ≡ true
      → IsSound s
      → IsSound (sweep_dead db empty codec as_u64 s ds).0
  sweep_dead-IsSound s ds on sound = record {
    is_guarded = record {
      guarded = λ key off. absurd (ground (arith, on, off, env-sweep_dead s ds));
      numbers = λ key t e. sound.is_guarded.numbers key t (
          fetch-delete_dead s.env ds key t (
            ap (λ (en : Env D). fetch_in db empty en exp_db key) (sym (env-sweep_dead s ds).0)
            ∙ e));
    };
    is_ordered =
        subst (λ (en : Env D). IsOrdered db en) (sym (env-sweep_dead s ds).0)
          (delete_dead-IsOrdered s.env ds sound.is_ordered);
  }

  get-sweep_dead :
      (at now : ℕ) (s : LmdbStore D) (ds : List (Text × Text × Text)) (c k : Text)
      → IsName c
      → at ≤ now
      → s.has_any_ttl ≡ true
      → All (IsDue db empty codec as_u64 at s.env) ds
      → get_object db empty codec as_u64 now (sweep_dead db empty codec as_u64 s ds).0 c k
        ≡ get_object db empty codec as_u64 now s c k
  get-sweep_dead at now s ds c k name le on due =
      let (env, ttl) = env-sweep_dead s ds in
      get_object-reading db empty lawful nothing codec as_u64 now
        (sweep_dead db empty codec as_u64 s ds).0 c k
      ∙ rw (env, ttl, get_object-reading db empty lawful nothing codec as_u64 now s c k, on)
          (reading-IsSwept at now s.env (delete_dead db empty codec as_u64 s.env ds) c k name le (
            delete_dead-IsSwept db empty codec as_u64 at s.env lawful nothing c k name s.env ds due
              (inl (refl, refl))))

  module _ (numeric : IsNumeric codec as_u64) (at : ℕ) (s : LmdbStore D) (sound : IsSound s) where
    dead_at-IsDue :
        (d : D)
        → get s.env exp_db ≡ some d
        → All
            (IsDue db empty codec as_u64 at s.env)
            (dead_of db empty codec as_u64 at (entries db empty codec as_u64 s exp_db))
    unfolding entries fetch_in
    dead_at-IsDue d here =
        rw (entries, here)
          (dead_of-IsDue db empty codec as_u64 at s.env (db.iter d) (
            get-EachRow (Reads db empty codec as_u64 at s.env) (db.iter d)
              (Ascending-Distinct (keys (db.iter d)) (sound.is_ordered exp_db d here))
              (λ j t e.
                row-Reads numeric at s sound j t (rw (fetch_in, here) (lawful.fetch_lem d j ∙ e)))))

    -- The branches of the sweep.
    branch_at :
        (P : LmdbStore D → Type 0) (ttl : Bool) (found : Option D) (r : LmdbStore D × ℕ)
        → P s
        → ((d : D) → ttl ≡ true → found ≡ some d → P r.0)
        → let swept : LmdbStore D × ℕ =
            if not ttl then (s, 0) else elim found [ none ↦ (s, 0) | some d ↦ r ] in
          P swept.0
    branch_at P false found r same swept = same
    branch_at P true none r same swept = same
    branch_at P true (some d) r same swept = swept d refl refl

    -- What holds of the store, and of each that has lost items that are due, holds after the sweep.
    swept_at :
        (P : LmdbStore D → Type 0)
        → P s
        → ((ds : List (Text × Text × Text))
            → s.has_any_ttl ≡ true
            → All (IsDue db empty codec as_u64 at s.env) ds
            → P (sweep_dead db empty codec as_u64 s ds).0)
        → P (sweep_expired db empty codec as_u64 s at).0
    unfolding sweep_expired
    swept_at P same swept =
        let ds = dead_of db empty codec as_u64 at (entries db empty codec as_u64 s exp_db) in
        branch_at P s.has_any_ttl (get s.env exp_db) (sweep_dead db empty codec as_u64 s ds) same
          (λ d on here. swept ds on (dead_at-IsDue d here))

    pub sweep_expired-IsSound : IsSound (sweep_expired db empty codec as_u64 s at).0
    sweep_expired-IsSound = swept_at IsSound sound (λ ds on due. sweep_dead-IsSound s ds on sound)

    pub get-sweep :
        (now : ℕ) (c k : Text)
        → IsName c
        → at ≤ now
        → get_object db empty codec as_u64 now (sweep_expired db empty codec as_u64 s at).0 c k
          ≡ get_object db empty codec as_u64 now s c k
    get-sweep now c k name le =
        swept_at
          (λ s'.
            get_object db empty codec as_u64 now s' c k
            ≡ get_object db empty codec as_u64 now s c k)
          refl (λ ds on due. get-sweep_dead at now s ds c k name le on due)
