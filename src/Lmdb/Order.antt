-- ===== src/Lmdb/Order.antt =====
-- The order of the keys in the databases of lmdb.rs.
use stplr.Lmdb.Writes.{env-maybe_sync}
use stplr.Lmdb.{
  to_decimal, exp_key, exp_db, if_ttl, put_object_at, put_object, delete_object, clear_expiry,
  obj_db, opened, maybe_sync, deleted, or_created, put_in, put_str, delete_in, Env, LmdbStore,
}
use stplr.Base.{
  ℕ, ◌≡◌, refl, sym, subst, ◌∙◌, inl, inr, Bool, true, false, Option, none, some, List, [], ◌∷◌,
  arith, if◌then◌else◌, Bool-cases, ◌==◌, nat_Eq, All, contains, Distinct,
}
use stplr.Text.{text_Eq, text_eq_iff, text_lt, text_lt_self, text_lt_trans, text_lt_total, Text}
use stplr.Dict.{get-insert, get, insert, remove, keys}
use stplr.StrDb.{Codec, IsStrDb, StrDb, put_sorted}
use stplr.Store.Keys.{Ascending}

abbrev Above : Text → List Text → Type 0
Above j ks = All (λ x. text_lt j x ≡ true) ks

Above-trans : (k j : Text) (ks : List Text) → text_lt k j ≡ true → Above j ks → Above k ks
Above-trans k j [] h a = tt
Above-trans k j (x ∷ ks) h a = (text_lt_trans k j x h a.0, Above-trans k j ks h a.1)

Above-put_sorted :
    (j : Text) (m : List (Text × Text)) (k v : Text)
    → text_lt j k ≡ true
    → Above j (keys m)
    → Above j (keys (put_sorted m k v))
unfolding keys put_sorted
Above-put_sorted j [] k v h a = (h, tt)
Above-put_sorted j ((i, w) ∷ m) k v h a = ground (arith, Above-put_sorted j m k v h a.1)

pub put_sorted-Ascending :
    (m : List (Text × Text)) (k v : Text) → Ascending (keys m) → Ascending (keys (put_sorted m k v))
unfolding keys put_sorted
put_sorted-Ascending [] k v a = (tt, tt)
put_sorted-Ascending ((j, w) ∷ m) k v a = ground (
  arith,
  text_eq_iff j k,
  Above-trans k j (keys m),
  Above-put_sorted j m k v,
  put_sorted-Ascending m k v a.1,
  text_lt_total j k,
)

Above-remove :
    (j : Text) (m : List (Text × Text)) (k : Text) → Above j (keys m) → Above j (keys (remove m k))
unfolding keys remove
Above-remove j [] k a = tt
Above-remove j ((i, w) ∷ m) k a = ground (arith, Above-remove j m k a.1)

remove-Ascending :
    (m : List (Text × Text)) (k : Text) → Ascending (keys m) → Ascending (keys (remove m k))
unfolding keys remove
remove-Ascending [] k a = tt
remove-Ascending ((j, w) ∷ m) k a = ground (arith, Above-remove j m k a.0, remove-Ascending m k a.1)

Above-absent : (j : Text) (ks : List Text) → Above j ks → contains ks j ≡ false
Above-absent j [] a = refl
Above-absent j (x ∷ ks) a = ground (arith, Above-absent j ks a.1, text_lt_self j, text_eq_iff x j)

pub Ascending-Distinct : (ks : List Text) → Ascending ks → Distinct ks
Ascending-Distinct [] a = tt
Ascending-Distinct (k ∷ ks) a = (Above-absent k ks a.0, Ascending-Distinct ks a.1)

module _ {D : Type 0} (db : StrDb D) where
  -- Each database has its keys in order.
  abbrev pub IsOrdered : Env D → Type 0
  IsOrdered env = (name : Text) (d : D) → get env name ≡ some d → Ascending (keys (db.iter d))

module _ {D : Type 0} (db : StrDb D) (empty : D) (lawful : IsStrDb db)
    (nothing : db.iter empty ≡ []) where
  or_created-Ascending :
      (found : Option D)
      → ((d : D) → found ≡ some d → Ascending (keys (db.iter d)))
      → Ascending (keys (db.iter (or_created db empty found)))
  unfolding keys
  or_created-Ascending none h = rw nothing tt
  or_created-Ascending (some d) h = h d refl

  chosen-Ascending :
      (b : Bool) (d e : D) (old : Option D)
      → Ascending (keys (db.iter d))
      → ((d : D) → old ≡ some d → Ascending (keys (db.iter d)))
      → (if b then some d else old) ≡ some e
      → Ascending (keys (db.iter e))
  chosen-Ascending true d e old a h q = subst (λ (x : D). Ascending (keys (db.iter x))) (cc q) a
  chosen-Ascending false d e old a h q = h e q

  pub insert-IsOrdered :
      (env : Env D) (name : Text) (d : D)
      → Ascending (keys (db.iter d))
      → IsOrdered db env
      → IsOrdered db (insert env name d)
  insert-IsOrdered env name d a h name' e q =
      chosen-Ascending (name == name') d e (get env name') a (h name')
        (sym (get-insert env name d name') ∙ q)

  pub put_in-IsOrdered :
      (env : Env D) (name key val : Text)
      → IsOrdered db env
      → IsOrdered db (put_in db empty env name key val)
  unfolding put_in
  put_in-IsOrdered env name key val h =
      let d = opened db empty env name in
      insert-IsOrdered env name (db.put d key val)
        (rw (lawful.iter-put d key val)
          (put_sorted-Ascending (db.iter d) key val (or_created-Ascending (get env name) (h name))))
        h

  pub delete_in-IsOrdered :
      (env : Env D) (name key : Text)
      → IsOrdered db env
      → IsOrdered db (delete_in db empty env name key)
  unfolding delete_in
  delete_in-IsOrdered env name key h =
      let d = opened db empty env name in
      insert-IsOrdered env name (db.delete d key).0
        (rw (lawful.iter-delete d key)
          (remove-Ascending (db.iter d) key (or_created-Ascending (get env name) (h name))))
        h

  synced-IsOrdered : (s : LmdbStore D) → IsOrdered db s.env → IsOrdered db (maybe_sync s).env
  synced-IsOrdered s h = subst (λ (env : Env D). IsOrdered db env) (sym (env-maybe_sync s)) h

  put_str-IsOrdered :
      (s : LmdbStore D) (name key val : Text)
      → IsOrdered db s.env
      → IsOrdered db (put_str db empty s name key val).env
  unfolding put_str
  put_str-IsOrdered s name key val h =
      synced-IsOrdered (record s { env = put_in db empty s.env name key val })
        (put_in-IsOrdered s.env name key val h)

  if_ttl-IsOrdered :
      (s : LmdbStore D) (c k : Text)
      → IsOrdered db s.env
      → IsOrdered db (if_ttl db empty s (clear_expiry db empty s c k)).env
  unfolding clear_expiry
  if_ttl-IsOrdered s c k h = elim (Bool-cases s.has_any_ttl) [
    | inl on ↦ rw on (delete_in-IsOrdered s.env exp_db (exp_key c k) h)
    | inr off ↦ rw off h
  ]

  deleted-IsOrdered :
      (s : LmdbStore D) (c k : Text) (found : Option D)
      → IsOrdered db s.env
      → IsOrdered db (deleted db empty s c k found).env
  deleted-IsOrdered s c k none h = h
  deleted-IsOrdered s c k (some d) h =
      synced-IsOrdered (record s { env = delete_in db empty s.env (obj_db c) k })
        (delete_in-IsOrdered s.env (obj_db c) k h)

  module _ {V : Type 0} (codec : Codec V) (as_u64 : V → Option ℕ) (s : LmdbStore D) (c k : Text)
      (ordered : IsOrdered db s.env) where
    pub put_object-IsOrdered : (v : V) → IsOrdered db (put_object db empty codec as_u64 s c k v).env
    unfolding put_object
    put_object-IsOrdered v =
        if_ttl-IsOrdered (put_str db empty s (obj_db c) k (codec.to_string v)) c k
          (put_str-IsOrdered s (obj_db c) k (codec.to_string v) ordered)

    pub delete_object-IsOrdered : IsOrdered db (delete_object db empty codec as_u64 s c k).env
    unfolding delete_object
    delete_object-IsOrdered =
        if_ttl-IsOrdered (deleted db empty s c k (get s.env (obj_db c))) c k
          (deleted-IsOrdered s c k (get s.env (obj_db c)) ordered)

    pub put_object_at-IsOrdered :
        (v : V) (at : ℕ) → IsOrdered db (put_object_at db empty codec as_u64 s c k v at).env
    unfolding put_object_at
    put_object_at-IsOrdered v at =
        let s' = put_str db empty s (obj_db c) k (codec.to_string v) in
        synced-IsOrdered
          (record s' {
            env = put_in db empty s'.env exp_db (exp_key c k) (to_decimal at);
            has_any_ttl = true;
          })
          (put_in-IsOrdered s'.env exp_db (exp_key c k) (to_decimal at)
            (put_str-IsOrdered s (obj_db c) k (codec.to_string v) ordered))
