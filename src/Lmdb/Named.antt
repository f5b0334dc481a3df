-- ===== src/Lmdb/Named.antt =====
-- lmdb.rs as a store for collections whose names hold no NUL, which its keys of expiries need.
use stplr.Base.{
  ℕ, ◌≤◌, ◌<◌, ◌≡◌, refl, sym, ap, ◌∙◌, Bool, true, false, ◌&&◌, Option, none, some, List, [], ◌∷◌,
  arith, leb, if◌then◌else◌, nat_Eq, contains, Distinct,
}
use stplr.Text.{text_Eq, text_eq_iff, Text}
use stplr.Dict.{Dict, get, keys, get-absent}
use stplr.StrDb.{StrDb, IsStrDb, Codec, IsCodec}
use stplr.Store.{IndexStore}
use stplr.Store.Laws.{same_key}
use stplr.Store.Keys.{Ascending}
use stplr.Store.Memory.{live_entries}
use stplr.Store.Memory.Laws.{get-live_entries, live_entries-Distinct}
use stplr.Lmdb.{
  get_object, LmdbStore, decoded, parse_entries, entries, scan_entries, fetch_in, fetch_at, obj_db,
  is_expired,
}
use stplr.Lmdb.Env.{IsName}
use stplr.Lmdb.Order.{
  put_object-IsOrdered, delete_object-IsOrdered, put_object_at-IsOrdered, IsOrdered,
  Ascending-Distinct,
}
use stplr.Lmdb.Bulk.{lmdb_store}
use stplr.Lmdb.Swept.{IsNumeric, IsSound, sweep_expired-IsSound, get-sweep}
use stplr.Lmdb.Laws.{
  get-put, get-delete, get-put_at, put_object-IsGuarded, delete_object-IsGuarded,
  put_object_at-IsGuarded,
}
use stplr.Word.{u64_mod}

-- As `StoreLaws`, with the conditions that the files put on names and times.
pub record NamedLaws {S V : Type 0} (o : IndexStore S V) (Valid : S → Type 0) : Type 0 where
  pub put_object-Valid : (s : S) (c k : Text) (v : V) → Valid s → Valid (o.put_object s c k v)
  pub delete_object-Valid : (s : S) (c k : Text) → Valid s → Valid (o.delete_object s c k)
  pub put_object_at-Valid :
      (s : S) (c k : Text) (v : V) (at : ℕ)
      → at < u64_mod
      → Valid s
      → Valid (o.put_object_at s c k v at)
  pub get-put :
      (now : ℕ) (s : S) (c k : Text) (v : V) (c' k' : Text)
      → IsName c
      → IsName c'
      → Valid s
      → o.get_object now (o.put_object s c k v) c' k'
        ≡ (if same_key c k c' k' then some v else o.get_object now s c' k')
  pub get-delete :
      (now : ℕ) (s : S) (c k c' k' : Text)
      → IsName c
      → IsName c'
      → Valid s
      → o.get_object now (o.delete_object s c k) c' k'
        ≡ (if same_key c k c' k' then none else o.get_object now s c' k')
  pub get-put_at :
      (now : ℕ) (s : S) (c k : Text) (v : V) (at : ℕ) (c' k' : Text)
      → IsName c
      → IsName c'
      → at < u64_mod
      → Valid s
      → o.get_object now (o.put_object_at s c k v at) c' k' ≡ (
          if same_key c k c' k'
          then (if leb at now then none else some v)
          else o.get_object now s c' k')
  pub sweep_expired-Valid : (s : S) (at : ℕ) → Valid s → Valid (o.sweep_expired s at).0
  pub get-sweep :
      (now at : ℕ) (s : S) (c k : Text)
      → IsName c
      → Valid s
      → at ≤ now
      → o.get_object now (o.sweep_expired s at).0 c k ≡ o.get_object now s c k
  pub get-entries :
      (now : ℕ) (s : S) (c k : Text)
      → Valid s
      → get (o.scan_entries now s c) k ≡ o.get_object now s c k
  pub entries-Distinct :
      (now : ℕ) (s : S) (c : Text) → Valid s → Distinct (keys (o.scan_entries now s c))

and_twice : (b q : Bool) → (b && (b && q)) ≡ (b && q)
and_twice b q = ground arith

module _ {V : Type 0} (expired : Text → Bool) (es : Dict Text V) where
  -- What a scan shows, with the guard that spares a store without expiries the test.
  abbrev shown : Bool → Dict Text V
  shown ttl = if ttl then live_entries expired es else es

  get_shown :
      (ttl : Bool) (k : Text) → get (shown ttl) k ≡ (if ttl && expired k then none else get es k)
  get_shown true k = get-live_entries expired es k
  get_shown false k = refl

  shown-Distinct : (ttl : Bool) → Distinct (keys es) → Distinct (keys (shown ttl))
  shown-Distinct true d = live_entries-Distinct expired es d
  shown-Distinct false d = d

module _ {D V : Type 0} (db : StrDb D) (empty : D) (codec : Codec V) (as_u64 : V → Option ℕ) where
  absent-parse_entries :
      (m : List (Text × Text)) (k : Text)
      → contains (keys m) k ≡ false
      → contains (keys (parse_entries db empty codec as_u64 m)) k ≡ false
  unfolding keys parse_entries
  absent-parse_entries [] k h = refl
  absent-parse_entries ((j, t) ∷ m) k h = ground (arith, absent-parse_entries m k)

  parse_entries-Distinct :
      (m : List (Text × Text))
      → Distinct (keys m)
      → Distinct (keys (parse_entries db empty codec as_u64 m))
  unfolding keys parse_entries
  parse_entries-Distinct [] d = tt
  parse_entries-Distinct ((j, t) ∷ m) d =
      ground (arith, parse_entries-Distinct m d.1, absent-parse_entries m j d.0)

  get-parse_entries :
      (m : List (Text × Text)) (k : Text)
      → Distinct (keys m)
      → get (parse_entries db empty codec as_u64 m) k ≡ decoded db empty codec as_u64 (get m k)
  unfolding get keys parse_entries
  get-parse_entries [] k d = refl
  get-parse_entries ((j, t) ∷ m) k d =
      ground (arith, get-parse_entries m k d.1, get-absent m k, text_eq_iff j k)

  module _ (lawful : IsStrDb db) (nothing : db.iter empty ≡ []) where
    abbrev parsed_at : Option D → List (Text × V)
    parsed_at found = elim found [
      | none ↦ []
      | some d ↦ parse_entries db empty codec as_u64 (db.iter d)
    ]

    get-parsed_at :
        (found : Option D) (k : Text)
        → ((d : D) → found ≡ some d → Ascending (keys (db.iter d)))
        → get (parsed_at found) k ≡ decoded db empty codec as_u64 (fetch_at db empty found k)
    unfolding get
    get-parsed_at none k h = refl
    get-parsed_at (some d) k h =
        get-parse_entries (db.iter d) k (Ascending-Distinct (keys (db.iter d)) (h d refl))
        ∙ ap (decoded db empty codec as_u64) (sym (lawful.fetch_lem d k))

    parsed_at-Distinct :
        (found : Option D)
        → ((d : D) → found ≡ some d → Ascending (keys (db.iter d)))
        → Distinct (keys (parsed_at found))
    unfolding keys
    parsed_at-Distinct none h = tt
    parsed_at-Distinct (some d) h =
        parse_entries-Distinct (db.iter d) (Ascending-Distinct (keys (db.iter d)) (h d refl))

    get-scan_entries :
        (now : ℕ) (s : LmdbStore D) (c k : Text)
        → IsOrdered db s.env
        → get (scan_entries db empty codec as_u64 now s c) k
          ≡ get_object db empty codec as_u64 now s c k
    unfolding scan_entries entries get_object fetch_in
    get-scan_entries now s c k ordered =
        let es = entries db empty codec as_u64 s (obj_db c) in
        get_shown (is_expired db empty now s c) es s.has_any_ttl k
        ∙ rw (is_expired, and_twice s.has_any_ttl)
            (ap (λ (v : Option V). if is_expired db empty now s c k then none else v)
              (get-parsed_at (get s.env (obj_db c)) k (ordered (obj_db c))))

    scan_entries-Distinct :
        (now : ℕ) (s : LmdbStore D) (c : Text)
        → IsOrdered db s.env
        → Distinct (keys (scan_entries db empty codec as_u64 now s c))
    unfolding scan_entries entries
    scan_entries-Distinct now s c ordered =
        shown-Distinct (is_expired db empty now s c) (entries db empty codec as_u64 s (obj_db c))
          s.has_any_ttl (parsed_at-Distinct (get s.env (obj_db c)) (ordered (obj_db c)))

    -- Over ordered databases, values that are read back as they were written, and decimal numbers
    -- that are read as such: for collections without a NUL in their names and expiries below 2 ^
    -- 64, a write, a write with an expiry, a deletion and a sweep of the LMDB store do to what is
    -- read what the clients of a store rely on; a scan shows what single reads show, each key
    -- once; and these operations keep every database in order and every expiry a number that the
    -- guard announces.
    pub lmdb-NamedLaws :
        IsCodec codec
        → IsNumeric codec as_u64
        → NamedLaws
            (lmdb_store db empty codec as_u64)
            (IsSound db empty lawful nothing codec as_u64)
    unfolding lmdb_store
    lmdb-NamedLaws coded numeric = record {
      put_object-Valid = λ s c k v h. record {
        is_guarded = put_object-IsGuarded db empty lawful nothing codec as_u64 s c k v h.is_guarded;
        is_ordered = put_object-IsOrdered db empty lawful nothing codec as_u64 s c k h.is_ordered v;
      };
      delete_object-Valid = λ s c k h. record {
        is_guarded =
            delete_object-IsGuarded db empty lawful nothing codec as_u64 s c k h.is_guarded;
        is_ordered =
            delete_object-IsOrdered db empty lawful nothing codec as_u64 s c k h.is_ordered;
      };
      put_object_at-Valid = λ s c k v at fits h. record {
        is_guarded =
            put_object_at-IsGuarded db empty lawful nothing codec as_u64 s c k v at fits
              h.is_guarded;
        is_ordered =
            put_object_at-IsOrdered db empty lawful nothing codec as_u64 s c k h.is_ordered v at;
      };
      get-put = λ now s c k v c' k' n n' h.
          get-put db empty lawful nothing codec as_u64 c k c' k' n n' now s v coded h.is_guarded;
      get-delete = λ now s c k c' k' n n' h.
          get-delete db empty lawful nothing codec as_u64 c k c' k' n n' now s h.is_guarded;
      get-put_at = λ now s c k v at c' k' n n' fits h.
          get-put_at db empty lawful nothing codec as_u64 c k c' k' n n' now s v at coded fits
            h.is_guarded;
      sweep_expired-Valid =
          λ s at h. sweep_expired-IsSound db empty lawful nothing codec as_u64 numeric at s h;
      get-sweep = λ now at s c k n h le.
          get-sweep db empty lawful nothing codec as_u64 numeric at s h now c k n le;
      get-entries = λ now s c k h. get-scan_entries now s c k h.is_ordered;
      entries-Distinct = λ now s c h. scan_entries-Distinct now s c h.is_ordered;
    }
