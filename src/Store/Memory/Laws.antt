-- ===== src/Store/Memory/Laws.antt =====
-- `MemoryStore` of store.rs as an instance of the laws of an `IndexStore`.
use stplr.Base.{
  ℕ, ◌≤◌, ◌≡◌, refl, Bool, false, none, some, [], ◌∷◌, arith, leb, if◌then◌else◌, nat_Eq, contains,
  Distinct,
}
use stplr.Text.{Text, text_Eq, text_eq_iff}
use stplr.Dict.{Dict, get, keys}
use stplr.Store.Laws.{same_key, StoreLaws}
use stplr.Store.Memory.{
  new, MemoryStore, coll_of, is_expired, put_object, get_object, live_entries, scan_entries,
  delete_object, put_object_at, sweep_expired, memory_store, all_due,
}
use stplr.Store.Memory.Nested.{
  IsNested, get-insert_in, get-remove_in, get-remove_all, coll_of-Distinct, insert_in-IsNested,
  remove_in-IsNested, remove_all-IsNested, listed-all_due,
}

module _ {V : Type 0} where
  pub record IsValid (s : MemoryStore V) : Type 0 where
    pub objects : IsNested s.objects
    pub expiry : IsNested s.expiry

  pub new-IsValid : IsValid (new {V = V})
  unfolding new keys
  new-IsValid = record {
    objects = record { outer = tt; inner = tt };
    expiry = record { outer = tt; inner = tt };
  }

  put_object-IsValid :
      (s : MemoryStore V) (c k : Text) (v : V) → IsValid s → IsValid (put_object s c k v)
  unfolding put_object
  put_object-IsValid s c k v h = record {
    objects = insert_in-IsNested s.objects c k v h.objects;
    expiry = remove_in-IsNested s.expiry c k h.expiry;
  }

  delete_object-IsValid :
      (s : MemoryStore V) (c k : Text) → IsValid s → IsValid (delete_object s c k)
  unfolding delete_object
  delete_object-IsValid s c k h = record {
    objects = remove_in-IsNested s.objects c k h.objects;
    expiry = remove_in-IsNested s.expiry c k h.expiry;
  }

  put_object_at-IsValid :
      (s : MemoryStore V) (c k : Text) (v : V) (at : ℕ)
      → IsValid s
      → IsValid (put_object_at s c k v at)
  unfolding put_object_at
  put_object_at-IsValid s c k v at h = record {
    objects = insert_in-IsNested s.objects c k v h.objects;
    expiry = insert_in-IsNested s.expiry c k at h.expiry;
  }

  sweep_expired-IsValid :
      (s : MemoryStore V) (now : ℕ) → IsValid s → IsValid (sweep_expired s now).0
  unfolding sweep_expired
  sweep_expired-IsValid s now h =
      let dead = all_due (λ at. leb at now) s.expiry in
      record {
        objects = remove_all-IsNested s.objects dead h.objects;
        expiry = remove_all-IsNested s.expiry dead h.expiry;
      }

  get-put :
      (now : ℕ) (s : MemoryStore V) (c k : Text) (v : V) (c' k' : Text)
      → get_object now (put_object s c k v) c' k'
        ≡ (if same_key c k c' k' then some v else get_object now s c' k')
  unfolding get_object put_object is_expired
  get-put now s c k v c' k' =
      ground (arith, get-insert_in s.objects c k v c' k', get-remove_in s.expiry c k c' k')

  get-delete :
      (now : ℕ) (s : MemoryStore V) (c k c' k' : Text)
      → get_object now (delete_object s c k) c' k'
        ≡ (if same_key c k c' k' then none else get_object now s c' k')
  unfolding get_object delete_object is_expired
  get-delete now s c k c' k' =
      ground (arith, get-remove_in s.objects c k c' k', get-remove_in s.expiry c k c' k')

  get-put_at :
      (now : ℕ) (s : MemoryStore V) (c k : Text) (v : V) (at : ℕ) (c' k' : Text)
      → get_object now (put_object_at s c k v at) c' k' ≡ (
          if same_key c k c' k'
          then (if leb at now then none else some v)
          else get_object now s c' k')
  unfolding get_object put_object_at is_expired
  get-put_at now s c k v at c' k' =
      ground (arith, get-insert_in s.objects c k v c' k', get-insert_in s.expiry c k at c' k')

  get-sweep :
      (now at : ℕ) (s : MemoryStore V) (c k : Text)
      → IsValid s
      → at ≤ now
      → get_object now (sweep_expired s at).0 c k ≡ get_object now s c k
  unfolding get_object sweep_expired is_expired
  get-sweep now at s c k h le =
      let dead = all_due (λ t. leb t at) s.expiry in
      ground (
        arith,
        get-remove_all s.objects dead c k,
        get-remove_all s.expiry dead c k,
        listed-all_due (λ t. leb t at) s.expiry c k h.expiry,
      )

  pub get-live_entries :
      (expired : Text → Bool) (d : Dict Text V) (k : Text)
      → get (live_entries expired d) k ≡ (if expired k then none else get d k)
  unfolding get live_entries
  get-live_entries expired [] k = ground arith
  get-live_entries expired ((id, v) ∷ d) k =
      ground (arith, get-live_entries expired d k, text_eq_iff id k)

  contains-live_entries :
      (expired : Text → Bool) (d : Dict Text V) (k : Text)
      → contains (keys d) k ≡ false
      → contains (keys (live_entries expired d)) k ≡ false
  unfolding keys live_entries
  contains-live_entries expired [] k h = refl
  contains-live_entries expired ((id, v) ∷ d) k h =
      ground (arith, contains-live_entries expired d k)

  pub live_entries-Distinct :
      (expired : Text → Bool) (d : Dict Text V)
      → Distinct (keys d)
      → Distinct (keys (live_entries expired d))
  unfolding keys live_entries
  live_entries-Distinct expired [] n = tt
  live_entries-Distinct expired ((id, v) ∷ d) n =
      ground (arith, live_entries-Distinct expired d n.1, contains-live_entries expired d id n.0)

  get-entries :
      (now : ℕ) (s : MemoryStore V) (c k : Text)
      → get (scan_entries now s c) k ≡ get_object now s c k
  unfolding scan_entries get_object
  get-entries now s c k = get-live_entries (is_expired now s c) (coll_of s.objects c) k

  entries-Distinct :
      (now : ℕ) (s : MemoryStore V) (c : Text) → IsValid s → Distinct (keys (scan_entries now s c))
  unfolding scan_entries
  entries-Distinct now s c h =
      live_entries-Distinct (is_expired now s c) (coll_of s.objects c)
        (coll_of-Distinct s.objects c h.objects.inner)

  -- The in-memory store keeps the laws of a store: what is read after a write, a write with an
  -- expiry, a deletion and a sweep, what a scan shows, and that every collection, and every id in
  -- a collection, is there once.
  pub memory-StoreLaws : StoreLaws (memory_store {V = V}) IsValid
  unfolding memory_store
  memory-StoreLaws = record {
    put_object-Valid = put_object-IsValid;
    delete_object-Valid = delete_object-IsValid;
    put_object_at-Valid = put_object_at-IsValid;
    sweep_expired-Valid = sweep_expired-IsValid;
    get-put = λ now s c k v c' k' h. get-put now s c k v c' k';
    get-delete = λ now s c k c' k' h. get-delete now s c k c' k';
    get-put_at = λ now s c k v at c' k' h. get-put_at now s c k v at c' k';
    get-sweep = get-sweep;
    get-entries = λ now s c k h. get-entries now s c k;
    entries-Distinct = entries-Distinct;
  }
