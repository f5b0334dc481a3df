-- ===== src/Shard/Moves.antt =====
-- The reshard primitives of shard.rs, over any store that keeps the laws: what a shard reads after
-- an import and after a drop, and what a move from shard to shard does.
use stplr.Base.{
  ℕ, ◌≡◌, refl, false, ◌&&◌, Option, none, some, List, [], ◌∷◌, arith, if◌then◌else◌, ◌==◌, nat_Eq,
  contains, Distinct,
}
use stplr.Text.{Text, text_Eq, text_eq_iff}
use stplr.Dict.{get, keys, get-absent, get-present}
use stplr.Store.{IndexStore}
use stplr.Store.Laws.{StoreLaws}
use stplr.Shard.{
  Shard, in_buckets, entries_in, object, export_entries, put_all, import_entries, delete_all,
  drop_buckets,
}

abbrev pub or_get : {V : Type 0} → Option V → Option V → Option V
or_get (some v) other = some v
or_get none other = other

module _ {V : Type 0} (buckets : List ℕ) where
  get-entries_in :
      (entries : List (Text × V)) (k : Text)
      → get (entries_in buckets entries) k ≡ (if in_buckets buckets k then get entries k else none)
  unfolding get entries_in
  get-entries_in [] k = ground arith
  get-entries_in ((id, v) ∷ entries) k = ground (arith, get-entries_in entries k, text_eq_iff id k)

  absent-entries_in :
      (entries : List (Text × V)) (k : Text)
      → contains (keys entries) k ≡ false
      → contains (keys (entries_in buckets entries)) k ≡ false
  unfolding keys entries_in
  absent-entries_in [] k h = refl
  absent-entries_in ((id, v) ∷ entries) k h = ground (arith, absent-entries_in entries k)

  entries_in-Distinct :
      (entries : List (Text × V))
      → Distinct (keys entries)
      → Distinct (keys (entries_in buckets entries))
  unfolding keys entries_in
  entries_in-Distinct [] d = tt
  entries_in-Distinct ((id, v) ∷ entries) d =
      ground (arith, entries_in-Distinct entries d.1, absent-entries_in entries id d.0)

module _ {S V : Type 0} {Valid : S → Type 0} (o : IndexStore S V) (laws : StoreLaws o Valid) where
  get-put_all :
      (now : ℕ) (s : S) (c : Text) (entries : List (Text × V)) (c' k : Text)
      → Valid s
      → Distinct (keys entries)
      → o.get_object now (put_all o s c entries) c' k ≡ (
          if c == c'
          then or_get (get entries k) (o.get_object now s c' k)
          else o.get_object now s c' k)
  unfolding put_all keys get
  get-put_all now s c [] c' k h d = ground arith
  get-put_all now s c ((id, v) ∷ entries) c' k h d = ground (
    arith,
    get-put_all now (o.put_object s c id v) c entries c' k (laws.put_object-Valid s c id v h) d.1,
    laws.get-put now s c id v c' k h,
    get-absent entries id d.0,
    text_eq_iff id k,
  )

  get-delete_all :
      (now : ℕ) (s : S) (c : Text) (ids : List Text) (c' k : Text)
      → Valid s
      → o.get_object now (delete_all o s c ids) c' k
        ≡ (if (c == c') && contains ids k then none else o.get_object now s c' k)
  unfolding delete_all
  get-delete_all now s c [] c' k h = ground arith
  get-delete_all now s c (id ∷ ids) c' k h = ground (
    arith,
    get-delete_all now (o.delete_object s c id) c ids c' k (laws.delete_object-Valid s c id h),
    laws.get-delete now s c id c' k h,
    text_eq_iff id k,
  )

  -- With a well-formed store that keeps the laws: after buckets of a collection are dropped no key
  -- of theirs reads a value there, and all else reads as before.
  pub object-drop_buckets :
      (now : ℕ) (sh : Shard S) (c : Text) (buckets : List ℕ) (c' k : Text)
      → Valid sh.store
      → object o now (drop_buckets o now sh c buckets).0 c' k
        ≡ (if (c == c') && in_buckets buckets k then none else object o now sh c' k)
  unfolding object drop_buckets
  object-drop_buckets now sh c buckets c' k h =
      let entries = o.scan_entries now sh.store c in
      ground (
        arith,
        get-delete_all now sh.store c (keys (entries_in buckets entries)) c' k h,
        get-present (entries_in buckets entries) k,
        get-entries_in buckets entries k,
        laws.get-entries now sh.store c k h,
        text_eq_iff c c',
      )

  -- With well-formed stores that keep the laws: after an import of what a shard exported for some
  -- buckets, the target reads at any time, for each key of the buckets, what the source read at
  -- the export, if it read a value, and all else as before.
  pub object-import-export :
      (now at : ℕ) (from to : Shard S) (c : Text) (buckets : List ℕ) (c' k : Text)
      → Valid from.store
      → Valid to.store
      → object o at (import_entries o to c (export_entries o now from c buckets)) c' k ≡ (
          if (c == c') && in_buckets buckets k
          then or_get (object o now from c k) (object o at to c' k)
          else object o at to c' k)
  unfolding object import_entries export_entries
  object-import-export now at from to c buckets c' k h h' =
      let entries = o.scan_entries now from.store c in
      ground (
        arith,
        get-put_all at to.store c (entries_in buckets entries) c' k h'
            (entries_in-Distinct buckets entries (laws.entries-Distinct now from.store c h)),
        get-entries_in buckets entries k,
        laws.get-entries now from.store c k h,
      )
