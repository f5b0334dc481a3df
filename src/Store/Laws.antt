-- ===== src/Store/Laws.antt =====
-- What the clients of an `IndexStore` (store.rs) rely on: each operation as a change of what the
-- keys read. `Valid` is the implementation's invariant.
use stplr.Base.{ℕ, ◌≤◌, ◌≡◌, Bool, ◌&&◌, none, some, leb, if◌then◌else◌, ◌==◌, nat_Eq, Distinct}
use stplr.Text.{Text, text_Eq}
use stplr.Dict
use stplr.Store.{IndexStore}

abbrev pub same_key : Text → Text → Text → Text → Bool
same_key coll key coll' key' = (coll == coll') && (key == key')

pub record StoreLaws {S V : Type 0} (o : IndexStore S V) (Valid : S → Type 0) : Type 0 where
  pub put_object-Valid : (s : S) (c k : Text) (v : V) → Valid s → Valid (o.put_object s c k v)
  pub delete_object-Valid : (s : S) (c k : Text) → Valid s → Valid (o.delete_object s c k)
  pub put_object_at-Valid :
      (s : S) (c k : Text) (v : V) (at : ℕ) → Valid s → Valid (o.put_object_at s c k v at)
  pub sweep_expired-Valid : (s : S) (now : ℕ) → Valid s → Valid (o.sweep_expired s now).0
  -- A plain write is read back, at any time.
  pub get-put :
      (now : ℕ) (s : S) (c k : Text) (v : V) (c' k' : Text)
      → Valid s
      → o.get_object now (o.put_object s c k v) c' k'
        ≡ (if same_key c k c' k' then some v else o.get_object now s c' k')
  pub get-delete :
      (now : ℕ) (s : S) (c k c' k' : Text)
      → Valid s
      → o.get_object now (o.delete_object s c k) c' k'
        ≡ (if same_key c k c' k' then none else o.get_object now s c' k')
  -- A write with an expiry is read back before it, and no more from then on.
  pub get-put_at :
      (now : ℕ) (s : S) (c k : Text) (v : V) (at : ℕ) (c' k' : Text)
      → Valid s
      → o.get_object now (o.put_object_at s c k v at) c' k' ≡ (
          if same_key c k c' k'
          then (if leb at now then none else some v)
          else o.get_object now s c' k')
  -- Sweeping changes nothing that is read from then on.
  pub get-sweep :
      (now at : ℕ) (s : S) (c k : Text)
      → Valid s
      → at ≤ now
      → o.get_object now (o.sweep_expired s at).0 c k ≡ o.get_object now s c k
  -- A scan shows what single reads show, each key once.
  pub get-entries :
      (now : ℕ) (s : S) (c k : Text)
      → Valid s
      → Dict.get (o.scan_entries now s c) k ≡ o.get_object now s c k
  pub entries-Distinct :
      (now : ℕ) (s : S) (c : Text) → Valid s → Distinct (Dict.keys (o.scan_entries now s c))
