-- ===== src/Store/Memory.antt =====
-- store.rs: `MemoryStore`.
pub mod Nested
pub mod Laws
use stplr.Base.{
  ℕ, zero, suc, ◌+◌, ◌-◌, ◌*◌, ◌/◌, ◌%◌, ◌^◌, ◌≤◌, ◌<◌, min, max, ◌≡◌, refl, sym, ap, subst, ◌∙◌,
  ◌≡⟨◌⟩◌, ◌∎, ◌≢◌, ◌↔◌, ◌⊎◌, inl, inr, Bool, true, false, not, ◌&&◌, ◌||◌, Option, none, some, List,
  [], ◌∷◌, ◌++◌, map, reverse, append-nil, append_assoc, arith, ltb, leb, nat_eq, nat_eq_iff,
  if◌then◌else◌, ltb→lt, leb→le, Bool-cases, Eq, ◌==◌, nat_Eq, length, take, get_elem?, first,
  filter_by, any, all, All, length-append, length-take, take-all, length-filter_by,
  filter_by-append, contains, Distinct, beq_self, contains-append, contains-take, Distinct-take,
  contains-filter_by, Distinct-filter_by,
}
use stplr.Text.{Text, text_Eq}
use stplr.Dict.{keys, Dict, get, insert, remove}
use stplr.Store.{IndexStore}

pub record Row (V : Type 0) : Type 0 where
  pub row_id : Text
  pub doc : V

pub record MemoryStore (V : Type 0) : Type 0 where
  pub tables : Dict Text (List (Row V))
  pub objects : Dict Text (Dict Text V)
  pub expiry : Dict Text (Dict Text ℕ)

module _ {ℓ} {V : Type ℓ} where
  -- `m.get(coll)` with `and_then` or `unwrap_or_default`: an absent collection has no entries.
  unfoldable pub coll_of : Dict Text (Dict Text V) → Text → Dict Text V
  coll_of m coll = elim (get m coll) [ some d ↦ d | none ↦ [] ]

  -- `m.entry(coll).or_default().insert(id, v)`
  unfoldable pub insert_in : Dict Text (Dict Text V) → Text → Text → V → Dict Text (Dict Text V)
  insert_in m coll id v = insert m coll (insert (coll_of m coll) id v)

  -- `if let Some(m) = m.get_mut(coll) { m.remove(id); }`
  unfoldable pub remove_in : Dict Text (Dict Text V) → Text → Text → Dict Text (Dict Text V)
  remove_in m coll id = elim (get m coll) [ some d ↦ insert m coll (remove d id) | none ↦ m ]

  -- The pairs of collection and id whose number is at most `now`.
  unfoldable pub due : (V → Bool) → Text → Dict Text V → List (Text × Text)
  due dead coll [] = []
  due dead coll ((id, v) ∷ d) =
      let rest = due dead coll d in if dead v then (coll, id) ∷ rest else rest

  unfoldable pub all_due : (V → Bool) → Dict Text (Dict Text V) → List (Text × Text)
  all_due dead [] = []
  all_due dead ((coll, d) ∷ m) = due dead coll d ++ all_due dead m

  unfoldable pub remove_all : Dict Text (Dict Text V) → List (Text × Text) → Dict Text (Dict Text V)
  remove_all m [] = m
  remove_all m ((coll, id) ∷ dead) = remove_all (remove_in m coll id) dead

abbrev pub past : ℕ → Option ℕ → Bool
past now none = false
past now (some at) = leb at now

module _ {V : Type 0} where
  unfoldable pub is_expired : ℕ → MemoryStore V → Text → Text → Bool
  is_expired now s coll id = past now (get (coll_of s.expiry coll) id)

  unfoldable pub clear_expiry : MemoryStore V → Text → Text → MemoryStore V
  clear_expiry s coll id = record s { expiry = remove_in s.expiry coll id }

  unfoldable pub new : MemoryStore V
  new = record { tables = []; objects = []; expiry = [] }

  -- `tables.get(table).cloned().unwrap_or_default()`
  unfoldable pub scan_table : MemoryStore V → Text → List (Row V)
  scan_table s table = elim (get s.tables table) [ some rows ↦ rows | none ↦ [] ]

  unfoldable pub add_row : MemoryStore V → Text → Text → V → MemoryStore V
  unfolding scan_table
  add_row s table row_id doc =
      let row : Row V = record { row_id = row_id; doc = doc } in
      record s { tables = insert s.tables table (scan_table s table ++ row ∷ []) }

  unfoldable pub list_tables : MemoryStore V → List Text
  list_tables s = keys s.tables

  unfoldable pub find_row : List (Row V) → Text → Option V
  find_row [] row_id = none
  find_row (row ∷ rows) row_id = if row.row_id == row_id then some row.doc else find_row rows row_id

  unfoldable pub get_row : MemoryStore V → Text → Text → Option V
  unfolding find_row
  get_row s table row_id = elim (get s.tables table) [
    | some rows ↦ find_row rows row_id
    | none ↦ none
  ]

  unfoldable pub put_object : MemoryStore V → Text → Text → V → MemoryStore V
  unfolding clear_expiry
  put_object s coll id obj =
      let s' = clear_expiry s coll id in record s' { objects = insert_in s'.objects coll id obj }

  unfoldable pub get_object : ℕ → MemoryStore V → Text → Text → Option V
  get_object now s coll id =
      if is_expired now s coll id then none else get (coll_of s.objects coll) id

  unfoldable pub live_entries : (Text → Bool) → Dict Text V → Dict Text V
  live_entries expired [] = []
  live_entries expired ((id, v) ∷ m) =
      let rest = live_entries expired m in if not (expired id) then (id, v) ∷ rest else rest

  unfoldable pub scan_entries : ℕ → MemoryStore V → Text → List (Text × V)
  scan_entries now s coll = live_entries (is_expired now s coll) (coll_of s.objects coll)

  unfoldable pub clear_collection : MemoryStore V → Text → MemoryStore V
  clear_collection s coll = record s {
    objects = remove s.objects coll;
    expiry = remove s.expiry coll;
  }

  unfoldable pub delete_object : MemoryStore V → Text → Text → MemoryStore V
  unfolding clear_expiry
  delete_object s coll id =
      clear_expiry (record s { objects = remove_in s.objects coll id }) coll id

  unfoldable pub put_object_at : MemoryStore V → Text → Text → V → ℕ → MemoryStore V
  put_object_at s coll id obj expire_at_ms = record s {
    objects = insert_in s.objects coll id obj;
    expiry = insert_in s.expiry coll id expire_at_ms;
  }

  unfoldable pub expiry_of : MemoryStore V → Text → Text → Option ℕ
  expiry_of s coll id = get (coll_of s.expiry coll) id

  unfoldable pub sweep_expired : MemoryStore V → ℕ → MemoryStore V × ℕ
  sweep_expired s now_ms =
      let dead = all_due (λ at. leb at now_ms) s.expiry in
      (
        record s { objects = remove_all s.objects dead; expiry = remove_all s.expiry dead },
        length dead,
      )

  -- `impl IndexStore for MemoryStore`
  unfoldable pub memory_store : IndexStore (MemoryStore V) V
  memory_store = record {
    put_object = put_object;
    get_object = get_object;
    scan_entries = scan_entries;
    clear_collection = clear_collection;
    delete_object = delete_object;
    put_object_at = put_object_at;
    expiry_of = expiry_of;
    sweep_expired = sweep_expired;
  }
