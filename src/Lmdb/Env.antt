-- ===== src/Lmdb/Env.antt =====
-- The databases of an environment of lmdb.rs after a write and a deletion.
use stplr.Base.{
  ◌≡◌, refl, sym, ◌∙◌, inl, inr, false, ◌&&◌, Option, none, some, [], ◌∷◌, arith, nat_eq,
  if◌then◌else◌, Bool-cases, ◌==◌, nat_Eq, All,
}
use stplr.Text.{text_Eq, text_eq, text_eq_iff, Text}
use stplr.Dict.{get, insert, get-insert, get-remove}
use stplr.StrDb.{StrDb, IsStrDb, get-put_sorted_any}
use stplr.Lmdb.{
  or_created, fetch_at, Env, opened, put_in, delete_in, fetch_in, obj_db, exp_db, exp_key,
}

module _ {D : Type 0} (db : StrDb D) (empty : D) (lawful : IsStrDb db)
    (nothing : db.iter empty ≡ []) where
  fetch-or_created :
      (found : Option D) (key : Text)
      → get (db.iter (or_created db empty found)) key ≡ fetch_at db empty found key
  unfolding get
  fetch-or_created none key = rw nothing refl
  fetch-or_created (some d) key = sym (lawful.fetch_lem d key)

  fetch-insert :
      (env : Env D) (name : Text) (d : D) (name' key : Text)
      → fetch_in db empty (insert env name d) name' key
        ≡ (if name == name' then get (db.iter d) key else fetch_in db empty env name' key)
  unfolding fetch_in
  fetch-insert env name d name' key = elim (Bool-cases (name == name')) [
    | inl same ↦ rw (get-insert env name d name', same) (lawful.fetch_lem d key)
    | inr apart ↦ rw (get-insert env name d name', apart) refl
  ]

  pub fetch-put_in :
      (env : Env D) (name key val name' key' : Text)
      → fetch_in db empty (put_in db empty env name key val) name' key'
        ≡ (if (name == name') && (key == key') then some val else fetch_in db empty env name' key')
  unfolding put_in fetch_in
  fetch-put_in env name key val name' key' =
      let d = opened db empty env name in
      fetch-insert env name (db.put d key val) name' key'
      ∙ rw
          (
            lawful.iter-put d key val,
            get-put_sorted_any (db.iter d) key val key',
            fetch-or_created (get env name) key',
          )
          (ground (arith, text_eq_iff name name'))

  pub fetch-delete_in :
      (env : Env D) (name key name' key' : Text)
      → fetch_in db empty (delete_in db empty env name key) name' key'
        ≡ (if (name == name') && (key == key') then none else fetch_in db empty env name' key')
  unfolding delete_in fetch_in
  fetch-delete_in env name key name' key' =
      let d = opened db empty env name in
      fetch-insert env name (db.delete d key).0 name' key'
      ∙ rw
          (
            lawful.iter-delete d key,
            get-remove (db.iter d) key key',
            fetch-or_created (get env name) key',
          )
          (ground (arith, text_eq_iff name name'))

-- A name without the character that ends it in the keys of the expiries.
abbrev pub IsName : Text → Type 0
IsName s = All (λ c. nat_eq c 0 ≡ false) s

pub exp_key-eq :
    (c k c' k' : Text)
    → IsName c
    → IsName c'
    → text_eq (exp_key c k) (exp_key c' k') ≡ (text_eq c c' && text_eq k k')
unfolding exp_key text_eq
exp_key-eq [] k [] k' n n' = ground arith
exp_key-eq [] k (b ∷ c') k' n n' = ground arith
exp_key-eq (a ∷ c) k [] k' n n' = ground arith
exp_key-eq (a ∷ c) k (b ∷ c') k' n n' = ground (arith, exp_key-eq c k c' k' n.1 n'.1)

pub obj_db-eq : (c c' : Text) → text_eq (obj_db c) (obj_db c') ≡ text_eq c c'
unfolding obj_db text_eq
obj_db-eq c c' = ground arith

pub obj_db-exp_db : (c : Text) → text_eq (obj_db c) exp_db ≡ false
unfolding obj_db text_eq
obj_db-exp_db c = ground arith

pub exp_db-obj_db : (c : Text) → text_eq exp_db (obj_db c) ≡ false
unfolding obj_db text_eq
exp_db-obj_db c = ground arith
