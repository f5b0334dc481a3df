-- ===== src/Lmdb/Sweep.antt =====
-- The sweep of lmdb.rs: the expiries that it finds due, and what its loop deletes.
use stplr.Base.{
  ℕ, ◌≤◌, ◌≡◌, refl, sym, ap, subst, ◌∙◌, ◌⊎◌, inl, inr, Bool, true, Option, none, some, List, [],
  ◌∷◌, arith, ltb, if◌then◌else◌, Bool-cases, ◌==◌, nat_Eq, All, Distinct, beq_self,
}
use stplr.Text.{text_Eq, text_eq_iff, Text}
use stplr.Dict.{get, keys, get-absent}
use stplr.StrDb.{StrDb, IsStrDb, Codec}
use stplr.Store.Laws.{same_key}
use stplr.Lmdb.{
  Env, split_char, split_once, parse_entries, parsed_expiry, passed, fetch_in, delete_in, obj_db,
  exp_db, exp_key,
}
use stplr.Lmdb.Env.{IsName, fetch-delete_in, exp_key-eq, obj_db-eq, obj_db-exp_db, exp_db-obj_db}
use stplr.Lmdb.Bulk.{dead_of, due_at, delete_dead}

-- What a head adds to the two parts.
abbrev Splits : Text → Option (Text × Text) → Type 0
Splits s none = Unit
Splits s (some (a, b)) = IsName a × (s ≡ exp_key a b)

split_head :
    (c : ℕ) (s : Text) (r : Option (Text × Text)) → Splits s r → Splits (c ∷ s) (split_char c s r)
unfolding exp_key
split_head c s none h = elim (Bool-cases (c == 0)) [
  | inl z ↦ rw z (tt, ground (arith, z))
  | inr z ↦ rw z tt
]
split_head c s (some (a, b)) h = elim (Bool-cases (c == 0)) [
  | inl z ↦ rw z (tt, ground (arith, z))
  | inr z ↦ rw z ((z, h.0), ap (λ (u : Text). c ∷ u) h.1)
]

split_once-Splits : (s : Text) → Splits s (split_once s)
unfolding split_once
split_once-Splits [] = tt
split_once-Splits (c ∷ s) = split_head c s (split_once s) (split_once-Splits s)

-- What holds of each entry of a dictionary holds of each of its list.
module _ (P : Text → Text → Type 0) where
  abbrev pub EachRow : List (Text × Text) → Type 0
  EachRow [] = Unit
  EachRow ((j, t) ∷ m) = P j t × EachRow m

  pub get-EachRow :
      (m : List (Text × Text))
      → Distinct (keys m)
      → ((j t : Text) → get m j ≡ some t → P j t)
      → EachRow m
  unfolding get keys
  get-EachRow [] d h = tt
  get-EachRow ((j, t) ∷ m) d h = (
    h j t (ground (arith, beq_self j)),
    get-EachRow m d.1 (λ i u e. h i u (ground (arith, text_eq_iff j i, get-absent m j))),
  )

module _ {D V : Type 0} (db : StrDb D) (empty : D) (codec : Codec V) (as_u64 : V → Option ℕ)
    (at : ℕ) (env : Env D) where
  abbrev pub has_passed : Text → Bool
  has_passed ekey = passed db empty at (parsed_expiry db empty (fetch_in db empty env exp_db ekey))

  -- An item to delete: its key names a collection without a NUL, and its expiry is due.
  abbrev pub IsDue : Text × Text × Text → Type 0
  IsDue (ekey, coll, id) = IsName coll × (ekey ≡ exp_key coll id) × (has_passed ekey ≡ true)

  -- A value that reads as a number is due as the text that is stored.
  abbrev pub Reads : Text → Text → Type 0
  Reads ekey t =
      (v : V) (e : ℕ)
      → codec.from_str t ≡ some v
      → as_u64 v ≡ some e
      → e ≤ at
      → has_passed ekey ≡ true

  abbrev AllDue : Option (Text × Text × Text) → List (Text × Text × Text) → Type 0
  AllDue none ds = All IsDue ds
  AllDue (some d) ds = All IsDue (d ∷ ds)

  due_at-IsDue :
      (ekey : Text) (e : Option ℕ) (split : Option (Text × Text)) (ds : List (Text × Text × Text))
      → Splits ekey split
      → ((n : ℕ) → e ≡ some n → n ≤ at → has_passed ekey ≡ true)
      → All IsDue ds
      → AllDue (due_at db empty codec as_u64 at ekey e split) ds
  due_at-IsDue ekey none split ds s h a = a
  due_at-IsDue ekey (some e) none ds s h a = a
  due_at-IsDue ekey (some e) (some (coll, id)) ds s h a = elim (Bool-cases (ltb at e)) [
    | inl later ↦ rw later a
    | inr now ↦ rw now ((s.0, s.1, h e refl (ground (arith, now))), a)
  ]

  -- The items with one more before them, if it is due.
  abbrev added : Option (Text × Text × Text) → List (Text × Text × Text) → List (Text × Text × Text)
  added r ds = elim r [ none ↦ ds | some d ↦ d ∷ ds ]

  added-IsDue :
      (r : Option (Text × Text × Text)) (ds : List (Text × Text × Text))
      → AllDue r ds
      → All IsDue (added r ds)
  added-IsDue none ds a = a
  added-IsDue (some d) ds a = a

  abbrev dead : List (Text × V) → List (Text × Text × Text)
  dead = dead_of db empty codec as_u64 at

  row-IsDue :
      (j t : Text) (found : Option V) (m : List (Text × V))
      → codec.from_str t ≡ found
      → Reads j t
      → All IsDue (dead m)
      → All IsDue (dead (elim found [ none ↦ m | some v ↦ (j, v) ∷ m ]))
  unfolding dead_of
  row-IsDue j t none m e r a = a
  row-IsDue j t (some v) m e r a =
      added-IsDue (due_at db empty codec as_u64 at j (as_u64 v) (split_once j)) (dead m) (
        due_at-IsDue j (as_u64 v) (split_once j) (dead m) (split_once-Splits j)
          (λ n q le. r v n e q le) a)

  pub dead_of-IsDue :
      (m : List (Text × Text))
      → EachRow Reads m
      → All IsDue (dead (parse_entries db empty codec as_u64 m))
  unfolding parse_entries dead_of
  dead_of-IsDue [] r = tt
  dead_of-IsDue ((j, t) ∷ m) r =
      row-IsDue j t (codec.from_str t) (parse_entries db empty codec as_u64 m) refl r.0
        (dead_of-IsDue m r.1)

  module _ (lawful : IsStrDb db) (nothing : db.iter empty ≡ []) (c k : Text) (name : IsName c) where
    abbrev exp_at : Env D → Option Text
    exp_at e = fetch_in db empty e exp_db (exp_key c k)

    abbrev obj_at : Env D → Option Text
    obj_at e = fetch_in db empty e (obj_db c) k

    -- The key is as it was, or its expiry is due and its value is gone.
    abbrev pub IsSwept : Env D → Type 0
    IsSwept e =
        ((exp_at e ≡ exp_at env) × (obj_at e ≡ obj_at env))
        ⊎ ((has_passed (exp_key c k) ≡ true) × (obj_at e ≡ none))

    -- One item of the loop, at a collection that is there.
    abbrev erased : Env D → Text → Text → Text → Env D
    erased e ekey coll id = delete_in db empty (delete_in db empty e (obj_db coll) id) exp_db ekey

    exp-erased :
        (e : Env D) (coll id : Text)
        → IsName coll
        → exp_at (erased e (exp_key coll id) coll id)
          ≡ (if same_key coll id c k then none else exp_at e)
    exp-erased e coll id n =
        fetch-delete_in db empty lawful nothing (delete_in db empty e (obj_db coll) id) exp_db
          (exp_key coll id) exp_db (exp_key c k)
        ∙ rw
            (
              beq_self exp_db,
              exp_key-eq coll id c k n name,
              fetch-delete_in db empty lawful nothing e (obj_db coll) id exp_db (exp_key c k),
              obj_db-exp_db coll,
            )
            refl

    obj-erased :
        (e : Env D) (ekey coll id : Text)
        → obj_at (erased e ekey coll id) ≡ (if same_key coll id c k then none else obj_at e)
    obj-erased e ekey coll id =
        fetch-delete_in db empty lawful nothing (delete_in db empty e (obj_db coll) id) exp_db ekey
          (obj_db c) k
        ∙ rw
            (
              exp_db-obj_db c,
              fetch-delete_in db empty lawful nothing e (obj_db coll) id (obj_db c) k,
              obj_db-eq coll c,
            )
            refl

    erased-IsSwept :
        (e : Env D) (coll id : Text)
        → IsName coll
        → has_passed (exp_key coll id) ≡ true
        → IsSwept e
        → IsSwept (erased e (exp_key coll id) coll id)
    erased-IsSwept e coll id n due h = elim (Bool-cases (same_key coll id c k)) [
      | inl same ↦ inr (
        subst (λ (key : Text). has_passed key ≡ true)
            (ground (arith, same, text_eq_iff coll c, text_eq_iff id k)) due,
        obj-erased e (exp_key coll id) coll id ∙ rw same refl,
      )
      | inr apart ↦
          let x = exp-erased e coll id n ∙ rw apart refl in
          let o = obj-erased e (exp_key coll id) coll id ∙ rw apart refl in
          elim h [ inl (a, b) ↦ inl (x ∙ a, o ∙ b) | inr (p, b) ↦ inr (p, o ∙ b) ]
    ]

    item-IsSwept :
        (e : Env D) (ekey coll id : Text) (found : Option D)
        → IsDue (ekey, coll, id)
        → IsSwept e
        → IsSwept (elim found [ none ↦ e | some d ↦ erased e ekey coll id ])
    item-IsSwept e ekey coll id none due h = h
    item-IsSwept e ekey coll id (some d) (n, q, due) h =
        subst (λ (key : Text). IsSwept (erased e key coll id)) (sym q)
          (erased-IsSwept e coll id n (subst (λ (key : Text). has_passed key ≡ true) q due) h)

    pub delete_dead-IsSwept :
        (e : Env D) (ds : List (Text × Text × Text))
        → All IsDue ds
        → IsSwept e
        → IsSwept (delete_dead db empty codec as_u64 e ds)
    unfolding delete_dead
    delete_dead-IsSwept e [] a h = h
    delete_dead-IsSwept e ((ekey, coll, id) ∷ ds) a h =
        delete_dead-IsSwept
          (elim (get e (obj_db coll)) [ none ↦ e | some d ↦ erased e ekey coll id ]) ds a.1
          (item-IsSwept e ekey coll id (get e (obj_db coll)) a.0 h)
