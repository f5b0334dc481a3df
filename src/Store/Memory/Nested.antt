-- ===== src/Store/Memory/Nested.antt =====
-- The two-level maps of `MemoryStore` (store.rs): collection, then id.
use stplr.Base.{
  ◌≡◌, refl, ◌⊎◌, inl, inr, Bool, true, false, ◌||◌, Option, none, some, List, [], ◌∷◌, ◌++◌, arith,
  if◌then◌else◌, nat_Eq, contains, Distinct,
}
use stplr.Text.{Text, text_Eq, text_eq_iff}
use stplr.Dict.{
  Dict, get, insert, remove, keys, get-insert, get-remove, insert-Distinct, remove-Distinct,
}
use stplr.Store.Laws.{same_key}
use stplr.Store.Memory.{coll_of, insert_in, remove_in, due, all_due, remove_all}

module _ {V : Type 0} where
  abbrev pub AllDistinct : Dict Text (Dict Text V) → Type 0
  AllDistinct [] = Unit
  AllDistinct ((c, d) ∷ m) = Distinct (keys d) × AllDistinct m

  -- Each collection once, and each id once in its collection.
  pub record IsNested (m : Dict Text (Dict Text V)) : Type 0 where
    pub outer : Distinct (keys m)
    pub inner : AllDistinct m

  pub get-insert_in :
      (m : Dict Text (Dict Text V)) (c k : Text) (v : V) (c' k' : Text)
      → get (coll_of (insert_in m c k v) c') k'
        ≡ (if same_key c k c' k' then some v else get (coll_of m c') k')
  unfolding coll_of insert_in
  get-insert_in m c k v c' k' = ground (
    arith,
    get-insert m c (insert (coll_of m c) k v) c',
    get-insert (coll_of m c) k v k',
    text_eq_iff c c',
  )

  pub get-remove_in :
      (m : Dict Text (Dict Text V)) (c k c' k' : Text)
      → get (coll_of (remove_in m c k) c') k'
        ≡ (if same_key c k c' k' then none else get (coll_of m c') k')
  unfolding coll_of remove_in get
  get-remove_in m c k c' k' = ground (
    arith,
    get-insert m c (remove (coll_of m c) k) c',
    get-remove (coll_of m c) k k',
    text_eq_iff c c',
  )

  pub coll_of-Distinct :
      (m : Dict Text (Dict Text V)) (c : Text) → AllDistinct m → Distinct (keys (coll_of m c))
  unfolding coll_of get keys
  coll_of-Distinct [] c a = tt
  coll_of-Distinct ((c', d) ∷ m) c a = ground (arith, coll_of-Distinct m c a.1)

  AllDistinct-insert :
      (m : Dict Text (Dict Text V)) (c : Text) (d : Dict Text V)
      → Distinct (keys d)
      → AllDistinct m
      → AllDistinct (insert m c d)
  unfolding insert
  AllDistinct-insert [] c d h a = (h, tt)
  AllDistinct-insert ((c', d') ∷ m) c d h a = ground (arith, AllDistinct-insert m c d h a.1)

  AllDistinct-remove :
      (m : Dict Text (Dict Text V)) (c : Text) → AllDistinct m → AllDistinct (remove m c)
  unfolding remove
  AllDistinct-remove [] c a = tt
  AllDistinct-remove ((c', d') ∷ m) c a = ground (arith, AllDistinct-remove m c a.1)

  pub insert_in-IsNested :
      (m : Dict Text (Dict Text V)) (c k : Text) (v : V) → IsNested m → IsNested (insert_in m c k v)
  unfolding insert_in
  insert_in-IsNested m c k v n =
      let d = insert-Distinct (coll_of m c) k v (coll_of-Distinct m c n.inner) in
      record {
        outer = insert-Distinct m c (insert (coll_of m c) k v) n.outer;
        inner = AllDistinct-insert m c (insert (coll_of m c) k v) d n.inner;
      }

  remove_in-cases :
      (m : Dict Text (Dict Text V)) (c k : Text)
      → (remove_in m c k ≡ m) ⊎ (remove_in m c k ≡ insert m c (remove (coll_of m c) k))
  unfolding remove_in coll_of
  remove_in-cases m c k = ground arith

  pub remove_in-IsNested :
      (m : Dict Text (Dict Text V)) (c k : Text) → IsNested m → IsNested (remove_in m c k)
  remove_in-IsNested m c k n = elim (remove_in-cases m c k) [
    | inl e ↦ rw e n
    | inr e ↦ rw e (record {
      outer = insert-Distinct m c (remove (coll_of m c) k) n.outer;
      inner =
          AllDistinct-insert m c (remove (coll_of m c) k)
            (remove-Distinct (coll_of m c) k (coll_of-Distinct m c n.inner)) n.inner;
    })
  ]

  pub remove-IsNested :
      (m : Dict Text (Dict Text V)) (c : Text) → IsNested m → IsNested (remove m c)
  remove-IsNested m c n = record {
    outer = remove-Distinct m c n.outer;
    inner = AllDistinct-remove m c n.inner;
  }

  pub remove_all-IsNested :
      (m : Dict Text (Dict Text V)) (dead : List (Text × Text))
      → IsNested m
      → IsNested (remove_all m dead)
  unfolding remove_all
  remove_all-IsNested m [] n = n
  remove_all-IsNested m ((c, k) ∷ dead) n =
      remove_all-IsNested (remove_in m c k) dead (remove_in-IsNested m c k n)

-- Whether a pair of collection and id is listed.
unfoldable pub listed : List (Text × Text) → Text → Text → Bool
listed [] c k = false
listed ((c', k') ∷ dead) c k = same_key c' k' c k || listed dead c k

module _ {V : Type 0} where
  pub get-remove_all :
      (m : Dict Text (Dict Text V)) (dead : List (Text × Text)) (c k : Text)
      → get (coll_of (remove_all m dead) c) k
        ≡ (if listed dead c k then none else get (coll_of m c) k)
  unfolding remove_all listed
  get-remove_all m [] c k = refl
  get-remove_all m ((c', k') ∷ dead) c k =
      ground (arith, get-remove_all (remove_in m c' k') dead c k, get-remove_in m c' k' c k)

  abbrev pub holds : (V → Bool) → Option V → Bool
  holds dead none = false
  holds dead (some v) = dead v

listed-append :
    (xs ys : List (Text × Text)) (c k : Text)
    → listed (xs ++ ys) c k ≡ (listed xs c k || listed ys c k)
unfolding listed
listed-append [] ys c k = refl
listed-append ((c', k') ∷ xs) ys c k = ground (arith, listed-append xs ys c k)

module _ {V : Type 0} (dead : V → Bool) where
  listed-due :
      (coll : Text) (d : Dict Text V) (c k : Text)
      → Distinct (keys d)
      → listed (due dead coll d) c k ≡ true
      → (c ≡ coll) × (holds dead (get d k) ≡ true) × (contains (keys d) k ≡ true)
  unfolding listed due keys get
  listed-due coll [] c k n h = absurd (cc)
  listed-due coll ((id, v) ∷ d) c k n h =
      ground (arith, listed-due coll d c k n.1, text_eq_iff coll c, text_eq_iff id k)

  pub listed-all_due :
      (m : Dict Text (Dict Text V)) (c k : Text)
      → IsNested m
      → listed (all_due dead m) c k ≡ true
      → (holds dead (get (coll_of m c) k) ≡ true) × (contains (keys m) c ≡ true)
  unfolding listed all_due coll_of keys get
  listed-all_due [] c k n h = absurd (cc)
  listed-all_due ((coll, d) ∷ m) c k n h = ground (
    arith,
    listed-append (due dead coll d) (all_due dead m) c k,
    listed-due coll d c k n.inner.0,
    listed-all_due m c k (record { outer = n.outer.1; inner = n.inner.1 }),
    text_eq_iff coll c,
  )
