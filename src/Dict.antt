-- ===== src/Dict.antt =====
-- Rust's `HashMap` and `BTreeMap`: an association list whose keys are distinct. A list order stands
-- for the iteration order, which a `HashMap` leaves unspecified.
use stplr.Base.{
  ◌≡◌, refl, false, not, ◌&&◌, ◌||◌, Option, none, some, List, [], ◌∷◌, arith, if◌then◌else◌, Eq,
  ◌==◌, nat_Eq, is_some, length, contains, Distinct,
}

abbrev pub Dict {ℓ κ} : Type ℓ → Type κ → Type (ℓ ⊔ κ)
Dict K V = List (K × V)

module _ {ℓ κ} {K : Type ℓ} {V : Type κ} ⦃e : Eq K⦄ where
  -- `m.get(k)`
  unfoldable pub get : Dict K V → K → Option V
  get [] k = none
  get ((j, v) ∷ m) k = if j == k then some v else get m k

  -- `m.insert(k, v)`
  unfoldable pub insert : Dict K V → K → V → Dict K V
  insert [] k v = (k, v) ∷ []
  insert ((j, w) ∷ m) k v = if j == k then (k, v) ∷ m else (j, w) ∷ insert m k v

  -- `m.remove(k)`
  unfoldable pub remove : Dict K V → K → Dict K V
  remove [] k = []
  remove ((j, w) ∷ m) k = let rest = remove m k in if j == k then rest else (j, w) ∷ rest

  -- `m.keys()`
  unfoldable pub keys : Dict K V → List K
  keys [] = []
  keys ((j, w) ∷ m) = j ∷ keys m

  pub get-insert :
      (m : Dict K V) (k : K) (v : V) (j : K)
      → get (insert m k v) j ≡ (if k == j then some v else get m j)
  unfolding get insert
  get-insert [] k v j = refl
  get-insert ((i, w) ∷ m) k v j =
      ground (arith, get-insert m k v j, e.beq_iff i k, e.beq_iff i j, e.beq_iff k j)

  pub get-remove :
      (m : Dict K V) (k j : K) → get (remove m k) j ≡ (if k == j then none else get m j)
  unfolding get remove
  get-remove [] k j = ground arith
  get-remove ((i, w) ∷ m) k j =
      ground (arith, get-remove m k j, e.beq_iff i k, e.beq_iff i j, e.beq_iff k j)

  pub contains-keys-insert :
      (m : Dict K V) (k : K) (v : V) (j : K)
      → contains (keys (insert m k v)) j ≡ ((k == j) || contains (keys m) j)
  unfolding keys insert
  contains-keys-insert [] k v j = refl
  contains-keys-insert ((i, w) ∷ m) k v j =
      ground (arith, contains-keys-insert m k v j, e.beq_iff i k, e.beq_iff i j, e.beq_iff k j)

  pub contains-keys-remove :
      (m : Dict K V) (k j : K)
      → contains (keys (remove m k)) j ≡ (not (k == j) && contains (keys m) j)
  unfolding keys remove
  contains-keys-remove [] k j = ground arith
  contains-keys-remove ((i, w) ∷ m) k j =
      ground (arith, contains-keys-remove m k j, e.beq_iff i k, e.beq_iff i j, e.beq_iff k j)

  pub insert-Distinct :
      (m : Dict K V) (k : K) (v : V) → Distinct (keys m) → Distinct (keys (insert m k v))
  unfolding keys insert
  insert-Distinct [] k v d = (refl, tt)
  insert-Distinct ((i, w) ∷ m) k v d =
      ground (
        arith,
        insert-Distinct m k v d.1,
        contains-keys-insert m k v i,
        e.beq_iff i k,
        e.beq_iff k i,
      )

  pub remove-Distinct : (m : Dict K V) (k : K) → Distinct (keys m) → Distinct (keys (remove m k))
  unfolding keys remove
  remove-Distinct [] k d = tt
  remove-Distinct ((i, w) ∷ m) k d =
      ground (arith, remove-Distinct m k d.1, contains-keys-remove m k i, e.beq_iff i k)

  pub get-absent : (m : Dict K V) (k : K) → contains (keys m) k ≡ false → get m k ≡ none
  unfolding keys get
  get-absent [] k h = refl
  get-absent ((i, w) ∷ m) k h = ground (arith, get-absent m k)

  pub remove_absent : (m : Dict K V) (k : K) → contains (keys m) k ≡ false → remove m k ≡ m
  unfolding remove keys
  remove_absent [] k h = refl
  remove_absent ((j, w) ∷ m) k h = ground (arith, remove_absent m k)

  pub get-present : (m : Dict K V) (k : K) → contains (keys m) k ≡ is_some (get m k)
  unfolding keys get
  get-present [] k = refl
  get-present ((i, w) ∷ m) k = ground (arith, get-present m k)

  pub length-keys : (m : Dict K V) → length (keys m) ≡ length m
  unfolding keys
  length-keys [] = refl
  length-keys ((i, w) ∷ m) = ground (arith, length-keys m)

pub ruleset dict_laws = (get-insert, get-remove)
