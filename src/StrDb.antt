-- ===== src/StrDb.antt =====
-- What the program uses of `heed`, a package outside the repository: an LMDB database of strings to
-- strings. `iter` gives its entries in the order of their keys. Its calls are taken to succeed.
use stplr.Base.{
  ◌≡◌, refl, Bool, Option, some, List, [], ◌∷◌, arith, if◌then◌else◌, ◌==◌, nat_Eq, contains,
}
use stplr.Text.{text_eq_iff, Text, text_Eq, text_lt}
use stplr.Dict.{get, remove, keys}

pub record StrDb (D : Type 0) : Type 0 where
  pub iter : D → List (Text × Text)
  pub fetch : D → Text → Option Text
  pub put : D → Text → Text → D
  -- whether the key was there
  pub delete : D → Text → D × Bool

-- An entry put in its place by the order of keys, or in place of the entry of its key.
unfoldable pub put_sorted : List (Text × Text) → Text → Text → List (Text × Text)
put_sorted [] k v = (k, v) ∷ []
put_sorted ((j, w) ∷ m) k v =
    if j == k
    then (k, v) ∷ m
    else if text_lt k j
    then (k, v) ∷ (j, w) ∷ m
    else (j, w) ∷ put_sorted m k v

pub get-put_sorted : (m : List (Text × Text)) (k v : Text) → get (put_sorted m k v) k ≡ some v
unfolding put_sorted get
get-put_sorted [] k v = ground (arith, text_eq_iff k k)
get-put_sorted ((j, w) ∷ m) k v =
    ground (arith, get-put_sorted m k v, text_eq_iff k k, text_eq_iff j k)

pub get-put_sorted_any :
    (m : List (Text × Text)) (k v j : Text)
    → get (put_sorted m k v) j ≡ (if k == j then some v else get m j)
unfolding put_sorted get
get-put_sorted_any [] k v j = refl
get-put_sorted_any ((i, w) ∷ m) k v j =
    ground (arith, get-put_sorted_any m k v j, text_eq_iff i k, text_eq_iff i j, text_eq_iff k j)

-- The documented behaviour: an ordered map.
pub record IsStrDb {D : Type 0} (db : StrDb D) : Type 0 where
  pub fetch_lem : (d : D) (k : Text) → db.fetch d k ≡ get (db.iter d) k
  pub iter-put : (d : D) (k v : Text) → db.iter (db.put d k v) ≡ put_sorted (db.iter d) k v
  pub iter-delete : (d : D) (k : Text) → db.iter (db.delete d k).0 ≡ remove (db.iter d) k
  pub delete_found : (d : D) (k : Text) → (db.delete d k).1 ≡ contains (keys (db.iter d)) k

-- A sorted list of entries keeps the laws.
unfoldable pub list_db : StrDb (List (Text × Text))
list_db = record {
  iter = λ d. d;
  fetch = λ d k. get d k;
  put = λ d k v. put_sorted d k v;
  delete = λ d k. (remove d k, contains (keys d) k);
}

pub list_db-IsStrDb : IsStrDb list_db
unfolding list_db
list_db-IsStrDb = record {
  fetch_lem = λ d k. refl;
  iter-put = λ d k v. refl;
  iter-delete = λ d k. refl;
  delete_found = λ d k. refl;
}

-- `serde_json::to_string` and `from_str` at one type, another package: what was written is read back.
pub record Codec (A : Type 0) : Type 0 where
  pub to_string : A → Text
  pub from_str : Text → Option A

pub record IsCodec {A : Type 0} (c : Codec A) : Type 0 where
  pub from_str-to_string : (a : A) → c.from_str (c.to_string a) ≡ some a
