-- ===== src/Examples/Values.antt =====
-- A small type of JSON values that keeps the laws, and some shards' data.
use stplr.Base.{
  ℕ, ◌≡◌, refl, Bool, true, false, ◌&&◌, Option, none, some, List, [], ◌∷◌, arith, ◌==◌, nat_Eq,
  beq_self,
}
use stplr.Store.Memory.{MemoryStore, new, put_object, put_object_at, memory_store}
use stplr.Store.Memory.Laws.{IsValid, new-IsValid, memory-StoreLaws}
use stplr.Text.{Text, text_Eq, codes}
use stplr.Lease.{Lease}
use stplr.Json.{Json, IsJson}

pub data Value : Type 0 where
  number : ℕ → Value
  string : Text → Value
  strings : List Text → Value
  a_lease : Lease → Value

unfoldable strings_eq : List Text → List Text → Bool
strings_eq [] [] = true
strings_eq (s ∷ ss) (t ∷ ts) = (s == t) && strings_eq ss ts
strings_eq _ _ = false

unfoldable pub equal : Value → Value → Bool
unfolding strings_eq
equal (number m) (number n) = m == n
equal (string s) (string t) = s == t
equal (strings ss) (strings ts) = strings_eq ss ts
equal (a_lease l) (a_lease m) =
    (l.holder == m.holder) && ((l.expires_ms == m.expires_ms) && (l.token == m.token))
equal _ _ = false

unfoldable pub to_number : Value → Option ℕ
to_number (number n) = some n
to_number _ = none

unfoldable pub to_string : Value → Option Text
to_string (string s) = some s
to_string _ = none

unfoldable pub to_strings : Value → Option (List Text)
to_strings (strings ss) = some ss
to_strings _ = none

unfoldable pub to_lease : Value → Option Lease
to_lease (a_lease l) = some l
to_lease _ = none

instance abbrev pub value_Json : Json Value
value_Json = record {
  value_eq = equal;
  as_i64 = to_number;
  as_str = to_string;
  from_i64 = number;
  from_strings = strings;
  to_strings = to_strings;
  from_lease = a_lease;
  to_lease = to_lease;
}

strings_eq_self : (ss : List Text) → strings_eq ss ss ≡ true
unfolding strings_eq
strings_eq_self [] = refl
strings_eq_self (s ∷ ss) = ground (arith, strings_eq_self ss, beq_self s)

equal_self : (v : Value) → equal v v ≡ true
unfolding equal
equal_self (number n) = ground (arith, beq_self n)
equal_self (string s) = beq_self s
equal_self (strings ss) = strings_eq_self ss
equal_self (a_lease l) = ground (arith, beq_self l.holder, beq_self l.expires_ms, beq_self l.token)

pub value-IsJson : IsJson value_Json
unfolding to_number to_strings to_lease
value-IsJson = record {
  value_eq_refl = equal_self;
  as_i64-from_i64 = λ n h. refl;
  to_strings-from_strings = λ ms. refl;
  to_lease-from_lease = λ l. refl;
}

abbrev pub kv : Text
kv = codes "kv"

abbrev pub hello : Text
hello = codes "hello"

abbrev pub tags : Text
tags = codes "tags"

-- A store with a number, a set, and a value that runs out at 50.
abbrev pub some_store : MemoryStore Value
some_store =
    put_object_at (put_object (put_object new kv hello (number 7)) kv tags (strings (hello ∷ [])))
      kv (codes "tmp") (string hello) 50

pub some_store-IsValid : IsValid some_store
unfolding memory_store
some_store-IsValid =
    let laws = memory-StoreLaws {V = Value} in
    let s = put_object new kv hello (number 7) in
    let s' = put_object s kv tags (strings (hello ∷ [])) in
    laws.put_object_at-Valid s' kv (codes "tmp") (string hello) 50 (
      laws.put_object-Valid s kv tags (strings (hello ∷ []))
        (laws.put_object-Valid new kv hello (number 7) new-IsValid))
