-- ===== src/Resp/Commands.antt =====
-- The commands of resp.rs, over one collection of a shard.
pub mod Reads
use stplr.Text.Number.{parse_i64}
use stplr.Base.{
  ℕ, zero, suc, ◌+◌, ◌-◌, ◌*◌, ◌/◌, ◌%◌, ◌^◌, ◌≤◌, ◌<◌, min, max, ◌≡◌, refl, sym, ap, subst, ◌∙◌,
  ◌≡⟨◌⟩◌, ◌∎, ◌≢◌, ◌↔◌, ◌⊎◌, inl, inr, Bool, true, false, not, ◌&&◌, ◌||◌, Option, none, some, List,
  [], ◌∷◌, ◌++◌, map, reverse, append-nil, append_assoc, arith, ltb, leb, nat_eq, nat_eq_iff,
  if◌then◌else◌, ltb→lt, leb→le, Bool-cases, Eq, ◌==◌, nat_Eq, is_some, length, take, get_elem?,
  first, filter_by, any, all, All, length-append, length-take, drop, take-drop, length-drop,
  take-all, length-filter_by, filter_by-append, contains, Distinct, beq_self, contains-append,
  contains-take, Distinct-take, contains-filter_by, Distinct-filter_by,
}
use stplr.Text.{text_Eq, Text, codes}
use stplr.Text.Utf8.{Bytes, as_bytes}
use stplr.Word.{u64_mod}
use stplr.Json.{Json}
use stplr.Json.Wire.{WireJson}
use stplr.Store.{IndexStore}
use stplr.Shard
use stplr.Shard.{Shard}
use stplr.Resp.Options.{lower, text_of, ttl_of, scan_opts, next_cursor, bulk_texts}
use stplr.Resp.{bulk_value, simple, err, int, bulk, array_header}

abbrev pub coll : Text
coll = codes "kv"

abbrev pub flag : Bool → ℕ
flag true = 1
flag false = 0

abbrev pub not_integer : Bytes
not_integer = err (codes "ERR value is not an integer or out of range")

module _ {S V : Type 0} (o : IndexStore S V) ⦃j : Json V⦄ (k : WireJson V) where
  -- `filter_map(|v| v.as_str().map(str::to_string))`
  unfoldable pub strings_in : List V → List Text
  strings_in [] = []
  strings_in (v ∷ vs) = elim (j.as_str v) [ none ↦ strings_in vs | some s ↦ s ∷ strings_in vs ]

  abbrev pub members_of : Option V → List Text
  members_of none = []
  members_of (some v) = elim (k.array v) [ none ↦ [] | some vs ↦ strings_in vs ]

  unfoldable pub set_members : ℕ → Shard S → Text → List Text
  unfolding strings_in
  set_members now sh key = members_of (Shard.object o now sh coll key)

  unfoldable pub set : ℕ → Shard S → Text → V → ℕ → Shard S
  set now sh key v ttl_ms =
      if ltb 0 ttl_ms
      then Shard.write_object_ttl o now sh coll key v ttl_ms
      else Shard.write_object o sh coll key v

  -- The loop of `DEL`, with the number of keys that were there.
  unfoldable pub del : ℕ → Shard S → ℕ → List Bytes → Shard S × ℕ
  del now sh n [] = (sh, n)
  del now sh n (b ∷ bs) =
      let key = text_of b in
      if is_some (Shard.object o now sh coll key)
      then del now (Shard.delete_object o sh coll key) (n + 1) bs
      else del now sh n bs

  unfoldable pub count_existing : ℕ → Shard S → List Bytes → ℕ
  count_existing now sh [] = 0
  count_existing now sh (b ∷ bs) =
      flag (is_some (Shard.object o now sh coll (text_of b))) + count_existing now sh bs

  unfoldable pub sadd : ℕ → Shard S → Text → ℕ → List Bytes → Shard S × ℕ
  sadd now sh key n [] = (sh, n)
  sadd now sh key n (b ∷ bs) =
      let r = Shard.set_add o now sh coll key (text_of b) in sadd now r.0 key (n + flag r.1) bs

  unfoldable pub srem : ℕ → Shard S → Text → ℕ → List Bytes → Shard S × ℕ
  srem now sh key n [] = (sh, n)
  srem now sh key n (b ∷ bs) =
      let r = Shard.set_remove o now sh coll key (text_of b) in srem now r.0 key (n + flag r.1) bs

  abbrev pub counted : Shard S × ℕ → Shard S × Bytes
  counted (sh, n) = (sh, int n)

  abbrev pub incr_reply : Shard S × Option ℕ → Shard S × Bytes
  incr_reply (sh, none) = (sh, not_integer)
  incr_reply (sh, some v) = (sh, int v)

  abbrev pub incr_by : ℕ → Shard S → Text → (ℕ → ℕ) → Option ℕ → Shard S × Bytes
  incr_by now sh key sign none = (sh, not_integer)
  incr_by now sh key sign (some by) = incr_reply (Shard.incr o now sh coll key (sign by))

  abbrev pub neg : ℕ → ℕ
  neg by = (u64_mod - by) % u64_mod

  abbrev pub type_name : Option V → Text
  type_name none = codes "none"
  type_name (some v) = if is_some (k.array v) then codes "set" else codes "string"

  unfoldable pub scan : ℕ → Shard S → Text → ℕ → Option Text → Bytes
  unfolding bulk_texts next_cursor
  scan now sh cursor count prefix =
      let after : Option Text = if cursor == codes "0" then none else some cursor in
      let ks = Shard.scan_range o now sh coll after prefix none count in
      array_header 2
      ++ (bulk (some (as_bytes (next_cursor count ks)))
          ++ (array_header (length ks) ++ bulk_texts ks))

  unfoldable pub unknown : Text → Shard S → Shard S × Bytes
  unknown cmd sh = (sh, err (codes "ERR unknown command '" ++ (lower cmd ++ codes "'")))

  unfoldable pub ping : Shard S → List Bytes → Shard S × Bytes
  ping sh [] = (sh, simple (codes "PONG"))
  ping sh (a ∷ args) = (sh, bulk (some a))

  -- The commands by the number of their arguments: one, and two.
  unfoldable pub run_one : ℕ → Shard S → Text → Bytes → Shard S × Bytes
  unfolding unknown
  run_one now sh cmd a =
      let key = text_of a in
      if cmd == codes "GET"
      then (sh, bulk_value k (Shard.object o now sh coll key))
      else if cmd == codes "INCR"
      then incr_reply (Shard.incr o now sh coll key 1)
      else if cmd == codes "DECR"
      then incr_reply (Shard.incr o now sh coll key (u64_mod - 1))
      else if cmd == codes "SMEMBERS"
      then (
        sh,
        array_header (length (set_members now sh key)) ++ bulk_texts (set_members now sh key),
      )
      else if cmd == codes "SCARD"
      then (sh, int (length (set_members now sh key)))
      else if cmd == codes "TYPE"
      then (sh, simple (type_name (Shard.object o now sh coll key)))
      else unknown cmd sh

  unfoldable pub run_two : ℕ → Shard S → Text → Bytes → Bytes → Shard S × Bytes
  unfolding unknown
  run_two now sh cmd a b =
      let key = text_of a in
      if cmd == codes "GETSET"
      then (
        Shard.write_object o sh coll key (k.string (text_of b)),
        bulk_value k (Shard.object o now sh coll key),
      )
      else if cmd == codes "INCRBY"
      then incr_by now sh key (λ by. by) (parse_i64 (text_of b))
      else if cmd == codes "DECRBY"
      then incr_by now sh key neg (parse_i64 (text_of b))
      else if cmd == codes "SISMEMBER"
      then (sh, int (flag (contains (set_members now sh key) (text_of b))))
      else unknown cmd sh

  abbrev pub scan_with : ℕ → Shard S → Text → ℕ × Option Text → Bytes
  scan_with now sh cursor (count, prefix) = scan now sh cursor count prefix

  -- The commands that take any number of arguments from one on.
  unfoldable pub run_many : ℕ → Shard S → Text → List Bytes → Option (Shard S × Bytes)
  run_many now sh cmd [] = none
  run_many now sh cmd (a ∷ args) =
      if cmd == codes "DEL"
      then some (counted (del now sh 0 (a ∷ args)))
      else if cmd == codes "EXISTS"
      then some (sh, int (count_existing now sh (a ∷ args)))
      else if cmd == codes "SCAN"
      then some (sh, scan_with now sh (text_of a) (scan_opts 10 none args))
      else none

  -- The commands that take any number of arguments from two on.
  unfoldable pub run_more : ℕ → Shard S → Text → List Bytes → Option (Shard S × Bytes)
  run_more now sh cmd (a ∷ b ∷ args) =
      let key = text_of a in
      if cmd == codes "SET"
      then some (set now sh key (k.string (text_of b)) (ttl_of 0 args), simple (codes "OK"))
      else if cmd == codes "SADD"
      then some (counted (sadd now sh key 0 (b ∷ args)))
      else if cmd == codes "SREM"
      then some (counted (srem now sh key 0 (b ∷ args)))
      else none
  run_more now sh cmd args = none

  unfoldable pub run_few : ℕ → Shard S → Text → List Bytes → Shard S × Bytes
  unfolding run_one run_two unknown
  run_few now sh cmd (a ∷ []) = run_one now sh cmd a
  run_few now sh cmd (a ∷ b ∷ []) = run_two now sh cmd a b
  run_few now sh cmd args = unknown cmd sh

  -- The arms of the `match` on the command but `AUTH` and `QUIT`.
  unfoldable pub run : ℕ → Shard S → Text → List Bytes → Shard S × Bytes
  unfolding ping run_many run_more run_few
  run now sh cmd args =
      if cmd == codes "PING"
      then ping sh args
      else if (cmd == codes "SELECT") || (cmd == codes "CLIENT")
      then (sh, simple (codes "OK"))
      else if cmd == codes "HELLO"
      then (sh, err (codes "ERR unknown command 'HELLO'"))
      else if cmd == codes "COMMAND"
      then (sh, array_header 0)
      else if cmd == codes "INFO"
      then (sh, bulk (some (codes "# Server" ++ (13 ∷ 10 ∷ codes "stplr_resp:1" ++ 13 ∷ 10 ∷ []))))
      else if cmd == codes "DBSIZE"
      then (sh, int (length (Shard.scan_range o now sh coll none none none (u64_mod - 1))))
      else elim (run_many now sh cmd args) [
        | some r ↦ r
        | none ↦ elim (run_more now sh cmd args) [ some r ↦ r | none ↦ run_few now sh cmd args ]
      ]
