-- ===== src/Rbac.antt =====
-- rbac.rs: grants, principals and the policy string.
pub mod Grants
use stplr.Base.{
  ℕ, zero, suc, ◌+◌, ◌-◌, ◌*◌, ◌/◌, ◌%◌, ◌^◌, ◌≤◌, ◌<◌, min, max, ◌≡◌, refl, sym, ap, subst, ◌∙◌,
  ◌≡⟨◌⟩◌, ◌∎, ◌≢◌, ◌↔◌, ◌⊎◌, inl, inr, Bool, true, false, not, ◌&&◌, ◌||◌, Option, none, some, List,
  [], ◌∷◌, ◌++◌, map, reverse, append-nil, append_assoc, arith, ltb, leb, nat_eq, nat_eq_iff,
  if◌then◌else◌, ltb→lt, leb→le, Bool-cases, Eq, ◌==◌, nat_Eq, is_some, length, take, get_elem?,
  first, filter_by, any, all, All, length-append, length-take, drop, take-drop, length-drop,
  take-all, length-filter_by, filter_by-append, contains, Distinct, beq_self, contains-append,
  contains-take, Distinct-take, contains-filter_by, Distinct-filter_by,
}
use stplr.Text.{Text, text_Eq, codes}
use stplr.Text.Number.{trim}
use stplr.Dict.{Dict, get, insert}

pub data Op : Type 0 where
  read write delete admin : Op

pub record Grant : Type 0 where
  pub coll : Text
  pub read : Bool
  pub write : Bool
  pub delete : Bool
  pub admin : Bool

pub record Principal : Type 0 where
  pub name : Text
  pub grants : List Grant

abbrev pub Policy : Type 0
Policy = Dict Text Principal

-- The `match` on the grant's collection and the request's.
unfoldable pub coll_ok : Text → Option Text → Bool
coll_ok coll none = coll == codes "*"
coll_ok coll (some c) = (coll == codes "*") || (coll == c)

unfoldable pub op_ok : Grant → Op → Bool
op_ok g Op.read = g.read || g.admin
op_ok g Op.write = g.write || g.admin
op_ok g Op.delete = g.delete || g.admin
op_ok g Op.admin = g.admin

unfoldable pub grant_allows : Grant → Option Text → Op → Bool
unfolding coll_ok op_ok
grant_allows g coll op = coll_ok g.coll coll && op_ok g op

unfoldable pub principal_allows : Principal → Option Text → Op → Bool
principal_allows p coll op = any (λ g. grant_allows g coll op) p.grants

-- `spec.split(c)`: the pieces between the separators, one more than there are separators.
unfoldable pub split : ℕ → Text → List Text
split c [] = [] ∷ []
split c (x ∷ s) = elim (split c s) [
  | [] ↦ []
  | piece ∷ pieces ↦ if x == c then [] ∷ piece ∷ pieces else (x ∷ piece) ∷ pieces
]

-- One character of the permissions.
unfoldable pub permit : Grant → ℕ → Option Grant
permit g c =
    if c == b'r'
    then some (record g { read = true })
    else if c == b'w'
    then some (record g { write = true })
    else if c == b'd'
    then some (record g { delete = true })
    else if c == b'a'
    then some (record g { admin = true })
    else none

unfoldable pub permit_all : Grant → Text → Option Grant
permit_all g [] = some g
permit_all g (c ∷ perms) = elim (permit g c) [ none ↦ none | some g' ↦ permit_all g' perms ]

abbrev pub or_new : Text → Option Principal → Principal
or_new token none = record { name = token; grants = [] }
or_new token (some p) = p

-- `tokens.entry(token).or_insert_with(...)` and the push.
unfoldable pub add_grant : Policy → Text → Grant → Policy
add_grant tokens token g =
    let p = or_new token (get tokens token) in
    insert tokens token (record p { grants = p.grants ++ g ∷ [] })

-- The body of the loop for the trimmed parts of an entry; `none` is `bail!`.
unfoldable pub parse_entry : Policy → List Text → Option Policy
parse_entry tokens (token ∷ coll ∷ perms ∷ []) =
    let t = trim token in
    let c = trim coll in
    let g : Grant = record {
      coll = c;
      read = false;
      write = false;
      delete = false;
      admin = false;
    } in
    if nat_eq (length t) 0 || nat_eq (length c) 0
    then none
    else elim (permit_all g (trim perms)) [ none ↦ none | some g' ↦ some (add_grant tokens t g') ]
parse_entry tokens _ = none

-- The loop over the entries, the empty ones passed over.
unfoldable pub parse_entries : Policy → List Text → Option Policy
parse_entries tokens [] = some tokens
parse_entries tokens (entry ∷ entries) =
    let e = trim entry in
    let skip = parse_entries tokens entries in
    if nat_eq (length e) 0 then skip else elim (parse_entry tokens (split b':' e)) [
      | none ↦ none
      | some tokens' ↦ parse_entries tokens' entries
    ]

unfoldable pub parse : Text → Option Policy
parse spec = elim (parse_entries [] (split b';' spec)) [
  | none ↦ none
  | some tokens ↦ if nat_eq (length tokens) 0 then none else some tokens
]

unfoldable pub principal : Policy → Text → Option Principal
principal policy token = get policy token
