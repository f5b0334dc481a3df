-- ===== src/Config.antt =====
-- config.rs: the roles of a node and their parser.
pub mod Roles
use stplr.Base.{
  ℕ, zero, suc, ◌+◌, ◌-◌, ◌*◌, ◌/◌, ◌%◌, ◌^◌, ◌≤◌, ◌<◌, min, max, ◌≡◌, refl, sym, ap, subst, ◌∙◌,
  ◌≡⟨◌⟩◌, ◌∎, ◌≢◌, ◌↔◌, ◌⊎◌, inl, inr, Bool, true, false, not, ◌&&◌, ◌||◌, Option, none, some, List,
  [], ◌∷◌, ◌++◌, map, reverse, append-nil, append_assoc, arith, ltb, leb, nat_eq, nat_eq_iff,
  if◌then◌else◌, ltb→lt, leb→le, Bool-cases, Eq, ◌==◌, nat_Eq, is_some, length, take, get_elem?,
  first, filter_by, any, all, All, length-append, length-take, drop, take-drop, length-drop,
  take-all, length-filter_by, filter_by-append, contains, Distinct, beq_self, contains-append,
  contains-take, Distinct-take, contains-filter_by, Distinct-filter_by,
}
use stplr.Text.{Text, text_Eq, codes}
use stplr.Text.Number.{trim}

pub data Role : Type 0 where
  shard coordinator ingest api : Role

pub data StoreKind : Type 0 where
  memory lmdb redis : StoreKind

abbrev pub all_roles : List Role
all_roles = Role.shard ∷ coordinator ∷ Role.ingest ∷ Role.api ∷ []

unfoldable pub as_str : Role → Text
as_str Role.shard = codes "shard"
as_str coordinator = codes "coordinator"
as_str Role.ingest = codes "ingest"
as_str Role.api = codes "api"

-- The derived order of the roles.
unfoldable pub rank : Role → ℕ
rank Role.shard = 0
rank coordinator = 1
rank Role.ingest = 2
rank Role.api = 3

-- `to_ascii_lowercase`
unfoldable pub lowercase : Text → Text
lowercase [] = []
lowercase (c ∷ s) = (if leb b'A' c && leb c b'Z' then c + 32 else c) ∷ lowercase s

-- The `match` on the lowercase name; `none` is `bail!`.
unfoldable pub named : Text → Option Role
named s =
    if s == codes "shard"
    then some Role.shard
    else if (s == codes "coordinator") || (s == codes "coord")
    then some coordinator
    else if s == codes "ingest"
    then some Role.ingest
    else if (s == codes "api") || (s == codes "mcp")
    then some Role.api
    else none

unfoldable pub parse : Text → Option Role
parse s = named (lowercase (trim s))

-- A `BTreeSet` of roles is a list in the order of the roles.
unfoldable pub insert_role : Role → List Role → List Role
insert_role r [] = r ∷ []
insert_role r (x ∷ xs) =
    if nat_eq (rank x) (rank r)
    then x ∷ xs
    else if ltb (rank r) (rank x)
    then r ∷ x ∷ xs
    else x ∷ insert_role r xs

unfoldable pub extend : List Role → List Role → List Role
extend set [] = set
extend set (r ∷ rs) = extend (insert_role r set) rs

-- `item.split([',', ' '])`
unfoldable pub split_item : Text → List Text
split_item [] = [] ∷ []
split_item (c ∷ s) = elim (split_item s) [
  | [] ↦ []
  | piece ∷ pieces ↦
      if (c == b',') || (c == b' ') then [] ∷ piece ∷ pieces else (c ∷ piece) ∷ pieces
]

-- The loop over the parts of one item; `none` is the error of `parse`.
unfoldable pub parse_parts : List Role → List Text → Option (List Role)
parse_parts set [] = some set
parse_parts set (part ∷ parts) =
    let p = trim part in
    let skip = parse_parts set parts in
    let every = parse_parts (extend set all_roles) parts in
    if nat_eq (length p) 0
    then skip
    else if lowercase p == codes "all"
    then every
    else elim (parse p) [ none ↦ none | some r ↦ parse_parts (insert_role r set) parts ]

unfoldable pub parse_items : List Role → List Text → Option (List Role)
parse_items set [] = some set
parse_items set (item ∷ items) = elim (parse_parts set (split_item item)) [
  | none ↦ none
  | some set' ↦ parse_items set' items
]

unfoldable pub parse_list : List Text → Option (List Role)
parse_list items = parse_items [] items

-- `join(",")`
unfoldable pub join : List Text → Text
join [] = []
join (s ∷ []) = s
join (s ∷ t ∷ ss) = s ++ b',' ∷ join (t ∷ ss)

unfoldable pub roles_str : List Role → Text
roles_str roles = join (map as_str roles)
