-- ===== src/Smart.antt =====
-- smart.rs: the client that routes each key straight to its shards. Its clients are the calls of all
-- shards (client.rs); `clients` holds each one's endpoint. `none` is a panic in routing.
pub mod Data
pub mod Refresh
use stplr.Base.{
  ℕ, zero, suc, ◌+◌, ◌-◌, ◌*◌, ◌/◌, ◌%◌, ◌^◌, ◌≤◌, ◌<◌, min, max, ◌≡◌, refl, sym, ap, subst, ◌∙◌,
  ◌≡⟨◌⟩◌, ◌∎, ◌≢◌, ◌↔◌, ◌⊎◌, inl, inr, Bool, true, false, not, ◌&&◌, ◌||◌, Option, none, some, List,
  [], ◌∷◌, ◌++◌, map, reverse, append-nil, append_assoc, arith, ltb, leb, nat_eq, nat_eq_iff,
  if◌then◌else◌, ltb→lt, leb→le, Bool-cases, Eq, ◌==◌, nat_Eq, is_some, length, take, get_elem?,
  first, filter_by, any, all, All, length-append, length-take, drop, take-drop, length-drop,
  take-all, length-filter_by, filter_by-append, contains, Distinct, beq_self, contains-append,
  contains-take, Distinct-take, contains-filter_by, Distinct-filter_by,
}
use stplr.Text.{trim_end_matches, text_Eq, Text, codes}
use stplr.Dict.{Dict, get, insert, keys}
use stplr.Sort.{sort_by}
use stplr.Store.{text_le}
use stplr.Partitioner
use stplr.Partitioner.{NodeId, Partitioner, set_nodes, replica_set}

pub record SmartClient : Type 0 where
  pub partitioner : Partitioner
  pub clients : Dict NodeId Text
  pub replication : ℕ
  pub epoch : ℕ
  pub coordinator : Option Text

unfoldable pub new : Dict NodeId Text → ℕ → SmartClient
new clients replication = record {
  partitioner = Partitioner.new (keys clients);
  clients = clients;
  replication = max replication 1;
  epoch = 0;
  coordinator = none;
}

-- `filter` and `map`, collected into a `HashMap`, where a later entry of an id takes its place.
unfoldable pub collect : Dict NodeId Text → List (NodeId × Text) → Dict NodeId Text
collect m [] = m
collect m ((id, endpoint) ∷ members) =
    collect (if nat_eq (length endpoint) 0 then m else insert m id endpoint) members

unfoldable pub build_clients : List (NodeId × Text) → Dict NodeId Text
unfolding collect
build_clients members = collect [] members

unfoldable pub from_endpoints : List (NodeId × Text) → ℕ → SmartClient
from_endpoints members replication = new (build_clients members) replication

unfoldable pub with_coordinator : SmartClient → Text → SmartClient
with_coordinator c url = record c { coordinator = some (trim_end_matches b'/' url) }

unfoldable pub member_ids : SmartClient → List NodeId
member_ids c = sort_by text_le c.partitioner.nodes

unfoldable pub update_membership : SmartClient → List (NodeId × Text) → ℕ → SmartClient
unfolding build_clients
update_membership c members epoch =
    let clients = build_clients members in
    record c {
      clients = clients;
      partitioner = set_nodes c.partitioner (keys clients);
      epoch = epoch;
    }

-- The coordinator's `/members`: its epoch, 0 if it gives none, and its members.
pub record Membership : Type 0 where
  pub epoch : ℕ
  pub members : List (NodeId × Text)

pub data Refreshed : Type 0 where
  unchanged changed failed no_members : Refreshed

-- The view is this epoch's, and not empty.
abbrev pub is_current : SmartClient → ℕ → Bool
is_current c epoch =
    not (nat_eq epoch 0) && (nat_eq epoch c.epoch && not (nat_eq (length (member_ids c)) 0))

unfoldable pub refresh_with : SmartClient → Membership → SmartClient × Refreshed
refresh_with c v =
    if is_current c v.epoch
    then (c, unchanged)
    else if nat_eq (length v.members) 0
    then (c, no_members)
    else (update_membership c v.members v.epoch, changed)

-- `refresh`; `none` is a request that failed.
unfoldable pub refresh : SmartClient → Option Membership → SmartClient × Refreshed
unfolding refresh_with
refresh c answer = elim c.coordinator [
  | none ↦ (c, unchanged)
  | some url ↦ elim answer [ none ↦ (c, failed) | some v ↦ refresh_with c v ]
]

unfoldable pub from_coordinator : Text → ℕ → Option Membership → Option SmartClient
unfolding refresh
from_coordinator url replication answer =
    let (c, result) = refresh (with_coordinator (new [] replication) url) answer in
    elim result [ failed ↦ none | no_members ↦ none | _ ↦ some c ]

unfoldable pub owners : SmartClient → Text → Option (List NodeId)
owners c key = replica_set c.partitioner key c.replication

unfoldable pub route : SmartClient → Text → Option (List NodeId)
unfolding owners
route c key = owners c key

-- `client_of`: whether there is a client for the node.
abbrev pub has_client : SmartClient → NodeId → Bool
has_client c node = contains (keys c.clients) node
