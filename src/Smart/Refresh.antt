-- ===== src/Smart/Refresh.antt =====
-- `refresh` of smart.rs: the view that a client takes from the coordinator's `/members`.
use stplr.Base.{
  ◌≡◌, refl, ◌∙◌, inl, inr, Bool, true, false, not, ◌&&◌, ◌||◌, some, List, [], ◌∷◌, arith, nat_eq,
  Bool-cases, ◌==◌, nat_Eq, length, contains,
}
use stplr.Text.{text_Eq, Text}
use stplr.Dict.{Dict, insert, keys, contains-keys-insert}
use stplr.Sort.{length-sort_by}
use stplr.Store.{text_le}
use stplr.Partitioner.{NodeId, set_nodes}
use stplr.Smart.{
  SmartClient, Membership, collect, build_clients, update_membership, member_ids, is_current,
  refresh, refresh_with, unchanged, changed, has_client,
}

-- A node is among the members, with an endpoint.
abbrev pub is_member : List (NodeId × Text) → NodeId → Bool
is_member [] n = false
is_member ((id, endpoint) ∷ members) n =
    (not (nat_eq (length endpoint) 0) && (id == n)) || is_member members n

contains-collect :
    (m : Dict NodeId Text) (members : List (NodeId × Text)) (n : NodeId)
    → contains (keys (collect m members)) n ≡ (contains (keys m) n || is_member members n)
unfolding collect
contains-collect m [] n = ground arith
contains-collect m ((id, endpoint) ∷ members) n = elim (Bool-cases (nat_eq (length endpoint) 0)) [
  | inl empty ↦ rw empty (contains-collect m members n)
  | inr named ↦ rw named (
      contains-collect (insert m id endpoint) members n
      ∙ rw (contains-keys-insert m id endpoint n) (ground arith))
]

refresh-with :
    (c : SmartClient) (url : Text) (v : Membership)
    → c.coordinator ≡ some url
    → refresh c (some v) ≡ refresh_with c v
unfolding refresh refresh_with
refresh-with c url v known = ground (arith, known)

some_length : (xs : List NodeId) (n : NodeId) → contains xs n ≡ true → nat_eq (length xs) 0 ≡ false
some_length [] n h = cc
some_length (x ∷ xs) n h = ground arith

refresh_with-current :
    (c : SmartClient) (v : Membership)
    → is_current c v.epoch ≡ true
    → refresh_with c v ≡ (c, unchanged)
unfolding refresh_with
refresh_with-current c v h = rw h refl

module _ (c : SmartClient) (url : Text) (known : c.coordinator ≡ some url) (v : Membership) where
  refresh-update :
      is_current c v.epoch ≡ false
      → nat_eq (length v.members) 0 ≡ false
      → refresh c (some v) ≡ (update_membership c v.members v.epoch, changed)
  unfolding refresh_with
  refresh-update old given = refresh-with c url v known ∙ rw (old, given) refl

  -- If a smart client knows a coordinator, whose view has members and is not the client's current
  -- one, then the refresh says that it changed the client; it has a client for exactly the members
  -- with an endpoint, its partitioner holds the nodes that have a client, and its epoch is the
  -- view's.
  pub refresh-has_client :
      is_current c v.epoch ≡ false
      → nat_eq (length v.members) 0 ≡ false
      → (n : NodeId)
      → let r = refresh c (some v) in
        (r.1 ≡ changed)
        × (has_client r.0 n ≡ is_member v.members n)
        × (r.0.partitioner.nodes ≡ keys r.0.clients)
        × (r.0.epoch ≡ v.epoch)
  unfolding update_membership build_clients set_nodes keys
  refresh-has_client old given n =
      rw (refresh-update old given) (refl, contains-collect [] v.members n, refl, refl)

  keeps_coordinator : (update_membership c v.members v.epoch).coordinator ≡ some url
  unfolding update_membership
  keeps_coordinator = known

  is_current-update :
      nat_eq v.epoch 0 ≡ false
      → (n : NodeId) → is_member v.members n ≡ true
      → is_current (update_membership c v.members v.epoch) v.epoch ≡ true
  unfolding update_membership build_clients set_nodes member_ids keys
  is_current-update counted n member =
      let ids = keys (collect [] v.members) in
      let some_id = some_length ids n (contains-collect [] v.members n ∙ member) in
      rw (counted, length-sort_by text_le ids, some_id) (ground arith)

  -- If a smart client knows a coordinator, whose view has an epoch above 0 and a member with an
  -- endpoint, and is not the client's current one, then a second refresh at the same view changes
  -- nothing, and says so.
  pub refresh_twice :
      is_current c v.epoch ≡ false
      → nat_eq (length v.members) 0 ≡ false
      → nat_eq v.epoch 0 ≡ false
      → (n : NodeId) → is_member v.members n ≡ true
      → let c' = (refresh c (some v)).0 in refresh c' (some v) ≡ (c', unchanged)
  refresh_twice old given counted n member =
      let c' = update_membership c v.members v.epoch in
      rw (refresh-update old given) (
        refresh-with c' url v (keeps_coordinator)
        ∙ refresh_with-current c' v (is_current-update counted n member))
