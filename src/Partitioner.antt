-- ===== src/Partitioner.antt =====
-- partitioner.rs: rendezvous (HRW) hashing over virtual buckets, and the choice of replicas.
pub mod Rank
pub mod Disruption
pub mod Pick
pub mod Firsts
pub mod Replicas
pub mod Placement
pub mod Membership
use Prim.Native.Nat.{bit_xor}
use stplr.Base.{
  ℕ, zero, suc, ◌+◌, ◌-◌, ◌*◌, ◌/◌, ◌%◌, ◌^◌, ◌≤◌, ◌<◌, min, max, ◌≡◌, refl, sym, ap, subst, ◌∙◌,
  ◌≡⟨◌⟩◌, ◌∎, ◌≢◌, ◌↔◌, ◌⊎◌, inl, inr, Bool, true, false, not, ◌&&◌, ◌||◌, Option, none, some, List,
  [], ◌∷◌, ◌++◌, map, append-nil, append_assoc, arith, ltb, leb, nat_eq, nat_eq_iff, if◌then◌else◌,
  ltb→lt, leb→le, Bool-cases, Eq, ◌==◌, nat_Eq, length, take, get_elem?, first, filter_by, any, all,
  All, length-append, length-take, take-all, length-filter_by, filter_by-append, contains, Distinct,
  beq_self, contains-append, contains-take, Distinct-take, contains-filter_by, Distinct-filter_by,
}
use stplr.Text.{Text, text_Eq}
use stplr.Word.{u32_mod}
use stplr.Dict.{Dict, get}
use stplr.Sort.{sort_by}

abbrev pub NodeId : Type 0
NodeId = Text

abbrev pub num_buckets : ℕ
num_buckets = 4096

-- `s.encode_utf16()` of the standard library.
unfoldable pub encode_utf16 : Text → List ℕ
encode_utf16 [] = []
encode_utf16 (c ∷ s) =
    let rest = encode_utf16 s in
    if ltb c 0x10000
    then c ∷ rest
    else (0xd800 + (c - 0x10000) / 0x400) ∷ (0xdc00 + (c - 0x10000) % 0x400) ∷ rest

-- The loop of `fnv1a` from a state `h`.
unfoldable pub fnv1a_loop : ℕ → List ℕ → ℕ
fnv1a_loop h [] = h
fnv1a_loop h (u ∷ units) = fnv1a_loop (bit_xor h u * 0x01000193 % u32_mod) units

unfoldable pub fnv1a : Text → ℕ
unfolding encode_utf16 fnv1a_loop
fnv1a s = fnv1a_loop 0x811c9dc5 (encode_utf16 s)

unfoldable pub bucket_of : Text → ℕ
unfolding fnv1a
bucket_of key = fnv1a key % num_buckets

unfoldable pub bucket_score : ℕ → ℕ → ℕ
bucket_score node_hash bucket =
    let h = bit_xor node_hash ((bucket % u32_mod + 1) % u32_mod * 0x9e3779b1 % u32_mod) in
    let h' = bit_xor h (h / 2 ^ 15) * 0x85ebca6b % u32_mod in bit_xor h' (h' / 2 ^ 13)

-- A node with its score; the source holds the node's index.
abbrev pub Ranked : Type 0
Ranked = NodeId × ℕ

-- The order of `ranked.sort_by`: higher scores first.
abbrev pub before : Ranked → Ranked → Bool
before a c = leb c.1 a.1

unfoldable pub score_all : List NodeId → ℕ → List Ranked
score_all [] b = []
score_all (n ∷ nodes) b = (n, bucket_score (fnv1a n) b) ∷ score_all nodes b

unfoldable pub nodes_of : List Ranked → List NodeId
nodes_of [] = []
nodes_of ((n, s) ∷ ranked) = n ∷ nodes_of ranked

-- One bucket's preference list, as `set_nodes` builds it.
unfoldable pub rank : List NodeId → ℕ → List NodeId
unfolding score_all nodes_of
rank nodes b = nodes_of (sort_by before (score_all nodes b))

pub record Partitioner : Type 0 where
  pub nodes : List NodeId
  pub buckets : List (List NodeId)
  pub bucket_count : ℕ
  pub topology : Dict NodeId Text

-- The preference lists of the buckets `b`, `b + 1`, …: `n` of them.
unfoldable pub rank_from : List NodeId → ℕ → ℕ → List (List NodeId)
rank_from nodes b zero = []
rank_from nodes b (suc n) = rank nodes b ∷ rank_from nodes (suc b) n

unfoldable pub set_nodes : Partitioner → List NodeId → Partitioner
set_nodes p nodes = record p { nodes = nodes; buckets = rank_from nodes 0 p.bucket_count }

unfoldable pub new : List NodeId → Partitioner
new nodes =
    set_nodes (record { nodes = []; buckets = []; bucket_count = num_buckets; topology = [] }) nodes

unfoldable pub set_topology : Partitioner → Dict NodeId Text → Partitioner
set_topology p topology = record p { topology = topology }

-- The rack of a node; a node with no rack is its own domain, by its id.
unfoldable pub domain_of : Dict NodeId Text → NodeId → Text
domain_of topology n = elim (get topology n) [ some rack ↦ rack | none ↦ n ]

-- Pass 1 of `pick`: the first node of each rack, in HRW order.
unfoldable pub pass_one : Dict NodeId Text → ℕ → List NodeId → List NodeId → List Text → List NodeId
pass_one topology r [] chosen used = chosen
pass_one topology r (n ∷ pl) chosen used =
    let domain = domain_of topology n in
    let skip = pass_one topology r pl chosen used in
    let push = pass_one topology r pl (chosen ++ n ∷ []) (domain ∷ used) in
    if leb r (length chosen) then chosen else if contains used domain then skip else push

-- Pass 2 of `pick`: fill up in HRW order.
unfoldable pub pass_two : ℕ → List NodeId → List NodeId → List NodeId
pass_two r [] chosen = chosen
pass_two r (n ∷ pl) chosen =
    let skip = pass_two r pl chosen in
    let push = pass_two r pl (chosen ++ n ∷ []) in
    if leb r (length chosen) then chosen else if contains chosen n then skip else push

-- The body of `pick` after `r` is clamped to the number of nodes.
unfoldable pub pick_clamped : Dict NodeId Text → List NodeId → ℕ → List NodeId
pick_clamped [] pl r = take r pl
pick_clamped (entry ∷ racks) pl r =
    let topology = entry ∷ racks in
    let chosen = pass_one topology r pl [] [] in
    if ltb (length chosen) r then pass_two r pl chosen else chosen

unfoldable pub pick : Partitioner → List NodeId → ℕ → List NodeId
pick p pl r = pick_clamped p.topology pl (min r (length p.nodes))

-- `&self.buckets[bucket_of(key)]`; `none` is the panic of an index out of bounds.
unfoldable pub preference_list : Partitioner → Text → Option (List NodeId)
preference_list p key = get_elem? p.buckets (bucket_of key)

unfoldable pub owners_of_bucket : Partitioner → ℕ → ℕ → Option (List NodeId)
owners_of_bucket p b r = elim (get_elem? p.buckets b) [ some pl ↦ some (pick p pl r) | none ↦ none ]

unfoldable pub replica_set : Partitioner → Text → ℕ → Option (List NodeId)
replica_set p key r = elim (preference_list p key) [ some pl ↦ some (pick p pl r) | none ↦ none ]
