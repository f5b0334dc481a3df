-- ===== src/Partitioner/Rank.antt =====
-- The preference list of a bucket (`set_nodes` of partitioner.rs) and its order by score.
use stplr.Base.{
  ℕ, ◌≡◌, refl, ◌∙◌, false, ◌||◌, List, [], ◌∷◌, arith, ◌==◌, nat_Eq, length, contains, Distinct,
}
use stplr.Text.{text_Eq, text_eq_iff}
use stplr.Sort.{insert_by, sort_by, length-sort_by, IsSorted, sort_by-IsSorted}
use stplr.Partitioner.{NodeId, Ranked, before, bucket_score, fnv1a, score_all, nodes_of, rank}

length-nodes_of : (rs : List Ranked) → length (nodes_of rs) ≡ length rs
unfolding nodes_of
length-nodes_of [] = refl
length-nodes_of ((n, s) ∷ rs) = ground (arith, length-nodes_of rs)

length-score_all : (nodes : List NodeId) (b : ℕ) → length (score_all nodes b) ≡ length nodes
unfolding score_all
length-score_all [] b = refl
length-score_all (n ∷ nodes) b = ground (arith, length-score_all nodes b)

pub length-rank : (nodes : List NodeId) (b : ℕ) → length (rank nodes b) ≡ length nodes
unfolding rank
length-rank nodes b =
    length-nodes_of (sort_by before (score_all nodes b))
    ∙ length-sort_by before (score_all nodes b)
    ∙ length-score_all nodes b

-- Membership by node id through the stable sort.
contains-insert_by_rank :
    (x : Ranked) (rs : List Ranked) (a : NodeId)
    → contains (nodes_of (insert_by before x rs)) a ≡ ((x.0 == a) || contains (nodes_of rs) a)
unfolding nodes_of insert_by
contains-insert_by_rank x [] a = refl
contains-insert_by_rank (x, s) ((y, t) ∷ rs) a = ground (arith, contains-insert_by_rank (x, s) rs a)

contains-sort_by_rank :
    (nodes : List NodeId) (b : ℕ) (a : NodeId)
    → contains (nodes_of (sort_by before (score_all nodes b))) a ≡ contains nodes a
unfolding nodes_of sort_by score_all
contains-sort_by_rank [] b a = refl
contains-sort_by_rank (n ∷ nodes) b a = ground (
  arith,
  contains-insert_by_rank (n, bucket_score (fnv1a n) b) (sort_by before (score_all nodes b)) a,
  contains-sort_by_rank nodes b a,
)

-- The preference list holds the nodes and no others.
pub contains-rank :
    (nodes : List NodeId) (b : ℕ) (a : NodeId) → contains (rank nodes b) a ≡ contains nodes a
unfolding rank
contains-rank = contains-sort_by_rank

insert_by_rank-Distinct :
    (x : Ranked) (rs : List Ranked)
    → contains (nodes_of rs) x.0 ≡ false
    → Distinct (nodes_of rs)
    → Distinct (nodes_of (insert_by before x rs))
unfolding nodes_of insert_by
insert_by_rank-Distinct x [] h d = (refl, tt)
insert_by_rank-Distinct (x, s) ((y, t) ∷ rs) h d = ground (
  arith,
  insert_by_rank-Distinct (x, s) rs,
  contains-insert_by_rank (x, s) rs y,
  text_eq_iff x y,
  text_eq_iff y x,
)

pub rank-Distinct : (nodes : List NodeId) (b : ℕ) → Distinct nodes → Distinct (rank nodes b)
unfolding rank nodes_of sort_by score_all
rank-Distinct [] b d = tt
rank-Distinct (n ∷ nodes) b d =
    insert_by_rank-Distinct (n, bucket_score (fnv1a n) b) (sort_by before (score_all nodes b))
      (contains-sort_by_rank nodes b n ∙ d.0) (rank-Distinct nodes b d.1)

-- The scored list is in the order of falling scores.
pub rank-IsSorted :
    (nodes : List NodeId) (b : ℕ) → IsSorted before (sort_by before (score_all nodes b))
rank-IsSorted nodes b =
    sort_by-IsSorted before (λ x y z p q. ground arith) (λ x y p. ground arith) (score_all nodes b)
