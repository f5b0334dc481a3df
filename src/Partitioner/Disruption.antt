-- ===== src/Partitioner/Disruption.antt =====
-- `set_nodes` of partitioner.rs: the ranking before and after a node leaves.
use stplr.Base.{
  ℕ, zero, suc, ◌≤◌, ◌≡◌, refl, sym, ap, ◌∙◌, false, not, List, [], ◌∷◌, arith, ◌==◌, nat_Eq,
  length, take, filter_by, contains,
}
use stplr.Text.{text_Eq}
use stplr.Sort.{sort_by}
use stplr.Sort.Filter.{filter_by-sort_by}
use stplr.Partitioner.{NodeId, Ranked, before, score_all, nodes_of, rank}

abbrev pub except : NodeId → List NodeId → List NodeId
except gone = filter_by (λ n. not (n == gone))

abbrev ranked_except : NodeId → List Ranked → List Ranked
ranked_except gone = filter_by (λ r. not (r.0 == gone))

score_all-except :
    (nodes : List NodeId) (b : ℕ) (gone : NodeId)
    → score_all (except gone nodes) b ≡ ranked_except gone (score_all nodes b)
unfolding score_all
score_all-except [] b gone = refl
score_all-except (n ∷ nodes) b gone = ground (arith, score_all-except nodes b gone)

nodes_of-except :
    (rs : List Ranked) (gone : NodeId)
    → nodes_of (ranked_except gone rs) ≡ except gone (nodes_of rs)
unfolding nodes_of
nodes_of-except [] gone = refl
nodes_of-except ((n, s) ∷ rs) gone = ground (arith, nodes_of-except rs gone)

-- The preference list of the remaining nodes is the old one with the leaving node taken out.
pub rank-except :
    (nodes : List NodeId) (b : ℕ) (gone : NodeId)
    → rank (except gone nodes) b ≡ except gone (rank nodes b)
unfolding rank
rank-except nodes b gone = rw score_all-except (
    sym (
      ap nodes_of (
        filter_by-sort_by before (λ x y z p q. ground arith) (λ x y p. ground arith)
          (λ r. not (r.0 == gone)) (score_all nodes b)))
    ∙ nodes_of-except (sort_by before (score_all nodes b)) gone)

take-except :
    (r : ℕ) (gone : NodeId) (pl : List NodeId)
    → contains (take r pl) gone ≡ false
    → r ≤ length pl
    → take r (except gone pl) ≡ take r pl
take-except zero gone pl h fits = refl
take-except (suc r) gone [] h fits = absurd (omega arith)
take-except (suc r) gone (n ∷ pl) h fits = ground (arith, take-except r gone pl)

-- The first `r` of a preference list that does not hold the leaving node stay as they are.
pub take-rank-except :
    (nodes : List NodeId) (b r : ℕ) (gone : NodeId)
    → contains (take r (rank nodes b)) gone ≡ false
    → r ≤ length (rank nodes b)
    → take r (rank (except gone nodes) b) ≡ take r (rank nodes b)
take-rank-except nodes b r gone h fits =
    rw (rank-except nodes b gone) (take-except r gone (rank nodes b) h fits)
