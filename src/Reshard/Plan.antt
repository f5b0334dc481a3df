-- ===== src/Reshard/Plan.antt =====
-- What the plan of reshard.rs holds, bucket by bucket.
use stplr.Base.{
  ℕ, suc, ◌<◌, ◌≡◌, refl, ap, ◌∙◌, inl, inr, Bool, true, false, not, ◌&&◌, ◌||◌, Option, none, some,
  List, [], ◌∷◌, ◌++◌, arith, nat_eq, Bool-cases, ◌==◌, nat_Eq, first, contains,
}
use stplr.Text.{text_Eq, text_eq_iff}
use stplr.Partitioner.{NodeId, Partitioner, num_buckets, owners_of_bucket}
use stplr.Reshard.{
  Copy, Drop, ReshardPlan, copies_of, drops_of, plan_bucket, old_owners_of, plan_from,
}

-- Whether the list has a copy of `b` from `from` to `to`, or a drop of `b` at `node`.
unfoldable pub copied : List Copy → ℕ → NodeId → NodeId → Bool
copied [] b from to = false
copied (c ∷ copies) b from to =
    (nat_eq c.bucket b && (c.from == from && c.to == to)) || copied copies b from to

unfoldable pub dropped : List Drop → ℕ → NodeId → Bool
dropped [] b node = false
dropped (d ∷ drops) b node = (nat_eq d.bucket b && d.node == node) || dropped drops b node

pub copied-append :
    (xs ys : List Copy) (b : ℕ) (from to : NodeId)
    → copied (xs ++ ys) b from to ≡ (copied xs b from to || copied ys b from to)
unfolding copied
copied-append [] ys b from to = refl
copied-append (c ∷ xs) ys b from to = ground (arith, copied-append xs ys b from to)

pub dropped-append :
    (xs ys : List Drop) (b : ℕ) (node : NodeId)
    → dropped (xs ++ ys) b node ≡ (dropped xs b node || dropped ys b node)
unfolding dropped
dropped-append [] ys b node = refl
dropped-append (d ∷ xs) ys b node = ground (arith, dropped-append xs ys b node)

abbrev pub is_source : Option NodeId → NodeId → Bool
is_source none from = false
is_source (some src) from = src == from

keep_old :
    (p q : Bool) (n to : NodeId) (old new_ : List NodeId)
    → contains old n ≡ true
    → (p && (q && (contains new_ to && not (contains old to))))
      ≡ (p && (q && ((n == to || contains new_ to) && not (contains old to))))
keep_old p q n to old new_ kept = ground (arith, text_eq_iff n to)

push_new :
    (p q : Bool) (n to : NodeId) (old new_ : List NodeId)
    → contains old n ≡ false
    → ((p && (q && n == to)) || (p && (q && (contains new_ to && not (contains old to)))))
      ≡ (p && (q && ((n == to || contains new_ to) && not (contains old to))))
push_new p q n to old new_ fresh = ground (arith, text_eq_iff n to)

pub copied-copies_of :
    (b : ℕ) (source : Option NodeId) (old new_ : List NodeId) (b' : ℕ) (from to : NodeId)
    → copied (copies_of b source old new_) b' from to
      ≡ (nat_eq b b' && (is_source source from && (contains new_ to && not (contains old to))))
unfolding copied copies_of
copied-copies_of b none old new_ b' from to = ground arith
copied-copies_of b (some src) old [] b' from to = ground arith
copied-copies_of b (some src) old (n ∷ new_) b' from to = elim (Bool-cases (contains old n)) [
  | inl kept ↦
      rw (kept, copies_of)
        (copied-copies_of b (some src) old new_ b' from to
          ∙ keep_old (nat_eq b b') (src == from) n to old new_ kept)
  | inr fresh ↦
      rw (fresh, copies_of)
        (ap (λ (q : Bool). (nat_eq b b' && (src == from && n == to)) || q)
            (copied-copies_of b (some src) old new_ b' from to)
          ∙ push_new (nat_eq b b') (src == from) n to old new_ fresh)
]

pub dropped-drops_of :
    (b : ℕ) (new_ old : List NodeId) (b' : ℕ) (node : NodeId)
    → dropped (drops_of b new_ old) b' node
      ≡ (nat_eq b b' && (contains old node && not (contains new_ node)))
unfolding dropped drops_of
dropped-drops_of b new_ [] b' node = ground arith
dropped-drops_of b new_ (n ∷ old) b' node =
    ground (arith, dropped-drops_of b new_ old b' node, text_eq_iff n node)

-- What a plan has for the bucket `b`, whose owners were `old` and are to be `new_`.
pub record Covers (plan : ReshardPlan) (b : ℕ) (old new_ : List NodeId) : Type 0 where
  pub copies_lem :
      (from to : NodeId)
      → copied plan.copies b from to
        ≡ (is_source (first old) from && (contains new_ to && not (contains old to)))
  pub drops_lem :
      (node : NodeId) → dropped plan.drops b node ≡ (contains old node && not (contains new_ node))

module _ (old : List NodeId) (old_p : Partitioner) (r_old : ℕ) (new_p : Partitioner)
    (r_new : ℕ) where
  -- Every bucket of the partitioners has owners.
  abbrev pub Total : Type 0
  Total =
      (b : ℕ)
      → b < num_buckets
      → (xs ys : List NodeId) × (old_owners_of old old_p b r_old ≡ some xs)
        × (owners_of_bucket new_p b r_new ≡ some ys)

  pub plan_from_step :
      (b n : ℕ) (plan : ReshardPlan) (xs ys : List NodeId)
      → old_owners_of old old_p b r_old ≡ some xs
      → owners_of_bucket new_p b r_new ≡ some ys
      → plan_from old old_p r_old new_p r_new b (suc n) plan
        ≡ plan_from old old_p r_old new_p r_new (suc b) n (plan_bucket b xs ys plan)
  unfolding plan_from
  plan_from_step b n plan xs ys e f = rw (e, f) refl
