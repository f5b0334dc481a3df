-- ===== src/Reshard/Buckets.antt =====
-- The loop of `plan_reshard` (reshard.rs) over the buckets.
use stplr.Base.{
  ℕ, zero, suc, ◌+◌, ◌≤◌, ◌<◌, ◌≡◌, refl, sym, subst, ◌∙◌, inl, inr, false, some, List, arith,
  nat_eq, nat_eq_iff, Bool-cases, nat_Eq, first, beq_self,
}
use stplr.Text.{text_Eq}
use stplr.Partitioner.{NodeId, Partitioner, num_buckets, owners_of_bucket}
use stplr.Reshard.{ReshardPlan, copies_of, drops_of, plan_bucket, old_owners_of, plan_from}
use stplr.Reshard.Plan.{
  copied, dropped, copied-append, dropped-append, copied-copies_of, dropped-drops_of, Covers, Total,
  plan_from_step,
}

-- The two plans have the same entries for `b`.
pub record Same (plan plan' : ReshardPlan) (b : ℕ) : Type 0 where
  pub copies_same :
      (from to : NodeId) → copied plan'.copies b from to ≡ copied plan.copies b from to
  pub drops_same : (node : NodeId) → dropped plan'.drops b node ≡ dropped plan.drops b node

-- No entries for the buckets from `b` on.
pub record IsFresh (plan : ReshardPlan) (b : ℕ) : Type 0 where
  pub no_copies : (b' : ℕ) (from to : NodeId) → b ≤ b' → copied plan.copies b' from to ≡ false
  pub no_drops : (b' : ℕ) (node : NodeId) → b ≤ b' → dropped plan.drops b' node ≡ false

ne-of-lt : (b b' : ℕ) → b' < b → nat_eq b b' ≡ false
ne-of-lt b b' h = ground arith

ne-of-gt : (b b' : ℕ) → b < b' → nat_eq b b' ≡ false
ne-of-gt b b' h = ground arith

module _ (b : ℕ) (xs ys : List NodeId) (plan : ReshardPlan) where
  plan_bucket_other : (b' : ℕ) → nat_eq b b' ≡ false → Same plan (plan_bucket b xs ys plan) b'
  unfolding plan_bucket
  plan_bucket_other b' h = record {
    copies_same = λ from to.
        copied-append plan.copies (copies_of b (first xs) xs ys) b' from to
        ∙ ground (arith, copied-copies_of b (first xs) xs ys b' from to);
    drops_same = λ node.
        dropped-append plan.drops (drops_of b ys xs) b' node
        ∙ ground (arith, dropped-drops_of b ys xs b' node);
  }

  plan_bucket-Covers : IsFresh plan b → Covers (plan_bucket b xs ys plan) b xs ys
  unfolding plan_bucket
  plan_bucket-Covers fresh = record {
    copies_lem = λ from to.
        copied-append plan.copies (copies_of b (first xs) xs ys) b from to
        ∙ rw
            (
              fresh.no_copies b from to (omega arith),
              copied-copies_of b (first xs) xs ys b from to,
              beq_self {A = ℕ} b,
            )
            refl;
    drops_lem = λ node.
        dropped-append plan.drops (drops_of b ys xs) b node
        ∙ rw
            (
              fresh.no_drops b node (omega arith),
              dropped-drops_of b ys xs b node,
              beq_self {A = ℕ} b,
            )
            refl;
  }

  plan_bucket-IsFresh : IsFresh plan b → IsFresh (plan_bucket b xs ys plan) (suc b)
  plan_bucket-IsFresh fresh = record {
    no_copies = λ b' from to h.
        (plan_bucket_other b' (ne-of-gt b b' h)).copies_same from to
        ∙ fresh.no_copies b' from to (omega arith);
    no_drops = λ b' node h.
        (plan_bucket_other b' (ne-of-gt b b' h)).drops_same node
        ∙ fresh.no_drops b' node (omega arith);
  }

Same-trans : (p q r : ReshardPlan) (b : ℕ) → Same p q b → Same q r b → Same p r b
Same-trans p q r b s t = record {
  copies_same = λ from to. t.copies_same from to ∙ s.copies_same from to;
  drops_same = λ node. t.drops_same node ∙ s.drops_same node;
}

Covers-Same :
    (p q : ReshardPlan) (b : ℕ) (xs ys : List NodeId)
    → Covers p b xs ys
    → Same p q b
    → Covers q b xs ys
Covers-Same p q b xs ys c s = record {
  copies_lem = λ from to. s.copies_same from to ∙ c.copies_lem from to;
  drops_lem = λ node. s.drops_same node ∙ c.drops_lem node;
}

some-inj : {xs ys : List NodeId} → some xs ≡ some ys → xs ≡ ys
some-inj e = cc

same_owners :
    (plan : ReshardPlan) (b : ℕ) (xs xs' ys ys' : List NodeId)
    → some xs ≡ some xs'
    → some ys ≡ some ys'
    → Covers plan b xs ys
    → Covers plan b xs' ys'
same_owners plan b xs xs' ys ys' e f c =
    subst (λ (zs : List NodeId). Covers plan b zs ys') (some-inj e)
      (subst (λ (zs : List NodeId). Covers plan b xs zs) (some-inj f) c)

module _ (old : List NodeId) (old_p : Partitioner) (r_old : ℕ) (new_p : Partitioner)
    (r_new : ℕ) where
  -- What `n` rounds from `b` on make of a plan.
  pub record IsPlanned (b n : ℕ) (plan plan' : ReshardPlan) : Type 0 where
    pub earlier : (b' : ℕ) → b' < b → Same plan plan' b'
    pub covered :
        (b' : ℕ) (xs ys : List NodeId)
        → b ≤ b'
        → b' < b + n
        → old_owners_of old old_p b' r_old ≡ some xs
        → owners_of_bucket new_p b' r_new ≡ some ys
        → Covers plan' b' xs ys

  pub plan_from-IsPlanned :
      (total : Total old old_p r_old new_p r_new) (n b : ℕ) (plan : ReshardPlan)
      → b + n ≤ num_buckets
      → IsFresh plan b
      → (plan' : ReshardPlan) × (plan_from old old_p r_old new_p r_new b n plan ≡ some plan')
        × IsPlanned b n plan plan'
  unfolding plan_from
  plan_from-IsPlanned total zero b plan fits fresh = (
    plan,
    refl,
    record {
      earlier = λ b' h. record { copies_same = λ f t. refl; drops_same = λ n. refl };
      covered = λ b' xs ys h k e f. absurd (omega arith);
    },
  )
  plan_from-IsPlanned total (suc n) b plan fits fresh =
      let (xs, ys, e, f) = total b (omega arith) in
      let step = plan_bucket b xs ys plan in
      let (plan', found, planned) =
        plan_from-IsPlanned total n (suc b) step (omega arith)
          (plan_bucket-IsFresh b xs ys plan fresh) in
      (
        plan',
        plan_from_step old old_p r_old new_p r_new b n plan xs ys e f ∙ found,
        record {
          earlier = λ b' h.
              Same-trans plan step plan' b' (plan_bucket_other b xs ys plan b' (ne-of-lt b b' h))
                (planned.earlier b' (omega arith));
          covered = λ b' xs' ys' h k e' f'. elim (Bool-cases (nat_eq b b')) [
            | inl here ↦
                subst
                  (λ (m : ℕ).
                    old_owners_of old old_p m r_old ≡ some xs'
                    → owners_of_bucket new_p m r_new ≡ some ys'
                    → Covers plan' m xs' ys')
                  ((nat_eq_iff b b').0 here)
                  (λ e'' f''. same_owners plan' b xs xs' ys ys' (sym e ∙ e'') (sym f ∙ f'') (
                    Covers-Same step plan' b xs ys (plan_bucket-Covers b xs ys plan fresh)
                      (planned.earlier b (omega arith))))
                  e' f'
            | inr later ↦ planned.covered b' xs' ys' (ground arith) (omega arith) e' f'
          ];
        },
      )
