-- ===== src/Guard/Safety.antt =====
-- The gates of guard.rs: buckets that a migration froze and drained, and the steps of the system.
use stplr.Base.{
  ℕ, ◌+◌, ◌-◌, ◌<◌, ◌≡◌, refl, sym, ◌∙◌, true, false, not, ◌&&◌, ◌||◌, some, List, [], ◌∷◌, arith,
  nat_eq, nat_eq_iff, if◌then◌else◌, nat_Eq, filter_by, all, contains, contains-filter_by,
}
use stplr.Dict.{get, insert, get-insert, get-remove}
use stplr.Guard.{
  Gates, bump, or_zero, count_of, try_enter, leave_locked, insert_all, freeze, drained, remove_all,
  unfreeze_locked,
}
use stplr.Guard.System.{
  System, Step, enter, leave, freeze_step, unfreeze, bump_step, Steps, here, next, tokens_of,
  IsCounted, tokens_of-drop_token,
}

pub count-try_enter :
    (g g' : Gates) (b b' : ℕ)
    → try_enter g b ≡ some g'
    → (count_of g' b' ≡ count_of g b' + (if nat_eq b b' then 1 else 0))
      × (contains g.frozen b ≡ false)
      × (g'.frozen ≡ g.frozen)
      × (g'.sent ≡ g.sent)
unfolding try_enter
count-try_enter g g' b b' h = ground (arith, get-insert g.in_flight b (count_of g b + 1) b')

pub count-leave :
    (g : Gates) (b b' : ℕ)
    → count_of (leave_locked g b) b' ≡ count_of g b' - (if nat_eq b b' then 1 else 0)
unfolding leave_locked
count-leave g b b' =
    let n' = or_zero (get g.in_flight b) - 1 in
    ground (
      arith,
      get-insert g.in_flight b n' b',
      get-remove (insert g.in_flight b n') b b',
      get-insert g.in_flight b n' b,
    )

pub frozen-leave :
    (g : Gates) (b : ℕ)
    → ((leave_locked g b).frozen ≡ g.frozen) × ((leave_locked g b).sent ≡ g.sent)
unfolding leave_locked
frozen-leave g b = ground arith

-- Every step keeps each counter equal to the number of tokens held.
pub Step-IsCounted : {s t : System} → Step s t → IsCounted s → IsCounted t
unfolding bump freeze unfreeze_locked
Step-IsCounted (enter s b g e) c = record {
  counts = λ b'. ground (arith, count-try_enter s.gates g b b' e, c.counts b');
}
Step-IsCounted (leave s b held) c = record {
  counts = λ b'.
      ground
        (arith, count-leave s.gates b b', tokens_of-drop_token b s.tokens b' held, c.counts b');
}
Step-IsCounted (freeze_step s bs) c = record { counts = c.counts }
Step-IsCounted (unfreeze s bs) c = record { counts = c.counts }
Step-IsCounted (bump_step s n e) c = record { counts = c.counts }

-- Over any steps of the tasks the counter of every bucket stays equal to the number of tokens held
-- for it.
pub Steps-IsCounted : {s t : System} → Steps s t → IsCounted s → IsCounted t
Steps-IsCounted here c = c
Steps-IsCounted (next r st) c = Step-IsCounted st (Steps-IsCounted r c)

contains-tokens : (ts : List ℕ) (b : ℕ) → contains ts b ≡ true → 0 < tokens_of ts b
contains-tokens [] b h = absurd (cc)
contains-tokens (t ∷ ts) b h = ground (arith, contains-tokens ts b)

-- Where `leave` takes one off a counter, the counter is positive.
pub leave_pos :
    (s : System) (b : ℕ) → IsCounted s → contains s.tokens b ≡ true → 0 < count_of s.gates b
leave_pos s b c held = omega (arith, c.counts b, contains-tokens s.tokens b held)

all-drained :
    (g : Gates) (buckets : List ℕ) (b : ℕ)
    → all (λ b'. nat_eq (count_of g b') 0) buckets ≡ true
    → contains buckets b ≡ true
    → count_of g b ≡ 0
all-drained g [] b h k = absurd (cc)
all-drained g (x ∷ bs) b h k = ground (arith, all-drained g bs b, nat_eq_iff x b)

-- When `drain` returns, no token of its buckets is held.
pub drained_no_tokens :
    (s : System) (buckets : List ℕ) (b : ℕ)
    → IsCounted s
    → drained s.gates buckets ≡ true
    → contains buckets b ≡ true
    → tokens_of s.tokens b ≡ 0
unfolding drained
drained_no_tokens s buckets b c h k = sym (c.counts b) ∙ all-drained s.gates buckets b h k

pub contains-insert_all :
    (fs bs : List ℕ) (b : ℕ) → contains (insert_all fs bs) b ≡ (contains bs b || contains fs b)
contains-insert_all fs [] b = refl
contains-insert_all fs (x ∷ bs) b =
    ground (arith, contains-insert_all fs bs b, contains-insert_all (x ∷ fs) bs b, nat_eq_iff x b)

contains-remove_all :
    (fs bs : List ℕ) (b : ℕ)
    → contains (remove_all fs bs) b ≡ (contains fs b && not (contains bs b))
contains-remove_all fs [] b = ground arith
contains-remove_all fs (x ∷ bs) b = ground (
  arith,
  contains-remove_all (filter_by (λ y. not (nat_eq y x)) fs) bs b,
  contains-filter_by (λ y. not (nat_eq y x)) fs b,
  nat_eq_iff x b,
  nat_eq_iff b x,
)

-- Steps that do not unfreeze `b`.
pub data Held (b : ℕ) (s : System) : System → Type 0 where
  stay : Held b s s
  then_ : {t u : System} → Held b s t → Step t u → contains u.gates.frozen b ≡ true → Held b s u

Step-no_tokens :
    {s t : System} (b : ℕ)
    → Step s t
    → contains s.gates.frozen b ≡ true
    → tokens_of s.tokens b ≡ 0
    → tokens_of t.tokens b ≡ 0
Step-no_tokens b (enter s b' g e) f z =
    ground (arith, count-try_enter s.gates g b' b e, nat_eq_iff b' b)
Step-no_tokens b (leave s b' held) f z = omega (arith, tokens_of-drop_token b' s.tokens b held)
Step-no_tokens b (freeze_step s bs) f z = z
Step-no_tokens b (unfreeze s bs) f z = z
Step-no_tokens b (bump_step s n e) f z = z

Held-frozen :
    {s t : System} (b : ℕ)
    → Held b s t
    → contains s.gates.frozen b ≡ true
    → contains t.gates.frozen b ≡ true
Held-frozen b stay f = f
Held-frozen b (then_ r st g) f = g

Held-no_tokens :
    {s : System} (b : ℕ) {t : System}
    → Held b s t
    → contains s.gates.frozen b ≡ true
    → tokens_of s.tokens b ≡ 0
    → tokens_of t.tokens b ≡ 0
Held-no_tokens b stay f z = z
Held-no_tokens b (then_ r st g) f z =
    Step-no_tokens b st (Held-frozen b r f) (Held-no_tokens b r f z)

-- From a state whose counters count the tokens: once a bucket is frozen and the test of `drain`
-- holds for it, no operation has a token for the bucket, whatever steps the tasks make, for as
-- long as it stays frozen.
pub drained_excludes :
    {s t : System} (buckets : List ℕ) (b : ℕ)
    → IsCounted s
    → contains buckets b ≡ true
    → contains s.gates.frozen b ≡ true
    → drained s.gates buckets ≡ true
    → Held b s t
    → tokens_of t.tokens b ≡ 0
drained_excludes buckets b c k f d r = Held-no_tokens b r f (drained_no_tokens _ buckets b c d k)
