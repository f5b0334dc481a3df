-- ===== src/Guard/Wakeup.antt =====
-- The gates of guard.rs: waiters, their subscriptions and the values of the watch channel.
use stplr.Base.{
  ℕ, zero, suc, ◌+◌, ◌≤◌, ◌<◌, ◌≡◌, refl, sym, ◌∙◌, ◌⊎◌, inl, inr, true, false, arith, Bool-cases,
  nat_Eq, contains,
}
use stplr.Guard.{bump, count_of, freeze, unfreeze_locked}
use stplr.Guard.System.{
  System, Step, enter, leave, freeze_step, unfreeze, bump_step, Steps, here, next, IsCounted,
  tokens_of,
}
use stplr.Guard.Safety.{Steps-IsCounted, count-try_enter, frozen-leave, contains-insert_all}

-- The values sent, and those that are still to come.
abbrev pub signals : System → ℕ
signals s = s.gates.sent + s.pending

Step-signals : {s t : System} → Step s t → signals s ≤ signals t
unfolding bump freeze unfreeze_locked
Step-signals (enter s b g e) = ground (arith, count-try_enter s.gates g b b e)
Step-signals (leave s b held) = ground (arith, frozen-leave s.gates b)
Step-signals (freeze_step s bs) = omega arith
Step-signals (unfreeze s bs) = omega arith
Step-signals (bump_step s n e) = omega arith

Steps-signals : {s t : System} → Steps s t → signals s ≤ signals t
Steps-signals here = omega arith
Steps-signals (next r st) = omega (arith, Steps-signals r, Step-signals st)

Step-thaw :
    {s t : System} (b : ℕ)
    → Step s t
    → contains s.gates.frozen b ≡ true
    → contains t.gates.frozen b ≡ false
    → signals s < signals t
unfolding bump freeze unfreeze_locked
Step-thaw b (enter s b' g e) f z = ground (arith, count-try_enter s.gates g b' b e)
Step-thaw b (leave s b' held) f z = ground (arith, frozen-leave s.gates b')
Step-thaw b (freeze_step s bs) f z = ground (arith, contains-insert_all s.gates.frozen bs b)
Step-thaw b (unfreeze s bs) f z = omega arith
Step-thaw b (bump_step s n e) f z = absurd (ground arith)

Steps-thaw :
    {s : System} (b : ℕ) {t : System}
    → Steps s t
    → contains s.gates.frozen b ≡ true
    → contains t.gates.frozen b ≡ false
    → signals s < signals t
Steps-thaw b here f z = absurd (cc)
Steps-thaw b (next {t = m} r st) f z = elim (Bool-cases (contains m.gates.frozen b)) [
  | inl still ↦ omega (arith, Steps-signals r, Step-thaw b st still z)
  | inr open_ ↦ omega (arith, Steps-thaw b r f open_, Step-signals st)
]

Step-quiet :
    {s t : System} (b : ℕ)
    → Step s t
    → 0 < tokens_of s.tokens b
    → tokens_of t.tokens b ≡ 0
    → signals s < signals t
unfolding bump freeze unfreeze_locked
Step-quiet b (enter s b' g e) f z = absurd (omega arith)
Step-quiet b (leave s b' held) f z = ground (arith, frozen-leave s.gates b')
Step-quiet b (freeze_step s bs) f z = absurd (omega arith)
Step-quiet b (unfreeze s bs) f z = omega arith
Step-quiet b (bump_step s n e) f z = absurd (omega arith)

zero-or-pos : (n : ℕ) → (n ≡ 0) ⊎ (0 < n)
zero-or-pos zero = inl refl
zero-or-pos (suc n) = inr (omega arith)

Steps-quiet :
    {s : System} (b : ℕ) {t : System}
    → Steps s t
    → 0 < tokens_of s.tokens b
    → tokens_of t.tokens b ≡ 0
    → signals s < signals t
Steps-quiet b here f z = absurd (omega arith)
Steps-quiet b (next {t = m} r st) f z = elim (zero-or-pos (tokens_of m.tokens b)) [
  | inl none_ ↦ omega (arith, Steps-quiet b r f none_, Step-signals st)
  | inr some_ ↦ omega (arith, Steps-signals r, Step-quiet b st some_ z)
]

-- If a bucket was frozen when a task subscribed, is open later, and no bump is still to come, then
-- a value was sent on the channel in between.
pub thaw_signals :
    {s t : System} (b : ℕ)
    → Steps s t
    → contains s.gates.frozen b ≡ true
    → contains t.gates.frozen b ≡ false
    → t.pending ≡ 0
    → s.gates.sent < t.gates.sent
thaw_signals b r f z idle = omega (arith, Steps-thaw b r f z)

-- From a state whose counters count the tokens: if a bucket had operations in flight when a
-- migration subscribed, has none later, and no bump is still to come, then a value was sent on the
-- channel in between.
pub quiet_signals :
    {s t : System} (b : ℕ)
    → IsCounted s
    → Steps s t
    → 0 < count_of s.gates b
    → count_of t.gates b ≡ 0
    → t.pending ≡ 0
    → s.gates.sent < t.gates.sent
quiet_signals b c r f z idle =
    omega (
      arith,
      Steps-quiet b r (omega (arith, c.counts b)) (sym ((Steps-IsCounted r c).counts b) ∙ z),
    )
