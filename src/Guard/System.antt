-- ===== src/Guard/System.antt =====
-- The tasks that share the gates of guard.rs, as a step relation: each step is one hold of the lock.
use stplr.Base.{
  ℕ, suc, ◌+◌, ◌≤◌, ◌≡◌, true, some, List, [], ◌∷◌, arith, nat_eq, if◌then◌else◌, nat_Eq, length,
  contains,
}
use stplr.Guard.{Gates, bump, count_of, try_enter, leave_locked, freeze, unfreeze_locked}

-- The gates, the buckets of the tokens that are held, and the bumps that are still to come.
pub record System : Type 0 where
  pub gates : Gates
  pub tokens : List ℕ
  pub pending : ℕ

abbrev pub drop_token : ℕ → List ℕ → List ℕ
drop_token b [] = []
drop_token b (t ∷ ts) = if nat_eq t b then ts else t ∷ drop_token b ts

pub data Step : System → System → Type 0 where
  -- `enter` finds its bucket open and takes a token
  enter :
      (s : System) (b : ℕ) (g : Gates)
      → try_enter s.gates b ≡ some g
      → Step s (record s { gates = g; tokens = b ∷ s.tokens })
  -- a held token is dropped: the locked part of `leave`, and a bump to come
  leave :
      (s : System) (b : ℕ)
      → contains s.tokens b ≡ true
      → Step s (record s {
        gates = leave_locked s.gates b;
        tokens = drop_token b s.tokens;
        pending = s.pending + 1;
      })
  -- a migration freezes buckets
  freeze_step :
      (s : System) (buckets : List ℕ) → Step s (record s { gates = freeze s.gates buckets })
  -- the locked part of `unfreeze`, and a bump to come
  unfreeze :
      (s : System) (buckets : List ℕ)
      → Step s (record s { gates = unfreeze_locked s.gates buckets; pending = s.pending + 1 })
  -- a bump that was to come
  bump_step :
      (s : System) (n : ℕ)
      → s.pending ≡ suc n
      → Step s (record s { gates = bump s.gates; pending = n })

pub data Steps (s : System) : System → Type 0 where
  here : Steps s s
  next : {t u : System} → Steps s t → Step t u → Steps s u

abbrev pub tokens_of : List ℕ → ℕ → ℕ
tokens_of [] b = 0
tokens_of (t ∷ ts) b = (if nat_eq t b then 1 else 0) + tokens_of ts b

-- The counter of every bucket is the number of tokens held for it.
pub record IsCounted (s : System) : Type 0 where
  pub counts : (b : ℕ) → count_of s.gates b ≡ tokens_of s.tokens b

pub tokens_of-drop_token :
    (b : ℕ) (ts : List ℕ) (b' : ℕ)
    → contains ts b ≡ true
    → tokens_of (drop_token b ts) b' + (if nat_eq b b' then 1 else 0) ≡ tokens_of ts b'
tokens_of-drop_token b [] b' h = absurd (cc)
tokens_of-drop_token b (t ∷ ts) b' h = ground (arith, tokens_of-drop_token b ts b')

tokens_of-le-length : (ts : List ℕ) (b : ℕ) → tokens_of ts b ≤ length ts
tokens_of-le-length [] b = omega arith
tokens_of-le-length (t ∷ ts) b = ground (arith, tokens_of-le-length ts b)
