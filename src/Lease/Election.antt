-- ===== src/Lease/Election.antt =====
-- Leader election over `evaluate` of lease.rs: the shard that owns the lease serves requests one
-- after another, by its own clock, and stores what it grants.
use stplr.Base.{
  ℕ, ◌+◌, ◌<◌, ◌≡◌, refl, ◌≢◌, ◌↔◌, ◌⊎◌, inr, true, false, Option, none, some, List, [], ◌∷◌, arith,
  if◌then◌else◌, nat_Eq, length,
}
use stplr.Text.{Text, text_Eq, text_eq_iff}
use stplr.Word.{u64_mod, add_u64-eq}
use stplr.Lease.{Lease, LeaseOutcome, evaluate}

-- The stored lease after one request: `Shard::lease_acquire` writes it back when it was granted.
abbrev pub stored : Option Lease → LeaseOutcome → Option Lease
stored current outcome = if outcome.granted then some outcome.lease else current

pub record Request : Type 0 where
  pub asker : Text
  pub ttl_ms : ℕ
  pub now_ms : ℕ

unfoldable pub serve : Option Lease → Request → Option Lease
serve current r = stored current (evaluate current r.asker r.ttl_ms r.now_ms)

unfoldable pub serve_all : Option Lease → List Request → Option Lease
serve_all current [] = current
serve_all current (r ∷ rs) = serve_all (serve current r) rs

abbrev pub term : Option Lease → ℕ
term none = 0
term (some l) = l.token

abbrev pub holder_of : Option Lease → Option Text
holder_of none = none
holder_of (some l) = some l.holder

-- `who` leads at `now`: its lease is stored and has not run out.
abbrev pub Leads : Option Lease → Text → ℕ → Type 0
Leads none who now = ⊥
Leads (some l) who now = (l.holder ≡ who) × (now < l.expires_ms)

-- A request is turned down exactly when the lease of another holder is stored and has not run out.
pub denied_iff :
    (current : Option Lease) (who : Text) (ttl now : ℕ)
    → ((evaluate current who ttl now).granted ≡ false)
      ↔ ((other : Text) × (other ≢ who) × Leads current other now)
unfolding evaluate
denied_iff none who ttl now = ((λ h. cc), λ (o, n, l). absurd l)
denied_iff (some l) who ttl now = (
  (λ h. (l.holder, (λ p. ground (arith, text_eq_iff l.holder who)), ground arith)),
  λ (o, n, lives). ground (arith, text_eq_iff l.holder who, n),
)

-- A granted request, whose expiry is in range, leads at any time before its expiry.
pub granted-Leads :
    (current : Option Lease) (r : Request) (at : ℕ)
    → r.now_ms + r.ttl_ms < u64_mod
    → at < r.now_ms + r.ttl_ms
    → (evaluate current r.asker r.ttl_ms r.now_ms).granted ≡ true
    → Leads (serve current r) r.asker at
unfolding evaluate serve
granted-Leads none r at fits before g = ground (arith, add_u64-eq r.now_ms r.ttl_ms)
granted-Leads (some l) r at fits before g = ground (arith, add_u64-eq r.now_ms r.ttl_ms)

-- While a lease is live, requests of others change nothing.
pub serve_denied :
    (l : Lease) (r : Request)
    → r.now_ms < l.expires_ms
    → l.holder ≢ r.asker
    → serve (some l) r ≡ some l
unfolding evaluate serve
serve_denied l r live other = ground (arith, text_eq_iff l.holder r.asker, other)

-- The lease that is stored after a request found `l`.
served : Lease → Request → Lease
served l r =
    let outcome = evaluate (some l) r.asker r.ttl_ms r.now_ms in
    if outcome.granted then outcome.lease else l

served_all : Lease → List Request → Lease
served_all l [] = l
served_all l (r ∷ rs) = served_all (served l r) rs

serve-some : (l : Lease) (r : Request) → serve (some l) r ≡ some (served l r)
unfolding evaluate serve served
serve-some l r = ground arith

serve_all-some : (l : Lease) (rs : List Request) → serve_all (some l) rs ≡ some (served_all l rs)
unfolding serve_all served_all
serve_all-some l [] = refl
serve_all-some l (r ∷ rs) = rw (serve-some l r) (serve_all-some (served l r) rs)

-- One request keeps the token and the holder, or raises the token by one.
served_term :
    (l : Lease) (r : Request)
    → l.token + 1 < u64_mod
    → (((served l r).token ≡ l.token) × ((served l r).holder ≡ l.holder))
      ⊎ ((served l r).token ≡ l.token + 1)
unfolding evaluate served
served_term l r fits = ground (arith, text_eq_iff l.holder r.asker, add_u64-eq l.token 1)

served_all_term :
    (l : Lease) (rs : List Request)
    → l.token + length rs < u64_mod
    → (l.token < (served_all l rs).token)
      ⊎ (((served_all l rs).token ≡ l.token) × ((served_all l rs).holder ≡ l.holder))
unfolding served_all
served_all_term l [] fits = inr (refl, refl)
served_all_term l (r ∷ rs) fits =
    let step = served_term l r (omega arith) in
    let rest = served_all_term (served l r) rs in ground (arith, step, rest)

-- Over any requests, at any times, the stored lease keeps its holder and its token, or its token
-- is higher than it was, provided that the token stays in range.
pub serve_all_fencing :
    (l : Lease) (rs : List Request)
    → l.token + length rs < u64_mod
    → (l' : Lease) × (serve_all (some l) rs ≡ some l')
      × ((l.token < l'.token) ⊎ ((l'.token ≡ l.token) × (l'.holder ≡ l.holder)))
serve_all_fencing l rs fits = (served_all l rs, serve_all-some l rs, served_all_term l rs fits)
