-- ===== src/Net/Server.antt =====
-- The handlers of net.rs, on the bodies that the web framework has read, and the router behind the
-- access layer. The answer is the JSON value's one field.
pub mod Guarded
pub mod Routes
pub mod Verdicts
use stplr.Base.{
  ℕ, zero, suc, ◌+◌, ◌-◌, ◌*◌, ◌/◌, ◌%◌, ◌^◌, ◌≤◌, ◌<◌, min, max, ◌≡◌, refl, sym, ap, subst, ◌∙◌,
  ◌≡⟨◌⟩◌, ◌∎, ◌≢◌, ◌↔◌, ◌⊎◌, inl, inr, Bool, true, false, not, ◌&&◌, ◌||◌, Option, none, some, List,
  [], ◌∷◌, ◌++◌, map, reverse, append-nil, append_assoc, arith, ltb, leb, nat_eq, nat_eq_iff,
  if◌then◌else◌, ltb→lt, leb→le, Bool-cases, Eq, ◌==◌, nat_Eq, is_some, length, take, get_elem?,
  first, filter_by, any, all, All, length-append, length-take, drop, take-drop, length-drop,
  take-all, length-filter_by, filter_by-append, contains, Distinct, beq_self, contains-append,
  contains-take, Distinct-take, contains-filter_by, Distinct-filter_by,
}
use stplr.Text.{Text}
use stplr.Text.Utf8.{Bytes}
use stplr.Json.{Json}
use stplr.Lease.{LeaseOutcome}
use stplr.Store.{IndexStore}
use stplr.Shard
use stplr.Shard.{Shard}
use stplr.Metrics.{Metrics, Counter, inc}
use stplr.Rbac.{Policy}
use stplr.Net.Access.{Outcome, Request, run, status, panicked, policy_layer}

-- The routes with the fields of their queries and bodies.
pub data Call (V : Type 0) : Type 0 where
  object : Text → Text → Call V
  mget : Text → List Text → Call V
  scan : Text → Option Text → Option Text → Option Text → ℕ → Call V
  scan_buckets : Text → List ℕ → Option Text → ℕ → Call V
  set_add : Text → Text → Text → Call V
  set_remove : Text → Text → Text → Call V
  write : Text → Text → V → Option ℕ → Call V
  cas : Text → Text → Option V → V → Call V
  incr : Text → Text → ℕ → Call V
  delete_object : Text → Text → Call V
  export : Text → List ℕ → Call V
  import : Text → List (Text × V) → Call V
  drop_buckets : Text → List ℕ → Call V
  lease_acquire : Text → Text → ℕ → Call V

pub data Reply (V : Type 0) : Type 0 where
  found : Option V → Reply V
  values : List (Option V) → Reply V
  keys : Option (List Text) → Reply V
  flag : Bool → Reply V
  done : Reply V
  number : Option ℕ → Reply V
  entries : List (Text × V) → Reply V
  dropped : ℕ → Reply V
  outcome : LeaseOutcome → Reply V

-- A shard process: the shard behind its lock, and the counters.
pub record Server (S : Type 0) : Type 0 where
  pub shard : Shard S
  pub metrics : Metrics

abbrev pub scan_cap : ℕ
scan_cap = 10000

abbrev pub scan_buckets_cap : ℕ
scan_buckets_cap = 100000

module _ {S : Type 0} where
  abbrev pub count : Server S → Counter → Server S
  count s c = record s { metrics = inc s.metrics c }

  -- A mutation under the write lock, and its answer.
  abbrev pub mutate : {A V : Type 0} → Server S → Shard S × A → (A → Reply V) → Server S × Reply V
  mutate s (sh, a) answer = (record s { shard = sh }, answer a)

abbrev pub positive : Option ℕ → Option ℕ
positive none = none
positive (some ttl) = if ltb 0 ttl then some ttl else none

module _ {S V : Type 0} (o : IndexStore S V) where
  -- `write`: with an expiry if one is given and above 0.
  unfoldable pub write_to : ℕ → Shard S → Text → Text → V → Option ℕ → Shard S
  write_to now sh coll key obj ttl_ms = elim (positive ttl_ms) [
    | some ttl ↦ Shard.write_object_ttl o now sh coll key obj ttl
    | none ↦ Shard.write_object o sh coll key obj
  ]

module _ {S V : Type 0} (o : IndexStore S V) ⦃j : Json V⦄ where
  unfoldable pub handle : ℕ → Server S → Call V → Server S × Reply V
  unfolding write_to
  handle now s (object coll key) =
      (count s Counter.get, found (Shard.object o now s.shard coll key))
  handle now s (mget coll ks) = (count s Counter.get, values (Shard.mget o now s.shard coll ks))
  handle now s (scan coll after prefix end limit) =
      (s, keys (some (Shard.scan_range o now s.shard coll after prefix end (min limit scan_cap))))
  handle now s (scan_buckets coll buckets after limit) =
      (s, keys (Shard.scan_buckets o now s.shard coll buckets after (min limit scan_buckets_cap)))
  handle now s (set_add coll key m) =
      mutate (count s Counter.sadd) (Shard.set_add o now s.shard coll key m) flag
  handle now s (set_remove coll key m) =
      mutate (count s Counter.srem) (Shard.set_remove o now s.shard coll key m) flag
  handle now s (write coll key obj ttl_ms) = (
    record s {
      shard = write_to o now s.shard coll key obj ttl_ms;
      metrics = inc s.metrics Counter.set;
    },
    done,
  )
  handle now s (cas coll key expect new) =
      mutate (count s Counter.set) (Shard.cas o now s.shard coll key expect new) flag
  handle now s (incr coll key delta) =
      mutate (count s Counter.set) (Shard.incr o now s.shard coll key delta) number
  handle now s (delete_object coll key) = (
    record s {
      shard = Shard.delete_object o s.shard coll key;
      metrics = inc s.metrics Counter.del;
    },
    done,
  )
  handle now s (export coll buckets) =
      (s, entries (Shard.export_entries o now s.shard coll buckets))
  handle now s (import coll es) =
      (record s { shard = Shard.import_entries o s.shard coll es }, done)
  handle now s (drop_buckets coll buckets) =
      mutate s (Shard.drop_buckets o now s.shard coll buckets) dropped
  handle now s (lease_acquire key holder ttl_ms) =
      mutate s (Shard.lease_acquire o now s.shard key holder ttl_ms) outcome

-- What a client is sent.
pub data Response (V : Type 0) : Type 0 where
  ok : Reply V → Response V
  refused : ℕ → Response V
  closed : Response V

-- What the web framework reads of a request: the call, or the status that turns it down.
pub data Extracted (V : Type 0) : Type 0 where
  call : Call V → Extracted V
  rejected : ℕ → Extracted V

module _ {S V : Type 0} (o : IndexStore S V) ⦃j : Json V⦄ (extract : Request → Extracted V) where
  abbrev answer : {A : Type 0} → A × Reply V → A × Response V
  answer (s, r) = (s, ok r)

  unfoldable pub dispatch : ℕ → Server S → Request → Server S × Response V
  dispatch now s req = elim (extract req) [
    | rejected code ↦ (s, refused code)
    | call c ↦ answer (handle o now s c)
  ]

  -- The routes behind an access layer: what it made of a request.
  unfoldable pub after_layer : ℕ → Server S → Outcome → Server S × Response V
  unfolding dispatch
  after_layer now s (run req) = dispatch now s req
  after_layer now s (status code) = (s, refused code)
  after_layer now s panicked = (s, closed)

  -- `app` behind `require_policy`
  unfoldable pub serve :
      (Bytes → Option Text) → ℕ → Policy → Server S → Request → Server S × Response V
  unfolding after_layer
  serve coll_from_body now policy s req = after_layer now s (policy_layer coll_from_body policy req)
