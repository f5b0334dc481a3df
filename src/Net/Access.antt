-- ===== src/Net/Access.antt =====
-- The access layers of net.rs: `require_bearer` and `require_policy`, between a request and the
-- handlers.
use stplr.Base.{
  ℕ, ◌^◌, Bool, ◌||◌, Option, none, some, List, [], ◌∷◌, leb, if◌then◌else◌, ◌==◌, nat_Eq, length,
  contains,
}
use stplr.Text.{text_Eq, starts_with, Text, codes}
use stplr.Text.Utf8.{Bytes}
use stplr.Rbac.{Op, Policy, principal, principal_allows}
use stplr.Net.Queries.{strip_prefix, coll_from_query}

-- What the layers read of a request. `authorization` is the header as `to_str` gives it.
pub record Request : Type 0 where
  pub path : Text
  pub query : Option Bytes
  pub post : Bool
  pub authorization : Option Text
  pub body : Bytes

-- The request goes on to the handlers, or is answered with a status, or its task panics.
pub data Outcome : Type 0 where
  run : Request → Outcome
  status : ℕ → Outcome
  panicked : Outcome

abbrev pub unauthorized : ℕ
unauthorized = 401

abbrev pub forbidden : ℕ
forbidden = 403

unfoldable pub is_open : Text → Bool
is_open path = (path == codes "/health") || (path == codes "/metrics")

-- The token of `Authorization: Bearer <token>`.
unfoldable pub bearer : Request → Option Text
bearer req = elim req.authorization [ none ↦ none | some h ↦ strip_prefix (codes "Bearer ") h ]

unfoldable pub bearer_layer : Text → Request → Outcome
bearer_layer token req = if is_open req.path then run req else elim (bearer req) [
  | none ↦ status unauthorized
  | some v ↦ if v == token then run req else status unauthorized
]

unfoldable pub require_bearer : Option Text → Request → Outcome
require_bearer none req = run req
require_bearer (some token) req = bearer_layer token req

abbrev pub read_paths : List Text
read_paths =
    codes "/object"
    ∷ codes "/scan"
    ∷ codes "/mget"
    ∷ codes "/scanBuckets"
    ∷ codes "/export"
    ∷ codes "/caps"
    ∷ codes "/members"
    ∷ codes "/partitions"
    ∷ codes "/route"
    ∷ codes "/leader"
    ∷ codes "/ingest/status"
    ∷ []

abbrev pub delete_paths : List Text
delete_paths = codes "/deleteObject" ∷ codes "/dropBuckets" ∷ []

unfoldable pub op_of : Text → Op
op_of path =
    if starts_with path (codes "/admin")
    then Op.admin
    else if contains read_paths path
    then Op.read
    else if contains delete_paths path
    then Op.delete
    else Op.write

-- `to_bytes(body, 1 << 20).unwrap_or_default()`: a body above the limit becomes an empty one.
abbrev pub body_limit : ℕ
body_limit = 2 ^ 20

unfoldable pub buffered : Bytes → Bytes
buffered body = if leb (length body) body_limit then body else []

-- `req.uri().query().and_then(coll_from_query)`; `none` is its panic.
unfoldable pub query_coll : Request → Option (Option Text)
query_coll req = elim req.query [ none ↦ some none | some q ↦ coll_from_query q ]

-- The last `match` on the principal.
unfoldable pub decide : Policy → Text → Option Text → Op → Request → Outcome
decide policy token coll op req = elim (principal policy token) [
  | none ↦ status unauthorized
  | some p ↦ if principal_allows p coll op then run req else status forbidden
]

-- The rest of the layer, at the presented token and the collection of the query; `none` is a panic.
-- `coll_from_body` reads the collection that a JSON body names.
unfoldable pub authorize :
    (Bytes → Option Text) → Policy → Request → Option Text → Option (Option Text) → Outcome
authorize coll_from_body policy req none named = status unauthorized
authorize coll_from_body policy req (some token) none = panicked
authorize coll_from_body policy req (some token) (some (some coll)) =
    decide policy token (some coll) (op_of req.path) req
authorize coll_from_body policy req (some token) (some none) =
    let body = buffered req.body in
    if req.post
    then decide policy token (coll_from_body body) (op_of req.path) (record req { body = body })
    else decide policy token none (op_of req.path) req

unfoldable pub policy_layer : (Bytes → Option Text) → Policy → Request → Outcome
unfolding authorize decide
policy_layer coll_from_body policy req =
    if is_open req.path
    then run req
    else authorize coll_from_body policy req (bearer req) (query_coll req)
