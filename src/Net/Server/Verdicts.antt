-- ===== src/Net/Server/Verdicts.antt =====
-- The policy layer of net.rs before the shard's handlers, judged by the grants of a token.
use stplr.Base.{
  ℕ, ◌≤◌, ◌<◌, ◌≡◌, refl, ap, subst, ◌∙◌, ◌⊎◌, inl, inr, Bool, true, false, ◌&&◌, ◌||◌, Option,
  none, some, List, [], ◌∷◌, ◌++◌, arith, leb, if◌then◌else◌, Bool-cases, ◌==◌, nat_Eq, length, any,
}
use stplr.Text.{text_Eq, text_eq, text_eq_iff, Text, codes}
use stplr.Text.Utf8.{Bytes}
use stplr.Dict.{get}
use stplr.Json.{Json}
use stplr.Store.{IndexStore}
use stplr.Rbac.{
  Op, Grant, Policy, Principal, principal, principal_allows, grant_allows, coll_ok, op_ok,
}
use stplr.Net.Queries.{strip_prefix}
use stplr.Net.Access.{
  Request, Outcome, run, status, is_open, bearer, op_of, buffered, body_limit, query_coll,
  policy_layer, authorize, decide,
}
use stplr.Net.Server.{
  object, mget, scan, scan_buckets, set_add, set_remove, cas, incr, delete_object, export, import,
  drop_buckets, lease_acquire, Call, Server, Extracted, Response, refused, closed, dispatch,
  after_layer, serve,
}
use stplr.Net.Server.Routes.{path_of, need, op_of-path_of}

-- A grant is on the collection of a request, or on each one if the request names none.
abbrev IsOn : Grant → Option Text → Type 0
IsOn g none = g.coll ≡ codes "*"
IsOn g (some coll) = (g.coll ≡ codes "*") ⊎ (g.coll ≡ coll)

-- A grant gives an operation, by its own flag or by the one of the administration.
abbrev Gives : Grant → Op → Type 0
Gives g Op.read = (g.read ≡ true) ⊎ (g.admin ≡ true)
Gives g Op.write = (g.write ≡ true) ⊎ (g.admin ≡ true)
Gives g Op.delete = (g.delete ≡ true) ⊎ (g.admin ≡ true)
Gives g Op.admin = g.admin ≡ true

-- Some grant of a list does both.
abbrev pub Granted : List Grant → Option Text → Op → Type 0
Granted [] coll op = ⊥
Granted (g ∷ gs) coll op = (IsOn g coll × Gives g op) ⊎ Granted gs coll op

abbrev Decided : Bool → Type 0 → Type 0
Decided true A = A
Decided false A = ¬ A

and-Decided : (A B : Type 0) (a b : Bool) → Decided a A → Decided b B → Decided (a && b) (A × B)
and-Decided A B true true p q = (p, q)
and-Decided A B true false p q = λ x. q x.1
and-Decided A B false b p q = λ x. p x.0

or-Decided : (A B : Type 0) (a b : Bool) → Decided a A → Decided b B → Decided (a || b) (A ⊎ B)
or-Decided A B true b p q = inl p
or-Decided A B false true p q = inr q
or-Decided A B false false p q = λ x. elim x [ inl y ↦ p y | inr z ↦ q z ]

set-Decided : (b : Bool) → Decided b (b ≡ true)
set-Decided true = refl
set-Decided false = λ e. absurd (cc e)

eq-Decided_at : (s t : Text) (b : Bool) → (s == t) ≡ b → Decided b (s ≡ t)
eq-Decided_at s t true h = (text_eq_iff s t).0 h
eq-Decided_at s t false h = λ e. absurd (cc (h, (text_eq_iff s t).1 e))

eq-Decided : (s t : Text) → Decided (s == t) (s ≡ t)
eq-Decided s t = eq-Decided_at s t (s == t) refl

IsOn-Decided : (g : Grant) (coll : Option Text) → Decided (coll_ok g.coll coll) (IsOn g coll)
unfolding coll_ok
IsOn-Decided g none = eq-Decided g.coll (codes "*")
IsOn-Decided g (some coll) =
    or-Decided _ _ (g.coll == codes "*") (g.coll == coll) (eq-Decided g.coll (codes "*"))
      (eq-Decided g.coll coll)

Gives-Decided : (g : Grant) (op : Op) → Decided (op_ok g op) (Gives g op)
unfolding op_ok
Gives-Decided g Op.read = or-Decided _ _ g.read g.admin (set-Decided g.read) (set-Decided g.admin)
Gives-Decided g Op.write =
    or-Decided _ _ g.write g.admin (set-Decided g.write) (set-Decided g.admin)
Gives-Decided g Op.delete =
    or-Decided _ _ g.delete g.admin (set-Decided g.delete) (set-Decided g.admin)
Gives-Decided g Op.admin = set-Decided g.admin

Granted-Decided :
    (gs : List Grant) (coll : Option Text) (op : Op)
    → Decided (any (λ g. grant_allows g coll op) gs) (Granted gs coll op)
unfolding grant_allows
Granted-Decided [] coll op = λ x. x
Granted-Decided (g ∷ gs) coll op =
    or-Decided _ _ (coll_ok g.coll coll && op_ok g op) (any (λ h. grant_allows h coll op) gs)
      (and-Decided _ _ (coll_ok g.coll coll) (op_ok g op) (IsOn-Decided g coll)
        (Gives-Decided g op))
      (Granted-Decided gs coll op)

-- The token of `Authorization: Bearer <token>`.
abbrev pub Presents : Request → Text → Type 0
Presents req token = req.authorization ≡ some (codes "Bearer " ++ token)

-- The collection that is judged, and the body that the handlers get: the query's collection, or else
-- that of the body of a `POST`, which counts as empty above 1 MiB.
pub data Names (coll_from_body : Bytes → Option Text) (req : Request)
    : Option Text → Bytes → Type 0 where
  by_query :
      (coll : Text)
      → query_coll req ≡ some (some coll)
      → Names coll_from_body req (some coll) req.body
  by_body :
      query_coll req ≡ some none
      → req.post ≡ true
      → length req.body ≤ 1048576
      → Names coll_from_body req (coll_from_body req.body) req.body
  by_empty :
      query_coll req ≡ some none
      → req.post ≡ true
      → 1048576 < length req.body
      → Names coll_from_body req (coll_from_body []) []
  by_none : query_coll req ≡ some none → req.post ≡ false → Names coll_from_body req none req.body

buffered-Names :
    (coll_from_body : Bytes → Option Text) (req : Request)
    → query_coll req ≡ some none
    → req.post ≡ true
    → Names coll_from_body req (coll_from_body (buffered req.body)) (buffered req.body)
unfolding buffered
buffered-Names coll_from_body req named posted =
    elim (Bool-cases (leb (length req.body) body_limit)) [
      | inl fits ↦ rw fits (by_body named posted (ground (arith, fits)))
      | inr over ↦ rw over (by_empty named posted (ground (arith, over)))
    ]

strip_prefix-some : (p s rest : Text) → strip_prefix p s ≡ some rest → s ≡ p ++ rest
unfolding strip_prefix
strip_prefix-some [] s rest h = ground arith
strip_prefix-some (a ∷ p) [] rest h = absurd (cc)
strip_prefix-some (a ∷ p) (b ∷ s) rest h = ground (arith, strip_prefix-some p s rest)

strip_prefix-append : (p rest : Text) → strip_prefix p (p ++ rest) ≡ some rest
unfolding strip_prefix
strip_prefix-append [] rest = refl
strip_prefix-append (a ∷ p) rest = ground (arith, strip_prefix-append p rest)

bearer-some :
    (req : Request) (token : Text) (header : Option Text)
    → req.authorization ≡ header
    → bearer req ≡ some token
    → Presents req token
unfolding bearer
bearer-some req token none e h = absurd (ground (arith, e, h))
bearer-some req token (some text) e h =
    let cut : strip_prefix (codes "Bearer ") text ≡ some token = ground (arith, e, h) in
    e ∙ ap (λ (t : Text). some t) (strip_prefix-some (codes "Bearer ") text token cut)

bearer_presented : (req : Request) (token : Text) → Presents req token → bearer req ≡ some token
unfolding bearer
bearer_presented req token e = rw (bearer, e) (strip_prefix-append (codes "Bearer ") token)

shut-path_of : {V : Type 0} (c : Call V) → is_open (path_of c) ≡ false
unfolding is_open path_of text_eq
shut-path_of (object _ _) = refl
shut-path_of (mget _ _) = refl
shut-path_of (scan _ _ _ _ _) = refl
shut-path_of (scan_buckets _ _ _ _) = refl
shut-path_of (set_add _ _ _) = refl
shut-path_of (set_remove _ _ _) = refl
shut-path_of (Call.write _ _ _ _) = refl
shut-path_of (cas _ _ _ _) = refl
shut-path_of (incr _ _ _) = refl
shut-path_of (delete_object _ _) = refl
shut-path_of (export _ _) = refl
shut-path_of (import _ _) = refl
shut-path_of (drop_buckets _ _) = refl
shut-path_of (lease_acquire _ _ _) = refl

module _ {S V : Type 0} (o : IndexStore S V) ⦃j : Json V⦄ (extract : Request → Extracted V)
    (coll_from_body : Bytes → Option Text) (now : ℕ) (policy : Policy) (s : Server S)
    (req : Request) where
  -- What a request that needs `op` comes to, with the reason. A refused one changes nothing.
  pub data Verdict (op : Op) : Server S × Response V → Type 0 where
    allowed :
        (token : Text) (p : Principal) (coll : Option Text) (body : Bytes)
        → Presents req token
        → get policy token ≡ some p
        → Names coll_from_body req coll body
        → Granted p.grants coll op
        → Verdict op (dispatch o extract now s (record req { body = body }))
    forbidden :
        (token : Text) (p : Principal) (coll : Option Text) (body : Bytes)
        → Presents req token
        → get policy token ≡ some p
        → Names coll_from_body req coll body
        → ¬ Granted p.grants coll op
        → Verdict op (s, refused 403)
    unknown :
        (token : Text) (coll : Option Text) (body : Bytes)
        → Presents req token
        → Names coll_from_body req coll body
        → get policy token ≡ none
        → Verdict op (s, refused 401)
    anonymous : ((token : Text) → ¬ Presents req token) → Verdict op (s, refused 401)
    broken : (token : Text) → Presents req token → query_coll req ≡ none → Verdict op (s, closed)

  granted_at :
      (op : Op) (token : Text) (p : Principal) (coll : Option Text) (body : Bytes) (b : Bool)
      → Presents req token
      → get policy token ≡ some p
      → Names coll_from_body req coll body
      → Decided b (Granted p.grants coll op)
      → Verdict op
          (after_layer o extract now s (if b then run (record req { body = body }) else status 403))
  unfolding after_layer
  granted_at op token p coll body true here known names g =
      allowed token p coll body here known names g
  granted_at op token p coll body false here known names g =
      forbidden token p coll body here known names g

  known_at :
      (op : Op) (token : Text) (coll : Option Text) (body : Bytes) (found : Option Principal)
      → Presents req token
      → Names coll_from_body req coll body
      → get policy token ≡ found
      → Verdict op
          (after_layer o extract now s (decide policy token coll op (record req { body = body })))
  unfolding after_layer decide principal principal_allows
  known_at op token coll body none here names e =
      rw (decide, principal, e) (unknown token coll body here names e)
  known_at op token coll body (some p) here names e =
      rw (decide, principal, e)
        (granted_at op token p coll body (principal_allows p coll op) here e names
          (Granted-Decided p.grants coll op))

  -- A request at the operation that its path is taken for.
  abbrev Judged : Outcome → Type 0
  Judged outcome = Verdict (op_of req.path) (after_layer o extract now s outcome)

  -- A request whose query names no collection.
  posted_at :
      (token : Text) (post : Bool)
      → Presents req token
      → query_coll req ≡ some none
      → req.post ≡ post
      → Judged (
          if post
          then decide policy token
              (coll_from_body (buffered req.body))
              (op_of req.path)
              (record req { body = buffered req.body })
          else decide policy token none (op_of req.path) req)
  posted_at token true here named posted =
      known_at (op_of req.path) token (coll_from_body (buffered req.body)) (buffered req.body)
        (get policy token) here (buffered-Names coll_from_body req named posted) refl
  posted_at token false here named fetched =
      known_at (op_of req.path) token none req.body (get policy token) here (by_none named fetched)
        refl

  named_at :
      (token : Text) (named : Option (Option Text))
      → Presents req token
      → query_coll req ≡ named
      → Judged (authorize coll_from_body policy req (some token) named)
  unfolding after_layer authorize
  named_at token none here e = broken token here e
  named_at token (some (some coll)) here e =
      known_at (op_of req.path) token (some coll) req.body (get policy token) here (by_query coll e)
        refl
  named_at token (some none) here e = posted_at token req.post here e refl

  bearer_at :
      (found : Option Text)
      → bearer req ≡ found
      → Judged (authorize coll_from_body policy req found (query_coll req))
  unfolding after_layer authorize
  bearer_at none e = anonymous (λ token h. absurd (cc (e, bearer_presented req token h)))
  bearer_at (some token) e =
      named_at token (query_coll req) (bearer-some req token req.authorization refl e) refl

  shut_at :
      (b : Bool)
      → b ≡ false
      → Judged
          (if b then run req else authorize coll_from_body policy req (bearer req) (query_coll req))
  shut_at true h = absurd (cc)
  shut_at false h = bearer_at (bearer req) refl

  -- At the path of a route a request is dispatched if it presents a token of the policy with a
  -- grant, of the route's kind of operation, on the collection that it names; it is answered with
  -- 403 if the token has no such grant, with 401 if the policy does not know the token or if none
  -- is presented, and the connection breaks if the reading of the query panics. The collection is
  -- the query's, or else that of the body of a `POST`; above 1 MiB the body counts as empty, and
  -- is dispatched as such. A request that is not dispatched changes nothing.
  pub serve-Verdict :
      (c : Call V)
      → req.path ≡ path_of c
      → Verdict (need c) (serve o extract coll_from_body now policy s req)
  unfolding serve policy_layer
  serve-Verdict c e =
      let shut : is_open req.path ≡ false = ap is_open e ∙ shut-path_of c in
      subst (λ (op : Op). Verdict op (serve o extract coll_from_body now policy s req))
        (ap op_of e ∙ op_of-path_of c) (shut_at (is_open req.path) shut)
