-- ===== src/Net/Server/Guarded.antt =====
-- The shard's routes in net.rs behind the policy layer: what a request must be permitted to do.
use stplr.Base.{
  ℕ, ◌≡◌, refl, ◌∙◌, Bool, true, false, Option, none, some, arith, if◌then◌else◌, nat_Eq, beq_self,
}
use stplr.Text.{text_Eq, Text}
use stplr.Text.Utf8.{Bytes}
use stplr.Json.{Json}
use stplr.Shard
use stplr.Store.Laws.{StoreLaws}
use stplr.Store.{IndexStore}
use stplr.Rbac.{Op, Policy, Principal, principal, principal_allows}
use stplr.Net.Access.{
  status, run, Request, Outcome, is_open, bearer, op_of, query_coll, policy_layer, authorize,
  decide, run, status, unauthorized, forbidden,
}
use stplr.Net.Server.{call, handle, write, Server, Extracted, dispatch, serve}

abbrev pub permits : Option Principal → Option Text → Op → Bool
permits none coll op = false
permits (some p) coll op = principal_allows p coll op

abbrev pub identity : Policy → Option Text → Option Principal
identity policy none = none
identity policy (some token) = principal policy token

-- Whether the token of a request may do an operation on a collection.
abbrev pub permitted : Policy → Request → Option Text → Op → Bool
permitted policy req coll op = permits (identity policy (bearer req)) coll op

-- 403 if the policy knows the token, and 401 otherwise.
abbrev pub denial : Option Principal → ℕ
denial none = unauthorized
denial (some p) = forbidden

module _ (coll_from_body : Bytes → Option Text) (policy : Policy) (req : Request)
    (shut : is_open req.path ≡ false) where
  -- A refused request gets its status; one that is let through goes on as `req'`.
  abbrev judged : Option Principal → Option Text → Request → Outcome
  judged p coll req' = if permits p coll (op_of req.path) then run req' else status (denial p)

  authorize-query :
      (token : Option Text) (coll : Text)
      → authorize coll_from_body policy req token (some (some coll))
        ≡ judged (identity policy token) (some coll) req
  unfolding authorize decide
  authorize-query none coll = refl
  authorize-query (some token) coll = ground arith

  module _ {S V : Type 0} (o : IndexStore S V) ⦃j : Json V⦄ (extract : Request → Extracted V)
      (now : ℕ) (s : Server S) where
    serve-query :
        (coll : Text)
        → query_coll req ≡ some (some coll)
        → permitted policy req (some coll) (op_of req.path) ≡ true
        → serve o extract coll_from_body now policy s req ≡ dispatch o extract now s req
    unfolding serve policy_layer
    serve-query coll named may = rw (shut, named, authorize-query (bearer req) coll) (ground arith)

    dispatch-write :
        (obj : V) (coll key : Text)
        → extract req ≡ call (write coll key obj none)
        → (dispatch o extract now s req).0.shard ≡ Shard.write_object o s.shard coll key obj
    unfolding dispatch handle Shard.write_object
    dispatch-write obj coll key body = ground (arith, body)

    -- Over a well-formed store that keeps the laws: if the query of a request to a path other than
    -- `/health` and `/metrics` names a collection on which its token has the permission that the
    -- path needs, and its body is a plain write to a collection, then the key of the body's
    -- collection reads the value afterwards, whatever that collection is.
    pub serve-other_coll :
        {Valid : S → Type 0}
        → StoreLaws o Valid
        → (coll other key : Text) (obj : V) (later : ℕ) → Valid s.shard.store
        → query_coll req ≡ some (some coll)
        → permitted policy req (some coll) (op_of req.path) ≡ true
        → extract req ≡ call (write other key obj none)
        → Shard.object o later (serve o extract coll_from_body now policy s req).0.shard other key
          ≡ some obj
    unfolding Shard.object Shard.write_object
    serve-other_coll laws coll other key obj later valid named may body =
        rw (serve-query coll named may, dispatch-write obj other key body)
          (laws.get-put later s.shard.store other key obj other key valid
            ∙ rw (beq_self other, beq_self key) refl)
