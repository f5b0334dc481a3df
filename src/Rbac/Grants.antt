-- ===== src/Rbac/Grants.antt =====
-- What grants of rbac.rs allow.
use stplr.Base.{
  ℕ, ◌≡◌, refl, subst, ◌∙◌, inl, inr, Bool, false, ◌&&◌, ◌||◌, Option, none, some, List, [], ◌∷◌,
  ◌++◌, arith, Bool-cases, ◌==◌, nat_Eq, any, contains,
}
use stplr.Text.{Text, text_Eq, text_eq_iff}
use stplr.Dict.{get, get-insert}
use stplr.Rbac.{
  Op, Grant, Policy, grant_allows, principal_allows, permit, permit_all, add_grant, or_new,
}

any-append : (p : Grant → Bool) (xs ys : List Grant) → any p (xs ++ ys) ≡ (any p xs || any p ys)
any-append p [] ys = ground arith
any-append p (x ∷ xs) ys = ground (arith, any-append p xs ys)

-- Whether a policy lets a token do an operation.
abbrev pub may : Policy → Text → Option Text → Op → Bool
may policy token coll op = principal_allows (or_new token (get policy token)) coll op

-- A grant that is added to a policy gives its token what the grant allows, takes nothing away, and
-- leaves every other token as it was.
pub may-add_grant :
    (policy : Policy) (token : Text) (g : Grant) (other : Text) (coll : Option Text) (op : Op)
    → may (add_grant policy token g) other coll op
      ≡ (may policy other coll op || ((token == other) && grant_allows g coll op))
unfolding add_grant principal_allows
may-add_grant policy token g other coll op =
    let p = or_new token (get policy token) in
    elim (Bool-cases (token == other)) [
      | inl same ↦
          let e = (text_eq_iff token other).0 same in
          rw (get-insert policy token (record p { grants = p.grants ++ g ∷ [] }) other, same, ← e)
            (any-append (λ x. grant_allows x coll op) p.grants (g ∷ []) ∙ ground arith)
      | inr apart ↦
          rw (get-insert policy token (record p { grants = p.grants ++ g ∷ [] }) other, apart)
            (ground arith)
    ]

-- The flags of a grant that permissions were read into: each letter sets its own flag and no other.
pub record IsPermitted (g : Grant) (perms : Text) (g' : Grant) : Type 0 where
  pub coll_kept : g'.coll ≡ g.coll
  pub reads : g'.read ≡ (g.read || contains perms b'r')
  pub writes : g'.write ≡ (g.write || contains perms b'w')
  pub deletes : g'.delete ≡ (g.delete || contains perms b'd')
  pub admins : g'.admin ≡ (g.admin || contains perms b'a')

permit_lem :
    (g g' g'' : Grant) (c : ℕ) (perms : Text)
    → permit g c ≡ some g'
    → IsPermitted g' perms g''
    → IsPermitted g (c ∷ perms) g''
unfolding permit
permit_lem g g' g'' c perms h p = record {
  coll_kept = ground (arith, p.coll_kept);
  reads = ground (arith, p.reads);
  writes = ground (arith, p.writes);
  deletes = ground (arith, p.deletes);
  admins = ground (arith, p.admins);
}

or_false : (b : Bool) → b ≡ (b || false)
or_false b = ground arith

IsPermitted-self : (g g' : Grant) → g ≡ g' → IsPermitted g [] g'
IsPermitted-self g g' e =
    subst (λ (x : Grant). IsPermitted g [] x) e
      (record {
        coll_kept = refl;
        reads = or_false g.read;
        writes = or_false g.write;
        deletes = or_false g.delete;
        admins = or_false g.admin;
      })

none-some : {A : Type 0} (a : A) → none ≡ some a → ⊥
none-some a h = absurd (cc)

permit_step :
    (g g' : Grant) (c : ℕ) (perms : Text) (m : Option Grant)
    → permit g c ≡ m
    → elim m [ none ↦ none | some x ↦ permit_all x perms ] ≡ some g'
    → ((x : Grant) → permit_all x perms ≡ some g' → IsPermitted x perms g')
    → IsPermitted g (c ∷ perms) g'
permit_step g g' c perms none e h rest = absurd (none-some g' h)
permit_step g g' c perms (some x) e h rest = permit_lem g x g' c perms e (rest x h)

-- If permissions are read into a grant, then each flag is set exactly if it was set before or its
-- letter is among them, and the collection is kept.
pub permit_all-IsPermitted :
    (g g' : Grant) (perms : Text) → permit_all g perms ≡ some g' → IsPermitted g perms g'
unfolding permit_all
permit_all-IsPermitted g g' [] h = IsPermitted-self g g' (ground arith)
permit_all-IsPermitted g g' (c ∷ perms) h =
    permit_step g g' c perms (permit g c) refl h (λ x. permit_all-IsPermitted x g' perms)
