-- ===== src/Examples/Feeds.antt =====
-- The claims about changefeed.rs and rbac.rs on small logs and policies.
use stplr.Base.{
  suc, ◌+◌, ◌≤◌, ◌≡◌, refl, Bool, true, false, ◌&&◌, ◌||◌, Option, none, some, [], ◌∷◌, ◌++◌, arith,
  ◌==◌, nat_Eq,
}
use stplr.Text.{Text, text_Eq, codes}
use stplr.Word.{add_u64}
use stplr.Changefeed.{MemoryChangeLog, new, append, read_group, commit_offset, committed_offset}
use stplr.Changefeed.Groups.{IsLog, read_group-commit_offset}
use stplr.Config.{Role, parse_list, roles_str, rank}
use stplr.Config.Roles.{parse_list-roles_str}
use stplr.Rbac.{
  Op, Grant, Policy, permit_all, add_grant, grant_allows, parse, principal, principal_allows,
}
use stplr.Rbac.Grants.{may, may-add_grant}

abbrev added : MemoryChangeLog → MemoryChangeLog
added log = (append log (codes "add") (codes "v") (codes "s") (codes "d")).0

abbrev one : MemoryChangeLog
one = added new

abbrev two : MemoryChangeLog
two = added one

unfoldable two-IsLog : IsLog two
unfolding append new add_u64
two-IsLog = record {
  lowest = 1;
  numbered = (refl, (refl, tt));
  upto = refl;
  positive = omega arith;
}

lowest_two : two-IsLog.lowest ≤ suc (committed_offset two (codes "g"))
unfolding two-IsLog
lowest_two = omega arith

read_group-commit_offset_example :
    read_group two (codes "g") 1
      ++ read_group
          (commit_offset two (codes "g") (committed_offset two (codes "g") + 1))
          (codes "g")
          5
    ≡ read_group two (codes "g") (1 + 5)
read_group-commit_offset_example = read_group-commit_offset two (codes "g") 1 5 two-IsLog lowest_two

abbrev bare : Grant
bare = record { coll = codes "kv"; read = false; write = false; delete = false; admin = false }

abbrev writer : Grant
writer = record bare { read = true; write = true }

permitted : permit_all bare (codes "rw") ≡ some writer
unfolding permit_all stplr.Rbac.permit
permitted = refl

abbrev apps : Policy
apps = add_grant [] (codes "app") writer

may-add_grant_example :
    may (add_grant apps (codes "ops") writer) (codes "app") (some (codes "kv")) Op.write ≡ (
      may apps (codes "app") (some (codes "kv")) Op.write
      || ((codes "ops" == codes "app") && grant_allows writer (some (codes "kv")) Op.write))
may-add_grant_example =
    may-add_grant apps (codes "ops") writer (codes "app") (some (codes "kv")) Op.write

abbrev app_may : Option Policy → Bool
app_may none = false
app_may (some p) = may p (codes "app") (some (codes "kv")) Op.write

parsed_policy : app_may (parse (codes "root:*:rwa; app:kv:rw ;")) ≡ true
unfolding parse stplr.Rbac.parse_entries stplr.Rbac.split stplr.Text.Number.trim
    stplr.Rbac.parse_entry permit_all stplr.Rbac.permit add_grant stplr.Dict.insert
    stplr.Text.text_eq principal_allows stplr.Dict.get grant_allows
parsed_policy = refl

parse_list-roles_str_example :
    parse_list (roles_str (Role.shard ∷ Role.api ∷ []) ∷ []) ≡ some (Role.shard ∷ Role.api ∷ [])
unfolding rank
parse_list-roles_str_example =
    parse_list-roles_str (Role.shard ∷ Role.api ∷ []) ((refl, tt), (tt, tt))
