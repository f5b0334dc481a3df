-- ===== src/Net/Server/Routes.antt =====
-- The routes of `app` in net.rs beside the operations that `op_of` takes them for.
use stplr.Base.{ℕ, ◌≡◌, refl, sym, ◌∙◌, nat_Eq}
use stplr.Text.{text_Eq, text_eq, starts_with, Text, codes}
use stplr.Json.{Json}
use stplr.Store.{IndexStore}
use stplr.Rbac.{Op, read, write, delete}
use stplr.Net.Access.{op_of}
use stplr.Net.Server.{
  Call, Server, handle, object, mget, scan, scan_buckets, set_add, set_remove, cas, incr,
  delete_object, export, import, drop_buckets, lease_acquire,
}

-- The path of a call in `app`.
unfoldable pub path_of : {V : Type 0} → Call V → Text
path_of (object _ _) = codes "/object"
path_of (mget _ _) = codes "/mget"
path_of (scan _ _ _ _ _) = codes "/scan"
path_of (scan_buckets _ _ _ _) = codes "/scanBuckets"
path_of (set_add _ _ _) = codes "/setAdd"
path_of (set_remove _ _ _) = codes "/setRemove"
path_of (Call.write _ _ _ _) = codes "/write"
path_of (cas _ _ _ _) = codes "/cas"
path_of (incr _ _ _) = codes "/incr"
path_of (delete_object _ _) = codes "/deleteObject"
path_of (export _ _) = codes "/export"
path_of (import _ _) = codes "/import"
path_of (drop_buckets _ _) = codes "/dropBuckets"
path_of (lease_acquire _ _ _) = codes "/leaseAcquire"

-- The operations under a read lock, those that delete, and the others.
abbrev pub need : {V : Type 0} → Call V → Op
need (object _ _) = read
need (mget _ _) = read
need (scan _ _ _ _ _) = read
need (scan_buckets _ _ _ _) = read
need (export _ _) = read
need (delete_object _ _) = delete
need (drop_buckets _ _) = delete
need _ = write

pub op_of-path_of : {V : Type 0} (c : Call V) → op_of (path_of c) ≡ need c
unfolding op_of path_of text_eq starts_with
op_of-path_of (object _ _) = refl
op_of-path_of (mget _ _) = refl
op_of-path_of (scan _ _ _ _ _) = refl
op_of-path_of (scan_buckets _ _ _ _) = refl
op_of-path_of (set_add _ _ _) = refl
op_of-path_of (set_remove _ _ _) = refl
op_of-path_of (Call.write _ _ _ _) = refl
op_of-path_of (cas _ _ _ _) = refl
op_of-path_of (incr _ _ _) = refl
op_of-path_of (delete_object _ _) = refl
op_of-path_of (export _ _) = refl
op_of-path_of (import _ _) = refl
op_of-path_of (drop_buckets _ _) = refl
op_of-path_of (lease_acquire _ _ _) = refl

module _ {S V : Type 0} (o : IndexStore S V) ⦃j : Json V⦄ (now : ℕ) (s : Server S) where
  keeps : (c : Call V) → need c ≡ read → (handle o now s c).0.shard ≡ s.shard
  unfolding handle
  keeps (object _ _) h = refl
  keeps (mget _ _) h = refl
  keeps (scan _ _ _ _ _) h = refl
  keeps (scan_buckets _ _ _ _) h = refl
  keeps (export _ _) h = refl
  keeps (set_add _ _ _) h = cc
  keeps (set_remove _ _ _) h = cc
  keeps (Call.write _ _ _ _) h = cc
  keeps (cas _ _ _ _) h = cc
  keeps (incr _ _ _) h = cc
  keeps (delete_object _ _) h = cc
  keeps (import _ _) h = cc
  keeps (drop_buckets _ _) h = cc
  keeps (lease_acquire _ _ _) h = cc

  -- A call whose path needs no more than the permission to read leaves the shard as it was.
  pub handle-reads : (c : Call V) → op_of (path_of c) ≡ read → (handle o now s c).0.shard ≡ s.shard
  handle-reads c h = keeps c (sym (op_of-path_of c) ∙ h)
