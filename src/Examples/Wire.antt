-- ===== src/Examples/Wire.antt =====
-- The claims about net.rs and smart.rs on a small shard process and two members.
use stplr.Base.{
  ◌≡◌, refl, Bool, true, false, Option, none, some, List, [], ◌∷◌, arith, ◌==◌, nat_Eq,
}
use stplr.Text.{Text, text_Eq, codes}
use stplr.Text.Utf8.{Bytes, as_bytes}
use stplr.Dict.{keys}
use stplr.Shard
use stplr.Shard.{Shard}
use stplr.Store.Memory.{MemoryStore, memory_store}
use stplr.Store.Memory.Laws.{memory-StoreLaws}
use stplr.Rbac.{Grant, Policy, add_grant}
use stplr.Net.Queries.{percent_decode}
use stplr.Net.Queries.Encoded.{Encodes, percent_decode-Encodes, done, plain, space, escape}
use stplr.Net.Access.{Request, op_of, bearer, query_coll, is_open}
use stplr.Net.Server.{
  Server, Call, Extracted, object, write, call, serve, dispatch, refused, handle,
}
use stplr.Net.Server.Verdicts.{Verdict, serve-Verdict}
use stplr.Net.Server.Routes.{path_of, need}
use stplr.Net.Server.Guarded.{permitted, serve-other_coll}
use stplr.Net.Server.Routes.{handle-reads}
use stplr.Net.Remote.{Servers}
use stplr.Cluster
use stplr.Smart
use stplr.Smart.{SmartClient, Membership}
use stplr.Smart.Refresh.{is_member, refresh-has_client}
use stplr.Examples.Values.{
  Value, number, value_Json, kv, hello, tags, some_store, some_store-IsValid,
}

abbrev grant : Grant
grant = record { coll = kv; read = true; write = true; delete = false; admin = false }

abbrev policy : Policy
policy = add_grant [] (codes "app") grant

abbrev server : Server (MemoryStore Value)
server = record {
  shard = record { id = codes "a"; store = some_store };
  metrics = record { get = 0; set = 0; sadd = 0; srem = 0; del = 0 };
}

abbrev write_req : Option Bytes → Request
write_req query = record {
  path = codes "/write";
  query = query;
  post = true;
  authorization = some (codes "Bearer app");
  body = 1 ∷ [];
}

-- The body names the collection `tags`.
abbrev read_body : Request → Extracted Value
read_body req = call (write tags hello (number 8) none)

abbrev named : Bytes → Option Text
named body = some tags

shut : is_open (codes "/write") ≡ false
unfolding is_open stplr.Text.text_eq
shut = refl

abbrev a_write : Call Value
a_write = write tags hello (number 8) none

at_write : (write_req none).path ≡ path_of a_write
unfolding path_of
at_write = refl

serve-Verdict_example :
    Verdict memory_store read_body named 10 policy server
      (write_req none)
      (need a_write)
      (serve memory_store read_body named 10 policy server (write_req none))
serve-Verdict_example =
    serve-Verdict memory_store read_body named 10 policy server (write_req none) a_write at_write

-- The query names `kv`.
abbrev query : Option Bytes
query = some (codes "coll=kv")

kv_named : query_coll (write_req query) ≡ some (some kv)
unfolding query_coll stplr.Net.Queries.coll_from_query stplr.Net.Queries.percent_decode
    stplr.Net.Queries.decode_bytes stplr.Net.Queries.find_prefix stplr.Net.Queries.strip_prefix
    stplr.Rbac.split stplr.Text.Utf8.from_utf8_lossy
kv_named = refl

allowed : permitted policy (write_req query) (some kv) (op_of (codes "/write")) ≡ true
unfolding op_of bearer stplr.Rbac.principal_allows stplr.Rbac.grant_allows stplr.Rbac.op_ok
    stplr.Rbac.principal add_grant stplr.Net.Queries.strip_prefix stplr.Text.text_eq
    stplr.Rbac.coll_ok stplr.Dict.get stplr.Dict.insert stplr.Text.starts_with
allowed = refl

serve-other_coll_example :
    Shard.object memory_store 20
      (serve memory_store read_body named 10 policy server (write_req query)).0.shard
      tags
      hello
    ≡ some (number 8)
serve-other_coll_example =
    serve-other_coll named policy (write_req query) shut memory_store read_body 10 server
      memory-StoreLaws kv tags hello (number 8) 20 some_store-IsValid kv_named allowed refl

abbrev a_read : Call Value
a_read = object kv hello

reads : op_of (stplr.Net.Server.Routes.path_of a_read) ≡ stplr.Rbac.Op.read
unfolding op_of stplr.Net.Server.Routes.path_of stplr.Text.text_eq stplr.Text.starts_with
reads = refl

handle-reads_example : (handle memory_store 10 server (object kv hello)).0.shard ≡ server.shard
handle-reads_example = handle-reads memory_store 10 server (object kv hello) reads

abbrev is_zero : Value → Bool
is_zero (number n) = n == 0
is_zero _ = false

abbrev servers : Servers (MemoryStore Value)
servers = (codes "a", server) ∷ []

abbrev encoded : Bytes
encoded = codes "a+%62"

encoded_lem : Encodes (as_bytes (codes "a b")) encoded
unfolding as_bytes
encoded_lem =
    plain b'a' (omega arith) refl refl
      (space b' ' b'+' refl refl (escape b'b' b'%' b'6' b'2' 6 2 refl refl refl refl done))

percent_decode-Encodes_example : percent_decode encoded ≡ some (codes "a b")
percent_decode-Encodes_example =
    percent_decode-Encodes (codes "a b") encoded (refl, (refl, (refl, tt))) encoded_lem

abbrev member_list : List (Text × Text)
member_list = (codes "a", codes "http://a") ∷ (codes "b", codes "http://b") ∷ []

abbrev client : SmartClient
client = Smart.from_endpoints member_list 2

abbrev pair : Cluster.Cluster
pair = Cluster.new (codes "a" ∷ codes "b" ∷ []) 2 (kv ∷ [])

abbrev url : Text
url = codes "http://c"

abbrev starting : SmartClient
starting = Smart.with_coordinator (Smart.new [] 2) url

abbrev view : Membership
view = record { epoch = 3; members = member_list }

known : starting.coordinator ≡ some url
unfolding Smart.with_coordinator Smart.new stplr.Text.trim_end_matches
known = refl

old : Smart.is_current starting 3 ≡ false
unfolding Smart.with_coordinator Smart.new stplr.Text.trim_end_matches Smart.member_ids
old = refl

refresh-has_client_example :
    let r = Smart.refresh starting (some view) in
    (r.1 ≡ Smart.changed)
    × (Smart.has_client r.0 (codes "b") ≡ is_member member_list (codes "b"))
    × (r.0.partitioner.nodes ≡ keys r.0.clients)
    × (r.0.epoch ≡ 3)
refresh-has_client_example = refresh-has_client starting url known view old refl (codes "b")
