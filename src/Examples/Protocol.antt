-- ===== src/Examples/Protocol.antt =====
-- The claims about resp.rs on a small shard.
use stplr.Base.{
  ◌≡◌, refl, true, false, Option, none, some, List, [], ◌∷◌, ◌++◌, arith, if◌then◌else◌, nat_Eq,
  contains,
}
use stplr.Text.{Text, codes, text_Eq}
use stplr.Text.Utf8.{Bytes, as_bytes, IsText}
use stplr.Json.Wire.{WireJson, IsWireJson}
use stplr.Shard
use stplr.Shard.{Shard}
use stplr.Store.Memory.{MemoryStore, memory_store}
use stplr.Store.Memory.Laws.{memory-StoreLaws}
use stplr.Resp.{bulk, array_header, read_command, command}
use stplr.Resp.Requests.{bulks, read_command-bulks}
use stplr.Resp.Commands.{run, coll}
use stplr.Resp.Commands.Reads.{ran_out, texts, get-set, object-run_del}
use stplr.Resp.Session.{End, serve}
use stplr.Resp.Session.Gate.{no_login, serve-keeps}
use stplr.Examples.Values.{
  Value, string, to_string, to_strings, value_Json, hello, some_store, some_store-IsValid,
}

abbrev shard : Shard (MemoryStore Value)
shard = record { id = codes "a"; store = some_store }

unfoldable each_string : List Text → List Value
each_string [] = []
each_string (s ∷ ss) = string s ∷ each_string ss

abbrev members : Option (List Text) → Option (List Value)
members none = none
members (some ss) = some (each_string ss)

abbrev text_bytes : Option Text → Bytes
text_bytes none = []
text_bytes (some s) = as_bytes s

abbrev wire : WireJson Value
wire = record {
  string = string;
  array = λ v. members (to_strings v);
  to_vec = λ v. text_bytes (to_string v);
  from_slice = λ b. none;
}

wire_lem : IsWireJson value_Json wire
unfolding to_string
wire_lem = record { as_str-string = λ s. refl }

hello-IsText : IsText (codes "v")
hello-IsText = (refl, tt)

get-set_example :
    (run memory_store wire 10
      (run memory_store wire 5 shard (codes "SET") (codes "k" ∷ as_bytes (codes "v") ∷ [])).0
      (codes "GET")
      (codes "k" ∷ [])).1
    ≡ (if ran_out memory_store memory-StoreLaws wire wire_lem 5 10 []
        then bulk none
        else bulk (some (as_bytes (codes "v"))))
get-set_example =
    get-set memory_store memory-StoreLaws wire wire_lem 5 10 shard (codes "k") (codes "v") []
      some_store-IsValid hello-IsText

object-run_del_example :
    Shard.object memory_store 10
      (run memory_store wire 10 shard (codes "DEL") (hello ∷ codes "x" ∷ [])).0
      coll
      hello
    ≡ (if contains
          (texts memory_store memory-StoreLaws wire wire_lem (hello ∷ codes "x" ∷ []))
          hello
        then none
        else Shard.object memory_store 10 shard coll hello)
object-run_del_example =
    object-run_del memory_store memory-StoreLaws wire wire_lem 10 shard hello (codes "x" ∷ []) hello
      some_store-IsValid

read_command-bulks_example :
    read_command (array_header 2 ++ (bulks (codes "GET" ∷ codes "k" ∷ []) ++ codes "*1"))
    ≡ command (codes "GET" ∷ codes "k" ∷ []) (codes "*1")
read_command-bulks_example =
    read_command-bulks (codes "GET" ∷ codes "k" ∷ []) (codes "*1") (omega arith)
      (omega arith, (omega arith, tt))

-- A `PING`, and an array that announces too much.
abbrev greedy : Bytes
greedy = codes "PING" ++ (10 ∷ codes "*18446744073709551615")

silent : no_login (codes "t") 8 (codes "SET k v") ≡ true
unfolding no_login read_command stplr.Text.text_eq stplr.Resp.Options.upper
    stplr.Text.Utf8.from_utf8_lossy
silent = refl

serve-keeps_example :
    (out : Bytes) × (end : End) × (serve memory_store wire
        (some (codes "t"))
        (λ n. n)
        shard
        (codes "SET k v")
      ≡ some (record { shard = shard; authed = false }, out, end))
serve-keeps_example =
    serve-keeps memory_store wire (codes "t") (λ n. n) shard (codes "SET k v") silent
