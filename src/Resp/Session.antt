-- ===== src/Resp/Session.antt =====
-- `handle` of resp.rs: authentication, and the loop that serves a connection. The clock gives the
-- time at which a command is served by the bytes that are then left to read.
pub mod Ends
pub mod Gate
use stplr.Base.{
  ℕ, zero, suc, ◌+◌, ◌-◌, ◌*◌, ◌/◌, ◌%◌, ◌^◌, ◌≤◌, ◌<◌, min, max, ◌≡◌, refl, sym, ap, subst, ◌∙◌,
  ◌≡⟨◌⟩◌, ◌∎, ◌≢◌, ◌↔◌, ◌⊎◌, inl, inr, Bool, true, false, not, ◌&&◌, ◌||◌, Option, none, some, List,
  [], ◌∷◌, ◌++◌, map, reverse, append-nil, append_assoc, arith, ltb, leb, nat_eq, nat_eq_iff,
  if◌then◌else◌, ltb→lt, leb→le, Bool-cases, Eq, ◌==◌, nat_Eq, is_some, length, take, get_elem?,
  first, filter_by, any, all, All, length-append, length-take, drop, take-drop, length-drop,
  take-all, length-filter_by, filter_by-append, contains, Distinct, beq_self, contains-append,
  contains-take, Distinct-take, contains-filter_by, Distinct-filter_by,
}
use stplr.Text.{text_Eq, Text, codes}
use stplr.Text.Utf8.{Bytes, as_bytes}
use stplr.Json.{Json}
use stplr.Json.Wire.{WireJson}
use stplr.Store.{IndexStore}
use stplr.Shard.{Shard}
use stplr.Resp.{simple, err, read_command, Read, command, end_of_input, io_error, panicked}
use stplr.Resp.Options.{upper, text_of}
use stplr.Resp.Commands.{run}

-- A connection: the shard behind it, and whether it has shown the token.
pub record Conn (S : Type 0) : Type 0 where
  pub shard : Shard S
  pub authed : Bool

-- How a connection ended: the client's `QUIT` or the end of its bytes, an error of the input, or a
-- panic of the task.
pub data End : Type 0 where
  finished failed crashed : End

-- What the client is sent, and whether the connection goes on.
pub record Served (S : Type 0) : Type 0 where
  pub conn : Conn S
  pub out : Bytes
  pub more : Bool

-- The commands that need no token.
abbrev pub before_auth : Text → Bool
before_auth cmd =
    (cmd == codes "AUTH")
    || ((cmd == codes "PING") || ((cmd == codes "QUIT") || (cmd == codes "HELLO")))

abbrev last_arg : Bytes → List Bytes → Bytes
last_arg a [] = a
last_arg a (b ∷ bs) = last_arg b bs

-- The last of one or more arguments is the token.
unfoldable pub shows : Text → List Bytes → Bool
shows token [] = false
shows token (a ∷ args) = last_arg a args == as_bytes token

module _ {S : Type 0} where
  unfoldable pub auth : Option Text → Conn S → List Bytes → Served S
  unfolding shows
  auth none c args = record {
    conn = c;
    out = err (codes "ERR Client sent AUTH, but no password is set");
    more = true;
  }
  auth (some token) c args =
      if shows token args
      then record { conn = record c { authed = true }; out = simple (codes "OK"); more = true }
      else record {
        conn = c;
        out = err (codes "WRONGPASS invalid username-password pair");
        more = true;
      }

  abbrev ran : Conn S → Shard S × Bytes → Served S
  ran c (sh, out) = record { conn = record c { shard = sh }; out = out; more = true }

module _ {S V : Type 0} (o : IndexStore S V) ⦃j : Json V⦄ (k : WireJson V)
    (token : Option Text) where
  -- One command that is not empty, of its name and arguments.
  unfoldable pub serve_command : ℕ → Conn S → Text → List Bytes → Served S
  unfolding auth
  serve_command now c cmd args =
      if not c.authed && not (before_auth cmd)
      then record { conn = c; out = err (codes "NOAUTH Authentication required."); more = true }
      else if cmd == codes "AUTH"
      then auth token c args
      else if cmd == codes "QUIT"
      then record { conn = c; out = simple (codes "OK"); more = false }
      else ran c (run o k now c.shard cmd args)

  unfoldable pub serve_args : ℕ → Conn S → List Bytes → Served S
  unfolding serve_command upper
  serve_args now c [] = record { conn = c; out = []; more = true }
  serve_args now c (name ∷ args) = serve_command now c (upper (text_of name)) args

  -- One round of the loop; `next` goes on with the bytes behind a command.
  unfoldable pub serve_read :
      (ℕ → ℕ)
      → (Conn S → Bytes → Bytes → Option (Conn S × Bytes × End))
      → Conn S
      → Bytes
      → Read
      → Option (Conn S × Bytes × End)
  unfolding serve_args
  serve_read clock next c sent end_of_input = some (c, sent, finished)
  serve_read clock next c sent io_error = some (c, sent, failed)
  serve_read clock next c sent panicked = some (c, sent, crashed)
  serve_read clock next c sent (command args rest) =
      let r = serve_args (clock (length rest)) c args in
      if r.more then next r.conn (sent ++ r.out) rest else some (r.conn, sent ++ r.out, finished)

  -- The loop, with the bytes sent so far; `none` is fuel that ran out.
  unfoldable pub serve_loop : (ℕ → ℕ) → ℕ → Conn S → Bytes → Bytes → Option (Conn S × Bytes × End)
  unfolding serve_read
  serve_loop clock zero c sent s = none
  serve_loop clock (suc fuel) c sent s =
      serve_read clock (serve_loop clock fuel) c sent (read_command s)

  -- A command takes a byte at least, so one round more than there are bytes is fuel enough.
  unfoldable pub serve : (ℕ → ℕ) → Shard S → Bytes → Option (Conn S × Bytes × End)
  unfolding serve_loop
  serve clock sh s =
      serve_loop clock (suc (length s)) (record { shard = sh; authed = not (is_some token) }) [] s
