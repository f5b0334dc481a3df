-- ===== src/Resp/Session/Gate.antt =====
-- A connection of resp.rs that has not shown the token.
use stplr.Base.{
  ℕ, zero, suc, ◌≡◌, refl, sym, subst, ◌∙◌, inl, inr, Bool, true, false, not, ◌&&◌, Option, some,
  List, [], ◌∷◌, ◌++◌, arith, Bool-cases, ◌==◌, nat_Eq, length,
}
use stplr.Text.{text_Eq, text_eq, text_eq_iff, Text, codes}
use stplr.Text.Utf8.{Bytes}
use stplr.Json.{Json}
use stplr.Json.Wire.{WireJson}
use stplr.Store.{IndexStore}
use stplr.Shard.{Shard}
use stplr.Resp.{Read, read_command, command, end_of_input, io_error, panicked}
use stplr.Resp.Options.{upper, text_of}
use stplr.Resp.Commands.{run, ping}
use stplr.Resp.Session.Ends.{serve_total}
use stplr.Resp.Session.{
  serve, serve_loop, serve_read, Conn, End, auth, shows, before_auth, serve_command, serve_args,
}

-- The command is `AUTH` with the token.
abbrev pub is_login : Text → List Bytes → Bool
is_login token [] = false
is_login token (name ∷ args) = (upper (text_of name) == codes "AUTH") && shows token args

abbrev quiet : Text → (Bytes → Bool) → Read → Bool
quiet token next end_of_input = true
quiet token next io_error = true
quiet token next panicked = true
quiet token next (command args rest) = not (is_login token args) && next rest

-- None of the first commands that the loop reads is `AUTH` with the token.
unfoldable pub no_login : Text → ℕ → Bytes → Bool
no_login token zero s = true
no_login token (suc n) s = quiet token (no_login token n) (read_command s)

module _ {S V : Type 0} (o : IndexStore S V) ⦃j : Json V⦄ (k : WireJson V) where
  ping-keeps : (sh : Shard S) (args : List Bytes) → (ping o k sh args).0 ≡ sh
  unfolding ping
  ping-keeps sh [] = refl
  ping-keeps sh (a ∷ args) = refl

  run-harmless :
      (now : ℕ) (sh : Shard S) (cmd : Text) (args : List Bytes)
      → before_auth cmd ≡ true
      → (cmd == codes "AUTH") ≡ false
      → (cmd == codes "QUIT") ≡ false
      → (run o k now sh cmd args).0 ≡ sh
  unfolding run text_eq
  run-harmless now sh cmd args early a q = elim (Bool-cases (cmd == codes "PING")) [
    | inl p ↦
        let e = (text_eq_iff cmd (codes "PING")).0 p in
        subst (λ (c : Text). (run o k now sh c args).0 ≡ sh) (sym e) (ping-keeps sh args)
    | inr p ↦
        let e = (text_eq_iff cmd (codes "HELLO")).0 (ground arith) in
        subst (λ (c : Text). (run o k now sh c args).0 ≡ sh) (sym e) refl
  ]

  serve_command-keeps :
      (token : Text) (now : ℕ) (c : Conn S) (cmd : Text) (args : List Bytes)
      → c.authed ≡ false
      → ((cmd == codes "AUTH") && shows token args) ≡ false
      → (serve_command o k (some token) now c cmd args).conn ≡ c
  unfolding serve_command auth
  serve_command-keeps token now c cmd args shut no_token =
      ground (arith, run-harmless now c.shard cmd args)

  -- Without the token, a command that is not the login changes nothing but the reply.
  serve_args-keeps :
      (token : Text) (now : ℕ) (c : Conn S) (args : List Bytes)
      → c.authed ≡ false
      → is_login token args ≡ false
      → (serve_args o k (some token) now c args).conn ≡ c
  unfolding serve_args
  serve_args-keeps token now c [] shut no_token = refl
  serve_args-keeps token now c (name ∷ args) shut no_token =
      serve_command-keeps token now c (upper (text_of name)) args shut no_token

  module _ (token : Text) (clock : ℕ → ℕ) (c : Conn S) (shut : c.authed ≡ false) where
    serve_read-keeps :
        (next : Conn S → Bytes → Bytes → Option (Conn S × Bytes × End)) (silent : Bytes → Bool)
        (sent : Bytes) (found : Read) (r : Conn S × Bytes × End)
        → ((sent' rest : Bytes) → silent rest ≡ true → next c sent' rest ≡ some r → r.0 ≡ c)
        → quiet token silent found ≡ true
        → serve_read o k (some token) clock next c sent found ≡ some r
        → r.0 ≡ c
    unfolding serve_read
    serve_read-keeps next silent sent end_of_input r go q h = ground arith
    serve_read-keeps next silent sent io_error r go q h = ground arith
    serve_read-keeps next silent sent panicked r go q h = ground arith
    serve_read-keeps next silent sent (command args rest) r go q h =
        let served = serve_args o k (some token) (clock (length rest)) c args in
        let kept : served.conn ≡ c =
          serve_args-keeps token (clock (length rest)) c args shut (ground arith) in
        ground (arith, kept, go (sent ++ served.out) rest)

    serve_loop-keeps :
        (fuel : ℕ) (sent s : Bytes) (r : Conn S × Bytes × End)
        → no_login token fuel s ≡ true
        → serve_loop o k (some token) clock fuel c sent s ≡ some r
        → r.0 ≡ c
    unfolding serve_loop no_login
    serve_loop-keeps zero sent s r q h = cc
    serve_loop-keeps (suc fuel) sent s r q h =
        serve_read-keeps (serve_loop o k (some token) clock fuel) (no_login token fuel) sent
          (read_command s) r (λ sent' rest. serve_loop-keeps fuel sent' rest r) q h

  -- If a token is asked for and no command that is read from the bytes is `AUTH` with it, then
  -- serving them ends with the shard as it was and a connection that is not authenticated.
  pub serve-keeps :
      (token : Text) (clock : ℕ → ℕ) (sh : Shard S) (s : Bytes)
      → no_login token (suc (length s)) s ≡ true
      → (out : Bytes) × (end : End) × (serve o k (some token) clock sh s
          ≡ some (record { shard = sh; authed = false }, out, end))
  unfolding serve
  serve-keeps token clock sh s q =
      let (c, out, end, e, why) = serve_total o k (some token) clock sh s in
      let kept =
        serve_loop-keeps token clock (record { shard = sh; authed = false }) refl (suc (length s))
          [] s (c, out, end) q e in
      (out, end, e ∙ rw kept refl)
