-- ===== src/Resp/Session/Ends.antt =====
-- The loop of resp.rs over the bytes of a connection, and what each round of it reads.
use stplr.Resp.Session.{
  Shard, serve, serve_args, serve_loop, serve_read, Conn, End, finished, failed, crashed,
}
use stplr.Store.{IndexStore}
use stplr.Base.{
  ℕ, zero, suc, ◌+◌, ◌≤◌, ◌<◌, ◌≡◌, refl, inl, inr, not, Option, none, some, List, [], ◌∷◌, ◌++◌,
  arith, Bool-cases, nat_Eq, is_some, length, take, drop, length-drop,
}
use stplr.Text.{text_Eq}
use stplr.Text.Utf8.{Bytes}
use stplr.Resp.{
  end_of_input, io_error, panicked, Text, WireJson, Json, parse_len, arg_len, read_from, read_body,
  read_arg, read_lines, read_until, read_line, read_args, read_command, Read, command,
}

read_until-shorter : (b : ℕ) (s : Bytes) → length (read_until (b ∷ s)).1 < length (b ∷ s)
unfolding read_until
read_until-shorter b [] = ground arith
read_until-shorter b (c ∷ s) = ground (arith, read_until-shorter c s)

read_line-shorter : (s line rest : Bytes) → read_line s ≡ some (line, rest) → length rest < length s
unfolding read_line
read_line-shorter [] line rest h = cc
read_line-shorter (b ∷ s) line rest h = ground (arith, read_until-shorter b s)

-- A reader that leaves no more bytes than it was given.
abbrev Shortens : (Bytes → List Bytes → Read) → Type 0
Shortens next =
    (s : Bytes) (args args' : List Bytes) (rest : Bytes)
    → next s args ≡ command args' rest
    → length rest ≤ length s

read_body-shorter :
    (next : Bytes → List Bytes → Read) (args : List Bytes) (s : Bytes) (len : Option ℕ)
    (args' : List Bytes) (rest : Bytes)
    → Shortens next
    → read_body next args s len ≡ command args' rest
    → length rest ≤ length s
read_body-shorter next args s none args' rest short h = cc
read_body-shorter next args s (some len) args' rest short h =
    ground (
      arith,
      short (drop (len + 2) s) (args ++ take len s ∷ []) args' rest,
      length-drop (len + 2) s,
    )

read_arg-shorter :
    (next : Bytes → List Bytes → Read) (args : List Bytes) (s : Bytes)
    (line : Option (Bytes × Bytes))
    → read_line s ≡ line
    → (args' : List Bytes) (rest : Bytes) → Shortens next
    → read_arg next args line ≡ command args' rest
    → length rest < length s
read_arg-shorter next args s none e args' rest short h = cc
read_arg-shorter next args s (some (header, body)) e args' rest short h = omega (
  arith,
  read_line-shorter s header body e,
  read_body-shorter next args body (arg_len header) args' rest short h,
)

read_args-Shortens : (n : ℕ) → Shortens (read_args n)
unfolding read_args
read_args-Shortens zero s args args' rest h = ground arith
read_args-Shortens (suc n) s args args' rest h = omega (
  arith,
  read_arg-shorter (read_args n) args s (read_line s) refl args' rest (read_args-Shortens n) h,
)

read_from-shorter :
    (line s : Bytes) (args : List Bytes) (rest : Bytes)
    → read_from line s ≡ command args rest
    → length rest ≤ length s
read_from-shorter [] s args rest h = ground arith
read_from-shorter (b ∷ line) s args rest h =
    ground (arith, read_args-Shortens (parse_len line) s [] args rest)

-- Reading a command takes a byte at least.
read_lines-shorter :
    (s : Bytes) (line : Option (Bytes × Bytes))
    → read_line s ≡ line
    → (args : List Bytes) (rest : Bytes) → read_lines line ≡ command args rest
    → length rest < length s
read_lines-shorter s none e args rest h = cc
read_lines-shorter s (some (line, after)) e args rest h =
    omega (arith, read_line-shorter s line after e, read_from-shorter line after args rest h)

read_command-shorter :
    (s : Bytes) (args : List Bytes) (rest : Bytes)
    → read_command s ≡ command args rest
    → length rest < length s
unfolding read_command
read_command-shorter s args rest h = read_lines-shorter s (read_line s) refl args rest h

-- The bytes that are left when a request is read, after any number of them.
pub data Reaches : Bytes → Bytes → Type 0 where
  here : {s : Bytes} → Reaches s s
  next_request :
      {s rest t : Bytes} (args : List Bytes)
      → read_command s ≡ command args rest
      → Reaches rest t
      → Reaches s t

module _ {S V : Type 0} (o : IndexStore S V) ⦃j : Json V⦄ (k : WireJson V) (token : Option Text)
    (clock : ℕ → ℕ) where
  -- The connection ends, and in a panic only if a request that is read panics.
  abbrev Ends : Bytes → Option (Conn S × Bytes × End) → Type 0
  Ends s r =
      (c : Conn S) × (out : Bytes) × (end : End) × (r ≡ some (c, out, end))
      × (end ≡ crashed → (t : Bytes) × Reaches s t × (read_command t ≡ panicked))

  serve_read-Ends :
      (next : Conn S → Bytes → Bytes → Option (Conn S × Bytes × End)) (c : Conn S) (sent s : Bytes)
      (found : Read)
      → read_command s ≡ found
      → ((c' : Conn S) (sent' rest : Bytes) (args : List Bytes)
          → found ≡ command args rest
          → Ends rest (next c' sent' rest))
      → Ends s (serve_read o k token clock next c sent found)
  unfolding serve_read
  serve_read-Ends next c sent s end_of_input e go = (c, sent, finished, refl, λ q. absurd (cc))
  serve_read-Ends next c sent s io_error e go = (c, sent, failed, refl, λ q. absurd (cc))
  serve_read-Ends next c sent s panicked e go = (c, sent, crashed, refl, λ q. (s, here, e))
  serve_read-Ends next c sent s (command args rest) e go =
      let r = serve_args o k token (clock (length rest)) c args in
      let (c', out, end, ends, why) = go r.conn (sent ++ r.out) rest args refl in
      elim (Bool-cases r.more) [
        | inl more ↦ rw more (
          c',
          out,
          end,
          ends,
          λ q. let (t, reached, panics) = why q in (t, next_request args e reached, panics),
        )
        | inr last ↦ (r.conn, sent ++ r.out, finished, rw last refl, λ q. absurd (cc))
      ]

  serve_loop-Ends :
      (fuel : ℕ) (c : Conn S) (sent s : Bytes)
      → length s < fuel
      → Ends s (serve_loop o k token clock fuel c sent s)
  unfolding serve_loop
  serve_loop-Ends zero c sent s h = absurd (omega arith)
  serve_loop-Ends (suc fuel) c sent s h =
      serve_read-Ends (serve_loop o k token clock fuel) c sent s (read_command s) refl
        (λ c' sent' rest args e.
          serve_loop-Ends fuel c' sent' rest (omega (arith, read_command-shorter s args rest e)))

  pub serve_total : (sh : Shard S) (s : Bytes) → Ends s (serve o k token clock sh s)
  unfolding serve
  serve_total sh s =
      serve_loop-Ends (suc (length s)) (record { shard = sh; authed = not (is_some token) }) [] s
        (omega arith)
