-- ===== src/Resp/Requests.antt =====
-- The requests of resp.rs: `read_command` beside the encoders.
use stplr.Base.{
  ℕ, zero, suc, ◌+◌, ◌*◌, ◌/◌, ◌%◌, ◌≤◌, ◌<◌, ◌≡◌, refl, ap, ◌∙◌, inl, inr, false, some, List, [],
  ◌∷◌, ◌++◌, append-nil, append_assoc, arith, ltb, Bool-cases, ◌==◌, nat_Eq, length, take, All,
  length-append, drop,
}
use stplr.Text.{text_Eq, Text}
use stplr.Text.Utf8.{Bytes}
use stplr.Text.Utf8.RoundTrip.{from_utf8_lossy-ascii}
use stplr.Word.{u64_mod}
use stplr.SeqKey.{pad, key, strip_zeros, to_decimal, parse_u64-to_decimal}
use stplr.Resp.{
  read_array, isize_max, vec_size, read_from, array_header, command, read_command, bulk_of,
  read_args, arg_len, crlf, is_eol, pop_eol, read_until, read_line, parse_len,
}

abbrev IsDigit : ℕ → Type 0
IsDigit c = (b'0' ≤ c) × (c ≤ b'9')

abbrev AreDigits : Text → Type 0
AreDigits s = All IsDigit s

AreDigits-append : (s t : Text) → AreDigits s → AreDigits t → AreDigits (s ++ t)
AreDigits-append [] t p q = q
AreDigits-append (c ∷ s) t p q = (p.0, AreDigits-append s t p.1 q)

pad-AreDigits : (k n : ℕ) → AreDigits (pad k n)
unfolding pad
pad-AreDigits zero n = tt
pad-AreDigits (suc k) n =
    AreDigits-append (pad k (n / 10)) ((b'0' + n % 10) ∷ []) (pad-AreDigits k (n / 10))
      ((omega arith, omega arith), tt)

strip_zeros-AreDigits : (s : Text) → AreDigits s → AreDigits (strip_zeros s)
unfolding strip_zeros
strip_zeros-AreDigits [] p = tt
strip_zeros-AreDigits (c ∷ []) p = p
strip_zeros-AreDigits (c ∷ d ∷ s) p = elim (Bool-cases (c == b'0')) [
  | inl z ↦ rw (z, strip_zeros) (strip_zeros-AreDigits (d ∷ s) p.1)
  | inr z ↦ rw (z, strip_zeros) p
]

to_decimal-AreDigits : (n : ℕ) → AreDigits (to_decimal n)
unfolding to_decimal key
to_decimal-AreDigits n = strip_zeros-AreDigits (key n) (pad-AreDigits 20 n)

AreDigits-ascii : (s : Text) → AreDigits s → All (λ c. c < 0x80) s
AreDigits-ascii [] p = tt
AreDigits-ascii (c ∷ s) p = (omega arith, AreDigits-ascii s p.1)

parse_len-to_decimal : (n : ℕ) → n < u64_mod → parse_len (to_decimal n) ≡ n
unfolding parse_len
parse_len-to_decimal n h =
    rw
      (
        from_utf8_lossy-ascii (to_decimal n)
            (AreDigits-ascii (to_decimal n) (to_decimal-AreDigits n)),
        parse_u64-to_decimal n h,
      )
      refl

-- No byte of a line ends it.
abbrev IsLine : Bytes → Type 0
IsLine s = All (λ b. is_eol b ≡ false) s

AreDigits-IsLine : (s : Text) → AreDigits s → IsLine s
AreDigits-IsLine [] p = tt
AreDigits-IsLine (c ∷ s) p = (ground arith, AreDigits-IsLine s p.1)

read_until-line :
    (line rest : Bytes) → IsLine line → read_until (line ++ (crlf ++ rest)) ≡ (line ++ crlf, rest)
unfolding read_until
read_until-line [] rest p = refl
read_until-line (b ∷ line) rest p = rw (read_until-line line rest p.1) (ground arith)

pop_eol-line : (line : Bytes) → IsLine line → pop_eol (line ++ crlf) ≡ line
unfolding pop_eol
pop_eol-line [] p = refl
pop_eol-line (b ∷ line) p = rw (pop_eol-line line p.1, p.0) refl

-- A line with its end is read as the line.
read_line-line :
    (b : ℕ) (line rest : Bytes)
    → IsLine (b ∷ line)
    → read_line (b ∷ line ++ (crlf ++ rest)) ≡ some (b ∷ line, rest)
unfolding read_line
read_line-line b line rest p =
    rw (read_until-line (b ∷ line) rest p, pop_eol-line (b ∷ line) p) refl

take-append : (d s : Bytes) → take (length d) (d ++ s) ≡ d
take-append [] s = refl
take-append (b ∷ d) s = ap (λ (u : Bytes). b ∷ u) (take-append d s)

drop-append : (n : ℕ) (d s : Bytes) → n ≡ length d → drop n (d ++ s) ≡ s
drop-append zero [] s e = refl
drop-append zero (b ∷ d) s e = absurd (omega arith)
drop-append (suc n) [] s e = absurd (omega arith)
drop-append (suc n) (b ∷ d) s e = drop-append n d s (omega arith)

-- The header of an argument, its bytes and their end, with what follows.
bulk_of-append :
    (d s : Bytes) → bulk_of d ++ s ≡ b'$' ∷ to_decimal (length d) ++ (crlf ++ (d ++ (crlf ++ s)))
unfolding bulk_of
bulk_of-append d s = simp (append_assoc)

arg_len-to_decimal : (n : ℕ) → n < u64_mod → arg_len (b'$' ∷ to_decimal n) ≡ some n
unfolding arg_len
arg_len-to_decimal n h = ap some (parse_len-to_decimal n h)

read_args-step :
    (n len : ℕ) (s header rest : Bytes) (args : List Bytes)
    → read_line s ≡ some (header, rest)
    → arg_len header ≡ some len
    → len ≤ isize_max
    → ltb (length rest) (len + 2) ≡ false
    → read_args (suc n) s args ≡ read_args n (drop (len + 2) rest) (args ++ take len rest ∷ [])
unfolding read_args
read_args-step n len s header rest args line arg held fits =
    rw (read_args, line, arg, fits) (ground (arith, held))

enough : (d s : Bytes) → ltb (length (d ++ (crlf ++ s))) (length d + 2) ≡ false
enough d s = ground (arith, length-append d (crlf ++ s), length-append crlf s)

read_args-bulk_of :
    (n : ℕ) (d s : Bytes) (args : List Bytes)
    → length d ≤ isize_max
    → read_args (suc n) (bulk_of d ++ s) args ≡ read_args n s (args ++ d ∷ [])
read_args-bulk_of n d s args h =
    let len = to_decimal (length d) in
    let line =
      read_line-line b'$' len (d ++ (crlf ++ s))
        (refl, AreDigits-IsLine len (to_decimal-AreDigits (length d))) in
    rw (bulk_of-append d s) (
      read_args-step n (length d) (b'$' ∷ len ++ (crlf ++ (d ++ (crlf ++ s)))) (b'$' ∷ len)
        (d ++ (crlf ++ s)) args line (arg_len-to_decimal (length d) (omega (arith, h))) h
        (enough d s)
      ∙ rw
          (
            take-append d (crlf ++ s),
            ← append_assoc d crlf s,
            drop-append (length d + 2) (d ++ crlf) s (omega (arith, length-append d crlf)),
          )
          refl)

-- The arguments of a request, each as a bulk string.
abbrev pub bulks : List Bytes → Bytes
bulks [] = []
bulks (d ∷ ds) = bulk_of d ++ bulks ds

read_args-bulks :
    (ds : List Bytes) (s : Bytes) (args : List Bytes)
    → All (λ d. length d ≤ isize_max) ds
    → read_args (length ds) (bulks ds ++ s) args ≡ command (args ++ ds) s
unfolding read_args
read_args-bulks [] s args h = rw append-nil refl
read_args-bulks (d ∷ ds) s args h = rw (append_assoc (bulk_of d) (bulks ds) s) (
    read_args-bulk_of (length ds) d (bulks ds ++ s) args h.0
    ∙ read_args-bulks ds s (args ++ d ∷ []) h.1
    ∙ rw (append_assoc args (d ∷ []) ds) refl)

read_command-line :
    (s line rest : Bytes) → read_line s ≡ some (line, rest) → read_command s ≡ read_from line rest
unfolding read_command
read_command-line s line rest e = rw (read_command, e) refl

read_array-fits : (n : ℕ) (s : Bytes) → n * vec_size ≤ isize_max → read_array n s ≡ read_args n s []
read_array-fits n s h = ground (arith, h)

array_header-append : (n : ℕ) (s : Bytes) → array_header n ++ s ≡ b'*' ∷ to_decimal n ++ (crlf ++ s)
unfolding array_header
array_header-append n s = simp append_assoc

-- A request whose arguments fit into vectors, each of at most 2 ^ 63 - 1 bytes and their array
-- too, and that is written as an array of bulk strings, is read as its arguments, and the bytes
-- behind it are left.
pub read_command-bulks :
    (ds : List Bytes) (s : Bytes)
    → length ds * vec_size ≤ isize_max
    → All (λ d. length d ≤ isize_max) ds
    → read_command (array_header (length ds) ++ (bulks ds ++ s)) ≡ command ds s
read_command-bulks ds s few short =
    let len = to_decimal (length ds) in
    let line =
      read_line-line b'*' len (bulks ds ++ s)
        (refl, AreDigits-IsLine len (to_decimal-AreDigits (length ds))) in
    rw (array_header-append (length ds) (bulks ds ++ s)) (
      read_command-line (b'*' ∷ len ++ (crlf ++ (bulks ds ++ s))) (b'*' ∷ len) (bulks ds ++ s) line
      ∙ ap (λ (n : ℕ). read_array n (bulks ds ++ s))
          (parse_len-to_decimal (length ds) (omega (arith, few)))
      ∙ read_array-fits (length ds) (bulks ds ++ s) few
      ∙ read_args-bulks ds s [] short)
