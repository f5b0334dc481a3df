-- ===== src/Resp.antt =====
-- resp.rs: the encoders of replies and the parser of requests of the Redis protocol. The bytes of a
-- connection are read to their end. Memory is taken to suffice for what a request announces.
pub mod Requests
pub mod Options
pub mod Commands
pub mod Session
use stplr.Base.{
  ℕ, zero, suc, ◌+◌, ◌-◌, ◌*◌, ◌/◌, ◌%◌, ◌^◌, ◌≤◌, ◌<◌, min, max, ◌≡◌, refl, sym, ap, subst, ◌∙◌,
  ◌≡⟨◌⟩◌, ◌∎, ◌≢◌, ◌↔◌, ◌⊎◌, inl, inr, Bool, true, false, not, ◌&&◌, ◌||◌, Option, none, some, List,
  [], ◌∷◌, ◌++◌, map, reverse, append-nil, append_assoc, arith, ltb, leb, nat_eq, nat_eq_iff,
  if◌then◌else◌, ltb→lt, leb→le, Bool-cases, Eq, ◌==◌, nat_Eq, is_some, length, take, get_elem?,
  first, filter_by, any, all, All, length-append, length-take, drop, take-drop, length-drop,
  take-all, length-filter_by, filter_by-append, contains, Distinct, beq_self, contains-append,
  contains-take, Distinct-take, contains-filter_by, Distinct-filter_by,
}
use stplr.Text.{text_Eq, Text, codes}
use stplr.Text.Utf8.{Bytes, as_bytes, from_utf8_lossy}
use stplr.SeqKey.{to_decimal, parse_u64}
use stplr.Word.{u64_mod}
use stplr.Json.{Json}
use stplr.Json.Wire.{WireJson}

-- `n.to_string()` at `i64`
unfoldable pub show_i64 : ℕ → Text
show_i64 n = if ltb n (2 ^ 63) then to_decimal n else b'-' ∷ to_decimal (u64_mod - n)

abbrev pub crlf : Bytes
crlf = 13 ∷ 10 ∷ []

unfoldable pub simple : Text → Bytes
simple s = b'+' ∷ as_bytes s ++ crlf

unfoldable pub err : Text → Bytes
err s = b'-' ∷ as_bytes s ++ crlf

unfoldable pub int : ℕ → Bytes
unfolding show_i64
int n = b':' ∷ show_i64 n ++ crlf

unfoldable pub bulk_of : Bytes → Bytes
bulk_of d = b'$' ∷ to_decimal (length d) ++ (crlf ++ (d ++ crlf))

unfoldable pub bulk : Option Bytes → Bytes
unfolding bulk_of
bulk none = codes "$-1" ++ crlf
bulk (some d) = bulk_of d

unfoldable pub array_header : ℕ → Bytes
array_header n = b'*' ∷ to_decimal n ++ crlf

module _ {V : Type 0} ⦃j : Json V⦄ (k : WireJson V) where
  -- The bytes of a value: a string's own, and else the value's JSON.
  abbrev pub bytes_or : V → Option Text → Bytes
  bytes_or v (some s) = as_bytes s
  bytes_or v none = k.to_vec v

  unfoldable pub bulk_value : Option V → Bytes
  unfolding bulk
  bulk_value none = bulk none
  bulk_value (some v) = bulk (some (bytes_or v (j.as_str v)))

abbrev pub is_eol : ℕ → Bool
is_eol b = (b == 10) || (b == 13)

-- `while matches!(line.last(), Some(b'\n') | Some(b'\r')) { line.pop(); }`
unfoldable pub pop_eol : Bytes → Bytes
pop_eol [] = []
pop_eol (b ∷ line) =
    let rest = pop_eol line in if is_eol b && nat_eq (length rest) 0 then [] else b ∷ rest

-- `read_until(b'\n')`: the bytes through the first newline, and those behind it.
unfoldable pub read_until : Bytes → Bytes × Bytes
read_until [] = ([], [])
read_until (b ∷ s) =
    let (line, rest) = read_until s in if b == 10 then (b ∷ [], s) else (b ∷ line, rest)

-- `none` at the end of the connection.
unfoldable pub read_line : Bytes → Option (Bytes × Bytes)
unfolding pop_eol read_until
read_line [] = none
read_line (b ∷ s) = let (line, rest) = read_until (b ∷ s) in some (pop_eol line, rest)

-- A command with the bytes behind it; the end of the connection; an input that ends too early; the
-- panic of a vector that cannot be as large as a request announces.
pub data Read : Type 0 where
  command : List Bytes → Bytes → Read
  end_of_input : Read
  io_error : Read
  panicked : Read

-- `isize::MAX`, the most bytes that a vector takes; a smaller one is taken to get its memory.
abbrev pub isize_max : ℕ
isize_max = 2 ^ 63 - 1

-- The bytes that an argument's `Vec<u8>` takes in the vector of the arguments.
abbrev pub vec_size : ℕ
vec_size = 24

abbrev or_zero : Option ℕ → ℕ
or_zero none = 0
or_zero (some n) = n

-- `s(&line[1..]).parse().unwrap_or(0)` at `usize`
unfoldable pub parse_len : Bytes → ℕ
parse_len digits = or_zero (parse_u64 (from_utf8_lossy digits))

-- The length that the header `$<len>` of an argument gives.
unfoldable pub arg_len : Bytes → Option ℕ
unfolding parse_len
arg_len [] = none
arg_len (b ∷ digits) = if b == b'$' then some (parse_len digits) else none

-- The bytes of an argument of that length and their end; `next` reads what follows.
abbrev pub read_body : (Bytes → List Bytes → Read) → List Bytes → Bytes → Option ℕ → Read
read_body next args rest none = end_of_input
read_body next args rest (some len) =
    if ltb isize_max len
    then panicked
    else if ltb (length rest) (len + 2)
    then io_error
    else next (drop (len + 2) rest) (args ++ take len rest ∷ [])

abbrev pub read_arg : (Bytes → List Bytes → Read) → List Bytes → Option (Bytes × Bytes) → Read
read_arg next args none = end_of_input
read_arg next args (some (header, rest)) = read_body next args rest (arg_len header)

-- The loop over the `n` arguments.
unfoldable pub read_args : ℕ → Bytes → List Bytes → Read
unfolding arg_len read_line
read_args zero s args = command args s
read_args (suc n) s args = read_arg (read_args n) args (read_line s)

abbrev pub is_ascii_whitespace : ℕ → Bool
is_ascii_whitespace b = (b == 32) || ((b == 9) || ((b == 10) || ((b == 12) || (b == 13))))

-- `line.split(is_ascii_whitespace).filter(nonempty)`, behind a part that is not ended.
unfoldable pub split_words : Bytes → Bytes → List Bytes
split_words word [] = if nat_eq (length word) 0 then [] else word ∷ []
split_words word (b ∷ line) =
    let ended = split_words [] line in
    let longer = split_words (word ++ b ∷ []) line in
    if is_ascii_whitespace b
    then (if nat_eq (length word) 0 then ended else word ∷ ended)
    else longer

-- The array of `n` arguments.
abbrev pub read_array : ℕ → Bytes → Read
read_array n rest = if ltb isize_max (n * vec_size) then panicked else read_args n rest []

abbrev pub read_from : Bytes → Bytes → Read
read_from [] rest = command [] rest
read_from (b ∷ line) rest =
    if b == b'*' then read_array (parse_len line) rest else command (split_words [] (b ∷ line)) rest

abbrev pub read_lines : Option (Bytes × Bytes) → Read
read_lines none = end_of_input
read_lines (some (line, rest)) = read_from line rest

unfoldable pub read_command : Bytes → Read
unfolding read_args split_words
read_command s = read_lines (read_line s)

request_samples :
    (read_command
        (codes "*2" ++ (crlf ++ (bulk_of (codes "GET") ++ (bulk_of (codes "k") ++ codes "+"))))
      ≡ command (codes "GET" ∷ codes "k" ∷ []) (codes "+"))
    × (read_command (codes " SET  k v" ++ crlf)
        ≡ command (codes "SET" ∷ codes "k" ∷ codes "v" ∷ []) [])
    × (read_command (codes "*1" ++ (crlf ++ (codes "$5" ++ (crlf ++ codes "abc")))) ≡ io_error)
    × (read_command [] ≡ end_of_input)
    × (read_command (codes "*18446744073709551615" ++ crlf) ≡ panicked)
    × (read_command
          (codes "*1" ++ (crlf ++ (codes "$18446744073709551615" ++ (crlf ++ codes "abc"))))
        ≡ panicked)
    × (int (u64_mod - 12) ≡ codes ":-12" ++ crlf)
unfolding read_command int bulk_of parse_u64 from_utf8_lossy to_decimal stplr.SeqKey.key
    stplr.SeqKey.pad
request_samples = (refl, refl, refl, refl, refl, refl, refl)
