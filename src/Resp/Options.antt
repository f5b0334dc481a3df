-- ===== src/Resp/Options.antt =====
-- The options and the texts of the commands of resp.rs.
use stplr.Base.{
  ℕ, ◌+◌, ◌-◌, ◌*◌, ◌%◌, ◌&&◌, Option, none, some, List, [], ◌∷◌, ◌++◌, ltb, leb, if◌then◌else◌,
  ◌==◌, nat_Eq, length,
}
use stplr.Text.{text_Eq, Text, codes, trim_end_matches}
use stplr.Text.Utf8.{Bytes, as_bytes, from_utf8_lossy}
use stplr.Word.{u64_mod}
use stplr.SeqKey.{parse_u64}
use stplr.Resp.{bulk}

-- `to_ascii_uppercase`
unfoldable pub upper : Text → Text
upper [] = []
upper (c ∷ s) = (if leb b'a' c && leb c b'z' then c - 32 else c) ∷ upper s

-- `to_ascii_lowercase`
unfoldable pub lower : Text → Text
lower [] = []
lower (c ∷ s) = (if leb b'A' c && leb c b'Z' then c + 32 else c) ∷ lower s

-- `fn s`
abbrev pub text_of : Bytes → Text
text_of b = from_utf8_lossy b

abbrev pub parse_or : ℕ → Text → ℕ
parse_or default s = elim (parse_u64 s) [ none ↦ default | some n ↦ n ]

-- The options of `SET`, by pairs; a last one alone is passed over.
unfoldable pub ttl_of : ℕ → List Bytes → ℕ
unfolding upper
ttl_of ttl_ms (name ∷ arg ∷ rest) =
    let opt = upper (text_of name) in
    let ttl = parse_or 0 (text_of arg) in
    ttl_of
      (if opt == codes "EX"
        then ttl * 1000 % u64_mod
        else if opt == codes "PX"
        then ttl
        else ttl_ms)
      rest
ttl_of ttl_ms rest = ttl_ms

-- The options of `SCAN`: the number of keys and the prefix.
unfoldable pub scan_opts : ℕ → Option Text → List Bytes → ℕ × Option Text
unfolding upper
scan_opts count prefix (name ∷ arg ∷ rest) =
    let opt = upper (text_of name) in
    let value = text_of arg in
    scan_opts (if opt == codes "COUNT" then parse_or 10 value else count)
      (if opt == codes "MATCH" then some (trim_end_matches b'*' value) else prefix) rest
scan_opts count prefix rest = (count, prefix)

abbrev pub last_or_zero : List Text → Text
last_or_zero [] = codes "0"
last_or_zero (k ∷ []) = k
last_or_zero (k ∷ k' ∷ ks) = last_or_zero (k' ∷ ks)

-- The cursor behind a page.
unfoldable pub next_cursor : ℕ → List Text → Text
next_cursor count ks = if ltb (length ks) count then codes "0" else last_or_zero ks

unfoldable pub bulk_texts : List Text → Bytes
bulk_texts [] = []
bulk_texts (t ∷ ts) = bulk (some (as_bytes t)) ++ bulk_texts ts
