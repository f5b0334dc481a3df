-- ===== src/Net/Queries.antt =====
-- `percent_decode` and `coll_from_query` of net.rs, on the bytes of the query. `none` is a panic.
pub mod Encoded
use stplr.Base.{
  ℕ, zero, suc, ◌+◌, ◌-◌, ◌*◌, ◌/◌, ◌%◌, ◌^◌, ◌≤◌, ◌<◌, min, max, ◌≡◌, refl, sym, ap, subst, ◌∙◌,
  ◌≡⟨◌⟩◌, ◌∎, ◌≢◌, ◌↔◌, ◌⊎◌, inl, inr, Bool, true, false, not, ◌&&◌, ◌||◌, Option, none, some, List,
  [], ◌∷◌, ◌++◌, map, reverse, append-nil, append_assoc, arith, ltb, leb, nat_eq, nat_eq_iff,
  if◌then◌else◌, ltb→lt, leb→le, Bool-cases, Eq, ◌==◌, nat_Eq, is_some, length, take, get_elem?,
  first, filter_by, any, all, All, length-append, length-take, drop, take-drop, length-drop,
  take-all, length-filter_by, filter_by-append, contains, Distinct, beq_self, contains-append,
  contains-take, Distinct-take, contains-filter_by, Distinct-filter_by,
}
use stplr.Text.{Text, codes}
use stplr.Text.Utf8.{Bytes, from_utf8_lossy}
use stplr.Rbac.{split}

-- A hexadecimal digit.
abbrev pub hex_digit : ℕ → Option ℕ
hex_digit c =
    if leb b'0' c && leb c b'9'
    then some (c - b'0')
    else if leb b'a' c && leb c b'f'
    then some (c - b'a' + 10)
    else if leb b'A' c && leb c b'F'
    then some (c - b'A' + 10)
    else none

abbrev both : Option ℕ → Option ℕ → Option ℕ
both (some h) (some l) = some (h * 16 + l)
both _ _ = none

-- `u8::from_str_radix` at two bytes, which also takes a sign and one digit.
unfoldable pub hex_byte : ℕ → ℕ → Option ℕ
hex_byte h l = if h == b'+' then hex_digit l else both (hex_digit h) (hex_digit l)

-- A byte inside a character: no slice of a string begins or ends before it.
abbrev pub is_inside : Bytes → Bool
is_inside [] = false
is_inside (b ∷ bytes) = leb 0x80 b && leb b 0xbf

abbrev plus : ℕ → ℕ
plus b = if b == b'+' then b' ' else b

abbrev pub push : ℕ → Option Bytes → Option Bytes
push b none = none
push b (some out) = some (b ∷ out)

-- The loop, on the bytes from `i` on.
unfoldable pub decode_bytes : Bytes → Option Bytes
unfolding hex_byte
decode_bytes [] = some []
decode_bytes (b ∷ []) = some (plus b ∷ [])
decode_bytes (b ∷ h ∷ []) = some (plus b ∷ plus h ∷ [])
decode_bytes (b ∷ h ∷ l ∷ rest) =
    let next = push (plus b) (decode_bytes (h ∷ l ∷ rest)) in
    let skip = decode_bytes rest in
    if b == b'%'
    then (if is_inside rest
        then none
        else elim (hex_byte h l) [ some v ↦ push v skip | none ↦ next ])
    else next

abbrev pub lossy : Option Bytes → Option Text
lossy none = none
lossy (some out) = some (from_utf8_lossy out)

unfoldable pub percent_decode : Bytes → Option Text
unfolding decode_bytes
percent_decode s = lossy (decode_bytes s)

-- `p.strip_prefix(prefix)`
unfoldable pub strip_prefix : Text → Text → Option Text
strip_prefix [] s = some s
strip_prefix (a ∷ p) [] = none
strip_prefix (a ∷ p) (b ∷ s) = if a == b then strip_prefix p s else none

-- `find_map(|p| p.strip_prefix(prefix))`
unfoldable pub find_prefix : Text → List Text → Option Text
unfolding strip_prefix
find_prefix prefix [] = none
find_prefix prefix (p ∷ ps) = elim (strip_prefix prefix p) [
  | some rest ↦ some rest
  | none ↦ find_prefix prefix ps
]

unfoldable pub coll_from_query : Bytes → Option (Option Text)
unfolding find_prefix percent_decode split
coll_from_query q = elim (find_prefix (codes "coll=") (split b'&' q)) [
  | none ↦ some none
  | some p ↦ elim (percent_decode p) [ none ↦ none | some coll ↦ some (some coll) ]
]

query_samples :
    (coll_from_query (codes "key=k&coll=a%2Fb+c") ≡ some (some (codes "a/b c")))
    × (coll_from_query (codes "key=k") ≡ some none)
    × (coll_from_query (codes "coll=100%") ≡ some (some (codes "100%")))
    × (coll_from_query (b'c' ∷ b'o' ∷ b'l' ∷ b'l' ∷ b'=' ∷ b'%' ∷ b'a' ∷ 0xc3 ∷ 0xa9 ∷ []) ≡ none)
unfolding coll_from_query from_utf8_lossy
query_samples = (refl, refl, refl, refl)
