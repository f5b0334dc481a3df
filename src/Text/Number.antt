-- ===== src/Text/Number.antt =====
-- `trim` and `parse::<i64>` of the standard library, on code points.
use stplr.Base.{
  ℕ, ◌+◌, ◌-◌, ◌*◌, ◌%◌, ◌^◌, ◌<◌, ◌≡◌, refl, Bool, ◌&&◌, ◌||◌, Option, none, some, [], ◌∷◌,
  reverse, arith, leb, if◌then◌else◌, ◌==◌, nat_Eq,
}
use stplr.Text.{Text, codes}
use stplr.Word.{u64_mod}

-- `char::is_whitespace`
unfoldable pub is_whitespace : ℕ → Bool
is_whitespace c =
    (leb 9 c && leb c 13)
    || (c == 32)
    || (c == 0x85)
    || (c == 0xa0)
    || (c == 0x1680)
    || (leb 0x2000 c && leb c 0x200a)
    || (c == 0x2028)
    || (c == 0x2029)
    || (c == 0x202f)
    || (c == 0x205f)
    || (c == 0x3000)

unfoldable pub trim_start : Text → Text
unfolding is_whitespace
trim_start [] = []
trim_start (c ∷ s) = let rest = trim_start s in if is_whitespace c then rest else c ∷ s

unfoldable pub trim : Text → Text
unfolding trim_start
trim s = reverse (trim_start (reverse (trim_start s)))

-- The value of a non-empty run of decimal digits after `n`.
unfoldable pub digits_from : ℕ → Text → Option ℕ
digits_from n [] = some n
digits_from n (c ∷ s) =
    let rest = digits_from (n * 10 + (c - b'0')) s in
    if leb b'0' c && leb c b'9' then rest else none

unfoldable pub magnitude : Text → Option ℕ
unfolding digits_from
magnitude [] = none
magnitude (c ∷ s) = digits_from 0 (c ∷ s)

-- `none` if the magnitude is above `bound`.
abbrev pub at_most : ℕ → (ℕ → ℕ) → Option ℕ → Option ℕ
at_most bound f none = none
at_most bound f (some n) = if leb n bound then some (f n) else none

unfoldable pub parse_i64 : Text → Option ℕ
unfolding magnitude
parse_i64 [] = none
parse_i64 (c ∷ s) =
    if c == b'-'
    then at_most (2 ^ 63) (λ n. (u64_mod - n) % u64_mod) (magnitude s)
    else if c == b'+'
    then at_most (2 ^ 63 - 1) (λ n. n) (magnitude s)
    else at_most (2 ^ 63 - 1) (λ n. n) (magnitude (c ∷ s))

parse_samples :
    (parse_i64 (codes "-1") ≡ some 0xffffffffffffffff)
    × (parse_i64 (codes "+42") ≡ some 42)
    × (parse_i64 (codes "9223372036854775808") ≡ none)
    × (parse_i64 (codes "-") ≡ none)
    × (trim (codes "  7 ") ≡ codes "7")
unfolding parse_i64 trim
parse_samples = (refl, refl, refl, refl, refl)

-- A parsed number is a 64-bit pattern.
pub parse_i64-lt : (s : Text) (n : ℕ) → parse_i64 s ≡ some n → n < u64_mod
unfolding parse_i64
parse_i64-lt [] n h = cc
parse_i64-lt (c ∷ s) n h = ground arith
