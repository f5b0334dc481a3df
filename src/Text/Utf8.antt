-- ===== src/Text/Utf8.antt =====
-- UTF-8 of the standard library: `as_bytes`, `from_utf8` and `from_utf8_lossy`, between byte strings
-- and code points.
pub mod RoundTrip
use stplr.Base.{
  ℕ, zero, suc, ◌+◌, ◌-◌, ◌*◌, ◌/◌, ◌%◌, ◌^◌, ◌≤◌, ◌<◌, min, max, ◌≡◌, refl, sym, ap, subst, ◌∙◌,
  ◌≡⟨◌⟩◌, ◌∎, ◌≢◌, ◌↔◌, ◌⊎◌, inl, inr, Bool, true, false, not, ◌&&◌, ◌||◌, Option, none, some, List,
  [], ◌∷◌, ◌++◌, map, reverse, append-nil, append_assoc, arith, ltb, leb, nat_eq, nat_eq_iff,
  if◌then◌else◌, ltb→lt, leb→le, Bool-cases, Eq, ◌==◌, nat_Eq, is_some, length, take, get_elem?,
  first, filter_by, any, all, All, length-append, length-take, drop, take-drop, length-drop,
  take-all, length-filter_by, filter_by-append, contains, Distinct, beq_self, contains-append,
  contains-take, Distinct-take, contains-filter_by, Distinct-filter_by,
}
use stplr.Text.{Text}

abbrev pub Bytes : Type 0
Bytes = List ℕ

-- The bytes of a code point.
unfoldable pub encode_char : ℕ → Bytes
encode_char c =
    if ltb c 0x80
    then c ∷ []
    else if ltb c 0x800
    then (0xc0 + c / 64) ∷ (0x80 + c % 64) ∷ []
    else if ltb c 0x10000
    then (0xe0 + c / 4096) ∷ (0x80 + c / 64 % 64) ∷ (0x80 + c % 64) ∷ []
    else (0xf0 + c / 262144) ∷ (0x80 + c / 4096 % 64) ∷ (0x80 + c / 64 % 64) ∷ (0x80 + c % 64) ∷ []

-- `s.as_bytes()`
unfoldable pub as_bytes : Text → Bytes
unfolding encode_char
as_bytes [] = []
as_bytes (c ∷ s) = encode_char c ++ as_bytes s

-- Between two characters, or inside one: so many bytes are missing, the next of them lies between
-- two bounds, and the bits so far are a number.
pub data State : Type 0 where
  ready : State
  inside : ℕ → ℕ → ℕ → ℕ → State

abbrev pub within : ℕ → ℕ → ℕ → Bool
within lo hi b = leb lo b && leb b hi

-- The first byte of a character; `none` if no character begins with it.
abbrev pub lead : ℕ → Option State
lead b =
    if within 0xc2 0xdf b
    then some (inside 1 0x80 0xbf (b - 0xc0))
    else if b == 0xe0
    then some (inside 2 0xa0 0xbf 0)
    else if b == 0xed
    then some (inside 2 0x80 0x9f 13)
    else if within 0xe1 0xef b
    then some (inside 2 0x80 0xbf (b - 0xe0))
    else if b == 0xf0
    then some (inside 3 0x90 0xbf 0)
    else if within 0xf1 0xf3 b
    then some (inside 3 0x80 0xbf (b - 0xf0))
    else if b == 0xf4
    then some (inside 3 0x80 0x8f 4)
    else none

-- What one byte adds to the text, the state after it, and whether it was as UTF-8 demands.
pub record Decoded : Type 0 where
  pub out : Text
  pub state : State
  pub valid : Bool

abbrev replacement : ℕ
replacement = 0xfffd

-- A byte at the start of a character, with the text that goes before.
abbrev begin : Text → Bool → ℕ → Decoded
begin out valid b =
    if ltb b 0x80
    then record { out = out ++ b ∷ []; state = ready; valid = valid }
    else elim (lead b) [
      | some st ↦ record { out = out; state = st; valid = valid }
      | none ↦ record { out = out ++ replacement ∷ []; state = ready; valid = false }
    ]

unfoldable pub step : State → ℕ → Decoded
step ready b = begin [] true b
step (inside missing lo hi acc) b =
    if within lo hi b
    then (if nat_eq missing 1
        then record { out = (acc * 64 + (b - 0x80)) ∷ []; state = ready; valid = true }
        else record {
          out = [];
          state = inside (missing - 1) 0x80 0xbf (acc * 64 + (b - 0x80));
          valid = true;
        })
    else begin (replacement ∷ []) false b

-- What is left of a character that the end of the bytes cuts off.
abbrev cut : State → Text
cut ready = []
cut (inside missing lo hi acc) = replacement ∷ []

abbrev is_ready : State → Bool
is_ready ready = true
is_ready (inside missing lo hi acc) = false

unfoldable pub decode_from : State → Bytes → Text
unfolding step
decode_from st [] = cut st
decode_from st (b ∷ bytes) = (step st b).out ++ decode_from (step st b).state bytes

unfoldable pub valid_from : State → Bytes → Bool
unfolding step
valid_from st [] = is_ready st
valid_from st (b ∷ bytes) = (step st b).valid && valid_from (step st b).state bytes

-- `String::from_utf8_lossy(b)`
unfoldable pub from_utf8_lossy : Bytes → Text
unfolding decode_from
from_utf8_lossy bytes = decode_from ready bytes

-- `str::from_utf8(b)`
unfoldable pub from_utf8 : Bytes → Option Text
unfolding decode_from valid_from
from_utf8 bytes = if valid_from ready bytes then some (decode_from ready bytes) else none

-- A `char`: a Unicode scalar value.
abbrev pub is_char : ℕ → Bool
is_char c = ltb c 0xd800 || (leb 0xe000 c && ltb c 0x110000)

abbrev pub IsText : Text → Type 0
IsText s = All (λ c. is_char c ≡ true) s

-- Each maximal prefix of a character that does not go on becomes one replacement character.
lossy_samples :
    (from_utf8_lossy (0x61 ∷ 0xe2 ∷ 0x82 ∷ 0x62 ∷ 0xff ∷ []) ≡ 0x61 ∷ 0xfffd ∷ 0x62 ∷ 0xfffd ∷ [])
    × (from_utf8_lossy (0xe2 ∷ 0x82 ∷ 0xac ∷ 0xf0 ∷ []) ≡ 0x20ac ∷ 0xfffd ∷ [])
    × (from_utf8 (0xc0 ∷ 0x80 ∷ []) ≡ none)
unfolding from_utf8_lossy from_utf8
lossy_samples = (refl, refl, refl)
