-- ===== src/Text/Utf8/RoundTrip.antt =====
-- UTF-8 of the standard library: encoding and decoding beside each other.
use stplr.Base.{
  ℕ, ◌+◌, ◌-◌, ◌*◌, ◌/◌, ◌%◌, ◌≤◌, ◌<◌, ◌≡◌, refl, ap, ◌∙◌, inl, inr, true, some, [], ◌∷◌, ◌++◌,
  arith, ltb, nat_eq, if◌then◌else◌, ltb→lt, Bool-cases, nat_Eq, All,
}
use stplr.Text.{Text}
use stplr.Text.Utf8.{
  Bytes, State, ready, inside, encode_char, as_bytes, step, decode_from, valid_from, from_utf8,
  from_utf8_lossy, is_char, IsText,
}

-- The state and the bytes go on as the bytes of one character demand.
abbrev Takes : State → ℕ → Text → State → Type 0
Takes st b out st' = step st b ≡ record { out = out; state = st'; valid = true }

-- A byte in the middle of a character.
step_middle :
    (missing lo hi acc d : ℕ)
    → 1 < missing
    → lo ≤ 0x80 + d
    → 0x80 + d ≤ hi
    → Takes (inside missing lo hi acc) (0x80 + d) [] (inside (missing - 1) 0x80 0xbf (acc * 64 + d))
unfolding step
step_middle missing lo hi acc d m l h = ground arith

-- The last byte of a character.
step_last :
    (lo hi acc d : ℕ)
    → lo ≤ 0x80 + d
    → 0x80 + d ≤ hi
    → Takes (inside 1 lo hi acc) (0x80 + d) ((acc * 64 + d) ∷ []) ready
unfolding step
step_last lo hi acc d l h = ground arith

abbrev lower : ℕ → ℕ
lower a = if nat_eq a 0 then 0xa0 else 0x80

abbrev upper : ℕ → ℕ
upper a = if nat_eq a 13 then 0x9f else 0xbf

step_one : (c : ℕ) → c < 0x80 → Takes ready c (c ∷ []) ready
unfolding step
step_one c h = ground arith

step_two : (a : ℕ) → 2 ≤ a → a < 32 → Takes ready (0xc0 + a) [] (inside 1 0x80 0xbf a)
unfolding step
step_two a l h = ground arith

step_three : (a : ℕ) → a < 16 → Takes ready (0xe0 + a) [] (inside 2 (lower a) (upper a) a)
unfolding step
step_three a h = ground arith

abbrev lower_four : ℕ → ℕ
lower_four a = if nat_eq a 0 then 0x90 else 0x80

abbrev upper_four : ℕ → ℕ
upper_four a = if nat_eq a 4 then 0x8f else 0xbf

step_four : (a : ℕ) → a < 5 → Takes ready (0xf0 + a) [] (inside 3 (lower_four a) (upper_four a) a)
unfolding step
step_four a h = ground arith

abbrev IsRead : ℕ → Bytes → Type 0
IsRead c bytes =
    (rest : Bytes)
    → (decode_from ready (bytes ++ rest) ≡ c ∷ decode_from ready rest)
      × (valid_from ready (bytes ++ rest) ≡ valid_from ready rest)

encode_two : (c : ℕ) → 0x80 ≤ c → c < 0x800 → IsRead c ((0xc0 + c / 64) ∷ (0x80 + c % 64) ∷ [])
unfolding decode_from valid_from
encode_two c l h rest =
    let e : c / 64 * 64 + c % 64 ≡ c = omega arith in
    rw
      (
        step_two (c / 64) (omega arith) (omega arith),
        step_last 0x80 0xbf (c / 64) (c % 64) (omega arith) (omega arith),
        e,
      )
      (refl, refl)

encode_three :
    (c : ℕ)
    → 0x800 ≤ c
    → c < 0x10000
    → is_char c ≡ true
    → IsRead c ((0xe0 + c / 4096) ∷ (0x80 + c / 64 % 64) ∷ (0x80 + c % 64) ∷ [])
unfolding decode_from valid_from
encode_three c l h k rest =
    let a = c / 4096 in
    let d = c / 64 % 64 in
    let e : (a * 64 + d) * 64 + c % 64 ≡ c = omega arith in
    let low : lower a ≤ 0x80 + d = ground arith in
    let high : 0x80 + d ≤ upper a = ground arith in
    rw
      (
        step_three a (omega arith),
        step_middle 2 (lower a) (upper a) a d (omega arith) low high,
        step_last 0x80 0xbf (a * 64 + d) (c % 64) (omega arith) (omega arith),
        e,
      )
      (refl, refl)

encode_four :
    (c : ℕ)
    → 0x10000 ≤ c
    → c < 0x110000
    → IsRead c
        ((0xf0 + c / 262144) ∷ (0x80 + c / 4096 % 64) ∷ (0x80 + c / 64 % 64) ∷ (0x80 + c % 64) ∷ [])
unfolding decode_from valid_from
encode_four c l h rest =
    let a = c / 262144 in
    let d = c / 4096 % 64 in
    let f = c / 64 % 64 in
    let e : ((a * 64 + d) * 64 + f) * 64 + c % 64 ≡ c = omega arith in
    let low : lower_four a ≤ 0x80 + d = ground arith in
    let high : 0x80 + d ≤ upper_four a = ground arith in
    rw
      (
        step_four a (omega arith),
        step_middle 3 (lower_four a) (upper_four a) a d (omega arith) low high,
        step_middle 2 0x80 0xbf (a * 64 + d) f (omega arith) (omega arith) (omega arith),
        step_last 0x80 0xbf ((a * 64 + d) * 64 + f) (c % 64) (omega arith) (omega arith),
        e,
      )
      (refl, refl)

encode_one : (c : ℕ) → c < 0x80 → IsRead c (c ∷ [])
unfolding decode_from valid_from
encode_one c h rest = rw (step_one c h) (refl, refl)

encode_char-IsRead : (c : ℕ) → is_char c ≡ true → IsRead c (encode_char c)
unfolding encode_char
encode_char-IsRead c k rest = elim (Bool-cases (ltb c 0x80)) [
  | inl one ↦ rw one (encode_one c (ltb→lt c 0x80 one) rest)
  | inr more ↦ rw more (elim (Bool-cases (ltb c 0x800)) [
    | inl two ↦ rw two (encode_two c (ground arith) (ltb→lt c 0x800 two) rest)
    | inr more' ↦ rw more' (elim (Bool-cases (ltb c 0x10000)) [
      | inl three ↦ rw three (encode_three c (ground arith) (ltb→lt c 0x10000 three) k rest)
      | inr four ↦ rw four (encode_four c (ground arith) (ground arith) rest)
    ])
  ])
]

decode-as_bytes :
    (s : Text)
    → IsText s
    → (decode_from ready (as_bytes s) ≡ s) × (valid_from ready (as_bytes s) ≡ true)
unfolding as_bytes decode_from valid_from
decode-as_bytes [] t = (refl, refl)
decode-as_bytes (c ∷ s) t =
    let h = encode_char-IsRead c t.0 (as_bytes s) in
    let ih = decode-as_bytes s t.1 in (h.0 ∙ ap (λ (u : Text). c ∷ u) ih.0, h.1 ∙ ih.1)

-- The bytes of a string of Unicode scalar values are read back as that string, by `from_utf8` and by
-- `from_utf8_lossy`.
pub from_utf8-as_bytes :
    (s : Text) → IsText s → (from_utf8 (as_bytes s) ≡ some s) × (from_utf8_lossy (as_bytes s) ≡ s)
unfolding from_utf8 from_utf8_lossy
from_utf8-as_bytes s t = let h = decode-as_bytes s t in (rw (h.1, h.0) refl, h.0)

decode-ascii : (s : Bytes) → All (λ c. c < 0x80) s → decode_from ready s ≡ s
unfolding decode_from
decode-ascii [] a = refl
decode-ascii (c ∷ s) a = rw (step_one c a.0) (ap (λ (u : Text). c ∷ u) (decode-ascii s a.1))

-- ASCII bytes are their own text.
pub from_utf8_lossy-ascii : (s : Bytes) → All (λ c. c < 0x80) s → from_utf8_lossy s ≡ s
unfolding from_utf8_lossy
from_utf8_lossy-ascii s a = decode-ascii s a
