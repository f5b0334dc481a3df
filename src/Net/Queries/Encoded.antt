-- ===== src/Net/Queries/Encoded.antt =====
-- `percent_decode` of net.rs beside the percent-encoding of form data.
use stplr.Base.{
  ℕ, ◌+◌, ◌*◌, ◌<◌, ◌≡◌, refl, ap, ◌∙◌, false, some, [], ◌∷◌, arith, nat_eq, if◌then◌else◌, ◌==◌,
  nat_Eq,
}
use stplr.Text.{Text}
use stplr.Text.Utf8.{Bytes, as_bytes, IsText}
use stplr.Text.Utf8.RoundTrip.{from_utf8-as_bytes}
use stplr.Net.Queries.{hex_digit, hex_byte, decode_bytes, percent_decode, is_inside, push, lossy}

-- The second bytes are form data for the first: each byte stands for itself, a space may be a plus,
-- and any byte may be a percent sign with two hexadecimal digits.
pub data Encodes : Bytes → Bytes → Type 0 where
  done : Encodes [] []
  plain :
      {bytes enc : Bytes} (b : ℕ)
      → b < 0x80
      → nat_eq b b'%' ≡ false
      → nat_eq b b'+' ≡ false
      → Encodes bytes enc
      → Encodes (b ∷ bytes) (b ∷ enc)
  space :
      {bytes enc : Bytes} (b p : ℕ)
      → b ≡ b' '
      → p ≡ b'+'
      → Encodes bytes enc
      → Encodes (b ∷ bytes) (p ∷ enc)
  escape :
      {bytes enc : Bytes} (b p h l x y : ℕ)
      → p ≡ b'%'
      → hex_digit h ≡ some x
      → hex_digit l ≡ some y
      → b ≡ x * 16 + y
      → Encodes bytes enc
      → Encodes (b ∷ bytes) (p ∷ h ∷ l ∷ enc)

Encodes-is_inside : {bytes enc : Bytes} → Encodes bytes enc → is_inside enc ≡ false
Encodes-is_inside done = refl
Encodes-is_inside (plain b small a c e) = ground arith
Encodes-is_inside (space b p s q e) = ground arith
Encodes-is_inside (escape b p h l x y q hx hy v e) = ground arith

abbrev unplus : ℕ → ℕ
unplus b = if b == b'+' then b' ' else b

decode_other :
    (b : ℕ) (s : Bytes)
    → nat_eq b b'%' ≡ false
    → decode_bytes (b ∷ s) ≡ push (unplus b) (decode_bytes s)
unfolding decode_bytes
decode_other b [] a = refl
decode_other b (h ∷ []) a = ground arith
decode_other b (h ∷ l ∷ rest) a = rw a refl

hex_byte_lem :
    (h l x y : ℕ) → hex_digit h ≡ some x → hex_digit l ≡ some y → hex_byte h l ≡ some (x * 16 + y)
unfolding hex_byte
hex_byte_lem h l x y hx hy = ground arith

decode_escape :
    (h l v : ℕ) (rest : Bytes)
    → is_inside rest ≡ false
    → hex_byte h l ≡ some v
    → decode_bytes (b'%' ∷ h ∷ l ∷ rest) ≡ push v (decode_bytes rest)
unfolding decode_bytes
decode_escape h l v rest i e = rw (i, e) refl

decode_nil : decode_bytes [] ≡ some []
unfolding decode_bytes
decode_nil = refl

decode_bytes-Encodes : {bytes enc : Bytes} → Encodes bytes enc → decode_bytes enc ≡ some bytes
decode_bytes-Encodes done = decode_nil
decode_bytes-Encodes (plain {bytes} {enc} b small a c e) =
    decode_other b enc a ∙ rw (decode_bytes-Encodes e, c) refl
decode_bytes-Encodes (space {bytes} {enc} b p s q e) =
    decode_other p enc (ground arith) ∙ rw (decode_bytes-Encodes e, q, s) refl
decode_bytes-Encodes (escape {bytes} {enc} b p h l x y q hx hy v e) =
    rw (q, v)
      (decode_escape h l (x * 16 + y) enc (Encodes-is_inside e) (hex_byte_lem h l x y hx hy)
        ∙ rw (decode_bytes-Encodes e) refl)

-- A text in UTF-8 that is percent-encoded as form data, in any of the ways there are, is decoded
-- to the text, without a panic.
pub percent_decode-Encodes :
    (coll : Text) (enc : Bytes)
    → IsText coll
    → Encodes (as_bytes coll) enc
    → percent_decode enc ≡ some coll
unfolding percent_decode
percent_decode-Encodes coll enc t e =
    ap lossy (decode_bytes-Encodes e) ∙ ap some (from_utf8-as_bytes coll t).1
