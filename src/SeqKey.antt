-- ===== src/SeqKey.antt =====
-- `key` of changefeed.rs and ingest.rs: a sequence number as 20 zero-padded digits, and how it is
-- parsed back.
use native.Mathlib.Nat.{pow-suc}
use stplr.Base.{
  ℕ, zero, suc, ◌+◌, ◌-◌, ◌*◌, ◌/◌, ◌%◌, ◌^◌, ◌≤◌, ◌<◌, ◌≡◌, refl, sym, ap, ◌∙◌, inl, inr, ◌&&◌,
  ◌||◌, Option, none, some, [], ◌∷◌, ◌++◌, arith, ltb, nat_eq, if◌then◌else◌, Bool-cases, ◌==◌,
  nat_Eq, length, length-append,
}
use stplr.Text.{codes, Text, text_eq, text_lt}
use stplr.Text.Number.{digits_from, magnitude, at_most}
use stplr.Word.{u64_mod}

-- The last `k` digits of `n`.
unfoldable pub pad : ℕ → ℕ → Text
pad zero n = []
pad (suc k) n = pad k (n / 10) ++ (b'0' + n % 10) ∷ []

-- `format!("{seq:020}")`: a `u64` has 20 digits at most.
unfoldable pub key : ℕ → Text
key seq = pad 20 seq

-- `parse::<u64>`
unfoldable pub parse_u64 : Text → Option ℕ
unfolding magnitude
parse_u64 [] = none
parse_u64 (c ∷ s) =
    if c == b'+'
    then at_most (u64_mod - 1) (λ n. n) (magnitude s)
    else at_most (u64_mod - 1) (λ n. n) (magnitude (c ∷ s))

abbrev pub after_digit : Option ℕ → ℕ → Option ℕ
after_digit none d = none
after_digit (some n) d = some (n * 10 + d)

pub digits_from-snoc :
    (a : ℕ) (s : Text) (d : ℕ)
    → d < 10
    → digits_from a (s ++ (b'0' + d) ∷ []) ≡ after_digit (digits_from a s) d
unfolding digits_from
digits_from-snoc a [] d h = ground arith
digits_from-snoc a (c ∷ s) d h = ground (arith, digits_from-snoc (a * 10 + (c - b'0')) s d h)

digits_from-pad : (k a n : ℕ) → n < 10 ^ k → digits_from a (pad k n) ≡ some (a * 10 ^ k + n)
unfolding pad digits_from
digits_from-pad zero a n h = ap some (omega arith)
digits_from-pad (suc k) a n h =
    let p = pow-suc 10 k in
    digits_from-snoc a (pad k (n / 10)) (n % 10) (omega arith)
    ∙ rw (digits_from-pad k a (n / 10) (omega arith))
        (ap some (omega (arith, ap (λ (t : ℕ). a * t) p)))

length-pad : (k n : ℕ) → length (pad k n) ≡ k
unfolding pad
length-pad zero n = refl
length-pad (suc k) n =
    omega (arith, length-append (pad k (n / 10)) ((b'0' + n % 10) ∷ []), length-pad k (n / 10))

text_lt-snoc :
    (s t : Text) (d e : ℕ)
    → length s ≡ length t
    → text_lt (s ++ d ∷ []) (t ++ e ∷ []) ≡ (text_lt s t || (text_eq s t && ltb d e))
unfolding text_lt text_eq
text_lt-snoc [] [] d e h = ground arith
text_lt-snoc [] (b ∷ t) d e h = absurd (omega arith)
text_lt-snoc (a ∷ s) [] d e h = absurd (omega arith)
text_lt-snoc (a ∷ s) (b ∷ t) d e h = ground (arith, text_lt-snoc s t d e)

text_eq-snoc :
    (s t : Text) (d e : ℕ)
    → length s ≡ length t
    → text_eq (s ++ d ∷ []) (t ++ e ∷ []) ≡ (text_eq s t && nat_eq d e)
unfolding text_eq
text_eq-snoc [] [] d e h = ground arith
text_eq-snoc [] (b ∷ t) d e h = absurd (omega arith)
text_eq-snoc (a ∷ s) [] d e h = absurd (omega arith)
text_eq-snoc (a ∷ s) (b ∷ t) d e h = ground (arith, text_eq-snoc s t d e)

text_eq-pad : (k m n : ℕ) → m < 10 ^ k → n < 10 ^ k → text_eq (pad k m) (pad k n) ≡ nat_eq m n
unfolding pad text_eq
text_eq-pad zero m n h i = ground arith
text_eq-pad (suc k) m n h i =
    let p = pow-suc 10 k in
    text_eq-snoc (pad k (m / 10)) (pad k (n / 10)) (b'0' + m % 10) (b'0' + n % 10)
      (length-pad k (m / 10) ∙ sym (length-pad k (n / 10)))
    ∙ rw (text_eq-pad k (m / 10) (n / 10) (omega arith) (omega arith)) (ground arith)

text_lt-pad : (k m n : ℕ) → m < 10 ^ k → n < 10 ^ k → text_lt (pad k m) (pad k n) ≡ ltb m n
unfolding pad text_lt
text_lt-pad zero m n h i = ground arith
text_lt-pad (suc k) m n h i =
    let p = pow-suc 10 k in
    text_lt-snoc (pad k (m / 10)) (pad k (n / 10)) (b'0' + m % 10) (b'0' + n % 10)
      (length-pad k (m / 10) ∙ sym (length-pad k (n / 10)))
    ∙ rw
        (
          text_lt-pad k (m / 10) (n / 10) (omega arith) (omega arith),
          text_eq-pad k (m / 10) (n / 10) (omega arith) (omega arith),
        )
        (ground arith)

-- Keys compare as their numbers do, so a scan in key order is a scan in sequence order.
pub text_lt-key : (m n : ℕ) → m < u64_mod → n < u64_mod → text_lt (key m) (key n) ≡ ltb m n
unfolding key
text_lt-key m n h i = text_lt-pad 20 m n (omega arith) (omega arith)

pub text_eq-key : (m n : ℕ) → m < u64_mod → n < u64_mod → text_eq (key m) (key n) ≡ nat_eq m n
unfolding key
text_eq-key m n h i = text_eq-pad 20 m n (omega arith) (omega arith)

head-pad : (k n : ℕ) → (c : ℕ) × (s : Text) × (pad (suc k) n ≡ c ∷ s) × (b'0' ≤ c)
unfolding pad
head-pad zero n = (b'0' + n % 10, [], refl, omega arith)
head-pad (suc k) n =
    let (c, s, e, h) = head-pad k (n / 10) in (c, s ++ (b'0' + n % 10) ∷ [], rw (e, pad) refl, h)

pub parse-digits :
    (c : ℕ) (s : Text) (n : ℕ)
    → b'0' ≤ c
    → digits_from 0 (c ∷ s) ≡ some n
    → n < u64_mod
    → parse_u64 (c ∷ s) ≡ some n
unfolding parse_u64
parse-digits c s n h e fits = rw (e, parse_u64) (ground arith)

-- A key is parsed back to its number.
pub parse_u64-key : (n : ℕ) → n < u64_mod → parse_u64 (key n) ≡ some n
unfolding key
parse_u64-key n h =
    let (c, s, e, d) = head-pad 19 n in
    rw e (
      parse-digits c s n d
        (ap (λ (t : Text). digits_from 0 t) (sym e)
          ∙ digits_from-pad 20 0 n (omega arith)
          ∙ ap some (omega arith))
        h)

key_sample : parse_u64 (key 1234) ≡ some 1234
unfolding parse_u64 key pad
key_sample = refl

-- `seq.to_string()`: the digits without the zeros in front.
unfoldable pub strip_zeros : Text → Text
strip_zeros [] = []
strip_zeros (c ∷ []) = c ∷ []
strip_zeros (c ∷ d ∷ s) = let rest = strip_zeros (d ∷ s) in if c == b'0' then rest else c ∷ d ∷ s

unfoldable pub to_decimal : ℕ → Text
unfolding strip_zeros
to_decimal n = strip_zeros (key n)

strip-digits :
    (s : Text) (c : ℕ)
    → b'0' ≤ c
    → (n : ℕ) → digits_from 0 (c ∷ s) ≡ some n
    → (c' : ℕ) × (s' : Text) × (strip_zeros (c ∷ s) ≡ c' ∷ s')
      × (b'0' ≤ c')
      × (digits_from 0 (c' ∷ s') ≡ some n)
unfolding strip_zeros digits_from
strip-digits [] c h n e = (c, [], refl, h, e)
strip-digits (d ∷ s) c h n e = elim (Bool-cases (c == b'0')) [
  | inl z ↦
      let (c', s', e', h', v) = strip-digits s d (ground arith) n (ground arith) in
      (c', s', rw (z, strip_zeros) e', h', v)
  | inr z ↦ (c, d ∷ s, rw (z, strip_zeros) refl, h, e)
]

-- What `persist_committed` writes is what `open` reads.
pub parse_u64-to_decimal : (n : ℕ) → n < u64_mod → parse_u64 (to_decimal n) ≡ some n
unfolding to_decimal key
parse_u64-to_decimal n h =
    let (c, s, e, d) = head-pad 19 n in
    let (c', s', e', d', v) = strip-digits s c d n (
      ap (λ (t : Text). digits_from 0 t) (sym e)
      ∙ digits_from-pad 20 0 n (omega arith)
      ∙ ap some (omega arith)) in
    rw (e, e') (parse-digits c' s' n d' v h)

to_decimal_sample : to_decimal 1040 ≡ codes "1040"
unfolding to_decimal key pad
to_decimal_sample = refl
