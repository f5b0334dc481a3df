-- ===== src/Json.antt =====
-- What the program uses of `serde_json::Value`, a package outside the repository: a parameter of the
-- model. An `i64` is its two's-complement bit pattern, a number below 2 ^ 64.
pub mod Wire
use stplr.Base.{ℕ, ◌<◌, ◌≡◌, Bool, true, Option, some, List, nat_Eq}
use stplr.Text.{Text}
use stplr.Word.{u64_mod}
use stplr.Lease.{Lease}

pub record Json (V : Type 0) : Type 0 where
  -- `==` on values
  pub value_eq : V → V → Bool
  pub as_i64 : V → Option ℕ
  pub as_str : V → Option Text
  pub from_i64 : ℕ → V
  -- `to_value` and `from_value` at `Vec<String>`
  pub from_strings : List Text → V
  pub to_strings : V → Option (List Text)
  -- `to_value` and `from_value` at `Lease`
  pub from_lease : Lease → V
  pub to_lease : V → Option Lease

-- The documented behaviour that the code relies on: a value equals itself, and what was written as
-- a number, a list of strings or a lease is read back.
pub record IsJson {V : Type 0} (j : Json V) : Type 0 where
  pub value_eq_refl : (v : V) → j.value_eq v v ≡ true
  pub as_i64-from_i64 : (n : ℕ) → n < u64_mod → j.as_i64 (j.from_i64 n) ≡ some n
  pub to_strings-from_strings : (ms : List Text) → j.to_strings (j.from_strings ms) ≡ some ms
  pub to_lease-from_lease : (l : Lease) → j.to_lease (j.from_lease l) ≡ some l
