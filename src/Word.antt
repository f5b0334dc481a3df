-- ===== src/Word.antt =====
-- Rust's fixed-width integers in a release build, which wrap: `u32` and `u64`.
use stplr.Base.{ℕ, ◌+◌, ◌%◌, ◌^◌, ◌≤◌, ◌<◌, ◌≡◌, arith, nat_Eq}

abbrev pub u32_mod : ℕ
u32_mod = 2 ^ 32

abbrev pub u64_mod : ℕ
u64_mod = 2 ^ 64

-- `a + b` on `u64`
unfoldable pub add_u64 : ℕ → ℕ → ℕ
add_u64 a b = (a + b) % u64_mod

pub add_u64-lt : (a b : ℕ) → add_u64 a b < u64_mod
unfolding add_u64
add_u64-lt a b = omega arith

-- Within the range, the sum of the natural numbers.
pub add_u64-eq : (a b : ℕ) → a + b < u64_mod → add_u64 a b ≡ a + b
unfolding add_u64
add_u64-eq a b h = omega arith

pub add_u64-le : (a b : ℕ) → add_u64 a b ≤ a + b
unfolding add_u64
add_u64-le a b = omega arith
