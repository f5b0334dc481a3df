-- ===== src/Metrics.antt =====
-- metrics.rs: the process's counters. Their rendering as text is left out.
use stplr.Base.{ℕ, ◌≡◌, arith, nat_Eq}
use stplr.Word.{add_u64}

pub record Metrics : Type 0 where
  pub get : ℕ
  pub set : ℕ
  pub sadd : ℕ
  pub srem : ℕ
  pub del : ℕ

pub data Counter : Type 0 where
  get set sadd srem del : Counter

-- `c.fetch_add(n)`, which wraps.
unfoldable pub add : Metrics → Counter → ℕ → Metrics
add m Counter.get n = record m { get = add_u64 m.get n }
add m Counter.set n = record m { set = add_u64 m.set n }
add m Counter.sadd n = record m { sadd = add_u64 m.sadd n }
add m Counter.srem n = record m { srem = add_u64 m.srem n }
add m Counter.del n = record m { del = add_u64 m.del n }

unfoldable pub inc : Metrics → Counter → Metrics
unfolding add
inc m c = add m c 1

-- `total` of `render`
unfoldable pub total : Metrics → ℕ
total m = add_u64 (add_u64 (add_u64 (add_u64 m.get m.set) m.sadd) m.srem) m.del

-- A counter that goes up by a number takes the total up by it, modulo 2 ^ 64.
pub total-add : (m : Metrics) (c : Counter) (n : ℕ) → total (add m c n) ≡ add_u64 (total m) n
unfolding total add add_u64
total-add m Counter.get n = omega arith
total-add m Counter.set n = omega arith
total-add m Counter.sadd n = omega arith
total-add m Counter.srem n = omega arith
total-add m Counter.del n = omega arith
