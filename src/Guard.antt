-- ===== src/Guard.antt =====
-- guard.rs: the per-bucket gate. Each function is what the source does in one hold of the lock; an
-- operation that locks twice is two of them.
pub mod System
pub mod Safety
pub mod Wakeup
use stplr.Base.{
  ℕ, zero, suc, ◌+◌, ◌-◌, ◌*◌, ◌/◌, ◌%◌, ◌^◌, ◌≤◌, ◌<◌, min, max, ◌≡◌, refl, sym, ap, subst, ◌∙◌,
  ◌≡⟨◌⟩◌, ◌∎, ◌≢◌, ◌↔◌, ◌⊎◌, inl, inr, Bool, true, false, not, ◌&&◌, ◌||◌, Option, none, some, List,
  [], ◌∷◌, ◌++◌, map, reverse, append-nil, append_assoc, arith, ltb, leb, nat_eq, nat_eq_iff,
  if◌then◌else◌, ltb→lt, leb→le, Bool-cases, Eq, ◌==◌, nat_Eq, is_some, length, take, get_elem?,
  first, filter_by, any, all, All, length-append, length-take, take-all, length-filter_by,
  filter_by-append, contains, Distinct, beq_self, contains-append, contains-take, Distinct-take,
  contains-filter_by, Distinct-filter_by,
}
use stplr.Word.{add_u64}
use stplr.Dict.{Dict, get, insert, remove}

pub record Gates : Type 0 where
  pub frozen : List ℕ
  pub in_flight : Dict ℕ ℕ
  -- `gen`, and the number of values sent on the watch channel
  pub gen : ℕ
  pub sent : ℕ

unfoldable pub new : Gates
new = record { frozen = []; in_flight = []; gen = 0; sent = 0 }

unfoldable pub bump : Gates → Gates
bump g = record g { gen = add_u64 g.gen 1; sent = g.sent + 1 }

abbrev pub or_zero : Option ℕ → ℕ
or_zero none = 0
or_zero (some n) = n

-- `s.in_flight.get(&b).copied().unwrap_or(0)`
abbrev pub count_of : Gates → ℕ → ℕ
count_of g b = or_zero (get g.in_flight b)

-- One round of the loop of `enter`: `none` is to wait for a change.
unfoldable pub try_enter : Gates → ℕ → Option Gates
try_enter g b =
    if not (contains g.frozen b)
    then some (record g { in_flight = insert g.in_flight b (count_of g b + 1) })
    else none

-- The locked part of `leave`. A count of live tokens does not overflow, and `*n -= 1` would
-- underflow at 0 alone, where no token is held.
unfoldable pub leave_locked : Gates → ℕ → Gates
leave_locked g b = elim (get g.in_flight b) [
  | none ↦ g
  | some n ↦ record g {
    in_flight =
        if nat_eq (n - 1) 0
        then remove (insert g.in_flight b (n - 1)) b
        else insert g.in_flight b (n - 1);
  }
]

abbrev pub insert_all : List ℕ → List ℕ → List ℕ
insert_all frozen [] = frozen
insert_all frozen (b ∷ bs) = insert_all (if contains frozen b then frozen else b ∷ frozen) bs

unfoldable pub freeze : Gates → List ℕ → Gates
freeze g buckets = record g { frozen = insert_all g.frozen buckets }

-- The test of a round of `drain`: whether it returns.
unfoldable pub drained : Gates → List ℕ → Bool
drained g buckets = all (λ b. nat_eq (count_of g b) 0) buckets

abbrev pub remove_all : List ℕ → List ℕ → List ℕ
remove_all frozen [] = frozen
remove_all frozen (b ∷ bs) = remove_all (filter_by (λ x. not (nat_eq x b)) frozen) bs

-- The locked part of `unfreeze`.
unfoldable pub unfreeze_locked : Gates → List ℕ → Gates
unfreeze_locked g buckets = record g { frozen = remove_all g.frozen buckets }
