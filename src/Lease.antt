-- ===== src/Lease.antt =====
-- lease.rs: the lease record and its pure transition `evaluate`.
pub mod Election
use stplr.Base.{
  ℕ, zero, suc, ◌+◌, ◌-◌, ◌*◌, ◌/◌, ◌%◌, ◌^◌, ◌≤◌, ◌<◌, min, max, ◌≡◌, refl, sym, ap, subst, ◌∙◌,
  ◌≡⟨◌⟩◌, ◌∎, ◌≢◌, ◌↔◌, ◌⊎◌, inl, inr, Bool, true, false, not, ◌&&◌, ◌||◌, Option, none, some, List,
  [], ◌∷◌, ◌++◌, map, append-nil, append_assoc, arith, ltb, leb, nat_eq, nat_eq_iff, if◌then◌else◌,
  ltb→lt, leb→le, Bool-cases, Eq, ◌==◌, nat_Eq, length, take, get_elem?, first, filter_by, any, all,
  All, length-append, length-take, take-all, length-filter_by, filter_by-append, contains, Distinct,
  beq_self, contains-append, contains-take, Distinct-take, contains-filter_by, Distinct-filter_by,
}
use stplr.Text.{Text, text_Eq, codes}
use stplr.Word.{add_u64}

abbrev pub lease_coll : Text
lease_coll = codes "__lease"

abbrev pub leader_key : Text
leader_key = codes "coordinator"

pub record Lease : Type 0 where
  pub holder : Text
  pub expires_ms : ℕ
  pub token : ℕ

pub record LeaseOutcome : Type 0 where
  pub granted : Bool
  pub lease : Lease

-- The three guarded arms of the `match`, for a lease that is there.
unfoldable pub evaluate : Option Lease → Text → ℕ → ℕ → LeaseOutcome
evaluate (some l) holder ttl_ms now_ms =
    if (l.holder == holder) && ltb now_ms l.expires_ms
    then record {
      granted = true;
      lease = record { holder = holder; expires_ms = add_u64 now_ms ttl_ms; token = l.token };
    }
    else if ltb now_ms l.expires_ms
    then record { granted = false; lease = l }
    else record {
      granted = true;
      lease = record {
        holder = holder;
        expires_ms = add_u64 now_ms ttl_ms;
        token = add_u64 l.token 1;
      };
    }
evaluate none holder ttl_ms now_ms = record {
  granted = true;
  lease = record { holder = holder; expires_ms = add_u64 now_ms ttl_ms; token = 1 };
}
