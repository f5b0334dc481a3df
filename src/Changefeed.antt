-- ===== src/Changefeed.antt =====
-- changefeed.rs: the change log in memory. A method is a function of the log; `next` is the last
-- sequence number given.
pub mod Groups
pub mod Lmdb
pub mod Restart
use stplr.Base.{
  ℕ, zero, suc, ◌+◌, ◌-◌, ◌*◌, ◌/◌, ◌%◌, ◌^◌, ◌≤◌, ◌<◌, min, max, ◌≡◌, refl, sym, ap, subst, ◌∙◌,
  ◌≡⟨◌⟩◌, ◌∎, ◌≢◌, ◌↔◌, ◌⊎◌, inl, inr, Bool, true, false, not, ◌&&◌, ◌||◌, Option, none, some, List,
  [], ◌∷◌, ◌++◌, map, reverse, append-nil, append_assoc, arith, ltb, leb, nat_eq, nat_eq_iff,
  if◌then◌else◌, ltb→lt, leb→le, Bool-cases, Eq, ◌==◌, nat_Eq, is_some, length, take, get_elem?,
  first, filter_by, any, all, All, length-append, length-take, drop, take-drop, length-drop,
  take-all, length-filter_by, filter_by-append, contains, Distinct, beq_self, contains-append,
  contains-take, Distinct-take, contains-filter_by, Distinct-filter_by,
}
use stplr.Text.{Text, text_Eq}
use stplr.Word.{add_u64}
use stplr.Dict.{Dict, get, insert}

pub record ChangeEvent : Type 0 where
  pub seq : ℕ
  pub op : Text
  pub value : Text
  pub set : Text
  pub doc_id : Text

pub record MemoryChangeLog : Type 0 where
  pub inner : List ChangeEvent
  pub next : ℕ
  pub offsets : Dict Text ℕ

unfoldable pub new : MemoryChangeLog
new = record { inner = []; next = 0; offsets = [] }

unfoldable pub append : MemoryChangeLog → Text → Text → Text → Text → MemoryChangeLog × ℕ
append log op value set doc_id =
    let n = add_u64 log.next 1 in
    let event : ChangeEvent = record {
      seq = n;
      op = op;
      value = value;
      set = set;
      doc_id = doc_id;
    } in
    (record log { inner = log.inner ++ event ∷ []; next = n }, n)

unfoldable pub read : MemoryChangeLog → ℕ → ℕ → List ChangeEvent
read log since limit = take limit (filter_by (λ e. ltb since e.seq) log.inner)

unfoldable pub latest_seq : MemoryChangeLog → ℕ
latest_seq log = log.next

unfoldable pub compact : MemoryChangeLog → ℕ → MemoryChangeLog × ℕ
compact log before =
    let kept = filter_by (λ e. leb before e.seq) log.inner in
    (record log { inner = kept }, length log.inner - length kept)

unfoldable pub retain_latest : MemoryChangeLog → ℕ → MemoryChangeLog × ℕ
unfolding latest_seq
retain_latest log max_ =
    let latest = latest_seq log in
    if ltb max_ latest then compact log (latest - max_ + 1) else (log, 0)

abbrev pub or_zero : Option ℕ → ℕ
or_zero none = 0
or_zero (some n) = n

unfoldable pub committed_offset : MemoryChangeLog → Text → ℕ
committed_offset log group = or_zero (get log.offsets group)

unfoldable pub commit_offset : MemoryChangeLog → Text → ℕ → MemoryChangeLog
commit_offset log group seq = record log { offsets = insert log.offsets group seq }

unfoldable pub read_group : MemoryChangeLog → Text → ℕ → List ChangeEvent
unfolding committed_offset
read_group log group limit = read log (committed_offset log group) limit
