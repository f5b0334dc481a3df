-- ===== src/Store.antt =====
-- store.rs: the trait `IndexStore` with its default methods, over any implementation of its required
-- ones. `now` is the clock that `now_epoch_ms` reads during an operation.
pub mod Laws
pub mod Memory
pub mod Atomic
pub mod Sets
pub mod Keys
pub mod Scan
pub mod Paging
use stplr.Base.{
  ℕ, zero, suc, ◌+◌, ◌-◌, ◌*◌, ◌/◌, ◌%◌, ◌^◌, ◌≤◌, ◌<◌, min, max, ◌≡◌, refl, sym, ap, subst, ◌∙◌,
  ◌≡⟨◌⟩◌, ◌∎, ◌≢◌, ◌↔◌, ◌⊎◌, inl, inr, Bool, true, false, not, ◌&&◌, ◌||◌, Option, none, some, List,
  [], ◌∷◌, ◌++◌, map, reverse, append-nil, append_assoc, arith, ltb, leb, nat_eq, nat_eq_iff,
  if◌then◌else◌, ltb→lt, leb→le, Bool-cases, Eq, ◌==◌, nat_Eq, length, take, get_elem?, first,
  filter_by, any, all, All, length-append, length-take, take-all, length-filter_by,
  filter_by-append, contains, Distinct, beq_self, contains-append, contains-take, Distinct-take,
  contains-filter_by, Distinct-filter_by,
}
use stplr.Text.{Text, text_Eq, text_lt, starts_with}
use stplr.Text.Number.{trim, parse_i64}
use stplr.Word.{add_u64}
use stplr.Dict.{keys}
use stplr.Sort.{sort_by}
use stplr.Partitioner.{bucket_of}
use stplr.Json.{Json}

-- The required methods, and `put_object_at`, `expiry_of` and `sweep_expired`, which both stores give.
pub record IndexStore (S V : Type 0) : Type 0 where
  pub put_object : S → Text → Text → V → S
  pub get_object : ℕ → S → Text → Text → Option V
  pub scan_entries : ℕ → S → Text → List (Text × V)
  pub clear_collection : S → Text → S
  pub delete_object : S → Text → Text → S
  pub put_object_at : S → Text → Text → V → ℕ → S
  pub expiry_of : S → Text → Text → Option ℕ
  pub sweep_expired : S → ℕ → S × ℕ

abbrev pub text_le : Text → Text → Bool
text_le s t = not (text_lt t s)

abbrev pub map_or : Option Text → (Text → Bool) → Bool
map_or none p = true
map_or (some t) p = p t

-- The three filters of `scan_range` on a key.
abbrev pub in_range : Option Text → Option Text → Option Text → Text → Bool
in_range after prefix end k =
    map_or after (λ a. text_lt a k)
    && (map_or prefix (λ p. starts_with k p) && map_or end (λ e. text_lt k e))

abbrev pub last_key : List Text → Option Text
last_key [] = none
last_key (k ∷ []) = some k
last_key (k ∷ k' ∷ ks) = last_key (k' ∷ ks)

-- The loop over a page of `scan_buckets`; `true` is its early return.
unfoldable pub push_wanted : List ℕ → ℕ → List Text → List Text → List Text × Bool
push_wanted want limit out [] = (out, false)
push_wanted want limit out (k ∷ page) =
    let skip = push_wanted want limit out page in
    let out' = out ++ k ∷ [] in
    let push = push_wanted want limit out' page in
    if contains want (bucket_of k)
    then (if leb limit (length out') then (out', true) else push)
    else skip

abbrev pub chunk_size : ℕ
chunk_size = 1024

module _ {S V : Type 0} (o : IndexStore S V) where
  unfoldable pub put_batch : S → List (Text × Text × V) → S
  put_batch s [] = s
  put_batch s ((coll, id, obj) ∷ items) = put_batch (o.put_object s coll id obj) items

  unfoldable pub scan_range : ℕ → S → Text → Option Text → Option Text → Option Text → ℕ → List Text
  scan_range now s coll after prefix end limit =
      take limit
        (filter_by (in_range after prefix end) (sort_by text_le (keys (o.scan_entries now s coll))))

  unfoldable pub scan_keys : ℕ → S → Text → Option Text → ℕ → List Text
  unfolding scan_range
  scan_keys now s coll after limit = scan_range now s coll after none none limit

  unfoldable pub mget : ℕ → S → Text → List Text → List (Option V)
  mget now s coll keys = map (λ k. o.get_object now s coll k) keys

  -- The `loop` of `scan_buckets` by pages of `chunk` keys; `none` is fuel that ran out.
  unfoldable pub scan_loop :
      ℕ → ℕ → S → Text → List ℕ → ℕ → ℕ → Option Text → List Text → Option (List Text)
  scan_loop chunk now s coll want limit zero cursor out = none
  scan_loop chunk now s coll want limit (suc fuel) cursor out =
      let page = scan_range now s coll cursor none none chunk in
      let pushed = push_wanted want limit out page in
      let rest = scan_loop chunk now s coll want limit fuel (last_key page) pushed.0 in
      if nat_eq (length page) 0
      then some out
      else if pushed.1
      then some pushed.0
      else if nat_eq (length page) chunk
      then rest
      else some pushed.0

  -- One page more than there are entries is fuel enough.
  unfoldable pub scan_buckets : ℕ → S → Text → List ℕ → Option Text → ℕ → Option (List Text)
  scan_buckets now s coll buckets after limit =
      scan_loop chunk_size now s coll buckets limit (suc (length (o.scan_entries now s coll))) after
        []

abbrev pub or_else : Option ℕ → Option ℕ → Option ℕ
or_else (some n) other = some n
or_else none other = other

abbrev pub parse_number : Option Text → Option ℕ
parse_number none = none
parse_number (some s) = parse_i64 (trim s)

module _ {V : Type 0} ⦃j : Json V⦄ where
  -- `==` at `Option<Value>`
  abbrev pub option_eq : Option V → Option V → Bool
  option_eq none none = true
  option_eq (some v) (some w) = j.value_eq v w
  option_eq _ _ = false

  -- The current value of a counter: a number, or a string that holds one; 0 if the key is absent.
  unfoldable pub counter_value : Option V → Option ℕ
  counter_value none = some 0
  counter_value (some v) = or_else (j.as_i64 v) (parse_number (j.as_str v))

  -- `and_then(|v| from_value(v).ok()).unwrap_or_default()`
  unfoldable pub members_of : Option V → List Text
  members_of none = []
  members_of (some v) = elim (j.to_strings v) [ some ms ↦ ms | none ↦ [] ]

module _ {S V : Type 0} (o : IndexStore S V) ⦃j : Json V⦄ where
  unfoldable pub cas : ℕ → S → Text → Text → Option V → V → S × Bool
  cas now s coll key expect new =
      if option_eq (o.get_object now s coll key) expect
      then (o.put_object s coll key new, true)
      else (s, false)

  abbrev add_to : S → Text → Text → ℕ → Option ℕ → S × Option ℕ
  add_to s coll key delta none = (s, none)
  add_to s coll key delta (some cur) =
      let next = add_u64 cur delta in (o.put_object s coll key (j.from_i64 next), some next)

  unfoldable pub incr : ℕ → S → Text → Text → ℕ → S × Option ℕ
  unfolding counter_value
  incr now s coll key delta = add_to s coll key delta (counter_value (o.get_object now s coll key))

  unfoldable pub set_members : ℕ → S → Text → Text → List Text
  set_members now s coll key = members_of (o.get_object now s coll key)

  unfoldable pub set_add : ℕ → S → Text → Text → Text → S × Bool
  set_add now s coll key member =
      let arr = members_of (o.get_object now s coll key) in
      if any (λ m. m == member) arr
      then (s, false)
      else (o.put_object s coll key (j.from_strings (arr ++ member ∷ [])), true)

  unfoldable pub set_remove : ℕ → S → Text → Text → Text → S × Bool
  set_remove now s coll key member =
      let arr = members_of (o.get_object now s coll key) in
      let kept = filter_by (λ m. not (m == member)) arr in
      if nat_eq (length kept) (length arr)
      then (s, false)
      else if nat_eq (length kept) 0
      then (o.delete_object s coll key, true)
      else (o.put_object s coll key (j.from_strings kept), true)
