-- ===== src/Store/Atomic.antt =====
-- `cas` and `incr` of store.rs, over any store that keeps the laws.
use stplr.Base.{
  ℕ, ◌+◌, ◌%◌, ◌<◌, ◌≡◌, refl, ap, ◌∙◌, true, false, ◌&&◌, Option, none, some, List, [], ◌∷◌, arith,
  if◌then◌else◌, nat_Eq, beq_self,
}
use stplr.Text.{Text, text_Eq}
use stplr.Word.{u64_mod, add_u64, add_u64-lt}
use stplr.Json.{Json, IsJson}
use stplr.Store.{IndexStore, option_eq, counter_value, cas, incr}
use stplr.Store.Laws.{same_key, StoreLaws}

add_u64-sum : (a b c : ℕ) → (add_u64 a b + c) % u64_mod ≡ (a + (b + c)) % u64_mod
unfolding add_u64
add_u64-sum a b c = omega arith

pub same_key_self : (c k : Text) → same_key c k c k ≡ true
same_key_self c k = ground (arith, beq_self c, beq_self k)

-- A counter that holds a number counts on from it.
module _ {V : Type 0} ⦃j : Json V⦄ (lawful : IsJson j) where
  pub counter_value-from_i64 : (n : ℕ) → n < u64_mod → counter_value (some (j.from_i64 n)) ≡ some n
  unfolding counter_value
  counter_value-from_i64 n h = rw (lawful.as_i64-from_i64 n h) refl

abbrev pub sum : List ℕ → ℕ
sum [] = 0
sum (n ∷ ns) = n + sum ns

-- The store after a run of increments of one key.
module _ {S V : Type 0} (o : IndexStore S V) ⦃j : Json V⦄ where
  unfoldable pub incr_all : ℕ → S → Text → Text → List ℕ → S
  incr_all now s c k [] = s
  incr_all now s c k (d ∷ ds) = incr_all now (incr o now s c k d).0 c k ds

module _ {S V : Type 0} {Valid : S → Type 0} (o : IndexStore S V) ⦃j : Json V⦄
    (laws : StoreLaws o Valid) where
  -- Over a well-formed store that keeps the laws `cas` succeeds exactly when the key reads what
  -- was expected; then the key reads the new value, and otherwise, as for every other key, what it
  -- read before.
  pub get-cas :
      (now at : ℕ) (s : S) (c k : Text) (expect : Option V) (v : V) (c' k' : Text)
      → Valid s
      → ((cas o now s c k expect v).1 ≡ option_eq (o.get_object now s c k) expect)
        × (o.get_object at (cas o now s c k expect v).0 c' k' ≡ (
            if (cas o now s c k expect v).1 && same_key c k c' k'
            then some v
            else o.get_object at s c' k'))
  unfolding cas
  get-cas now at s c k expect v c' k' h = ground (arith, laws.get-put at s c k v c' k' h)

  -- Over a well-formed store that keeps the laws: of two `cas` calls on one key that expect the
  -- same value, the second fails if the first succeeded and wrote a value unequal to it.
  pub cas_once :
      (now : ℕ) (s : S) (c k : Text) (expect v w : V)
      → Valid s
      → j.value_eq v expect ≡ false
      → (cas o now s c k (some expect) v).1 ≡ true
      → (cas o now (cas o now s c k (some expect) v).0 c k (some expect) w).1 ≡ false
  unfolding cas
  cas_once now s c k expect v w h differs done =
      ground (arith, laws.get-put now s c k v c k h, same_key_self c k)

  incr-some :
      (now : ℕ) (s : S) (c k : Text) (d cur : ℕ)
      → counter_value (o.get_object now s c k) ≡ some cur
      → incr o now s c k d ≡ (o.put_object s c k (j.from_i64 (add_u64 cur d)), some (add_u64 cur d))
  unfolding incr
  incr-some now s c k d cur e = rw (e, incr) refl

  -- A value that is no integer is reported, and nothing is written.
  pub incr_refused :
      (now : ℕ) (s : S) (c k : Text) (d : ℕ)
      → counter_value (o.get_object now s c k) ≡ none
      → incr o now s c k d ≡ (s, none)
  unfolding incr
  incr_refused now s c k d e = rw (e, incr) refl

  incr-put :
      (lawful : IsJson j) (now : ℕ) (s : S) (c k : Text) (d cur : ℕ)
      → Valid s
      → counter_value (o.get_object now s c k) ≡ some cur
      → Valid (incr o now s c k d).0
        × (counter_value (o.get_object now (incr o now s c k d).0 c k) ≡ some (add_u64 cur d))
  incr-put lawful now s c k d cur h e =
      let v = j.from_i64 (add_u64 cur d) in
      rw (incr-some now s c k d cur e) (
        laws.put_object-Valid s c k v h,
        rw (laws.get-put now s c k v c k h, same_key_self c k)
            (counter_value-from_i64 lawful (add_u64 cur d) (add_u64-lt cur d)),
      )

  -- Over a well-formed store and JSON values that keep their laws a run of increments of a key
  -- that holds an integer adds up, modulo 2 ^ 64.
  pub counter-incr_all :
      (lawful : IsJson j) (now : ℕ) (s : S) (c k : Text) (ds : List ℕ) (cur : ℕ)
      → Valid s
      → cur < u64_mod
      → counter_value (o.get_object now s c k) ≡ some cur
      → counter_value (o.get_object now (incr_all o now s c k ds) c k)
        ≡ some ((cur + sum ds) % u64_mod)
  unfolding incr_all
  counter-incr_all lawful now s c k [] cur h fits e = e ∙ ap some (omega arith)
  counter-incr_all lawful now s c k (d ∷ ds) cur h fits e =
      let (valid, value) = incr-put lawful now s c k d cur h e in
      counter-incr_all lawful now (incr o now s c k d).0 c k ds (add_u64 cur d) valid
        (add_u64-lt cur d) value
      ∙ ap some (add_u64-sum cur d (sum ds))
