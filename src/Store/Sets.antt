-- ===== src/Store/Sets.antt =====
-- The set operations of store.rs, over any store that keeps the laws: a value at a key stands for
-- the set of its members.
use stplr.Base.{
  ℕ, ◌<◌, ◌≡◌, refl, true, false, not, none, some, List, [], ◌∷◌, ◌++◌, arith, if◌then◌else◌, ◌==◌,
  nat_Eq, length, filter_by, any, length-filter_by, contains, beq_self,
}
use stplr.Text.{Text, text_Eq}
use stplr.Json.{Json, IsJson}
use stplr.Store.{IndexStore, members_of, set_members, set_add, set_remove}
use stplr.Store.Laws.{same_key, StoreLaws}
use stplr.Store.Atomic.{same_key_self}

any-contains : (xs : List Text) (m : Text) → any (λ x. x == m) xs ≡ contains xs m
any-contains [] m = refl
any-contains (x ∷ xs) m = ground (arith, any-contains xs m)

abbrev pub without : Text → List Text → List Text
without m = filter_by (λ x. not (x == m))

length-without_same : (xs : List Text) (m : Text) → contains xs m ≡ false → without m xs ≡ xs
length-without_same [] m h = refl
length-without_same (x ∷ xs) m h = ground (arith, length-without_same xs m)

length-without_less :
    (xs : List Text) (m : Text) → contains xs m ≡ true → length (without m xs) < length xs
length-without_less [] m h = absurd (cc)
length-without_less (x ∷ xs) m h =
    ground (arith, length-without_less xs m, length-filter_by (λ y. not (y == m)) xs)

nil-of-length : (xs : List Text) → length xs ≡ 0 → xs ≡ []
nil-of-length [] h = refl
nil-of-length (x ∷ xs) h = absurd (omega arith)

module _ {V : Type 0} ⦃j : Json V⦄ (lawful : IsJson j) where
  members_of-from_strings : (ms : List Text) → members_of (some (j.from_strings ms)) ≡ ms
  unfolding members_of
  members_of-from_strings ms = rw (lawful.to_strings-from_strings ms, members_of) refl

module _ {S V : Type 0} {Valid : S → Type 0} (o : IndexStore S V) ⦃j : Json V⦄
    (laws : StoreLaws o Valid) (lawful : IsJson j) (now : ℕ) (s : S) (c k : Text)
    (valid : Valid s) where
  members_put :
      (ms : List Text) → set_members o now (o.put_object s c k (j.from_strings ms)) c k ≡ ms
  unfolding set_members
  members_put ms =
      rw (laws.get-put now s c k (j.from_strings ms) c k valid, same_key_self c k)
        (members_of-from_strings lawful ms)

  members_deleted : set_members o now (o.delete_object s c k) c k ≡ []
  unfolding set_members members_of
  members_deleted = rw (laws.get-delete now s c k c k valid, same_key_self c k) refl

  -- Over a well-formed store and JSON values that keep their laws `set_add` says whether the
  -- member was new, and leaves the old members in order, with a new one at the end.
  pub members-set_add :
      (m : Text)
      → ((set_add o now s c k m).1 ≡ not (contains (set_members o now s c k) m))
        × (set_members o now (set_add o now s c k m).0 c k ≡ (
            if contains (set_members o now s c k) m
            then set_members o now s c k
            else set_members o now s c k ++ m ∷ []))
  unfolding set_add set_members
  members-set_add m =
      let old = members_of (o.get_object now s c k) in
      ground (arith, any-contains old m, members_put (old ++ m ∷ []))

  -- Over a well-formed store and JSON values that keep their laws `set_remove` says whether the
  -- member was there, and leaves the others in order.
  pub members-set_remove :
      (m : Text)
      → ((set_remove o now s c k m).1 ≡ contains (set_members o now s c k) m)
        × (set_members o now (set_remove o now s c k m).0 c k ≡ without m (set_members o now s c k))
  unfolding set_remove set_members
  members-set_remove m =
      let old = members_of (o.get_object now s c k) in
      ground (
        arith,
        length-without_same old m,
        length-without_less old m,
        members_put (without m old),
        members_deleted,
        nil-of-length (without m old),
      )

  -- Over a well-formed store and JSON values that keep their laws, if a key has one member, then
  -- removing it deletes the key.
  pub get-set_remove_last :
      (m : Text)
      → set_members o now s c k ≡ m ∷ []
      → o.get_object now (set_remove o now s c k m).0 c k ≡ none
  unfolding set_remove set_members
  get-set_remove_last m e =
      rw e (ground (arith, beq_self m, laws.get-delete now s c k c k valid, same_key_self c k))

  -- Both operations leave every other key alone.
  pub get-set_ops_other :
      (at : ℕ) (m c' k' : Text)
      → same_key c k c' k' ≡ false
      → (o.get_object at (set_add o now s c k m).0 c' k' ≡ o.get_object at s c' k')
        × (o.get_object at (set_remove o now s c k m).0 c' k' ≡ o.get_object at s c' k')
  unfolding set_add set_remove
  get-set_ops_other at m c' k' other =
      let old = members_of (o.get_object now s c k) in
      ground (
        arith,
        laws.get-put at s c k (j.from_strings (old ++ m ∷ [])) c' k' valid,
        laws.get-put at s c k (j.from_strings (without m old)) c' k' valid,
        laws.get-delete at s c k c' k' valid,
      )
