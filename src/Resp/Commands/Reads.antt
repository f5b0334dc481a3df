-- ===== src/Resp/Commands/Reads.antt =====
-- What the commands of resp.rs read after writes and deletions.
use stplr.Base.{
  ℕ, ◌+◌, ◌≡◌, refl, ap, ◌∙◌, inl, inr, Bool, true, false, ◌&&◌, Option, none, some, List, [], ◌∷◌,
  arith, ltb, leb, if◌then◌else◌, Bool-cases, ◌==◌, nat_Eq, is_some, contains, beq_self,
}
use stplr.Text.{text_Eq, text_eq, text_eq_iff, Text, codes}
use stplr.Text.Utf8.{Bytes, as_bytes, IsText}
use stplr.Text.Utf8.RoundTrip.{from_utf8-as_bytes}
use stplr.Word.{add_u64}
use stplr.Json.{Json}
use stplr.Json.Wire.{WireJson, IsWireJson}
use stplr.Store.{IndexStore}
use stplr.Store.Laws.{StoreLaws}
use stplr.Shard
use stplr.Shard.{Shard}
use stplr.Resp.{bytes_or, bulk, bulk_value}
use stplr.Resp.Options.{text_of, ttl_of}
use stplr.Resp.Commands.{coll, set, del, run}

module _ {S V : Type 0} {Valid : S → Type 0} (o : IndexStore S V) (laws : StoreLaws o Valid)
    ⦃j : Json V⦄ (k : WireJson V) (wire : IsWireJson j k) where
  -- Whether a value that was set with these options has run out.
  abbrev pub ran_out : ℕ → ℕ → List Bytes → Bool
  ran_out now later opts = ltb 0 (ttl_of 0 opts) && leb (add_u64 now (ttl_of 0 opts)) later

  object-set :
      (now later : ℕ) (sh : Shard S) (key : Text) (v : V) (ttl_ms : ℕ)
      → Valid sh.store
      → Shard.object o later (set o k now sh key v ttl_ms) coll key
        ≡ (if ltb 0 ttl_ms && leb (add_u64 now ttl_ms) later then none else some v)
  unfolding set Shard.object Shard.write_object Shard.write_object_ttl
  object-set now later sh key v ttl_ms valid = ground (
    arith,
    beq_self coll,
    beq_self key,
    laws.get-put later sh.store coll key v coll key valid,
    laws.get-put_at later sh.store coll key v (add_u64 now ttl_ms) coll key valid,
  )

  bulk_value-string : (t : Text) → bulk_value k (some (k.string t)) ≡ bulk (some (as_bytes t))
  unfolding bulk_value
  bulk_value-string t =
      ap (λ (s : Option Text). bulk (some (bytes_or k (k.string t) s))) (wire.as_str-string t)

  bulk_value-if :
      (b : Bool) (t : Text)
      → bulk_value k (if b then none else some (k.string t))
        ≡ (if b then bulk none else bulk (some (as_bytes t)))
  unfolding bulk_value
  bulk_value-if true t = refl
  bulk_value-if false t = bulk_value-string t

  -- Over a well-formed store and JSON values that keep their laws: after `SET` of a text, `GET` of
  -- the key replies with the text, or with none if the time to live in the options has run out.
  pub get-set :
      (now later : ℕ) (sh : Shard S) (key : Bytes) (t : Text) (opts : List Bytes)
      → Valid sh.store
      → IsText t
      → (run o k later
          (run o k now sh (codes "SET") (key ∷ as_bytes t ∷ opts)).0
          (codes "GET")
          (key ∷ [])).1
        ≡ (if ran_out now later opts then bulk none else bulk (some (as_bytes t)))
  unfolding run text_eq
  get-set now later sh key t opts valid text =
      rw
        (
          (from_utf8-as_bytes t text).1,
          object-set now later sh (text_of key) (k.string t) (ttl_of 0 opts) valid,
        )
        (bulk_value-if (ran_out now later opts) t)

  -- The keys that a command names.
  abbrev pub texts : List Bytes → List Text
  texts [] = []
  texts (b ∷ bs) = text_of b ∷ texts bs

  object-delete :
      (now : ℕ) (sh : Shard S) (key other : Text)
      → Valid sh.store
      → Shard.object o now (Shard.delete_object o sh coll key) coll other
        ≡ (if key == other then none else Shard.object o now sh coll other)
  unfolding Shard.object Shard.delete_object
  object-delete now sh key other valid =
      laws.get-delete now sh.store coll key coll other valid ∙ rw (beq_self coll) refl

  deleted-Valid :
      (sh : Shard S) (key : Text) → Valid sh.store → Valid (Shard.delete_object o sh coll key).store
  unfolding Shard.delete_object
  deleted-Valid sh key valid = laws.delete_object-Valid sh.store coll key valid

  object-del :
      (now : ℕ) (sh : Shard S) (n : ℕ) (bs : List Bytes) (key : Text)
      → Valid sh.store
      → Shard.object o now (del o k now sh n bs).0 coll key
        ≡ (if contains (texts bs) key then none else Shard.object o now sh coll key)
  unfolding del
  object-del now sh n [] key valid = refl
  object-del now sh n (b ∷ bs) key valid =
      elim (Bool-cases (is_some (Shard.object o now sh coll (text_of b)))) [
        | inl found ↦ rw found (
            object-del now (Shard.delete_object o sh coll (text_of b)) (n + 1) bs key
              (deleted-Valid sh (text_of b) valid)
            ∙ rw (object-delete now sh (text_of b) key valid) (ground arith))
        | inr missing ↦ rw missing (
            object-del now sh n bs key valid ∙ ground (arith, text_eq_iff (text_of b) key, missing))
      ]

  -- Over a well-formed store and JSON values that keep their laws: after `DEL` no key that it
  -- names reads a value, and every other key reads what it read.
  pub object-run_del :
      (now : ℕ) (sh : Shard S) (b : Bytes) (bs : List Bytes) (key : Text)
      → Valid sh.store
      → Shard.object o now (run o k now sh (codes "DEL") (b ∷ bs)).0 coll key
        ≡ (if contains (texts (b ∷ bs)) key then none else Shard.object o now sh coll key)
  unfolding run text_eq
  object-run_del now sh b bs key valid = object-del now sh 0 (b ∷ bs) key valid
