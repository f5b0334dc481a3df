-- ===== src/Config/Roles.antt =====
-- The roles of config.rs, printed and parsed.
use stplr.Base.{
  ◌≡◌, refl, sym, ap, ◌∙◌, inl, inr, true, ◌||◌, some, List, [], ◌∷◌, ◌++◌, map, append-nil,
  append_assoc, arith, ltb, Bool-cases, ◌==◌, nat_Eq, All,
}
use stplr.Text.{Text, text_Eq, text_eq}
use stplr.Text.Number.{trim, trim_start}
use stplr.Config.{
  Role, coordinator, as_str, lowercase, named, parse, rank, insert_role, extend, split_item,
  parse_parts, parse_items, parse_list, join, roles_str,
}

split_some : (s : Text) → (p : Text) × (ps : List Text) × (split_item s ≡ p ∷ ps)
unfolding split_item
split_some [] = ([], [], refl)
split_some (c ∷ s) =
    let (p, ps, e) = split_some s in
    elim (Bool-cases ((c == b',') || (c == b' '))) [
      | inl sep ↦ ([], p ∷ ps, rw (e, sep, split_item) refl)
      | inr in_part ↦ (c ∷ p, ps, rw (e, in_part, split_item) refl)
    ]

split_role : (r : Role) (s : Text) → split_item (as_str r ++ b',' ∷ s) ≡ as_str r ∷ split_item s
unfolding split_item as_str
split_role Role.shard s = let (p, ps, e) = split_some s in rw e refl
split_role coordinator s = let (p, ps, e) = split_some s in rw e refl
split_role Role.ingest s = let (p, ps, e) = split_some s in rw e refl
split_role Role.api s = let (p, ps, e) = split_some s in rw e refl

split_last : (r : Role) → split_item (as_str r) ≡ as_str r ∷ []
unfolding split_item as_str
split_last Role.shard = refl
split_last coordinator = refl
split_last Role.ingest = refl
split_last Role.api = refl

parse_first :
    (r : Role) (set : List Role) (parts : List Text)
    → parse_parts set (as_str r ∷ parts) ≡ parse_parts (insert_role r set) parts
unfolding parse_parts parse named as_str trim text_eq lowercase
parse_first Role.shard set parts = refl
parse_first coordinator set parts = refl
parse_first Role.ingest set parts = refl
parse_first Role.api set parts = refl

parse_nil : (set : List Role) → parse_parts set (split_item []) ≡ some set
unfolding parse_parts split_item trim trim_start
parse_nil set = refl

parse_end : (set : List Role) → parse_parts set [] ≡ some set
unfolding parse_parts
parse_end set = refl

parse_joined :
    (roles set : List Role)
    → parse_parts set (split_item (join (map as_str roles))) ≡ some (extend set roles)
unfolding join extend
parse_joined [] set = parse_nil set
parse_joined (r ∷ []) set = rw (split_last r) (parse_first r set [] ∙ parse_end (insert_role r set))
parse_joined (r ∷ r' ∷ roles) set = rw (split_role r (join (map as_str (r' ∷ roles)))) (
    parse_first r set (split_item (join (map as_str (r' ∷ roles))))
    ∙ parse_joined (r' ∷ roles) (insert_role r set))

-- What the derived order keeps: the roles rise, so each is there once.
abbrev pub Rising : List Role → Type 0
Rising [] = Unit
Rising (r ∷ rs) = All (λ x. ltb (rank r) (rank x) ≡ true) rs × Rising rs

abbrev Below : List Role → Role → Type 0
Below set r = All (λ x. ltb (rank x) (rank r) ≡ true) set

insert_last : (r : Role) (set : List Role) → Below set r → insert_role r set ≡ set ++ r ∷ []
unfolding insert_role
insert_last r [] b = refl
insert_last r (x ∷ set) b = ground (arith, insert_last r set b.1)

Below-snoc :
    (set : List Role) (r y : Role)
    → Below set y
    → ltb (rank r) (rank y) ≡ true
    → Below (set ++ r ∷ []) y
Below-snoc [] r y b h = (h, tt)
Below-snoc (x ∷ set) r y b h = (b.0, Below-snoc set r y b.1 h)

all-Below_snoc :
    (set : List Role) (r : Role) (ys : List Role)
    → All (λ y. Below set y) ys
    → All (λ y. ltb (rank r) (rank y) ≡ true) ys
    → All (λ y. Below (set ++ r ∷ []) y) ys
all-Below_snoc set r [] a b = tt
all-Below_snoc set r (y ∷ ys) a b = (Below-snoc set r y a.0 b.0, all-Below_snoc set r ys a.1 b.1)

extend-Rising :
    (set roles : List Role)
    → All (λ y. Below set y) roles
    → Rising roles
    → extend set roles ≡ set ++ roles
unfolding extend
extend-Rising set [] a h = sym (append-nil set)
extend-Rising set (r ∷ rs) a h = rw (insert_last r set a.0) (
    extend-Rising (set ++ r ∷ []) rs (all-Below_snoc set r rs a.1 h.0) h.1
    ∙ append_assoc set (r ∷ []) rs)

all-Below_nil : (roles : List Role) → All (λ y. Below [] y) roles
all-Below_nil [] = tt
all-Below_nil (r ∷ rs) = (tt, all-Below_nil rs)

-- Roles in their order, each once, are the same roles after they are printed and parsed again.
pub parse_list-roles_str :
    (roles : List Role) → Rising roles → parse_list (roles_str roles ∷ []) ≡ some roles
unfolding parse_list parse_items roles_str
parse_list-roles_str roles h =
    rw (parse_joined roles [], parse_items)
      (ap (λ (rs : List Role). some rs) (extend-Rising [] roles (all-Below_nil roles) h))
