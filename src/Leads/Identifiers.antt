-- ===== src/Leads/Identifiers.antt =====
-- The identifiers of campaigns that `_normalize_campaign_ids` returns.
use shiku_ai_powered_sales_d.Prelude.{
  Bool, Bool-cases, List, [], ap, arith, false, if◌then◌else◌, inl, inr, is_empty, map, negsuc, pos,
  refl, strip, true, ℤ, ◌∷◌, ◌≡◌,
}
use shiku_ai_powered_sales_d.Leads.Schema.{
  LeadOutcome, RawId, RawIds, done, id_list, id_number, id_text, ids_text, no_id, no_ids, one_id,
  raised,
}
use shiku_ai_powered_sales_d.Leads.Normalize.{
  and_insert, eq_int, id_set, insert_int, insert_read, int_of_text, lt_int, normalize_campaign_ids,
  split_from,
}
use mathlib.Core.Path.{subst}

abbrev pub Below : ℤ → List ℤ → Type 0
Below x [] = Unit
Below x (y ∷ ys) = lt_int x y ≡ true

-- In ascending order, each once.
abbrev pub IsAscendingInt : List ℤ → Type 0
IsAscendingInt [] = Unit
IsAscendingInt (x ∷ xs) = Below x xs × IsAscendingInt xs

trichotomy : (x y : ℤ) → eq_int x y ≡ false → lt_int x y ≡ false → lt_int y x ≡ true
trichotomy (pos a) (pos b) e l = ground arith
trichotomy (pos a) (negsuc b) e l = refl
trichotomy (negsuc a) (pos b) e l = absurd (cc)
trichotomy (negsuc a) (negsuc b) e l = ground arith

eq_int-lt : (x y : ℤ) → lt_int x y ≡ true → eq_int x y ≡ false
eq_int-lt (pos a) (pos b) l = ground arith
eq_int-lt (pos a) (negsuc b) l = refl
eq_int-lt (negsuc a) (pos b) l = refl
eq_int-lt (negsuc a) (negsuc b) l = ground arith

Below-insert : (x y : ℤ) (ys : List ℤ) → lt_int y x ≡ true → Below y ys → Below y (insert_int x ys)
Below-insert x y [] l b = l
Below-insert x y (z ∷ ys) l b = ground arith

insert-IsAscendingInt : (x : ℤ) (ys : List ℤ) → IsAscendingInt ys → IsAscendingInt (insert_int x ys)
insert-IsAscendingInt x [] h = (tt, tt)
insert-IsAscendingInt x (y ∷ ys) h = elim (Bool-cases (eq_int x y)) [
  | inl t ↦ rw t h
  | inr n ↦ elim (Bool-cases (lt_int x y)) [
    | inl u ↦ rw (n, u) (u, h)
    | inr v ↦
        rw (n, v) (Below-insert x y ys (trichotomy x y n v) h.0, insert-IsAscendingInt x ys h.1)
  ]
]

insert-least : (x : ℤ) (ys : List ℤ) → Below x ys → insert_int x ys ≡ x ∷ ys
insert-least x [] b = refl
insert-least x (y ∷ ys) b = let n = eq_int-lt x y b in rw (n, b) refl

abbrev IsIdSet : LeadOutcome (List ℤ) → Type 0
IsIdSet (raised e) = Unit
IsIdSet (done zs) = IsAscendingInt zs

and_insert-IsIdSet : (z : ℤ) (o : LeadOutcome (List ℤ)) → IsIdSet o → IsIdSet (and_insert z o)
and_insert-IsIdSet z (raised e) h = tt
and_insert-IsIdSet z (done zs) h = insert-IsAscendingInt z zs h

text-IsIdSet :
    (b : Bool) (o : LeadOutcome ℤ) (rest : LeadOutcome (List ℤ))
    → IsIdSet rest
    → IsIdSet (if b then rest else insert_read o rest)
text-IsIdSet true o rest h = h
text-IsIdSet false (raised e) rest h = tt
text-IsIdSet false (done z) rest h = and_insert-IsIdSet z rest h

id_set-IsIdSet : (ids : List RawId) → IsIdSet (id_set ids)
id_set-IsIdSet [] = tt
id_set-IsIdSet (no_id ∷ ids) = id_set-IsIdSet ids
id_set-IsIdSet (id_number z ∷ ids) = and_insert-IsIdSet z (id_set ids) (id_set-IsIdSet ids)
id_set-IsIdSet (id_text t ∷ ids) =
    text-IsIdSet (is_empty (strip t)) (int_of_text t) (id_set ids) (id_set-IsIdSet ids)

again : (zs : List ℤ) → IsAscendingInt zs → id_set (map id_number zs) ≡ done zs
again [] h = refl
again (z ∷ zs) h = rw (again zs h.1) (ap done (insert-least z zs h.0))

normalize_campaign_ids-IsIdSet : (ids : RawIds) → IsIdSet (normalize_campaign_ids ids)
unfolding normalize_campaign_ids
normalize_campaign_ids-IsIdSet no_ids = tt
normalize_campaign_ids-IsIdSet (ids_text t) = id_set-IsIdSet (map id_text (split_from [] t))
normalize_campaign_ids-IsIdSet (one_id z) = id_set-IsIdSet (id_number z ∷ [])
normalize_campaign_ids-IsIdSet (id_list ids) = id_set-IsIdSet ids

-- The identifiers that are read are in ascending order, each once, and they are read again as they
-- are, as `_assign_campaigns` does with those that its callers have read.
pub normalize_campaign_ids-again :
    (ids : RawIds) (zs : List ℤ)
    → normalize_campaign_ids ids ≡ done zs
    → IsAscendingInt zs × (normalize_campaign_ids (id_list (map id_number zs)) ≡ done zs)
unfolding normalize_campaign_ids
normalize_campaign_ids-again ids zs e =
    let ascending = subst IsIdSet e (normalize_campaign_ids-IsIdSet ids) in
    (ascending, again zs ascending)
