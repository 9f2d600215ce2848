-- ===== src/Leads/Normalize.antt =====
-- The functions of services/lead_service.py that read the values of the caller.
use shiku_ai_powered_sales_d.Prelude.{
  Bool, List, Option, Text, [], any, codes, false, has_prefix, if◌then◌else◌, is_empty, is_space,
  leb, lower, ltb, map, negsuc, none, not, or_text, pos, reverse, select, some, strip, suc, text_eq,
  true, upper, zero, ℕ, ℤ, ◌&&◌, ◌*◌, ◌++◌, ◌+◌, ◌-◌, ◌==◌, ◌||◌, ◌∷◌,
}
use shiku_ai_powered_sales_d.Store.Schema.{
  LeadStatus, cold, contacted, meeting_booked, meeting_proposed, new, opted_out, qualified, warm,
}
use shiku_ai_powered_sales_d.Leads.Schema.{
  LeadError, LeadOutcome, RawFlag, RawId, RawIds, RawNumber, done, flag, flag_text, id_list,
  id_number, id_text, ids_text, invalid_email, invalid_status, no_id, no_ids, no_number,
  not_a_number, number, number_text, one_id, raised, unsaid,
}
use mathlib.Core.Option

abbrev status_names : List (Text × LeadStatus)
status_names =
    (codes "NEW", new)
    ∷ (codes "CONTACTED", contacted)
    ∷ (codes "WARM", warm)
    ∷ (codes "QUALIFIED", qualified)
    ∷ (codes "MEETING_PROPOSED", meeting_proposed)
    ∷ (codes "MEETING_BOOKED", meeting_booked)
    ∷ (codes "COLD", cold)
    ∷ (codes "OPTED_OUT", opted_out)
    ∷ []

abbrev status_in : List (Text × LeadStatus) → Text → Option LeadStatus
status_in [] value = none
status_in ((n, s) ∷ rest) value = if text_eq n value then some s else status_in rest value

-- `VALID_STATUSES`
abbrev pub status_named : Text → Option LeadStatus
status_named value = status_in status_names value

abbrev or_raise {ℓ} : {A : Type ℓ} → Option A → LeadError → LeadOutcome A
or_raise none e = raised e
or_raise (some a) e = done a

unfoldable pub normalize_status : Option Text → LeadOutcome LeadStatus
normalize_status status =
    let value = upper (or_text status (codes "NEW")) in
    or_raise (status_named value) (invalid_status value)

-- `[^@\s]+`
abbrev is_plain : Text → Bool
is_plain [] = true
is_plain (c ∷ s) = not (c == 64) && not (is_space c) && is_plain s

-- A dot with something behind it.
abbrev dot_then : Text → Bool
dot_then [] = false
dot_then (c ∷ s) = c == 46 && not (is_empty s) || dot_then s

-- `[^@\s]+\.[^@\s]+`
abbrev is_domain : Text → Bool
is_domain [] = false
is_domain (c ∷ s) = is_plain (c ∷ s) && dot_then s

-- The rest of the pattern, where something of the first part has been read.
abbrev after_local : Text → Bool
after_local [] = false
after_local (c ∷ s) =
    let rest = after_local s in if c == 64 then is_domain s else not (is_space c) && rest

-- `EMAIL_RE.match`
abbrev pub is_email : Text → Bool
is_email [] = false
is_email (c ∷ s) = not (c == 64) && not (is_space c) && after_local s

unfoldable pub normalize_email : Text → LeadOutcome Text
normalize_email address =
    let value = lower (strip address) in
    if is_email value then done value else raised (invalid_email address)

abbrev truths : List Text
truths = codes "1" ∷ codes "true" ∷ codes "yes" ∷ codes "y" ∷ []

abbrev pub bool_to_db : RawFlag → Bool
bool_to_db unsaid = false
bool_to_db (flag_text t) = any (text_eq (lower (strip t))) truths
bool_to_db (flag b) = b

abbrev is_decimal : ℕ → Bool
is_decimal c = leb 48 c && leb c 57

abbrev digits_from : ℕ → Text → Option ℕ
digits_from acc [] = some acc
digits_from acc (c ∷ s) =
    let rest = digits_from (acc * 10 + (c - 48)) s in if is_decimal c then rest else none

abbrev digits : Text → Option ℕ
digits [] = none
digits (c ∷ s) = digits_from 0 (c ∷ s)

abbrev negated : ℕ → ℤ
negated zero = pos 0
negated (suc n) = negsuc n

abbrev signed : Text → Option ℤ
signed [] = none
signed (c ∷ s) =
    if c == 45
    then Option.map negated (digits s)
    else Option.map pos (if c == 43 then digits s else digits (c ∷ s))

-- `int(t)`, for texts without underscores.
abbrev pub int_of_text : Text → LeadOutcome ℤ
int_of_text t = or_raise (signed (strip t)) (not_a_number t)

abbrev pub nullable_int : RawNumber → LeadOutcome (Option ℤ)
nullable_int no_number = done none
nullable_int (number z) = done (some z)
nullable_int (number_text t) =
    if is_empty (strip t)
    then done none
    else elim (int_of_text t) [ raised e ↦ raised e | done z ↦ done (some z) ]

abbrev pub eq_int : ℤ → ℤ → Bool
eq_int (pos a) (pos b) = a == b
eq_int (negsuc a) (negsuc b) = a == b
eq_int _ _ = false

abbrev pub lt_int : ℤ → ℤ → Bool
lt_int (pos a) (pos b) = ltb a b
lt_int (negsuc a) (negsuc b) = ltb b a
lt_int (negsuc a) (pos b) = true
lt_int (pos a) (negsuc b) = false

abbrev pub insert_int : ℤ → List ℤ → List ℤ
insert_int x [] = x ∷ []
insert_int x (y ∷ ys) =
    if eq_int x y then y ∷ ys else if lt_int x y then x ∷ y ∷ ys else y ∷ insert_int x ys

-- `re.split(r"[,;|]", value)`
abbrev is_separator : ℕ → Bool
is_separator c = c == 44 || c == 59 || c == 124

abbrev pub split_from : Text → Text → List Text
split_from word [] = reverse word ∷ []
split_from word (c ∷ s) = elim (is_separator c) [
  | true ↦ reverse word ∷ split_from [] s
  | false ↦ split_from (c ∷ word) s
]

abbrev pub and_insert : ℤ → LeadOutcome (List ℤ) → LeadOutcome (List ℤ)
and_insert z (raised e) = raised e
and_insert z (done zs) = done (insert_int z zs)

abbrev pub insert_read : LeadOutcome ℤ → LeadOutcome (List ℤ) → LeadOutcome (List ℤ)
insert_read (raised e) rest = raised e
insert_read (done z) rest = and_insert z rest

-- `sorted({int(cid) for cid in value if cid is not None and str(cid).strip()})`
abbrev pub id_set : List RawId → LeadOutcome (List ℤ)
id_set [] = done []
id_set (no_id ∷ ids) = id_set ids
id_set (id_number z ∷ ids) = and_insert z (id_set ids)
id_set (id_text t ∷ ids) =
    let rest = id_set ids in if is_empty (strip t) then rest else insert_read (int_of_text t) rest

unfoldable pub normalize_campaign_ids : RawIds → LeadOutcome (List ℤ)
normalize_campaign_ids no_ids = done []
normalize_campaign_ids (ids_text t) = id_set (map id_text (split_from [] t))
normalize_campaign_ids (one_id z) = id_set (id_number z ∷ [])
normalize_campaign_ids (id_list ids) = id_set ids

-- `PHONE_COUNTRY_CODES`, in the order of the loop: the longer codes first.
abbrev long_codes : List Text
long_codes =
    codes "254"
    ∷ codes "256"
    ∷ codes "255"
    ∷ codes "250"
    ∷ codes "234"
    ∷ codes "212"
    ∷ codes "233"
    ∷ codes "251"
    ∷ codes "260"
    ∷ codes "263"
    ∷ codes "244"
    ∷ codes "971"
    ∷ codes "966"
    ∷ codes "974"
    ∷ codes "880"
    ∷ codes "358"
    ∷ []

abbrev short_codes : List Text
short_codes =
    codes "27"
    ∷ codes "20"
    ∷ codes "62"
    ∷ codes "63"
    ∷ codes "65"
    ∷ codes "60"
    ∷ codes "66"
    ∷ codes "84"
    ∷ codes "82"
    ∷ codes "81"
    ∷ codes "86"
    ∷ codes "92"
    ∷ codes "44"
    ∷ codes "61"
    ∷ codes "91"
    ∷ codes "49"
    ∷ codes "33"
    ∷ codes "39"
    ∷ codes "34"
    ∷ codes "31"
    ∷ codes "32"
    ∷ codes "41"
    ∷ codes "43"
    ∷ codes "46"
    ∷ codes "47"
    ∷ codes "45"
    ∷ codes "48"
    ∷ codes "90"
    ∷ codes "55"
    ∷ codes "52"
    ∷ codes "54"
    ∷ codes "57"
    ∷ codes "56"
    ∷ codes "51"
    ∷ codes "1"
    ∷ []

abbrev pub country_codes : List Text
country_codes = long_codes ++ short_codes

-- `re.sub(r"[\s().-]+", "", text)`
abbrev is_filler : ℕ → Bool
is_filler c = is_space c || c == 40 || c == 41 || c == 46 || c == 45

abbrev compact_of : Text → Text
compact_of = select (λ c. not (is_filler c))

-- `s[len(p):]`, where `s` starts with `p`.
abbrev pub without_prefix : Text → Text → Text
without_prefix [] s = s
without_prefix (c ∷ p) [] = []
without_prefix (c ∷ p) (d ∷ s) = without_prefix p s

abbrev pub repair : Text → List Text → Text → Text
repair compact [] text = text
repair compact (code ∷ rest) text =
    let other = repair compact rest text in
    let with_plus = 43 ∷ code ++ code in
    let with_zeros = 48 ∷ 48 ∷ code ++ code in
    if has_prefix with_plus compact
    then 43 ∷ code ++ without_prefix with_plus compact
    else if has_prefix with_zeros compact
    then 43 ∷ code ++ without_prefix with_zeros compact
    else if has_prefix (code ++ code) compact
    then 43 ∷ code ++ without_prefix (code ++ code) compact
    else other

unfoldable pub normalize_phone_number : Option Text → Option Text
normalize_phone_number none = none
normalize_phone_number (some value) =
    let text = strip value in
    if is_empty text then none else some (repair (compact_of text) country_codes text)
