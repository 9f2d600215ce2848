-- ===== src/Sequences/Replace.antt =====
-- `replace_sequence_steps` of services/sequence_service.py. A `ValueError` is the result `none`.
use shiku_ai_powered_sales_d.Prelude.{
  Bool, List, Option, Text, [], any, delete_rows, false, find_row, if◌then◌else◌, length, negsuc,
  none, not, pos, select, some, sort_by, strip, update_rows, ℕ, ℤ, ◌&&◌, ◌++◌, ◌+◌, ◌==◌, ◌||◌, ◌∷◌,
}
use shiku_ai_powered_sales_d.Store.Schema.{
  Campaign, Db, Message, SequenceStep, other, sequence_updated,
}
use shiku_ai_powered_sales_d.Store.Rows.{in_org}

-- A step as the caller sends it.
pub record RawStep : Type 0 where
  pub step_number : ℤ
  pub delay_days : Option ℤ
  pub subject_template : Text
  pub body_template : Text
  pub is_active : Bool

-- A step that is checked.
pub record CleanStep : Type 0 where
  pub step_number : ℕ
  pub delay_days : ℕ
  pub subject_template : Text
  pub body_template : Text
  pub is_active : Bool

-- A positive integer.
abbrev positive : ℤ → Option ℕ
positive (pos k) = if k == 0 then none else some k
positive (negsuc k) = none

abbrev delay_of : Option ℤ → Option ℕ
delay_of none = some 3
delay_of (some z) = positive z

abbrev is_seen : List ℕ → ℕ → Bool
is_seen seen k = any (λ j. j == k) seen

abbrev clean_with : RawStep → List ℕ → Option ℕ → Option ℕ → Option CleanStep
clean_with r seen (some n) (some d) =
    if is_seen seen n
    then none
    else some (record {
      step_number = n;
      delay_days = d;
      subject_template = strip r.subject_template;
      body_template = strip r.body_template;
      is_active = r.is_active;
    })
clean_with r seen _ _ = none

abbrev clean_step : List ℕ → RawStep → Option CleanStep
clean_step seen r = clean_with r seen (positive r.step_number) (delay_of r.delay_days)

-- The loop over the steps, with the numbers that were seen.
abbrev and_clean :
    (List ℕ → Option (List CleanStep)) → List ℕ → Option CleanStep → Option (List CleanStep)
and_clean rest seen none = none
and_clean rest seen (some c) = elim (rest (c.step_number ∷ seen)) [
  | none ↦ none
  | some cs ↦ some (c ∷ cs)
]

unfoldable pub clean_steps : List RawStep → List ℕ → Option (List CleanStep)
clean_steps [] seen = some []
clean_steps (r ∷ rs) seen = and_clean (clean_steps rs) seen (clean_step seen r)

abbrev pub of_campaign : ℕ → SequenceStep → Bool
of_campaign campaign t = t.campaign_id == campaign

-- `existing_by_step.get(n)`, where a later row of one number replaces an earlier one.
abbrev pub existing_of : ℕ → List SequenceStep → Option SequenceStep
existing_of n [] = none
existing_of n (t ∷ ts) = elim (existing_of n ts) [
  | none ↦ if t.step_number == n then some t else none
  | some u ↦ some u
]

abbrev pub has_step_id : ℕ → SequenceStep → Bool
has_step_id k t = t.id == k

abbrev pub set_step : CleanStep → SequenceStep → SequenceStep
set_step c t = record t {
  delay_days = c.delay_days;
  subject_template = c.subject_template;
  body_template = c.body_template;
  is_active = c.is_active;
}

abbrev new_step : ℕ → ℕ → CleanStep → SequenceStep
new_step id campaign c = record {
  id = id;
  campaign_id = campaign;
  step_number = c.step_number;
  delay_days = c.delay_days;
  subject_template = c.subject_template;
  body_template = c.body_template;
  is_active = c.is_active;
}

abbrev pub put_step : ℕ → CleanStep → Option SequenceStep → Db → Db
put_step campaign c (some t) db = record db {
  steps = update_rows (has_step_id t.id) (set_step c) db.steps;
}
put_step campaign c none db = record db {
  steps = db.steps ++ new_step db.next_step_id campaign c ∷ [];
  next_step_id = db.next_step_id + 1;
}

-- The loop over the checked steps.
unfoldable pub put_steps : ℕ → List SequenceStep → List CleanStep → Db → Db
put_steps campaign before [] db = db
put_steps campaign before (c ∷ cs) db =
    put_steps campaign before cs (put_step campaign c (existing_of c.step_number before) db)

-- `SELECT COUNT(*) ... WHERE sequence_step_id = ?` is not 0.
abbrev pub refers_to : ℕ → Message → Bool
refers_to k m = elim m.sequence_step_id [ none ↦ false | some j ↦ j == k ]

abbrev pub is_referenced : ℕ → Db → Bool
is_referenced k db = any (refers_to k) db.messages

abbrev pub switch_off : SequenceStep → SequenceStep
switch_off t = record t { is_active = false }

-- A row that is not asked for any more: switched off where a message refers to it, or deleted.
abbrev pub retire : ℕ → Db → Db
retire k db =
    if is_referenced k db
    then record db { steps = update_rows (has_step_id k) switch_off db.steps }
    else record db { steps = delete_rows (has_step_id k) db.steps }

abbrev pub is_requested : List CleanStep → SequenceStep → Bool
is_requested cs t = any (λ (c : CleanStep). c.step_number == t.step_number) cs

-- The rows of `existing_by_step`: of each number, the last.
abbrev pub kept_row : List SequenceStep → SequenceStep → Bool
kept_row before t = elim (existing_of t.step_number before) [ none ↦ false | some u ↦ u.id == t.id ]

unfoldable pub retire_steps : List CleanStep → List SequenceStep → List SequenceStep → Db → Db
retire_steps cs before [] db = db
retire_steps cs before (t ∷ ts) db =
    retire_steps cs before ts
      (if is_requested cs t || not (kept_row before t) then db else retire t.id db)

abbrev pub step_key : CleanStep → ℕ
step_key c = c.step_number

abbrev pub is_campaign : ℕ → Option ℕ → Campaign → Bool
is_campaign campaign org c = c.id == campaign && in_org org c.organization_id

abbrev pub replace_in : ℕ → Option Campaign → Option (List CleanStep) → Db → Option Db
replace_in campaign c none db = none
replace_in campaign none (some cs) db = none
replace_in campaign (some c) (some cs) db =
    let sorted = sort_by step_key cs in
    let before = select (of_campaign campaign) db.steps in
    let db' = retire_steps sorted before before (put_steps campaign before sorted db) in
    some (record db' {
      events =
          db'.events
          ++ other (some c.organization_id) (sequence_updated campaign (length sorted)) ∷ [];
    })

unfoldable pub replace_sequence_steps : ℕ → List RawStep → Option ℕ → Db → Option Db
replace_sequence_steps campaign steps org db =
    replace_in campaign (find_row (is_campaign campaign org) db.campaigns) (clean_steps steps []) db
