-- ===== src/Outreach/Sequence.antt =====
-- `_find_next_sequence_step` of outreach/marketing_agent.py. A channel is one of the three that the
-- function tells apart.
use shiku_ai_powered_sales_d.Prelude.{
  Bool, List, Option, Text, [], codes, count_rows, false, find_row, if◌then◌else◌, is_empty, leb,
  length, ltb, min_of, none, occurs_in, or_text, select, some, sort_by, strip, true, ℕ, ◌&&◌, ◌*◌,
  ◌++◌, ◌+◌, ◌-◌, ◌/◌, ◌==◌, ◌∷◌,
}
use shiku_ai_powered_sales_d.Store.Schema.{
  CampaignLead, CampaignSequence, Channel, Db, Lead, Message, SequenceStep, Status, email, failed,
  linkedin, rejected, whatsapp,
}
use shiku_ai_powered_sales_d.Store.Rows.{coalesce, get_lead, is_outbound, is_sent}
use shiku_ai_powered_sales_d.Drafts.Send.{of_lead}

-- A row of the query of `campaign_sequences`, or the first step where a campaign has no sequence.
pub record NextStep : Type 0 where
  pub step_number : ℕ
  pub channel : Channel
  pub delay_days : ℕ
  pub sequence_step_id : Option ℕ
  pub delay_ignored : Bool

-- The `code` of a lead that is not eligible, with the values in its reason.
pub data Refusal : Type 0 where
  lead_not_found opted_out meeting_booked responded : Refusal
  pending_touch : Option ℕ → Option Status → Refusal
  sequence_exhausted : ℕ → Refusal
  delay_not_passed : ℕ → ℕ → Refusal

-- `missing_channel_data` is the one code with `skip_step`.
pub data Candidate : Type 0 where
  ready : NextStep → Candidate
  skip_step : Text → NextStep → Candidate
  ineligible : Refusal → Candidate

abbrev is_digit : ℕ → Bool
is_digit c = leb 48 c && leb c 57

abbrev pub clean_phone_number : Option Text → Text
clean_phone_number value = select is_digit (or_text value [])

abbrev whatsapp_error : Text
whatsapp_error = codes "WhatsApp step cannot be sent because this lead has no valid phone number."

abbrev pub linkedin_error : Text
linkedin_error = codes "LinkedIn step cannot be sent because this lead has no LinkedIn URL."

abbrev email_error : Text
email_error = codes "Email step cannot be sent because this lead has no valid email address."

unfoldable pub channel_prerequisite_error : Channel → Lead → Option Text
channel_prerequisite_error whatsapp l =
    if ltb (length (clean_phone_number l.phone_number)) 8 then some whatsapp_error else none
channel_prerequisite_error linkedin l =
    if is_empty (strip (or_text l.linkedin_url [])) then some linkedin_error else none
channel_prerequisite_error email l =
    if occurs_in (codes "@") (strip l.email) then none else some email_error

-- The query of the touches, oldest first.
abbrev pub is_touch : ℕ → ℕ → ℕ → Message → Bool
is_touch org campaign lead m =
    m.organization_id == org
    && in_org_of campaign m.campaign_id
    && m.lead_id == lead
    && is_outbound m.direction
    && is_active m.status
  where
    in_org_of : ℕ → Option ℕ → Bool
    in_org_of k none = false
    in_org_of k (some c) = c == k

    is_active : Option Status → Bool
    is_active none = false
    is_active (some failed) = false
    is_active (some rejected) = false
    is_active (some _) = true

abbrev pub created_key : Message → ℕ
created_key m = m.created_at

unfoldable pub touches_of : ℕ → ℕ → ℕ → Db → List Message
touches_of org campaign lead db =
    sort_by created_key (select (is_touch org campaign lead) db.messages)

abbrev pub last_of : List Message → Option Message
last_of [] = none
last_of (m ∷ []) = some m
last_of (m ∷ n ∷ ms) = last_of (n ∷ ms)

-- `message_step_number`
abbrev pub message_step_number : Option ℕ → List SequenceStep → Option ℕ
message_step_number none steps = none
message_step_number (some k) steps = elim (find_row (λ (t : SequenceStep). t.id == k) steps) [
  | none ↦ none
  | some t ↦ some t.step_number
]

abbrev same_channel : Channel → Channel → Bool
same_channel email email = true
same_channel linkedin linkedin = true
same_channel whatsapp whatsapp = true
same_channel _ _ = false

abbrev min_step : List CampaignSequence → Option ℕ
min_step [] = none
min_step (q ∷ qs) = elim (min_step qs) [
  | none ↦ some q.step_number
  | some n ↦ some (min_of q.step_number n)
]

-- `inferred_channel_step_number`
abbrev pub inferred_channel_step_number : ℕ → Channel → List CampaignSequence → Option ℕ
inferred_channel_step_number campaign channel sequences = min_step (
    select (λ (q : CampaignSequence). q.campaign_id == campaign && same_channel q.channel channel)
      sequences)

-- `a or b`, of numbers.
abbrev pub or_number : Option ℕ → ℕ → ℕ
or_number a b = elim a [ none ↦ b | some n ↦ if n == 0 then b else n ]

abbrev sent_touches : List Message → ℕ
sent_touches = count_rows (λ (m : Message). is_sent m.status)

abbrev pub current_step : ℕ → ℕ → Message → List Message → Db → ℕ
current_step campaign touch_count last touches db =
    or_number (message_step_number last.sequence_step_id db.steps) (
      or_number (some touch_count) (
        or_number (inferred_channel_step_number campaign last.channel db.sequences)
          (sent_touches touches)))

-- The number of the next step with the time of the last touch, or a touch that is not sent.
pub data Position : Type 0 where
  waits : Option ℕ → Option Status → Position
  at_step : ℕ → Option ℕ → Position

abbrev pub position_after : ℕ → ℕ → Option Message → List Message → Db → Position
position_after campaign touch_count none touches db = at_step (touch_count + 1) none
position_after campaign touch_count (some last) touches db =
    if is_sent last.status
    then at_step (current_step campaign touch_count last touches db + 1)
        (coalesce last.sent_at (some last.created_at))
    else waits (message_step_number last.sequence_step_id db.steps) last.status

-- `step.id AS sequence_step_id`
abbrev step_row_id : ℕ → ℕ → List SequenceStep → Option ℕ
step_row_id campaign n steps =
    elim (find_row (λ (t : SequenceStep). t.campaign_id == campaign && t.step_number == n) steps) [
      | none ↦ none
      | some t ↦ some t.id
    ]

abbrev pub first_step : NextStep
first_step = record {
  step_number = 1;
  channel = email;
  delay_days = 0;
  sequence_step_id = none;
  delay_ignored = false;
}

abbrev pub step_of : ℕ → CampaignSequence → Db → NextStep
step_of campaign q db = record {
  step_number = q.step_number;
  channel = q.channel;
  delay_days = q.delay_days;
  sequence_step_id = step_row_id campaign q.step_number db.steps;
  delay_ignored = false;
}

abbrev pub unless_error : Text → NextStep → Option Text → Candidate → Candidate
unless_error intro n none next = next
unless_error intro n (some e) next = skip_step (intro ++ e) n

abbrev pub check_channel : Text → NextStep → Lead → Candidate → Candidate
check_channel intro n l next = unless_error intro n (channel_prerequisite_error n.channel l) next

-- `(now - last_time).days`
abbrev days_between : ℕ → ℕ → ℕ
days_between now last = (now - last) / 86400

abbrev pub check_delay : Bool → ℕ → Option ℕ → NextStep → Candidate
check_delay ignore now none n = ready n
check_delay ignore now (some last) n =
    if n.delay_days == 0
    then ready n
    else if ignore
    then ready (record n { delay_ignored = true })
    else if ltb (days_between now last) n.delay_days
    then ineligible (delay_not_passed n.step_number (last + n.delay_days * 86400))
    else ready n

-- `f"Step {number} skipped: "`, with the decimal digits from `str`.
abbrev pub skip_intro : (ℕ → Text) → ℕ → Text
skip_intro str n = codes "Step " ++ str n ++ codes " skipped: "

abbrev pub touch_count_of : Option CampaignLead → ℕ
touch_count_of none = 0
touch_count_of (some c) = c.emails_sent

abbrev pub halted : Option CampaignLead → Option Refusal
halted none = none
halted (some c) =
    if c.meeting_booked then some meeting_booked else if c.responded then some responded else none

abbrev pub unless_halted : Option Refusal → Candidate → Candidate
unless_halted (some r) next = ineligible r
unless_halted none next = next

module _ (str : ℕ → Text) (org campaign lead : ℕ) (ignore : Bool) (now : ℕ) where
  abbrev pub candidate_at : Lead → ℕ → Option ℕ → Option CampaignSequence → Db → Candidate
  candidate_at l n last (some q) db =
      let step = step_of campaign q db in
      check_channel (skip_intro str step.step_number) step l (check_delay ignore now last step)
  candidate_at l n last none db =
      if n == 1
      then check_channel [] first_step l (ready first_step)
      else ineligible (sequence_exhausted (n - 1))

  abbrev pub find_sequence : ℕ → List CampaignSequence → Option CampaignSequence
  find_sequence n =
      find_row (λ (q : CampaignSequence). q.campaign_id == campaign && q.step_number == n)

  abbrev pub candidate_for : Lead → Position → Db → Candidate
  candidate_for l (waits step status) db = ineligible (pending_touch step status)
  candidate_for l (at_step n last) db = candidate_at l n last (find_sequence n db.sequences) db

  abbrev pub position_of : Db → Position
  position_of db =
      let touches = touches_of org campaign lead db in
      position_after campaign (touch_count_of (find_row (of_lead campaign lead) db.campaign_leads))
        (last_of touches) touches db

  abbrev pub candidate_of_lead : Option Lead → Db → Candidate
  candidate_of_lead none db = ineligible lead_not_found
  candidate_of_lead (some l) db =
      if l.email_opt_out
      then ineligible opted_out
      else unless_halted (halted (find_row (of_lead campaign lead) db.campaign_leads))
          (candidate_for l (position_of db) db)

  unfoldable pub find_next_sequence_step : Db → Candidate
  find_next_sequence_step db = candidate_of_lead (get_lead lead db.leads) db
