-- ===== src/Sequences/Followups.antt =====
-- `generate_due_followup_drafts` of services/sequence_service.py. The texts of a draft, which the
-- source renders from the templates and the columns of the row, are arbitrary functions of the row.
use shiku_ai_powered_sales_d.Prelude.{
  Bool, List, Option, Text, [], any, at_least, codes, false, find_row, if◌then◌else◌, length, ltb,
  min_of, none, not, pos, select, some, sort_by, take, true, ℕ, ℤ, ◌&&◌, ◌*◌, ◌++◌, ◌+◌, ◌==◌, ◌||◌,
  ◌∷◌,
}
use shiku_ai_powered_sales_d.Store.Schema.{
  Campaign, CampaignLead, CampaignSequence, Channel, Db, Lead, LeadStatus, Message, SequenceStep,
  Status, draft, email, followups_generated, opted_out, other, outbound, pending, scheduled,
  sending, sent,
}
use shiku_ai_powered_sales_d.Store.Rows.{get_lead, in_org, is_missing, is_outbound}
use shiku_ai_powered_sales_d.Drafts.Replies.{Services}
use shiku_ai_powered_sales_d.Drafts.Send.{record_outbound}
use shiku_ai_powered_sales_d.Drafts.Scheduler.{Engine, postgres, sqlite}
use shiku_ai_powered_sales_d.Sequences.Replace.{RawStep, of_campaign, replace_sequence_steps}
use mathlib.Core.Option

-- A row of the query: a lead of a campaign whose next step is there.
pub record Due : Type 0 where
  pub campaign : Campaign
  pub lead : Lead
  pub link : CampaignLead
  pub step : SequenceStep
  pub channel : Channel

pub record Texts : Type 0 where
  pub followup_subject : Due → Text
  pub followup_body : Due → Text

abbrev is_opted_out : LeadStatus → Bool
is_opted_out opted_out = true
is_opted_out _ = false

-- The join with the step, and its channel or `email`.
abbrev pub is_next_step : CampaignLead → SequenceStep → Bool
is_next_step cl t = t.campaign_id == cl.campaign_id && t.step_number == cl.emails_sent + 1

abbrev channel_of : Option CampaignSequence → Channel
channel_of none = email
channel_of (some cs) = cs.channel

abbrev channel_of_step : Db → SequenceStep → Channel
channel_of_step db t = channel_of (
    find_row
      (λ (cs : CampaignSequence).
        cs.campaign_id == t.campaign_id && cs.step_number == t.step_number)
      db.sequences)

-- `campaign_id = ?`, or no such condition.
abbrev in_campaign : Option ℕ → ℕ → Bool
in_campaign none c = true
in_campaign (some k) c = c == k

-- The conditions of the query.
abbrev pub is_open : Option ℕ → Option ℕ → Due → Bool
is_open campaign org d =
    d.campaign.is_active
    && d.step.is_active
    && not d.lead.email_opt_out
    && not (is_opted_out d.lead.status)
    && not d.link.responded
    && not d.link.meeting_booked
    && ltb d.link.emails_sent d.campaign.max_emails_per_lead
    && in_campaign campaign d.campaign.id
    && in_org org d.campaign.organization_id
    && in_org org d.lead.organization_id

abbrev pub joined :
    Db → CampaignLead → Option Campaign → Option Lead → Option SequenceStep → List Due
joined db cl (some c) (some l) (some t) =
    record { campaign = c; lead = l; link = cl; step = t; channel = channel_of_step db t } ∷ []
joined db cl _ _ _ = []

abbrev pub join_of : Db → CampaignLead → List Due
join_of db cl =
    joined db cl (find_row (λ (c : Campaign). c.id == cl.campaign_id) db.campaigns)
      (get_lead cl.lead_id db.leads) (find_row (is_next_step cl) db.steps)

abbrev pub join_all : Db → List CampaignLead → List Due
join_all db [] = []
join_all db (cl ∷ cls) = join_of db cl ++ join_all db cls

abbrev pub was_contacted : Due → Bool
was_contacted d = not (is_missing d.lead.last_contacted_at)

abbrev pub contact_key : Due → ℕ
contact_key d = elim d.lead.last_contacted_at [ none ↦ 0 | some t ↦ t ]

-- `ORDER BY l.last_contacted_at ASC`: rows without a time come first in SQLite and last in Postgres.
abbrev pub ordered : Engine → List Due → List Due
ordered sqlite rows =
    select (λ d. not (was_contacted d)) rows ++ sort_by contact_key (select was_contacted rows)
ordered postgres rows =
    sort_by contact_key (select was_contacted rows) ++ select (λ d. not (was_contacted d)) rows

-- `max(1, min(limit, 200))`
abbrev pub row_limit : ℤ → ℕ
row_limit limit = min_of 200 (at_least 1 limit)

unfoldable pub due_followups : Engine → Option ℕ → Option ℕ → ℤ → Db → List Due
due_followups engine campaign org limit db =
    take (row_limit limit)
      (ordered engine (select (is_open campaign org) (join_all db db.campaign_leads)))

-- The statuses of the duplicate query.
abbrev is_live_status : Option Status → Bool
is_live_status (some draft) = true
is_live_status (some scheduled) = true
is_live_status (some sending) = true
is_live_status (some sent) = true
is_live_status _ = false

-- `sequence_step_id = ?`
abbrev is_of_step : ℕ → Option ℕ → Bool
is_of_step step none = false
is_of_step step (some k) = k == step

abbrev pub is_live_touch : ℕ → ℕ → ℕ → Message → Bool
is_live_touch lead campaign step m =
    m.lead_id == lead
    && is_of_step campaign m.campaign_id
    && is_of_step step m.sequence_step_id
    && is_outbound m.direction
    && is_live_status m.status

abbrev pub is_live_touch_of : Due → Message → Bool
is_live_touch_of d = is_live_touch d.lead.id d.campaign.id d.step.id

-- A day of `datetime.timedelta`, in seconds.
abbrev pub day : ℕ
day = 86400

-- `not last_contacted or now - last_contacted < timedelta(days=delay_days)`
abbrev pub is_early : ℕ → Due → Bool
is_early now d = elim d.lead.last_contacted_at [
  | none ↦ true
  | some t ↦ ltb now (t + d.step.delay_days * day)
]

abbrev pub new_followup : Texts → ℕ → Due → ℕ → Message
new_followup texts now d id = record {
  id = id;
  organization_id = d.campaign.organization_id;
  lead_id = d.lead.id;
  campaign_id = some d.campaign.id;
  sequence_step_id = some d.step.id;
  direction = outbound;
  channel = d.channel;
  subject = texts.followup_subject d;
  body = texts.followup_body d;
  status = some draft;
  approved = pending;
  approved_by = none;
  approved_at = none;
  scheduled_send_at = none;
  scheduled_claimed_at = none;
  sent_at = none;
  send_attempts = 0;
  last_error = none;
  intent = none;
  external_message_id = none;
  external_thread_id = none;
  created_at = now;
}

-- The insertion and `campaign_context_service.record_outbound`.
unfoldable pub insert_followup : Services → Texts → ℕ → Due → Db → Db
insert_followup s texts now d db =
    record_outbound s d.campaign.organization_id (some d.campaign.id) d.lead.id
      (texts.followup_subject d) (texts.followup_body d) now
      (record db {
        messages = db.messages ++ new_followup texts now d db.next_message_id ∷ [];
        next_message_id = db.next_message_id + 1;
      })

-- The tests at the head of the loop.
abbrev pub is_passed_over : Bool → ℕ → Due → Db → Bool
is_passed_over ignore_delay now d db =
    not ignore_delay && is_early now d || any (is_live_touch_of d) db.messages

-- The loop, with the drafts that it generates.
unfoldable pub generate_each : Services → Texts → Bool → ℕ → List Due → Db → List ℕ × Db
generate_each s texts ignore_delay now [] db = ([], db)
generate_each s texts ignore_delay now (d ∷ ds) db = elim (is_passed_over ignore_delay now d db) [
  | true ↦ generate_each s texts ignore_delay now ds db
  | false ↦
      let (ks, db') =
        generate_each s texts ignore_delay now ds (insert_followup s texts now d db) in
      (db.next_message_id ∷ ks, db')
]

abbrev pub log_generated : Option ℕ → List ℕ → Db → Db
log_generated org [] db = db
log_generated org (k ∷ ks) db = record db {
  events = db.events ++ other org (followups_generated (length (k ∷ ks))) ∷ [];
}

-- What stands behind the default steps.
unfoldable pub generate_from :
    Services → Texts → Engine → Option ℕ → ℤ → Option ℕ → Bool → ℕ → Db → List ℕ × Db
generate_from s texts engine campaign limit org ignore_delay now db =
    let (ks, db') =
      generate_each s texts ignore_delay now (due_followups engine campaign org limit db) db in
    (ks, log_generated org ks db')

abbrev default_step : ℕ → ℕ → Text → Text → RawStep
default_step n days subject body = record {
  step_number = pos n;
  delay_days = some (pos days);
  subject_template = subject;
  body_template = body;
  is_active = true;
}

-- `DEFAULT_SEQUENCE_STEPS`, whose bodies are arguments.
abbrev pub default_steps : Text → Text → List RawStep
default_steps first second =
    default_step 1 3 (codes "Rates and media for {sender_company}") first
    ∷ default_step 2 5 (codes "Worth revisiting?") second
    ∷ []

-- `ensure_default_steps`; what `replace_sequence_steps` raises is `none`.
unfoldable pub ensure_default_steps : List RawStep → ℕ → Db → Option Db
ensure_default_steps defaults campaign db =
    if any (of_campaign campaign) db.steps
    then some db
    else replace_sequence_steps campaign defaults none db

-- The query of `ensure_default_steps_for_active_campaigns`.
abbrev has_no_steps : Option ℕ → Db → Campaign → Bool
has_no_steps org db c =
    c.is_active && in_org org c.organization_id && not (any (of_campaign c.id) db.steps)

abbrev ensure_each : List RawStep → List Campaign → Option Db → Option Db
ensure_each defaults [] o = o
ensure_each defaults (c ∷ cs) none = none
ensure_each defaults (c ∷ cs) (some db) =
    ensure_each defaults cs (ensure_default_steps defaults c.id db)

unfoldable pub ensure_steps : List RawStep → Option ℕ → Option ℕ → Db → Option Db
ensure_steps defaults none org db =
    ensure_each defaults (select (has_no_steps org db) db.campaigns) (some db)
ensure_steps defaults (some campaign) org db = ensure_default_steps defaults campaign db

unfoldable pub generate_due_followup_drafts :
    Services
    → Texts
    → List RawStep
    → Engine
    → Option ℕ
    → ℤ
    → Option ℕ
    → Bool
    → ℕ
    → Db
    → Option (List ℕ × Db)
generate_due_followup_drafts s texts defaults engine campaign limit org ignore_delay now db =
    Option.map (generate_from s texts engine campaign limit org ignore_delay now)
      (ensure_steps defaults campaign org db)
