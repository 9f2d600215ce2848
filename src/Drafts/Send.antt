-- ===== src/Drafts/Send.antt =====
-- `send_approved_draft` of services/draft_service.py, in two parts: what it commits before it calls
-- `send_plain_email`, and what it writes when the call has returned.
use shiku_ai_powered_sales_d.Prelude.{
  Bool, List, Option, Text, [], any, codes, false, find_row, has_prefix, if◌then◌else◌, is_empty,
  lower, none, not, select, some, strip, true, update_rows, ℕ, ◌&&◌, ◌++◌, ◌+◌, ◌==◌, ◌||◌, ◌∷◌,
}
use shiku_ai_powered_sales_d.Store.Schema.{
  Approval, Attachment, CampaignLead, Db, Lead, LeadContext, Message, Outgoing, Status, declined,
}
use shiku_ai_powered_sales_d.Store.Rows.{
  get_lead, in_org, is_draft, is_missing, is_outbound, is_scheduled, is_sending, truthy,
  update_message, with_id,
}
use shiku_ai_powered_sales_d.Drafts.Replies.{Services}

abbrev is_sendable_status : Option Status → Bool
is_sendable_status status =
    is_draft status || is_scheduled status || is_sending status || is_missing status

-- `approved IN (0, 1)`
abbrev is_not_declined : Approval → Bool
is_not_declined declined = false
is_not_declined _ = true

-- The query of `send_approved_draft`, the join with the lead apart.
abbrev pub is_sendable : ℕ → Option ℕ → Message → Bool
is_sendable draft_id org m =
    with_id draft_id m
    && is_outbound m.direction
    && is_sendable_status m.status
    && is_not_declined m.approved
    && in_org org m.organization_id

-- The row that the query returns, with the columns of its lead.
pub record Pick : Type 0 where
  pub message : Message
  pub lead : Lead

abbrev join_lead : List Lead → Message → Option Pick
join_lead leads m = elim (get_lead m.lead_id leads) [
  | none ↦ none
  | some l ↦ some (record { message = m; lead = l })
]

abbrev pub join_leads : List Lead → Option Message → Option Pick
join_leads leads none = none
join_leads leads (some m) = join_lead leads m

unfoldable pub pick_sendable : ℕ → Option ℕ → Db → Option Pick
pick_sendable draft_id org db =
    join_leads db.leads (find_row (is_sendable draft_id org) db.messages)

-- `_attachment_row` and `get_draft_attachments`
abbrev pub get_draft_attachments : ℕ → Db → List Attachment
get_draft_attachments draft_id db =
    select (λ (a : Attachment). a.email_message_id == draft_id) db.attachments

abbrev pub count_attempt : Text → Message → Message
count_attempt subject m = record m {
  send_attempts = m.send_attempts + 1;
  last_error = none;
  subject = subject;
}

-- `campaign_context_service.record_outbound`; the row is new or replaces the last outbound part.
abbrev new_context : ℕ → ℕ → ℕ → Text → Text → ℕ → LeadContext
new_context org campaign lead subject summary now = record {
  organization_id = org;
  campaign_id = campaign;
  lead_id = lead;
  last_outbound_subject = some subject;
  last_outbound_summary = some summary;
  last_inbound_subject = none;
  last_inbound_summary = none;
  latest_intent = none;
  updated_at = now;
}

abbrev pub of_pair : ℕ → ℕ → LeadContext → Bool
of_pair campaign lead c = c.campaign_id == campaign && c.lead_id == lead

abbrev replace_outbound : ℕ → Text → Text → ℕ → LeadContext → LeadContext
replace_outbound org subject summary now c = record c {
  organization_id = org;
  last_outbound_subject = some subject;
  last_outbound_summary = some summary;
  updated_at = now;
}

module _ (s : Services) where
  abbrev pub subject_of : Pick → Text
  subject_of p = s.normalize_subject p.message.subject (s.sender_company p.message.organization_id)

  abbrev pub is_reply_draft : Text → Bool
  is_reply_draft subject = has_prefix (codes "re:") (lower (strip subject))

  abbrev pub body_of : Pick → Text
  body_of p =
      let body = s.clean_quick_reply p.message.body in
      if is_reply_draft (subject_of p) then s.strip_quick_reply body else body

  -- The call of `send_plain_email`.
  unfoldable pub outgoing : Pick → Db → Outgoing
  outgoing p db = record {
    message_id = p.message.id;
    to = p.lead.email;
    name = p.lead.name;
    subject = subject_of p;
    body = body_of p;
    html_body = s.to_html (body_of p);
    attachments =
        select (λ (a : Attachment). not (is_empty a.content_base64))
          (get_draft_attachments p.message.id db);
    organization_id = p.message.organization_id;
  }

  -- The two updates and the commit before the call, and the call itself.
  unfoldable pub begin_send : Pick → Db → Db
  begin_send p db =
      let db' = update_message p.message.id (count_attempt (subject_of p)) db in
      record db' { outbox = db.outbox ++ outgoing p db ∷ [] }

  unfoldable pub record_outbound : ℕ → Option ℕ → ℕ → Text → Text → ℕ → Db → Db
  record_outbound org none lead subject body now db = db
  record_outbound org (some campaign) lead subject body now db =
      let summary = s.summarize body in
      let key = of_pair campaign lead in
      if campaign == 0 || lead == 0 || is_empty summary
      then db
      else if any key db.contexts
      then record db {
        contexts = update_rows key (replace_outbound org subject summary now) db.contexts;
      }
      else record db {
        contexts = db.contexts ++ new_context org campaign lead subject summary now ∷ [];
      }

-- `lead_service.DBLeadProvider.update_lead_touch`
abbrev pub of_lead : ℕ → ℕ → CampaignLead → Bool
of_lead campaign lead c = c.campaign_id == campaign && c.lead_id == lead

abbrev touch_lead : ℕ → Lead → Lead
touch_lead now l = record l { touch_count = l.touch_count + 1; last_contacted_at = some now }

abbrev pub count_email : CampaignLead → CampaignLead
count_email c = record c { emails_sent = c.emails_sent + 1 }

abbrev pub first_email : ℕ → ℕ → CampaignLead
first_email campaign lead = record {
  campaign_id = campaign;
  lead_id = lead;
  emails_sent = 1;
  responded = false;
  meeting_booked = false;
}

unfoldable pub update_lead_touch : ℕ → ℕ → ℕ → Db → Db
update_lead_touch lead campaign now db = if lead == 0 || campaign == 0 then db else record db {
  leads = update_rows (λ (l : Lead). l.id == lead) (touch_lead now) db.leads;
  campaign_leads =
      if any (of_lead campaign lead) db.campaign_leads
      then update_rows (of_lead campaign lead) count_email db.campaign_leads
      else db.campaign_leads ++ first_email campaign lead ∷ [];
}

-- The touch of a sequence step, where the message has a lead, a campaign and a step.
abbrev pub touch_sequence : Message → ℕ → Db → Db
touch_sequence m now db = elim m.campaign_id [
  | none ↦ db
  | some campaign ↦
      if truthy (some m.lead_id) && truthy (some campaign) && truthy m.sequence_step_id
      then update_lead_touch m.lead_id campaign now db
      else db
]
