-- ===== src/Store/Schema.antt =====
-- The rows of the tables, as the services write and read them.
use shiku_ai_powered_sales_d.Prelude.{ℕ, Bool, Option, List, Text}

-- `email_messages.status`; a missing status is `none`.
pub data Status : Type 0 where
  draft scheduled sending sent rejected failed generating received : Status

pub data Direction : Type 0 where
  inbound outbound : Direction

-- `email_messages.approved`: 0, 1 and -1.
pub data Approval : Type 0 where
  pending approved declined : Approval

pub data Channel : Type 0 where
  email linkedin whatsapp : Channel

-- `email_messages.last_error`: a text from elsewhere, or one built here from the values shown.
pub data LastError : Type 0 where
  reported : Text → LastError
  paused_after : ℕ → LastError
  paused_after_error : ℕ → Option Text → LastError
  claim_expired : ℕ → LastError

pub record Message : Type 0 where
  pub id : ℕ
  pub organization_id : ℕ
  pub lead_id : ℕ
  pub campaign_id : Option ℕ
  pub sequence_step_id : Option ℕ
  pub direction : Direction
  pub channel : Channel
  pub subject : Text
  pub body : Text
  pub status : Option Status
  pub approved : Approval
  pub approved_by : Option Text
  pub approved_at : Option ℕ
  pub scheduled_send_at : Option ℕ
  pub scheduled_claimed_at : Option ℕ
  pub sent_at : Option ℕ
  pub send_attempts : ℕ
  pub last_error : Option LastError
  pub intent : Option Text
  pub external_message_id : Option Text
  pub external_thread_id : Option Text
  pub created_at : ℕ

pub record Attachment : Type 0 where
  pub id : ℕ
  pub email_message_id : ℕ
  pub filename : Text
  pub content_type : Option Text
  pub content_base64 : Text
  pub size_bytes : ℕ

pub data LeadStatus : Type 0 where
  new contacted warm qualified meeting_proposed meeting_booked cold opted_out : LeadStatus

pub record Lead : Type 0 where
  pub id : ℕ
  pub organization_id : ℕ
  pub name : Text
  pub email : Text
  pub phone_number : Option Text
  pub linkedin_url : Option Text
  pub status : LeadStatus
  pub email_opt_out : Bool
  pub touch_count : ℕ
  pub last_contacted_at : Option ℕ
  pub last_inbound_at : Option ℕ

pub record Campaign : Type 0 where
  pub id : ℕ
  pub organization_id : ℕ
  pub is_active : Bool
  pub max_emails_per_lead : ℕ

pub record CampaignLead : Type 0 where
  pub campaign_id : ℕ
  pub lead_id : ℕ
  pub emails_sent : ℕ
  pub responded : Bool
  pub meeting_booked : Bool

-- A row of `campaign_sequences`: the channel of a step.
pub record CampaignSequence : Type 0 where
  pub campaign_id : ℕ
  pub step_number : ℕ
  pub channel : Channel
  pub delay_days : ℕ

-- A row of `campaign_sequence_steps`: the templates of a step.
pub record SequenceStep : Type 0 where
  pub id : ℕ
  pub campaign_id : ℕ
  pub step_number : ℕ
  pub delay_days : ℕ
  pub subject_template : Text
  pub body_template : Text
  pub is_active : Bool

-- A row of `campaign_lead_contexts`.
pub record LeadContext : Type 0 where
  pub organization_id : ℕ
  pub campaign_id : ℕ
  pub lead_id : ℕ
  pub last_outbound_subject : Option Text
  pub last_outbound_summary : Option Text
  pub last_inbound_subject : Option Text
  pub last_inbound_summary : Option Text
  pub latest_intent : Option Text
  pub updated_at : ℕ

-- `approval:{draft_id}:{actor_id}:{stamp}:{uuid}`
pub record ApprovalId : Type 0 where
  pub draft_id : ℕ
  pub actor_id : Text
  pub stamp : ℕ
  pub nonce : ℕ

-- The payload of a row of `events`.
pub data EventKind : Type 0 where
  draft_updated draft_rejected returned_to_review : EventKind
  draft_attachments_added : ℕ → EventKind
  draft_attachment_deleted : ℕ → EventKind
  draft_approved_scheduled : ℕ → EventKind
  draft_approved_sent : Option Text → Option Text → ℕ → EventKind
  draft_approval_send_failed : Option Text → EventKind
  scheduled_draft_updated : ℕ → EventKind
  draft_deleted : Bool → EventKind

pub record DraftEvent : Type 0 where
  pub organization_id : Option ℕ
  pub kind : EventKind
  pub draft_id : ℕ
  pub actor_id : Text
  pub approval_id : Option ApprovalId

-- A row of `events` that another service writes.
pub data OtherEvent : Type 0 where
  step_skipped : ℕ → ℕ → ℕ → Channel → OtherEvent
  sequence_updated : ℕ → ℕ → OtherEvent
  response_updated : ℕ → ℕ → Bool → OtherEvent
  followups_generated : ℕ → OtherEvent

pub data Event : Type 0 where
  of_draft : DraftEvent → Event
  other : Option ℕ → OtherEvent → Event

-- One call of `send_plain_email`.
pub record Outgoing : Type 0 where
  pub message_id : ℕ
  pub to : Text
  pub name : Text
  pub subject : Text
  pub body : Text
  pub html_body : Text
  pub attachments : List Attachment
  pub organization_id : ℕ

-- The tables, and in `outbox` the calls of `send_plain_email` so far, the latest last.
pub record Db : Type 0 where
  pub messages : List Message
  pub attachments : List Attachment
  pub leads : List Lead
  pub campaigns : List Campaign
  pub campaign_leads : List CampaignLead
  pub sequences : List CampaignSequence
  pub steps : List SequenceStep
  pub contexts : List LeadContext
  pub events : List Event
  pub next_message_id : ℕ
  pub next_attachment_id : ℕ
  pub next_step_id : ℕ
  pub outbox : List Outgoing
