-- ===== src/Outreach/Claim.antt =====
-- `_record_skipped_sequence_step`, `_claim_next_outreach_touch`, `_complete_initial_outreach_touch`
-- and `_fail_initial_outreach_touch`. The statements are taken to succeed.
use shiku_ai_powered_sales_d.Prelude.{
  Bool, List, Option, Text, [], any, codes, false, if◌then◌else◌, ltb, none, or_text, some, suc,
  take, true, update_rows, zero, ℕ, ◌&&◌, ◌++◌, ◌+◌, ◌==◌, ◌∷◌,
}
use shiku_ai_powered_sales_d.Store.Schema.{
  Approval, CampaignLead, Channel, Db, Message, Status, draft, email, failed, generating, linkedin,
  other, outbound, pending, reported, scheduled, sending, sent, step_skipped, whatsapp,
}
use shiku_ai_powered_sales_d.Store.Rows.{
  is_generating, is_missing, is_outbound, is_sent, update_message, with_id,
}
use shiku_ai_powered_sales_d.Drafts.Send.{of_lead}
use shiku_ai_powered_sales_d.Outreach.Sequence.{
  Candidate, NextStep, Refusal, find_next_sequence_step, ineligible, ready, skip_step,
}

abbrev channel_name : Channel → Text
channel_name email = codes "email"
channel_name linkedin = codes "linkedin"
channel_name whatsapp = codes "whatsapp"

abbrev blank_message : Db → ℕ → Message
blank_message db now = record {
  id = db.next_message_id;
  organization_id = 0;
  lead_id = 0;
  campaign_id = none;
  sequence_step_id = none;
  direction = outbound;
  channel = email;
  subject = [];
  body = [];
  status = none;
  approved = pending;
  approved_by = none;
  approved_at = none;
  scheduled_send_at = none;
  scheduled_claimed_at = none;
  sent_at = none;
  send_attempts = 0;
  last_error = none;
  intent = none;
  external_message_id = none;
  external_thread_id = none;
  created_at = now;
}

abbrev pub insert_message : Message → Db → Db
insert_message m db = record db {
  messages = db.messages ++ m ∷ [];
  next_message_id = db.next_message_id + 1;
}

-- A step that the loop left out.
pub record Skipped : Type 0 where
  pub step_number : ℕ
  pub channel : Channel
  pub reason : Text

pub data Claim : Type 0 where
  lead_required nothing_left conflicted : Claim
  refused : Refusal → Claim
  claimed : ℕ → NextStep → List Skipped → Claim

module _ (str : ℕ → Text) (org campaign lead : ℕ) (lead_email : Option Text) (now : ℕ) where
  abbrev pub skipped_message : Text → NextStep → Db → Message
  skipped_message reason n db = record (blank_message db now) {
    organization_id = org;
    lead_id = lead;
    campaign_id = some campaign;
    sequence_step_id = n.sequence_step_id;
    channel = n.channel;
    subject = codes "Skipped " ++ channel_name n.channel ++ codes " outreach";
    body =
        codes "Skipped step "
        ++ str n.step_number
        ++ codes " for "
        ++ or_text lead_email (codes "lead")
        ++ codes ": "
        ++ reason;
    status = some failed;
    last_error = some (reported (take 1000 reason));
  }

  -- `CASE WHEN emails_sent < ? THEN ? ELSE emails_sent END`
  abbrev pub raise_touches : ℕ → CampaignLead → CampaignLead
  raise_touches n c = record c { emails_sent = if ltb c.emails_sent n then n else c.emails_sent }

  unfoldable pub record_skipped_sequence_step : Text → NextStep → Db → Db
  record_skipped_sequence_step reason n db =
      let inserted = insert_message (skipped_message reason n db) db in
      record inserted {
        campaign_leads =
            update_rows (of_lead campaign lead) (raise_touches n.step_number) db.campaign_leads;
        events =
            db.events ++ other (some org) (step_skipped campaign lead n.step_number n.channel) ∷ [];
      }

  abbrev pub reserved_message : NextStep → Db → Message
  reserved_message n db = record (blank_message db now) {
    organization_id = org;
    lead_id = lead;
    campaign_id = some campaign;
    sequence_step_id = n.sequence_step_id;
    channel = n.channel;
    subject = codes "Generating " ++ channel_name n.channel ++ codes " outreach";
    body =
        codes "Reserved step "
        ++ str n.step_number
        ++ codes " generation for "
        ++ or_text lead_email (codes "lead")
        ++ codes ".";
    status = some generating;
  }

  abbrev pub skipped_of : Text → NextStep → Skipped
  skipped_of reason n = record { step_number = n.step_number; channel = n.channel; reason = reason }

  -- One turn of the loop, with the rest of the loop as a function.
  abbrev pub turn : (List Skipped → Db → Claim × Db) → List Skipped → Candidate → Db → Claim × Db
  turn rest skipped (ready n) db =
      (claimed db.next_message_id n skipped, insert_message (reserved_message n db) db)
  turn rest skipped (skip_step reason n) db =
      rest (skipped ++ skipped_of reason n ∷ []) (record_skipped_sequence_step reason n db)
  turn rest skipped (ineligible r) db = (refused r, db)

  -- `for _attempt in range(5)`, with the turns that are left.
  unfoldable pub claim_loop : Bool → ℕ → List Skipped → Db → Claim × Db
  claim_loop ignore zero skipped db = (nothing_left, db)
  claim_loop ignore (suc turns) skipped db =
      turn (claim_loop ignore turns) skipped
        (find_next_sequence_step str org campaign lead ignore now db) db

-- The statuses of the unique index `idx_email_messages_unique_campaign_first_touch`.
abbrev is_indexed_status : Option Status → Bool
is_indexed_status (some draft) = true
is_indexed_status (some scheduled) = true
is_indexed_status (some sending) = true
is_indexed_status (some sent) = true
is_indexed_status (some generating) = true
is_indexed_status _ = false

abbrev is_of_campaign : ℕ → Option ℕ → Bool
is_of_campaign campaign none = false
is_of_campaign campaign (some c) = c == campaign

-- A row of that index, which has no step.
abbrev pub is_first_touch : ℕ → ℕ → ℕ → Message → Bool
is_first_touch org campaign lead m =
    m.organization_id == org
    && is_of_campaign campaign m.campaign_id
    && m.lead_id == lead
    && is_outbound m.direction
    && is_missing m.sequence_step_id
    && is_indexed_status m.status

-- The insertion of a row that the index has already raises, which takes back the whole call. The
-- rows of the steps that were left out have failed, so they are not in the index.
abbrev pub unless_conflict : ℕ → ℕ → ℕ → Db → Claim × Db → Claim × Db
unless_conflict org campaign lead db (claimed k n ss, d) =
    if is_missing n.sequence_step_id && any (is_first_touch org campaign lead) db.messages
    then (conflicted, db)
    else (claimed k n ss, d)
unless_conflict org campaign lead db (lead_required, d) = (lead_required, d)
unless_conflict org campaign lead db (nothing_left, d) = (nothing_left, d)
unless_conflict org campaign lead db (conflicted, d) = (conflicted, d)
unless_conflict org campaign lead db (refused r, d) = (refused r, d)

unfoldable pub claim_next_outreach_touch :
    (ℕ → Text) → ℕ → ℕ → Option ℕ → Option Text → Bool → ℕ → Db → Claim × Db
claim_next_outreach_touch str org campaign none address ignore now db = (lead_required, db)
claim_next_outreach_touch str org campaign (some lead) address ignore now db =
    if lead == 0
    then (lead_required, db)
    else unless_conflict org campaign lead db
        (claim_loop str org campaign lead address now ignore 5 [] db)

-- The arguments of `_complete_initial_outreach_touch`.
pub record Completion : Type 0 where
  pub subject : Text
  pub body : Text
  pub status : Status
  pub approved : Approval
  pub external_message_id : Option Text
  pub external_thread_id : Option Text
  pub channel : Channel

abbrev complete_touch : Completion → ℕ → Message → Message
complete_touch c now m = record m {
  subject = c.subject;
  body = c.body;
  status = some c.status;
  approved = c.approved;
  external_message_id = c.external_message_id;
  external_thread_id = c.external_thread_id;
  sent_at = if is_sent (some c.status) then some now else m.sent_at;
  last_error = none;
  channel = c.channel;
}

unfoldable pub complete_initial_outreach_touch : ℕ → Completion → ℕ → Db → Db
complete_initial_outreach_touch k c now = update_message k (complete_touch c now)

abbrev pub fail_touch : Text → Message → Message
fail_touch error m = record m {
  status = some failed;
  last_error = some (reported (take 1000 error));
}

abbrev pub is_generating_row : ℕ → Message → Bool
is_generating_row k m = with_id k m && is_generating m.status

unfoldable pub fail_initial_outreach_touch : Option ℕ → Text → Db → Db
fail_initial_outreach_touch none error db = db
fail_initial_outreach_touch (some k) error db =
    if k == 0
    then db
    else record db { messages = update_rows (is_generating_row k) (fail_touch error) db.messages }
