-- ===== src/Outreach/Tests.antt =====
-- A lead with no page on LinkedIn in a campaign of an email and a LinkedIn step.
use shiku_ai_powered_sales_d.Prelude.{
  List, Text, [], codes, false, length, none, refl, some, sort_by, true, ℕ, ◌++◌, ◌+◌, ◌∷◌, ◌≡◌,
}
use shiku_ai_powered_sales_d.Store.Schema.{
  CampaignSequence, Channel, Db, Lead, Message, SequenceStep, approved, email, generating, linkedin,
  new, outbound, sent,
}
use shiku_ai_powered_sales_d.Outreach.Sequence.{
  NextStep, channel_prerequisite_error, find_next_sequence_step, last_of, linkedin_error,
  pending_touch, skip_intro, skip_step, touches_of,
}
use shiku_ai_powered_sales_d.Outreach.Claim.{
  claim_loop, claim_next_outreach_touch, claimed, nothing_left, refused,
}
use shiku_ai_powered_sales_d.Outreach.Eligibility.{IsEligible, claim_next_outreach_touch-IsEligible}
use shiku_ai_powered_sales_d.Outreach.Reservation.{claim_next_outreach_touch-exclusive}
use shiku_ai_powered_sales_d.Outreach.Skips.{FollowsStep, claim_next_outreach_touch-stuck}

abbrev str : ℕ → Text
str n = (b'0' + n) ∷ []

abbrev lead : Lead
lead = record {
  id = 1;
  organization_id = 1;
  name = codes "Ada";
  email = codes "ada@example.org";
  phone_number = none;
  linkedin_url = none;
  status = new;
  email_opt_out = false;
  touch_count = 0;
  last_contacted_at = none;
  last_inbound_at = none;
}

abbrev sequence : ℕ → Channel → CampaignSequence
sequence n channel = record { campaign_id = 1; step_number = n; channel = channel; delay_days = 0 }

abbrev template : SequenceStep
template = record {
  id = 5;
  campaign_id = 1;
  step_number = 1;
  delay_days = 0;
  subject_template = [];
  body_template = [];
  is_active = true;
}

abbrev first : Message
first = record {
  id = 1;
  organization_id = 1;
  lead_id = 1;
  campaign_id = some 1;
  sequence_step_id = some 5;
  direction = outbound;
  channel = email;
  subject = codes "Hello";
  body = codes "Text";
  status = some sent;
  approved = approved;
  approved_by = none;
  approved_at = none;
  scheduled_send_at = none;
  scheduled_claimed_at = none;
  sent_at = some 5;
  send_attempts = 1;
  last_error = none;
  intent = none;
  external_message_id = none;
  external_thread_id = none;
  created_at = 3;
}

abbrev db_of : List Message → Db
db_of messages = record {
  messages = messages;
  attachments = [];
  leads = lead ∷ [];
  campaigns = [];
  campaign_leads = [];
  sequences = sequence 1 email ∷ sequence 2 linkedin ∷ [];
  steps = template ∷ [];
  contexts = [];
  events = [];
  next_message_id = 2;
  next_attachment_id = 1;
  next_step_id = 6;
  outbox = [];
}

abbrev step_one : NextStep
step_one = record {
  step_number = 1;
  channel = email;
  delay_days = 0;
  sequence_step_id = some 5;
  delay_ignored = false;
}

abbrev step_two : NextStep
step_two = record {
  step_number = 2;
  channel = linkedin;
  delay_days = 0;
  sequence_step_id = none;
  delay_ignored = false;
}

reserved_first :
    (claim_next_outreach_touch str 1 1 (some 1) none false 10 (db_of [])).0 ≡ claimed 2 step_one []
unfolding claim_next_outreach_touch claim_loop find_next_sequence_step touches_of
    channel_prerequisite_error sort_by
reserved_first = refl

claim_next_outreach_touch-IsEligible_example : IsEligible 1 1 1 (db_of []) step_one
claim_next_outreach_touch-IsEligible_example =
    claim_next_outreach_touch-IsEligible str 1 1 1 none false 10 (db_of []) 2 step_one []
      reserved_first

claim_next_outreach_touch-exclusive_example :
    let d = (claim_next_outreach_touch str 1 1 (some 1) none false 10 (db_of [])).1 in
    claim_next_outreach_touch str 1 1 (some 1) none true 11 d
    ≡ (refused (pending_touch (some 1) (some generating)), d)
claim_next_outreach_touch-exclusive_example =
    claim_next_outreach_touch-exclusive str 1 1 1 none none false true 10 11 (db_of []) 2 step_one
      [] tt reserved_first

abbrev reason : Text
reason = skip_intro str 2 ++ linkedin_error

follows : FollowsStep (template ∷ []) (last_of (touches_of 1 1 1 (db_of (first ∷ []))))
unfolding touches_of sort_by
follows = (refl, (0, refl))

skips : find_next_sequence_step str 1 1 1 false 10 (db_of (first ∷ [])) ≡ skip_step reason step_two
unfolding find_next_sequence_step touches_of channel_prerequisite_error sort_by
skips = refl

claim_next_outreach_touch-stuck_example :
    let (c, d) = claim_next_outreach_touch str 1 1 (some 1) none false 10 (db_of (first ∷ [])) in
    (c ≡ nothing_left)
    × (find_next_sequence_step str 1 1 1 false 10 d ≡ skip_step reason step_two)
    × (length d.messages ≡ 1 + 5)
claim_next_outreach_touch-stuck_example =
    claim_next_outreach_touch-stuck str 1 1 1 none false 10 reason step_two (db_of (first ∷ []))
      refl follows skips
