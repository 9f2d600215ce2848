-- ===== src/Sequences/Tests.antt =====
-- A campaign whose one step, to which a message refers, is replaced by another.
use shiku_ai_powered_sales_d.Prelude.{
  All, Bool, List, [], any, arith, codes, false, length, none, pos, refl, some, sort_by, true, ℕ,
  ◌∷◌, ◌≡◌, ◌≤◌,
}
use shiku_ai_powered_sales_d.Store.Schema.{
  Campaign, Db, Lead, Message, SequenceStep, approved, contacted, email, other, outbound, sent,
  sequence_updated,
}
use shiku_ai_powered_sales_d.Drafts.Replies.{SendResult, Services}
use shiku_ai_powered_sales_d.Drafts.Send.{record_outbound}
use shiku_ai_powered_sales_d.Drafts.Scheduler.{sqlite}
use shiku_ai_powered_sales_d.Sequences.Replace.{
  RawStep, clean_steps, put_steps, replace_sequence_steps, retire_steps,
}
use shiku_ai_powered_sales_d.Sequences.References.{is_step, replace_sequence_steps-IsKept}
use shiku_ai_powered_sales_d.Sequences.Subject.{is_reply_like, strip_replies, strip_replies-ends}
use shiku_ai_powered_sales_d.Sequences.Followups.{
  Texts, due_followups, generate_each, generate_from, insert_followup,
}
use shiku_ai_powered_sales_d.Sequences.Drafted.{HasDrafted, IsSingle, generate_from-HasDrafted}
use shiku_ai_powered_sales_d.Sequences.Repeats.{generate_from-again}
use shiku_ai_powered_sales_d.Sequences.Upcoming.{
  AgreesWith, list_upcoming_followups, list_upcoming_followups-AgreesWith,
}

abbrev template : ℕ → ℕ → Bool → SequenceStep
template k n active = record {
  id = k;
  campaign_id = 1;
  step_number = n;
  delay_days = 3;
  subject_template = codes "Hello";
  body_template = codes "Text";
  is_active = active;
}

abbrev campaign : Campaign
campaign = record { id = 1; organization_id = 1; is_active = true; max_emails_per_lead = 3 }

abbrev message : Message
message = record {
  id = 1;
  organization_id = 1;
  lead_id = 1;
  campaign_id = some 1;
  sequence_step_id = some 5;
  direction = outbound;
  channel = email;
  subject = codes "Hello";
  body = codes "Text";
  status = some sent;
  approved = approved;
  approved_by = none;
  approved_at = none;
  scheduled_send_at = none;
  scheduled_claimed_at = none;
  sent_at = some 5;
  send_attempts = 1;
  last_error = none;
  intent = none;
  external_message_id = none;
  external_thread_id = none;
  created_at = 3;
}

abbrev db : Db
db = record {
  messages = message ∷ [];
  attachments = [];
  leads = [];
  campaigns = campaign ∷ [];
  campaign_leads = [];
  sequences = [];
  steps = template 5 1 true ∷ template 6 3 true ∷ [];
  contexts = [];
  events = [];
  next_message_id = 2;
  next_attachment_id = 1;
  next_step_id = 7;
  outbox = [];
}

abbrev asked : List RawStep
asked =
    record {
      step_number = pos 2;
      delay_days = none;
      subject_template = codes " Hello ";
      body_template = codes "Text";
      is_active = true;
    }
    ∷ []

-- The first step is switched off, the third is deleted, and the second is new.
abbrev after : Db
after = record db {
  steps = template 5 1 false ∷ template 7 2 true ∷ [];
  next_step_id = 8;
  events = other (some 1) (sequence_updated 1 1) ∷ [];
}

replaced : replace_sequence_steps 1 asked none db ≡ some after
unfolding replace_sequence_steps clean_steps put_steps retire_steps sort_by
replaced = refl

replace_sequence_steps-IsKept_example : any (is_step 5 1 1) after.steps ≡ true
replace_sequence_steps-IsKept_example =
    replace_sequence_steps-IsKept 5 1 1 1 asked none db after replaced refl refl

abbrev answer : SendResult
answer = record { is_ok = false; message_id = none; thread_id = none; error = none }

abbrev services : Services
services = record {
  max_attempts = 3;
  retry_delay = 300;
  claim_timeout = 900;
  clean_quick_reply = λ t. t;
  strip_quick_reply = λ t. t;
  to_html = λ t. t;
  summarize = λ t. t;
  sender_company = λ k. none;
  normalize_subject = λ t c. t;
  deliver = λ n o. some answer;
  parse_iso = λ t. none;
  b64decode = λ t. none;
  b64encode = λ t. [];
  nonce = λ n. n;
}

abbrev lead : Lead
lead = record {
  id = 1;
  organization_id = 1;
  name = codes "Ada";
  email = codes "ada@example.org";
  phone_number = none;
  linkedin_url = none;
  status = contacted;
  email_opt_out = false;
  touch_count = 1;
  last_contacted_at = some 5;
  last_inbound_at = none;
}

-- The second step is due for the lead.
abbrev waiting : Db
waiting = record db {
  messages = [];
  leads = lead ∷ [];
  campaign_leads =
      record {
        campaign_id = 1;
        lead_id = 1;
        emails_sent = 2;
        responded = false;
        meeting_booked = false;
      }
      ∷ [];
}

abbrev texts : Texts
texts = record {
  followup_subject = λ d. d.step.subject_template;
  followup_body = λ d. d.step.body_template;
}

drafted : (generate_from services texts sqlite none (pos 9) none false 400000 waiting).0 ≡ 2 ∷ []
unfolding generate_from generate_each due_followups insert_followup record_outbound sort_by
drafted = refl

too_early : (generate_from services texts sqlite none (pos 9) none false 4 waiting).0 ≡ []
unfolding generate_from generate_each due_followups insert_followup record_outbound sort_by
too_early = refl

subject : strip_replies 12 (codes "Re: FWD:Hello") ≡ codes "Hello"
unfolding strip_replies is_reply_like
subject = refl

strip_replies-ends_example :
    (is_reply_like (strip_replies 14 (codes "Re: FWD:Hello")) ≡ false)
    × (strip_replies 14 (codes "Re: FWD:Hello")
        ≡ strip_replies (length (codes "Re: FWD:Hello")) (codes "Re: FWD:Hello"))
strip_replies-ends_example = strip_replies-ends 14 (codes "Re: FWD:Hello") (omega arith)

waiting-IsSingle : IsSingle waiting.messages
waiting-IsSingle lead campaign step = omega arith

generate_from-HasDrafted_example :
    HasDrafted waiting none none services texts false 400000 []
      (generate_from services texts sqlite none (pos 9) none false 400000 waiting).0
      (generate_from services texts sqlite none (pos 9) none false 400000 waiting).1.messages
    × (length (generate_from services texts sqlite none (pos 9) none false 400000 waiting).0 ≤ 200)
    × IsSingle
        (generate_from services texts sqlite none (pos 9) none false 400000 waiting).1.messages
generate_from-HasDrafted_example =
    generate_from-HasDrafted services texts sqlite none (pos 9) none false 400000 waiting
      waiting-IsSingle

generate_from-again_example :
    generate_from services texts sqlite none
      (pos 9)
      none
      false
      400000
      (generate_from services texts sqlite none (pos 9) none false 400000 waiting).1
    ≡ ([], (generate_from services texts sqlite none (pos 9) none false 400000 waiting).1)
generate_from-again_example =
    generate_from-again services texts sqlite none (pos 9) none false 400000 waiting

list_upcoming_followups-AgreesWith_example :
    All
      (AgreesWith false 400000 waiting)
      (list_upcoming_followups sqlite none (pos 9) none false 400000 waiting)
list_upcoming_followups-AgreesWith_example =
    list_upcoming_followups-AgreesWith sqlite none (pos 9) none false 400000 waiting
