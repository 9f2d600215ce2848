-- ===== src/Contexts/Tests.antt =====
-- A lead whose follow-up is due answers.
use shiku_ai_powered_sales_d.Prelude.{
  All, Option, Text, [], codes, false, length, none, pos, refl, some, sort_by, true, ◌∷◌, ◌≡◌,
}
use shiku_ai_powered_sales_d.Store.Schema.{Campaign, Db, Lead, SequenceStep, contacted}
use shiku_ai_powered_sales_d.Drafts.Replies.{SendResult, Services}
use shiku_ai_powered_sales_d.Drafts.Scheduler.{postgres, sqlite}
use shiku_ai_powered_sales_d.Sequences.Followups.{due_followups}
use shiku_ai_powered_sales_d.Contexts.Inbound.{record_inbound, set_campaign_lead_responded}
use shiku_ai_powered_sales_d.Contexts.Halt.{IsOther, due_followups-record_inbound}
use mathlib.Core.Option

abbrev answer : SendResult
answer = record { is_ok = false; message_id = none; thread_id = none; error = none }

abbrev services : Services
services = record {
  max_attempts = 3;
  retry_delay = 300;
  claim_timeout = 900;
  clean_quick_reply = λ t. t;
  strip_quick_reply = λ t. t;
  to_html = λ t. t;
  summarize = λ t. t;
  sender_company = λ k. none;
  normalize_subject = λ t c. t;
  deliver = λ n o. some answer;
  parse_iso = λ t. none;
  b64decode = λ t. none;
  b64encode = λ t. [];
  nonce = λ n. n;
}

abbrev campaign : Campaign
campaign = record { id = 4; organization_id = 2; is_active = true; max_emails_per_lead = 3 }

abbrev lead : Lead
lead = record {
  id = 7;
  organization_id = 2;
  name = codes "Ada";
  email = codes "ada@example.org";
  phone_number = none;
  linkedin_url = none;
  status = contacted;
  email_opt_out = false;
  touch_count = 1;
  last_contacted_at = some 5;
  last_inbound_at = none;
}

abbrev step : SequenceStep
step = record {
  id = 6;
  campaign_id = 4;
  step_number = 2;
  delay_days = 3;
  subject_template = codes "Hello";
  body_template = codes "Text";
  is_active = true;
}

abbrev db : Db
db = record {
  messages = [];
  attachments = [];
  leads = lead ∷ [];
  campaigns = campaign ∷ [];
  campaign_leads =
      record {
        campaign_id = 4;
        lead_id = 7;
        emails_sent = 1;
        responded = false;
        meeting_booked = false;
      }
      ∷ [];
  sequences = [];
  steps = step ∷ [];
  contexts = [];
  events = [];
  next_message_id = 2;
  next_attachment_id = 1;
  next_step_id = 7;
  outbox = [];
}

abbrev intent : Option Text
intent = some (codes " Question ")

abbrev answered : Db
answered = record_inbound services (some 2) (some 4) (some 7) none (some (codes "Yes")) intent 9 db

due_before : length (due_followups sqlite none none (pos 9) db) ≡ 1
unfolding due_followups sort_by
due_before = refl

due_after : due_followups sqlite none none (pos 9) answered ≡ []
unfolding due_followups record_inbound sort_by
due_after = refl

-- A bounce leaves the follow-up, and an operator can ask for it again.
due_bounced :
    length (
      due_followups sqlite none none
        (pos 9)
        (record_inbound services none (some 4) (some 7) none none (some (codes "Bounce")) 9 db))
    ≡ 1
unfolding due_followups record_inbound sort_by
due_bounced = refl

due_again :
    Option.map
      (λ d. length (due_followups postgres none none (pos 9) d))
      (set_campaign_lead_responded 2 4 7 false answered)
    ≡ some 1
unfolding due_followups record_inbound set_campaign_lead_responded sort_by
due_again = refl

of_another_organization : set_campaign_lead_responded 3 4 7 false answered ≡ none
unfolding record_inbound set_campaign_lead_responded
of_another_organization = refl

due_followups-record_inbound_example : All (IsOther 4 7) (
    due_followups sqlite
      (some 4)
      none
      (pos 9)
      (record_inbound services (some 2) (some 4) (some 7) none (some (codes "Yes")) intent 9 db))
due_followups-record_inbound_example =
    due_followups-record_inbound services sqlite (some 2) 4 7 none (some (codes "Yes")) intent 9
      (some 4) none (pos 9) db refl refl
