-- ===== src/Drafts/Tests.antt =====
-- The requests on a table of three messages.
use shiku_ai_powered_sales_d.Prelude.{
  All, List, Option, [], codes, false, if◌then◌else◌, length, none, refl, some, true, ℕ, ◌++◌, ◌==◌,
  ◌∷◌, ◌≡◌, ◌≤◌,
}
use shiku_ai_powered_sales_d.Store.Schema.{
  Approval, Db, Lead, Message, Outgoing, Status, approved, draft, email, new, outbound, pending,
  scheduled, sending, sent,
}
use shiku_ai_powered_sales_d.Store.Rows.{get_message, is_approved, is_missing, log_draft_event}
use shiku_ai_powered_sales_d.Store.Distinct.{Distinct}
use shiku_ai_powered_sales_d.Drafts.Replies.{SendResult, Services}
use shiku_ai_powered_sales_d.Drafts.Send.{
  Pick, begin_send, outgoing, pick_sendable, record_outbound, update_lead_touch,
}
use shiku_ai_powered_sales_d.Drafts.Finish.{finish_send, finish_sent, send_approved_draft}
use shiku_ai_powered_sales_d.Drafts.Review.{batch_approve_drafts, pick_reviewable}
use shiku_ai_powered_sales_d.Drafts.Edit.{process_single_draft_delete}
use shiku_ai_powered_sales_d.Drafts.Scheduler.{
  claim_limit, postgres, send_due_scheduled_drafts, sqlite, sweep,
}
use shiku_ai_powered_sales_d.Drafts.Requests.{Request, delete, review, run_scheduler, serve_all}
use shiku_ai_powered_sales_d.Drafts.Attachments.{Upload, add_draft_attachments}
use shiku_ai_powered_sales_d.Drafts.Uploads.{HasAttached, add_draft_attachments-HasAttached}
use shiku_ai_powered_sales_d.Drafts.Attempts.{IsLeft, send_approved_draft-IsLeft}
use shiku_ai_powered_sales_d.Drafts.Final.{serve_all_final}
use shiku_ai_powered_sales_d.Drafts.Lifecycle.{IsSound, serve_all-IsSound}
use shiku_ai_powered_sales_d.Drafts.Authority.{is_due_in, send_due_scheduled_drafts-outbox}
use shiku_ai_powered_sales_d.Drafts.Batches.{IsAccounted, batch_approve_drafts-IsAccounted}
use shiku_ai_powered_sales_d.Drafts.Races.{begin_send-pick}
use shiku_ai_powered_sales_d.Drafts.Deletion.{IsDeletion, process_single_draft_delete-IsDeletion}
use shiku_ai_powered_sales_d.Drafts.Recovery.{IsRecovered, sweep-send_approved_draft}

-- The first mail is sent, the second raises, and the others time out.
abbrev provider : ℕ → Outgoing → Option SendResult
provider n o =
    if n == 0
    then some
        (record { is_ok = true; message_id = some (codes "m"); thread_id = none; error = none })
    else if n == 1
    then none
    else some (record {
      is_ok = false;
      message_id = none;
      thread_id = none;
      error = some (codes "timeout");
    })

abbrev services : Services
services = record {
  max_attempts = 3;
  retry_delay = 300;
  claim_timeout = 900;
  clean_quick_reply = λ t. t;
  strip_quick_reply = λ t. t;
  to_html = λ t. t;
  summarize = λ t. t;
  sender_company = λ k. none;
  normalize_subject = λ t c. t;
  deliver = provider;
  parse_iso = λ t. some (length t);
  b64decode = λ t. some t;
  b64encode = λ t. t;
  nonce = λ n. n;
}

abbrev message : ℕ → Status → Approval → Option ℕ → Option ℕ → Option ℕ → Message
message k status approval scheduled_at claimed_at sent_at = record {
  id = k;
  organization_id = 1;
  lead_id = 1;
  campaign_id = some 1;
  sequence_step_id = none;
  direction = outbound;
  channel = email;
  subject = codes "Hello";
  body = codes "Text";
  status = some status;
  approved = approval;
  approved_by = if is_approved approval then some (codes "ada") else none;
  approved_at = none;
  scheduled_send_at = scheduled_at;
  scheduled_claimed_at = claimed_at;
  sent_at = sent_at;
  send_attempts = 0;
  last_error = none;
  intent = none;
  external_message_id = none;
  external_thread_id = none;
  created_at = 0;
}

abbrev lead : Lead
lead = record {
  id = 1;
  organization_id = 1;
  name = codes "Ada";
  email = codes "ada@example.org";
  phone_number = none;
  linkedin_url = none;
  status = new;
  email_opt_out = false;
  touch_count = 0;
  last_contacted_at = none;
  last_inbound_at = none;
}

abbrev waiting : Message
waiting = message 2 scheduled approved (some 10) none none

abbrev done : Message
done = message 3 sent approved none none (some 5)

abbrev table : List Message
table = message 1 draft pending none none none ∷ waiting ∷ done ∷ []

abbrev db : Db
db = record {
  messages = table;
  attachments = [];
  leads = lead ∷ [];
  campaigns = [];
  campaign_leads = [];
  sequences = [];
  steps = [];
  contexts = [];
  events = [];
  next_message_id = 4;
  next_attachment_id = 1;
  next_step_id = 1;
  outbox = [];
}

abbrev upload : Upload
upload = record { filename = codes "a/b.pdf"; content_type = none; content_base64 = codes "QUJD" }

abbrev history : List (ℕ × Request)
history =
    (20, run_scheduler postgres 10 (codes "worker") none)
    ∷ (
      30,
      review 1 true (codes "ada") (some (codes "20260101T000000000000000000000000000000")) none,
    )
    ∷ (31, delete 3 true (codes "ada") none)
    ∷ []

table-Distinct : Distinct table
table-Distinct = ((refl, (refl, tt)), ((refl, tt), (tt, tt)))

serve_all-IsSound_example : IsSound (serve_all services history db).messages
serve_all-IsSound_example =
    serve_all-IsSound services history db
      (table-Distinct, ((refl, refl), ((refl, refl, refl), ((refl, refl), tt))))

serve_all_final_example : get_message 3 (serve_all services history db).messages ≡ some done
serve_all_final_example = serve_all_final services 3 done history db table-Distinct refl refl

abbrev pick : Pick
pick = record { message = waiting; lead = lead }

abbrev delivered : Message
delivered = record waiting {
  status = some sent;
  sent_at = some 20;
  approved_at = some 20;
  scheduled_send_at = none;
  send_attempts = 1;
  external_message_id = some (codes "m");
}

picked : pick_sendable 2 none db ≡ some pick
unfolding pick_sendable
picked = refl

sent_row :
    get_message 2 (send_approved_draft services 2 (codes "worker") none none 20 db).1.messages
    ≡ some delivered
unfolding send_approved_draft pick_sendable finish_send finish_sent begin_send record_outbound
    log_draft_event outgoing update_lead_touch
sent_row = refl

send_approved_draft-IsLeft_example :
    (m : Message) × (get_message 2
        (send_approved_draft services 2 (codes "worker") none none 20 db).1.messages
      ≡ some m)
    × IsLeft services 20 pick (provider 0 (outgoing services pick db)) m
send_approved_draft-IsLeft_example =
    send_approved_draft-IsLeft services 2 (codes "worker") none none 20 db pick table-Distinct
      picked refl

-- A claimed message whose sending raises, at the last attempt.
abbrev flying : Message
flying = record waiting { status = some sending; scheduled_claimed_at = some 15; send_attempts = 2 }

abbrev sent_before : Outgoing
sent_before = outgoing services pick db

abbrev flying_db : Db
flying_db = record db { messages = flying ∷ []; outbox = sent_before ∷ [] }

abbrev flying_pick : Pick
flying_pick = record { message = flying; lead = lead }

flying-picked : pick_sendable 2 none flying_db ≡ some flying_pick
unfolding pick_sendable
flying-picked = refl

sweep-send_approved_draft_example :
    (m : Message) × (get_message 2
        (sweep services 1000 none
          (send_approved_draft services 2 (codes "worker") none none 20 flying_db).1).messages
      ≡ some m)
    × IsRecovered services m
sweep-send_approved_draft_example =
    sweep-send_approved_draft services 2 (codes "worker") none none none 20 1000 flying_db
      flying_pick ((tt, tt)) flying-picked refl refl refl refl refl

add_draft_attachments-HasAttached_example :
    HasAttached 1 1 db (add_draft_attachments services 1 (upload ∷ []) (codes "ada") none db)
add_draft_attachments-HasAttached_example =
    add_draft_attachments-HasAttached services 1 (upload ∷ []) (codes "ada") none db

send_due_scheduled_drafts-outbox_example :
    (calls : List Outgoing) × ((send_due_scheduled_drafts sqlite services 10
        (codes "worker")
        none
        20
        db).1.outbox
      ≡ [] ++ calls)
    × (length calls ≤ claim_limit 10)
    × All
        (λ (o : Outgoing).
          is_due_in services 20 none (sweep services 20 none db).messages o.message_id ≡ true)
        calls
send_due_scheduled_drafts-outbox_example =
    send_due_scheduled_drafts-outbox sqlite services 10 (codes "worker") none 20 db

batch_approve_drafts-IsAccounted_example :
    IsAccounted services
      (batch_approve_drafts services (3 ∷ 1 ∷ 3 ∷ []) true (codes "ada") none none 20 db).0
batch_approve_drafts-IsAccounted_example =
    batch_approve_drafts-IsAccounted services (3 ∷ 1 ∷ 3 ∷ []) true (codes "ada") none none 20 db

begin_send-pick_example :
    (is_missing (pick_reviewable 1 none (begin_send services pick db))
      ≡ is_missing (pick_reviewable 1 none db))
    × (is_missing (pick_sendable 1 none (begin_send services pick db))
        ≡ is_missing (pick_sendable 1 none db))
begin_send-pick_example = begin_send-pick services pick db 1 none

process_single_draft_delete-IsDeletion_example :
    IsDeletion 1 (codes "ada") db (process_single_draft_delete 1 true (codes "ada") none db)
process_single_draft_delete-IsDeletion_example =
    process_single_draft_delete-IsDeletion 1 true (codes "ada") none db
