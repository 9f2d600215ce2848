-- ===== src/Gateway/Tests.antt =====
-- Mails of two days with a limit of one mail.
use shiku_ai_powered_sales_d.Prelude.{[], arith, codes, false, none, refl, some, true, ◌∷◌, ◌≡◌}
use shiku_ai_powered_sales_d.Drafts.Replies.{SendResult}
use shiku_ai_powered_sales_d.Gateway.Wording.{
  MailRequest, Policy, draft_failed, forbidden_phrase, limit_reached,
}
use shiku_ai_powered_sales_d.Gateway.Gates.{
  MailService, Mailer, handed_over, not_sent, send_plain_email,
}
use shiku_ai_powered_sales_d.Gateway.Counting.{IsPoliced}
use shiku_ai_powered_sales_d.Gateway.Policed.{mail, midnight, serve_steps, serve_steps-IsPoliced}

abbrev policy : Policy
policy = record {
  daily_email_limit = 1;
  forbidden_phrases = codes "No Risk, ,100%";
  max_words_per_email = 3;
  opt_out_footer = codes " Reply STOP.";
  effective_outreach_human_approval = true;
}

abbrev answer : SendResult
answer = record { is_ok = true; message_id = some (codes "m"); thread_id = none; error = none }

abbrev provider : MailService
provider = record {
  guard = λ body subject org. none;
  validate_config = λ org. none;
  send_with_retry = λ n r body. answer;
}

abbrev request : MailRequest
request = record {
  email = codes "ada@example.org";
  name = codes "Ada";
  subject = codes "Hello";
  body = codes "One two  three four";
  skip_safety_check = false;
  internal = false;
  html_body = none;
  attachments = [];
  bypass_human_approval = true;
  organization_id = some 2;
}

abbrev risky : MailRequest
risky = record request { body = codes "There is no risk." }

abbrev unapproved : MailRequest
unapproved = record request { bypass_human_approval = false }

abbrev idle : Mailer
idle = record { daily_send_counts = []; leads = []; drafts = []; calls = [] }

abbrev sent_once : Mailer
sent_once = record idle {
  daily_send_counts = (7, 1) ∷ [];
  calls =
      record {
        sent_on = 7;
        request = request;
        sent_body = codes "One two three Reply STOP.";
        is_ok = true;
      }
      ∷ [];
}

sent : send_plain_email policy provider 7 50 request idle ≡ (handed_over answer, sent_once)
unfolding send_plain_email
sent = refl

limited : (send_plain_email policy provider 7 50 request sent_once).0 ≡ not_sent limit_reached
unfolding send_plain_email
limited = refl

forbidden :
    (send_plain_email policy provider 8 50 risky sent_once).0
    ≡ not_sent (forbidden_phrase (codes "no risk"))
unfolding send_plain_email
forbidden = refl

unsaved : (send_plain_email policy provider 8 50 unapproved sent_once).0 ≡ not_sent draft_failed
unfolding send_plain_email
unsaved = refl

idle-IsPoliced : IsPoliced policy provider 7 idle
idle-IsPoliced = ((refl, λ d l. (refl, refl)), (λ d. omega arith), tt)

serve_steps-IsPoliced_example :
    IsPoliced policy provider
      (serve_steps policy provider
        (mail 50 request ∷ mail 51 request ∷ midnight ∷ mail 60 request ∷ [])
        (7, idle)).0
      (serve_steps policy provider
        (mail 50 request ∷ mail 51 request ∷ midnight ∷ mail 60 request ∷ [])
        (7, idle)).1
serve_steps-IsPoliced_example =
    serve_steps-IsPoliced policy provider refl
      (mail 50 request ∷ mail 51 request ∷ midnight ∷ mail 60 request ∷ []) 7 idle idle-IsPoliced
