-- ===== src/Gateway/Gates.antt =====
-- `send_plain_email` and the counter of the day, tools/send_email.py. The guard, which asks a language
-- model, the settings of a provider and the provider itself are arbitrary functions.
use shiku_ai_powered_sales_d.Prelude.{
  Bool, List, Option, Text, [], any, find_row, if◌then◌else◌, leb, length, none, not, some, text_eq,
  true, ℕ, ◌&&◌, ◌++◌, ◌+◌, ◌==◌, ◌||◌, ◌∷◌,
}
use shiku_ai_powered_sales_d.Store.Schema.{
  Approval, Direction, Lead, Status, draft, outbound, pending,
}
use shiku_ai_powered_sales_d.Drafts.Replies.{SendResult}
use shiku_ai_powered_sales_d.Gateway.Wording.{
  MailError, MailRequest, Policy, draft_failed, final_body, forbidden_error, input_error,
  limit_reached, misconfigured, no_organization, unsafe,
}

-- What the function calls: `guard body subject organization` is the reason of a violation,
-- `validate_config` what the settings of the provider lack, and `send_with_retry n` the outcome of
-- the call number `n`.
pub record MailService : Type 0 where
  pub guard : Text → Text → Option ℕ → Option Text
  pub validate_config : Option ℕ → Option Text
  pub send_with_retry : ℕ → MailRequest → Text → SendResult

-- A call of the provider: the day, the request, the body that is sent and the outcome.
pub record MailCall : Type 0 where
  pub sent_on : ℕ
  pub request : MailRequest
  pub sent_body : Text
  pub is_ok : Bool

-- The columns that the insertion of a draft writes.
pub record SavedDraft : Type 0 where
  pub organization_id : ℕ
  pub lead_id : ℕ
  pub direction : Direction
  pub subject : Text
  pub body : Text
  pub status : Status
  pub processed : Bool
  pub approved : Approval
  pub created_at : ℕ

-- `_daily_send_counts`, the leads, the drafts that are saved and the calls so far.
pub record Mailer : Type 0 where
  pub daily_send_counts : List (ℕ × ℕ)
  pub leads : List Lead
  pub drafts : List SavedDraft
  pub calls : List MailCall

pub data MailResult : Type 0 where
  not_sent : MailError → MailResult
  saved_as_draft : MailResult
  handed_over : SendResult → MailResult

abbrev pub has_day : ℕ → List (ℕ × ℕ) → Bool
has_day d counts = any (λ c. c.0 == d) counts

-- `counts.get(d, 0)`
abbrev pub count_of : ℕ → List (ℕ × ℕ) → ℕ
count_of d [] = 0
count_of d ((k, n) ∷ counts) = if k == d then n else count_of d counts

-- `counts[d] = counts.get(d, 0) + 1`
abbrev pub increment_daily_count : ℕ → List (ℕ × ℕ) → List (ℕ × ℕ)
increment_daily_count d [] = (d, 1) ∷ []
increment_daily_count d ((k, n) ∷ counts) =
    let rest = increment_daily_count d counts in
    if k == d then (k, n + 1) ∷ counts else (k, n) ∷ rest

-- The head of `_check_daily_limit`: the first mail of a day clears the counts.
abbrev pub open_day : ℕ → List (ℕ × ℕ) → List (ℕ × ℕ)
open_day d counts = if has_day d counts then counts else (d, 0) ∷ []

abbrev pub is_limit_reached : Policy → ℕ → List (ℕ × ℕ) → Bool
is_limit_reached p d counts = leb p.daily_email_limit (count_of d counts)

-- An error ends the function.
abbrev pub or_error : Option MailError → Mailer → MailResult × Mailer → MailResult × Mailer
or_error none st rest = rest
or_error (some e) st rest = (not_sent e, st)

abbrev pub phrase_error : Policy → MailRequest → Option MailError
phrase_error p r = if r.internal then none else forbidden_error p r.body

abbrev pub unsafe_error : Option Text → Option MailError
unsafe_error none = none
unsafe_error (some reason) = some (unsafe reason)

abbrev pub safety_error : MailService → MailRequest → Text → Option MailError
safety_error v r body =
    if r.skip_safety_check || r.internal
    then none
    else unsafe_error (v.guard body r.subject r.organization_id)

abbrev config_text : Option Text → Option MailError
config_text none = none
config_text (some t) = some (misconfigured t)

abbrev pub config_error : MailService → MailRequest → Option MailError
config_error v r = config_text (v.validate_config r.organization_id)

abbrev pub new_draft : ℕ → ℕ → MailRequest → Text → Lead → SavedDraft
new_draft now org r body l = record {
  organization_id = org;
  lead_id = l.id;
  direction = outbound;
  subject = r.subject;
  body = body;
  status = draft;
  processed = true;
  approved = pending;
  created_at = now;
}

-- The insertion; the column of the lead does not admit NULL.
abbrev pub insert_draft : ℕ → ℕ → MailRequest → Text → Option Lead → Mailer → MailResult × Mailer
insert_draft now org r body none st = (not_sent draft_failed, st)
insert_draft now org r body (some l) st =
    (saved_as_draft, record st { drafts = st.drafts ++ new_draft now org r body l ∷ [] })

-- The branch that saves a draft for a review.
abbrev pub save_draft : ℕ → MailRequest → Text → Option ℕ → Mailer → MailResult × Mailer
save_draft now r body none st = (not_sent no_organization, st)
save_draft now r body (some org) st =
    insert_draft now org r body
      (find_row (λ (l : Lead). text_eq l.email r.email && l.organization_id == org) st.leads) st

abbrev pub awaits_approval : Policy → MailRequest → Bool
awaits_approval p r =
    p.effective_outreach_human_approval && not r.bypass_human_approval && not r.internal

-- The call and `_increment_daily_count`.
abbrev pub hand_over : MailService → ℕ → MailRequest → Text → Mailer → MailResult × Mailer
hand_over v today r body st =
    let answer = v.send_with_retry (length st.calls) r body in
    (
      handed_over answer,
      record st {
        daily_send_counts =
            if answer.is_ok
            then increment_daily_count today st.daily_send_counts
            else st.daily_send_counts;
        calls =
            st.calls
            ++ record { sent_on = today; request = r; sent_body = body; is_ok = answer.is_ok } ∷ [];
      },
    )

-- What follows the tests of the text.
abbrev pub pass_on :
    Policy → MailService → ℕ → ℕ → MailRequest → Text → Mailer → MailResult × Mailer
pass_on p v today now r body st = or_error (safety_error v r body) st (
    if awaits_approval p r
    then save_draft now r body r.organization_id st
    else or_error (config_error v r) st (hand_over v today r body st))

-- What follows the first test of the counter.
abbrev pub after_limit : Policy → MailService → ℕ → ℕ → MailRequest → Mailer → MailResult × Mailer
after_limit p v today now r st =
    if is_limit_reached p today st.daily_send_counts
    then (not_sent limit_reached, st)
    else or_error (phrase_error p r) st (pass_on p v today now r (final_body p r) st)

unfoldable pub send_plain_email :
    Policy → MailService → ℕ → ℕ → MailRequest → Mailer → MailResult × Mailer
send_plain_email p v today now r st = or_error (input_error r) st (
    after_limit p v today now r
      (record st { daily_send_counts = open_day today st.daily_send_counts }))
