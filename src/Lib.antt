-- ===== src/Lib.antt =====
-- The services of Shiku, an AI-powered sales development representative: a program that drafts
-- outreach messages to the leads of a campaign, has them reviewed, sends them at once or on a
-- schedule, follows up in sequences, and meters what its use of language models is to cost.
--
-- The parts and how they interact. outreach/marketing_agent.py chooses the next step of the sequence
-- of a lead and reserves it as a row of email_messages with status GENERATING; language models write
-- the text and the row becomes a draft. services/draft_service.py owns the row from there: drafts are
-- edited, given attachments, approved, rejected, scheduled, sent and deleted, and a scheduler claims
-- the rows that are due. A send updates the contexts (services/campaign_context_service.py) and the
-- touches of the lead (services/lead_service.py), which also creates, imports and deletes leads and
-- assigns them to campaigns. services/metering_service.py records what each
-- action of a language model costs in credits, by billing period.
--
-- The files.
-- Prelude and the modules below it: tests, lists as tables, texts, sorting, integers.
-- Store.Schema: the rows of the tables (db/schema_pg.sql); Store.Rows: tests on columns and the
--   statements on one message; Store.Distinct: tables whose identifiers are distinct.
-- Drafts: services/draft_service.py. Replies holds what the operations return and what they call;
--   Times the schedule and the kinds of errors; Send and Finish the two parts of
--   send_approved_draft, before and after the call of send_plain_email; Review
--   process_single_draft_approval, approve_draft and batch_approve_drafts; Edit the changes of
--   content and schedule, return to review and deletion; Attachments the attachments; Scheduler
--   _claim_due_scheduled_drafts and send_due_scheduled_drafts; Requests a request as a value and a
--   history of requests. Sending, Invariants and Histories carry a property of the table through
--   every operation; Claims compares the two ways to claim; Lifecycle, Final, Attempts, Recovery,
--   Authority, Batches, Races, Deletion and Uploads hold the theorems.
-- Leads: services/lead_service.py. Schema the rows and the values that callers send; Normalize the
--   functions that read them; Assign _assign_campaigns; Edit create_lead and update_lead; Remove the
--   deletions and update_lead_status; Import bulk_import_leads; Touch
--   update_lead_touch; Requests a call as a value. Keeps,
--   Frames, Statements, Single and Histories carry a property of the tables through every call;
--   Accounting, Identifiers, Uniqueness, Ownership, Tenants and Upserts hold the theorems.
-- Outreach: outreach/marketing_agent.py. Sequence is _find_next_sequence_step; Claim is
--   _record_skipped_sequence_step, _claim_next_outreach_touch and the two functions that complete or
--   fail a reserved touch; Eligibility, Reservation and Skips hold the theorems.
-- Metering: services/metering_service.py. Schema its rows; Periods the billing periods; Actions the
--   usage actions, their keys and context; Events the platform events; Economics the customer summary
--   and the unit economics; Keys, Billing and Totals hold the theorems.
-- Fallback: utils/model_fallback.py. Models the providers, the blacklist and the order; Loop
--   _execute_with_retry and run_agent_with_fallback, which charges the answer with
--   Metering.Actions.record_ai_usage_action; Outcome and Blacklisting hold the
--   theorems.
-- Sequences: services/sequence_service.py. Replace is replace_sequence_steps; Subject the loop of
--   _sequence_subject; Followups generate_due_followup_drafts with the default steps; Upcoming
--   list_upcoming_followups. References, Drafted and Repeats hold the other theorems.
-- Contexts: services/campaign_context_service.py. Inbound is record_inbound and
--   set_campaign_lead_responded (record_outbound stands in Drafts.Send); Halt holds the theorem on the
--   follow-ups that an answer halts.
-- Gateway: tools/send_email.py. Wording the tests and changes of a text; Gates send_plain_email, the
--   counter of the day and the draft that waits for an approval; Counting and Policed hold the theorem
--   on histories of mails over days.
-- Tenancy: services/tenant_service.py. Routing is _subscription_from_row and
--   resolve_allowed_llm_routing_mode; Modes the text that keeps the routing modes; Users the users,
--   the checks of a role and _workflow_org_id of main.py; Plans the selection of a plan and
--   Change its change. Allowance, Access, Owners and Selection hold the other theorems.
-- The modules Tests hold concrete runs.
--
-- How the code is read. A table is the list of its rows in the order of insertion, and a statement is
-- a function on that list. A point of time is a number of seconds, given to an operation as an
-- argument. A coroutine is run to its end before the next one starts, so two requests are served one
-- after the other; the rows that another request could change between the two commits of a send are
-- not. For the other services, the outcome of send_plain_email is an arbitrary function of the number
-- of the call and its arguments, and the helpers on texts, base64 and the parser of times are
-- arbitrary functions as well (the record Services). It may raise; the exception ends the operation,
-- and what was committed before the call stays. Letter case and white space are those of ASCII.
-- An exception that rolls a transaction back is the value none with the state before it; the
-- statements of the other operations are taken to succeed, so no foreign key is missing, and no two
-- actions carry an empty idempotency key. Rows with one value of the column that a query sorts by are
-- taken in the order of insertion, and a statement that returns the rows it claims returns them in the
-- order of its query.
--
-- Loops. All loops are recursion on the list they walk over. The loop of _claim_next_outreach_touch
-- has five turns in the source and here, and what it does when they run out is a value. A provider
-- is called twice at most. The while loop of _sequence_subject has as many turns as its text has
-- letters, which is enough since each turn shortens the text.
--
-- Not modelled: the HTTP interface, the mail and calendar providers, the language models and their
-- prompts, webhooks, the rendering of templates, the caches of the tenants, and costs in floating
-- point numbers.
pub mod Prelude
pub mod Store
pub mod Drafts
pub mod Contexts
pub mod Gateway
pub mod Leads
pub mod Metering
pub mod Outreach
pub mod Fallback
pub mod Tenancy
pub mod Sequences
