-- ===== src/Drafts/Scheduler.antt =====
-- The scheduler of services/draft_service.py: `_claim_due_scheduled_drafts` on both databases, and
-- `send_due_scheduled_drafts`.
use shiku_ai_powered_sales_d.Prelude.{
  Bool, List, Option, Text, [], any, count_rows, false, if◌then◌else◌, leb, length, ltb, map,
  max_of, min_of, none, select, some, sort_by, take, update_rows, ℕ, ◌&&◌, ◌-◌, ◌==◌, ◌∷◌,
}
use shiku_ai_powered_sales_d.Store.Schema.{
  Db, Message, claim_expired, paused_after, scheduled, sending,
}
use shiku_ai_powered_sales_d.Store.Rows.{
  coalesce, in_org, is_approved, is_outbound, is_scheduled, is_sending, with_id,
}
use shiku_ai_powered_sales_d.Drafts.Replies.{
  Reply, Services, is_approved_sent, is_raised, is_send_failed,
}
use shiku_ai_powered_sales_d.Drafts.Times.{is_scheduled_send_status}
use shiku_ai_powered_sales_d.Drafts.Finish.{back_to_review, send_approved_draft}
use shiku_ai_powered_sales_d.Drafts.Review.{for_each}

-- The first update: messages whose attempts are used up go back to review.
abbrev pub is_exhausted : Services → Option ℕ → Message → Bool
is_exhausted s org m =
    is_outbound m.direction
    && is_scheduled_send_status m.status
    && is_approved m.approved
    && leb s.max_attempts m.send_attempts
    && in_org org m.organization_id

abbrev pub pause : Services → Message → Message
pause s m = record (back_to_review m) {
  last_error = coalesce m.last_error (some (paused_after s.max_attempts));
}

-- `x <= ?`, which is not true where `x` is NULL.
abbrev pub at_most : Option ℕ → ℕ → Bool
at_most none t = false
at_most (some x) t = leb x t

-- The second update: claims that are older than the timeout are given up.
abbrev pub is_stale : Services → ℕ → Option ℕ → Message → Bool
is_stale s now org m =
    is_outbound m.direction
    && is_sending m.status
    && is_approved m.approved
    && ltb m.send_attempts s.max_attempts
    && at_most m.scheduled_claimed_at (now - s.claim_timeout)
    && in_org org m.organization_id

abbrev pub release : Services → Message → Message
release s m = record m {
  status = some scheduled;
  scheduled_claimed_at = none;
  last_error = coalesce m.last_error (some (claim_expired s.claim_timeout));
}

-- The query of `_claim_due_scheduled_drafts`.
abbrev pub is_due : Services → ℕ → Option ℕ → Message → Bool
is_due s now org m =
    is_outbound m.direction
    && is_scheduled m.status
    && is_approved m.approved
    && at_most m.scheduled_send_at now
    && ltb m.send_attempts s.max_attempts
    && in_org org m.organization_id

abbrev pub schedule_key : Message → ℕ
schedule_key m = elim m.scheduled_send_at [ none ↦ 0 | some t ↦ t ]

abbrev pub claim : ℕ → Message → Message
claim now m = record m { status = some sending; scheduled_claimed_at = some now; last_error = none }

abbrev pub id_of : Message → ℕ
id_of m = m.id

unfoldable pub due_rows : Services → ℕ → ℕ → Option ℕ → Db → List Message
due_rows s now limit org db =
    take limit (sort_by schedule_key (select (is_due s now org) db.messages))

abbrev pub is_in : List ℕ → ℕ → Bool
is_in ks k = any (λ j. j == k) ks

-- The Postgres branch: one statement claims the rows that the common table expression selected.
unfoldable pub claim_in_one_statement : Services → ℕ → ℕ → Option ℕ → Db → List ℕ × Db
claim_in_one_statement s now limit org db =
    let ids = map id_of (due_rows s now limit org db) in
    (ids, record db { messages = update_rows (λ m. is_in ids m.id) (claim now) db.messages })

-- The loop of the other branch: one update for each row, which tests the status again.
abbrev pub is_claimable : ℕ → Message → Bool
is_claimable k m = with_id k m && is_scheduled m.status && is_approved m.approved

unfoldable pub claim_ids : ℕ → List ℕ → List Message → List Message
claim_ids now [] messages = messages
claim_ids now (k ∷ ks) messages =
    claim_ids now ks (update_rows (is_claimable k) (claim now) messages)

unfoldable pub claim_one_by_one : Services → ℕ → ℕ → Option ℕ → Db → List ℕ × Db
claim_one_by_one s now limit org db =
    let ids = map id_of (due_rows s now limit org db) in
    (ids, record db { messages = claim_ids now ids db.messages })

pub data Engine : Type 0 where
  postgres sqlite : Engine

unfoldable pub claim_due_scheduled_drafts : Engine → Services → ℕ → ℕ → Option ℕ → Db → List ℕ × Db
claim_due_scheduled_drafts postgres = claim_in_one_statement
claim_due_scheduled_drafts sqlite = claim_one_by_one

pub record SchedulerReply : Type 0 where
  pub processed : ℕ
  pub sent_count : ℕ
  pub failed_count : ℕ
  pub results : List Reply

-- The two updates before the claim.
unfoldable pub sweep : Services → ℕ → Option ℕ → Db → Db
sweep s now org db = record db {
  messages =
      update_rows (is_stale s now org) (release s)
        (update_rows (is_exhausted s org) (pause s) db.messages);
}

-- `max(1, min(limit, 200))`
abbrev pub claim_limit : ℕ → ℕ
claim_limit limit = max_of 1 (min_of limit 200)

unfoldable pub send_due_scheduled_drafts :
    Engine → Services → ℕ → Text → Option ℕ → ℕ → Db → Option SchedulerReply × Db
send_due_scheduled_drafts engine s limit actor org now db =
    let (ids, claimed) =
      claim_due_scheduled_drafts engine s now (claim_limit limit) org (sweep s now org db) in
    let step = λ (k : ℕ). send_approved_draft s k actor none org now in
    let (results, db') = for_each step ids claimed in
    (
      if any is_raised results
          then none
          else some (record {
            processed = length results;
            sent_count = count_rows is_approved_sent results;
            failed_count = count_rows is_send_failed results;
            results = results;
          }),
      db',
    )
