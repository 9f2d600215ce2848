-- ===== src/Sequences/Upcoming.antt =====
-- `list_upcoming_followups` of services/sequence_service.py, behind the default steps.
use shiku_ai_powered_sales_d.Prelude.{
  All, Bool, List, Option, [], any, arith, at_least, false, find_row, if◌then◌else◌, leb, ltb, map,
  min_of, none, not, refl, select, some, take, ℕ, ℤ, ◌&&◌, ◌*◌, ◌+◌, ◌||◌, ◌∷◌, ◌≡◌,
}
use shiku_ai_powered_sales_d.Store.Schema.{Db, Message}
use shiku_ai_powered_sales_d.Store.Rows.{is_missing}
use shiku_ai_powered_sales_d.Drafts.Scheduler.{Engine}
use shiku_ai_powered_sales_d.Sequences.Followups.{
  Due, day, is_live_touch_of, is_open, is_passed_over, join_all, ordered,
}
use mathlib.Core.Option

pub data BlockedReason : Type 0 where
  existing_draft_or_sent missing_last_contacted : BlockedReason

pub record Upcoming : Type 0 where
  pub row : Due
  pub due_at : Option ℕ
  pub delay_ignored : Bool
  pub shows_due : Bool
  pub blocked_reason : Option BlockedReason
  pub existing_message_id : Option ℕ

abbrev due_time : Due → Option ℕ
due_time d = Option.map (λ t. t + d.step.delay_days * day) d.lead.last_contacted_at

abbrev is_past : ℕ → Option ℕ → Bool
is_past now none = false
is_past now (some t) = leb t now

abbrev is_later : ℕ → Option ℕ → Bool
is_later now none = false
is_later now (some t) = ltb now t

abbrev reason_of : Bool → Bool → Option ℕ → Option BlockedReason
reason_of ignore_delay duplicate last_contacted =
    if duplicate
    then some existing_draft_or_sent
    else if not ignore_delay && is_missing last_contacted
    then some missing_last_contacted
    else none

abbrev pub upcoming_of : Bool → ℕ → Db → Due → Upcoming
upcoming_of ignore_delay now db d =
    let existing = find_row (is_live_touch_of d) db.messages in
    let duplicate = not (is_missing existing) in
    record {
      row = d;
      due_at = due_time d;
      delay_ignored = ignore_delay && is_later now (due_time d) && not duplicate;
      shows_due = (is_past now (due_time d) || ignore_delay) && not duplicate;
      blocked_reason = reason_of ignore_delay duplicate d.lead.last_contacted_at;
      existing_message_id = Option.map (λ (m : Message). m.id) existing;
    }

-- `max(1, min(limit, 500))`
abbrev listing_limit : ℤ → ℕ
listing_limit limit = min_of 500 (at_least 1 limit)

unfoldable pub list_upcoming_followups :
    Engine → Option ℕ → ℤ → Option ℕ → Bool → ℕ → Db → List Upcoming
list_upcoming_followups engine campaign limit org ignore_delay now db =
    map (upcoming_of ignore_delay now db) (
      take (listing_limit limit)
        (ordered engine (select (is_open campaign org) (join_all db db.campaign_leads))))

duplicate-any :
    (q : Message → Bool) (ms : List Message) → not (is_missing (find_row q ms)) ≡ any q ms
duplicate-any q [] = refl
duplicate-any q (m ∷ ms) = ground (arith, duplicate-any q ms)

-- What the listing says of a row is what the generation does with it.
abbrev pub AgreesWith : Bool → ℕ → Db → Upcoming → Type 0
AgreesWith ignore_delay now db u = u.shows_due ≡ not (is_passed_over ignore_delay now u.row db)

upcoming_of-AgreesWith :
    (ignore_delay : Bool) (now : ℕ) (db : Db) (d : Due)
    → AgreesWith ignore_delay now db (upcoming_of ignore_delay now db d)
upcoming_of-AgreesWith ignore_delay now db d =
    rw (duplicate-any (is_live_touch_of d) db.messages) (go d.lead.last_contacted_at refl)
  where
    go :
        (o : Option ℕ)
        → d.lead.last_contacted_at ≡ o
        → ((is_past now (due_time d) || ignore_delay) && not (any (is_live_touch_of d) db.messages))
          ≡ not (is_passed_over ignore_delay now d db)
    go none e = rw e (ground arith)
    go (some t) e = rw e (ground arith)

-- Every row that the listing shows is shown as due exactly when the generation, at the same time
-- and on the same tables, does not pass it over.
pub list_upcoming_followups-AgreesWith :
    (engine : Engine) (campaign : Option ℕ) (limit : ℤ) (org : Option ℕ) (ignore_delay : Bool)
    (now : ℕ) (db : Db)
    → All
        (AgreesWith ignore_delay now db)
        (list_upcoming_followups engine campaign limit org ignore_delay now db)
unfolding list_upcoming_followups
list_upcoming_followups-AgreesWith engine campaign limit org ignore_delay now db = each _
  where
    each :
        (ds : List Due)
        → All (AgreesWith ignore_delay now db) (map (upcoming_of ignore_delay now db) ds)
    each [] = tt
    each (d ∷ ds) = (upcoming_of-AgreesWith ignore_delay now db d, each ds)
