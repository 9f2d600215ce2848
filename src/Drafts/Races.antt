-- ===== src/Drafts/Races.antt =====
-- What another request finds between the two commits of a send.
use shiku_ai_powered_sales_d.Prelude.{
  List, Option, ap, arith, find_row, find_row-unread, if◌then◌else◌, none, refl, some, sym, ℕ, ◌∙◌,
  ◌≡◌,
}
use shiku_ai_powered_sales_d.Store.Schema.{Db, Lead, Message}
use shiku_ai_powered_sales_d.Store.Rows.{get_lead, is_missing, with_id}
use shiku_ai_powered_sales_d.Drafts.Replies.{Services}
use shiku_ai_powered_sales_d.Drafts.Send.{
  Pick, begin_send, count_attempt, is_sendable, join_leads, pick_sendable, subject_of,
}
use shiku_ai_powered_sales_d.Drafts.Review.{is_reviewable, pick_reviewable}
use mathlib.Core.Option

-- A message is joined where its lead exists.
is_missing-join_leads :
    (leads : List Lead) (m : Message)
    → is_missing (join_leads leads (some m)) ≡ is_missing (get_lead m.lead_id leads)
is_missing-join_leads leads m = go (get_lead m.lead_id leads)
  where
    go :
        (l : Option Lead)
        → is_missing (Option.map {A = Lead} {B = Pick} (λ x. record { message = m; lead = x }) l)
          ≡ is_missing l
    go none = refl
    go (some l) = refl

is_missing-join :
    (leads : List Lead) (g : Message → Message) (o : Option Message)
    → ((m : Message) → (g m).lead_id ≡ m.lead_id)
    → is_missing (join_leads leads (Option.map g o)) ≡ is_missing (join_leads leads o)
is_missing-join leads g none same = refl
is_missing-join leads g (some m) same =
    is_missing-join_leads leads (g m)
    ∙ ap (λ k. is_missing (get_lead k leads)) (same m)
    ∙ sym (is_missing-join_leads leads m)

module _ (s : Services) (p : Pick) (db : Db) where
  abbrev counted : Message → Message
  counted m = if with_id p.message.id m then count_attempt (subject_of s p) m else m

  counted-lead : (m : Message) → (counted m).lead_id ≡ m.lead_id
  counted-lead m = ground arith

  -- What is committed before the call of `send_plain_email` takes no message away from the others: a
  -- review and a send find a message exactly where they found one before. So a draft that is sent
  -- at once can be approved, and sent, a second time while the call lasts.
  pub begin_send-pick :
      (k : ℕ) (org : Option ℕ)
      → (is_missing (pick_reviewable k org (begin_send s p db))
          ≡ is_missing (pick_reviewable k org db))
        × (is_missing (pick_sendable k org (begin_send s p db))
            ≡ is_missing (pick_sendable k org db))
  unfolding begin_send pick_reviewable pick_sendable
  begin_send-pick k org =
      let f = count_attempt (subject_of s p) in
      (
        ap (λ o. is_missing (join_leads db.leads o))
              (find_row-unread (is_reviewable k org) (with_id p.message.id) f db.messages
                (λ m. refl))
            ∙ is_missing-join db.leads counted (find_row (is_reviewable k org) db.messages)
                counted-lead,
        ap (λ o. is_missing (join_leads db.leads o))
              (find_row-unread (is_sendable k org) (with_id p.message.id) f db.messages (λ m. refl))
            ∙ is_missing-join db.leads counted (find_row (is_sendable k org) db.messages)
                counted-lead,
      )
