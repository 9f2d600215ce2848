-- ===== src/Drafts/Authority.antt =====
-- What the scheduler sends.
use shiku_ai_powered_sales_d.Prelude.{
  ==_iff, ==_refl, All, All-sort_by, All-take, All-weaken, Bool, Bool-cases, List, Option, Text, [],
  any, ap, append-nil, append_assoc, arith, find_row_holds, inl, inr, length, length-map,
  length-take, map, none, refl, select, some, sort_by, sym, take, true, ℕ, ◌&&◌, ◌++◌, ◌==◌, ◌∙◌,
  ◌∷◌, ◌≡◌, ◌≤◌, ◌⊎◌,
}
use shiku_ai_powered_sales_d.Store.Schema.{ApprovalId, Db, EventKind, Message, Outgoing}
use shiku_ai_powered_sales_d.Store.Rows.{log_draft_event}
use shiku_ai_powered_sales_d.Drafts.Replies.{Reply, SendResult, Services, is_raised}
use shiku_ai_powered_sales_d.Drafts.Send.{
  Pick, begin_send, is_sendable, outgoing, pick_sendable, record_outbound, touch_sequence,
  update_lead_touch,
}
use shiku_ai_powered_sales_d.Drafts.Finish.{
  after_call, finish_failed, finish_send, finish_sent, send_approved_draft, send_pick,
}
use shiku_ai_powered_sales_d.Drafts.Sending.{picked_row, sendable_fixes}
use shiku_ai_powered_sales_d.Drafts.Review.{for_each}
use shiku_ai_powered_sales_d.Drafts.Scheduler.{
  Engine, claim_due_scheduled_drafts, claim_in_one_statement, claim_limit, claim_one_by_one,
  due_rows, id_of, is_due, is_in, postgres, schedule_key, send_due_scheduled_drafts, sqlite, sweep,
}
use mathlib.Core.Path.{subst}

outbox-record_outbound :
    (s : Services) (org : ℕ) (campaign : Option ℕ) (lead : ℕ) (subject body : Text) (now : ℕ)
    (db : Db)
    → (record_outbound s org campaign lead subject body now db).outbox ≡ db.outbox
unfolding record_outbound
outbox-record_outbound s org none lead subject body now db = refl
outbox-record_outbound s org (some campaign) lead subject body now db = ground arith

outbox-touch_sequence :
    (m : Message) (now : ℕ) (db : Db) → (touch_sequence m now db).outbox ≡ db.outbox
unfolding update_lead_touch
outbox-touch_sequence m now db = ground arith

outbox-log_draft_event :
    (kind : EventKind) (k : ℕ) (actor : Text) (approval : Option ApprovalId) (db : Db)
    → (log_draft_event kind k actor approval db).outbox ≡ db.outbox
unfolding log_draft_event
outbox-log_draft_event kind k actor approval db = refl

outbox-finish_send :
    (s : Services) (actor : Text) (approval : ApprovalId) (now : ℕ) (p : Pick) (res : SendResult)
    (db : Db)
    → (finish_send s actor approval now p res db).1.outbox ≡ db.outbox
unfolding finish_send finish_sent finish_failed
outbox-finish_send s actor approval now p res db = elim (Bool-cases res.is_ok) [
  | inl e ↦ simp e (
      outbox-touch_sequence p.message now _
      ∙ outbox-log_draft_event _ _ _ _ _
      ∙ outbox-record_outbound s _ _ _ _ _ now _)
  | inr e ↦ simp e (outbox-log_draft_event _ _ _ _ _)
]

outbox-after_call :
    (s : Services) (actor : Text) (approval : ApprovalId) (now : ℕ) (p : Pick)
    (o : Option SendResult) (db : Db)
    → (after_call s actor approval now p o db).1.outbox ≡ db.outbox
outbox-after_call s actor approval now p none db = refl
outbox-after_call s actor approval now p (some res) db =
    outbox-finish_send s actor approval now p res db

-- At most one call of `send_plain_email`, for the message of the identifier.
abbrev pub SendsAtMost : ℕ → List Outgoing → List Outgoing → Type 0
SendsAtMost k before after =
    (after ≡ before) ⊎ ((o : Outgoing) × (o.message_id ≡ k) × (after ≡ before ++ o ∷ []))

module _ (s : Services) (actor : Text) (org : Option ℕ) (now : ℕ) where
  send_pick-SendsAtMost :
      (k : ℕ) (approval : Option ApprovalId) (db : Db) (o : Option Pick)
      → ((p : Pick) → o ≡ some p → p.message.id ≡ k)
      → SendsAtMost k db.outbox (send_pick s actor approval now k o db).1.outbox
  unfolding begin_send outgoing
  send_pick-SendsAtMost k approval db none same = inl refl
  send_pick-SendsAtMost k approval db (some p) same =
      inr (outgoing s p db, same p refl, outbox-after_call s actor _ now p _ (begin_send s p db))

  pub send-SendsAtMost :
      (k : ℕ) (approval : Option ApprovalId) (db : Db)
      → SendsAtMost k db.outbox (send_approved_draft s k actor approval org now db).1.outbox
  unfolding send_approved_draft
  send-SendsAtMost k approval db =
      send_pick-SendsAtMost k approval db (pick_sendable k org db) (λ p e.
        (==_iff p.message.id k).0 (
          sendable_fixes k org p.message
            (find_row_holds (is_sendable k org) db.messages (picked_row s k org db p e))))

-- The calls for a list of identifiers.
abbrev pub SendsFor : List ℕ → List Outgoing → List Outgoing → Type 0
SendsFor ids before after =
    (calls : List Outgoing) × (after ≡ before ++ calls)
    × (length calls ≤ length ids)
    × All (λ (o : Outgoing). is_in ids o.message_id ≡ true) calls

SendsFor-one :
    (k : ℕ) (ids : List ℕ) {a b c : List Outgoing}
    → SendsAtMost k a b
    → SendsFor ids b c
    → SendsFor (k ∷ ids) a c
SendsFor-one k ids {a} {b} {c} (inl same) (calls, e, n, all) = (
  calls,
  e ∙ ap (λ x. x ++ calls) same,
  omega (arith, n),
  All-weaken (λ (o : Outgoing). is_in ids o.message_id ≡ true)
      (λ (o : Outgoing). is_in (k ∷ ids) o.message_id ≡ true) calls (λ o h. ground arith) all,
)
SendsFor-one k ids {a} {b} {c} (inr (o, is_k, same)) (calls, e, n, all) = (
  o ∷ calls,
  e ∙ ap (λ x. x ++ calls) same ∙ append_assoc a (o ∷ []) calls,
  omega (arith, n),
  (
    ground (arith, is_k, ==_refl k),
    All-weaken (λ (o : Outgoing). is_in ids o.message_id ≡ true)
        (λ (o : Outgoing). is_in (k ∷ ids) o.message_id ≡ true) calls (λ o h. ground arith) all,
  ),
)

no_sends : (ids : List ℕ) (a : List Outgoing) → SendsFor ids a a
no_sends ids a = ([], sym (append-nil a), omega arith, tt)

for_each-SendsFor :
    (step : ℕ → Db → Reply × Db)
    → ((k : ℕ) (db : Db) → SendsAtMost k db.outbox (step k db).1.outbox)
    → (ids : List ℕ) (db : Db) → SendsFor ids db.outbox (for_each step ids db).1.outbox
unfolding for_each
for_each-SendsFor step one [] db = ([], sym (append-nil db.outbox), omega arith, tt)
for_each-SendsFor step one (k ∷ ids) db = elim (Bool-cases (is_raised (step k db).0)) [
  | inl t ↦ rw t (SendsFor-one k ids (one k db) (no_sends ids (step k db).1.outbox))
  | inr f ↦ rw f (SendsFor-one k ids (one k db) (for_each-SendsFor step one ids (step k db).1))
]

-- Whether a message of the table is due: outbound, scheduled, approved, its time come, an attempt
-- left, and of the organization, if one is given.
abbrev pub is_due_in : Services → ℕ → Option ℕ → List Message → ℕ → Bool
is_due_in s now org ms k = any (λ (m : Message). m.id == k && is_due s now org m) ms

module _ (s : Services) (now : ℕ) (org : Option ℕ) where
  abbrev IsDueIn : List Message → Message → Type 0
  IsDueIn ms m = is_due_in s now org ms m.id ≡ true

  select-IsDueIn : (ms : List Message) → All (IsDueIn ms) (select (is_due s now org) ms)
  select-IsDueIn [] = tt
  select-IsDueIn (m ∷ ms) =
      let rest =
        All-weaken (IsDueIn ms) (IsDueIn (m ∷ ms)) (select (is_due s now org) ms)
          (λ x h. ground arith) (select-IsDueIn ms) in
      elim (Bool-cases (is_due s now org m)) [
        | inl t ↦ rw t (simp (t, ==_refl m.id) refl, rest)
        | inr f ↦ rw f rest
      ]

  due_of_in :
      (ms rows : List Message) (k : ℕ)
      → All (IsDueIn ms) rows
      → is_in (map id_of rows) k ≡ true
      → is_due_in s now org ms k ≡ true
  due_of_in ms [] k all h = absurd (cc)
  due_of_in ms (m ∷ rows) k all h = elim (Bool-cases (m.id == k)) [
    | inl t ↦ subst (λ j. is_due_in s now org ms j ≡ true) ((==_iff m.id k).0 t) all.0
    | inr f ↦ due_of_in ms rows k all.1 (ground arith)
  ]

  due_rows-IsDueIn : (limit : ℕ) (db : Db) → All (IsDueIn db.messages) (due_rows s now limit org db)
  unfolding due_rows
  due_rows-IsDueIn limit db =
      let due = select (is_due s now org) db.messages in
      All-take (IsDueIn db.messages) limit (sort_by schedule_key due)
        (All-sort_by schedule_key (IsDueIn db.messages) due (select-IsDueIn db.messages))

  claimed_outbox :
      (engine : Engine) (limit : ℕ) (db : Db)
      → (claim_due_scheduled_drafts engine s now limit org db).1.outbox ≡ db.outbox
  unfolding claim_due_scheduled_drafts claim_in_one_statement claim_one_by_one
  claimed_outbox postgres limit db = refl
  claimed_outbox sqlite limit db = refl

  claimed_ids :
      (engine : Engine) (limit : ℕ) (db : Db)
      → (claim_due_scheduled_drafts engine s now limit org db).0
        ≡ map id_of (due_rows s now limit org db)
  unfolding claim_due_scheduled_drafts claim_in_one_statement claim_one_by_one
  claimed_ids postgres limit db = refl
  claimed_ids sqlite limit db = refl

  length_of_due : (limit : ℕ) (db : Db) → length (map id_of (due_rows s now limit org db)) ≤ limit
  unfolding due_rows
  length_of_due limit db =
      let due = sort_by schedule_key (select (is_due s now org) db.messages) in
      omega (arith, length-map id_of (take limit due), length-take limit due)

-- Every call of `send_plain_email` in a run of the scheduler is for a message that was due in the
-- table after the two updates that start the run: approved, scheduled for a time that had come, with
-- an attempt left, and of the organization, if one is given. The calls are added to the earlier ones,
-- and there are at most as many as the limit, which is brought between 1 and 200.
pub send_due_scheduled_drafts-outbox :
    (engine : Engine) (s : Services) (limit : ℕ) (actor : Text) (org : Option ℕ) (now : ℕ) (db : Db)
    → (calls : List Outgoing) × ((send_due_scheduled_drafts engine s limit actor org now
          db).1.outbox
        ≡ db.outbox ++ calls)
      × (length calls ≤ claim_limit limit)
      × All
          (λ (o : Outgoing). is_due_in s now org (sweep s now org db).messages o.message_id ≡ true)
          calls
unfolding send_due_scheduled_drafts sweep
send_due_scheduled_drafts-outbox engine s limit actor org now db =
    let swept = sweep s now org db in
    let (ids, claimed) = claim_due_scheduled_drafts engine s now (claim_limit limit) org swept in
    let same = claimed_ids s now org engine (claim_limit limit) swept in
    let (calls, e, n, all) =
      for_each-SendsFor (λ k. send_approved_draft s k actor none org now)
        (λ k d. send-SendsAtMost s actor org now k none d) ids claimed in
    (
      calls,
      e ∙ ap (λ x. x ++ calls) (claimed_outbox s now org engine (claim_limit limit) swept),
      omega (arith, n, ap length same, length_of_due s now org (claim_limit limit) swept),
      All-weaken (λ (o : Outgoing). is_in ids o.message_id ≡ true)
          (λ (o : Outgoing). is_due_in s now org swept.messages o.message_id ≡ true) calls
          (λ o h.
            due_of_in s now org swept.messages (due_rows s now (claim_limit limit) org swept)
              o.message_id (due_rows-IsDueIn s now org (claim_limit limit) swept)
              (subst (λ x. is_in x o.message_id ≡ true) same h))
          all,
    )
