-- ===== src/Sequences/Drafted.antt =====
-- What `generate_due_followup_drafts` of services/sequence_service.py adds.
use shiku_ai_powered_sales_d.Prelude.{
  ==_iff, All, All-append, All-select, All-sort_by, All-take, Bool, Bool-cases, List, Option, [],
  any, ap, append-nil, append_assoc, arith, count_rows, false, find_row, inl, inr, length,
  length-append, length-take, negsuc, none, not, pos, refl, select, select-last_in, select-last_out,
  some, sort_by, suc, sym, true, ℕ, ℤ, ◌&&◌, ◌++◌, ◌==◌, ◌∙◌, ◌∷◌, ◌≡◌, ◌≤◌,
}
use shiku_ai_powered_sales_d.Store.Schema.{Campaign, CampaignLead, Db, Lead, Message, SequenceStep}
use shiku_ai_powered_sales_d.Store.Rows.{get_lead}
use shiku_ai_powered_sales_d.Drafts.Replies.{Services}
use shiku_ai_powered_sales_d.Drafts.Sending.{messages-record_outbound}
use shiku_ai_powered_sales_d.Drafts.Scheduler.{Engine, postgres, sqlite}
use shiku_ai_powered_sales_d.Sequences.Followups.{
  Due, Texts, contact_key, due_followups, generate_each, generate_from, insert_followup, is_early,
  is_live_touch, is_live_touch_of, is_next_step, is_open, is_passed_over, join_all, join_of, joined,
  log_generated, new_followup, ordered, row_limit, was_contacted,
}
use mathlib.Core.Path.{subst}

-- A row of the join of the tables: the link stands in the table, and the campaign, the lead and the
-- step are those that it leads to.
abbrev pub IsJoined : Db → Due → Type 0
IsJoined db d =
    ((before : List CampaignLead) × (after : List CampaignLead) × (db.campaign_leads
        ≡ before ++ d.link ∷ after))
    × (find_row (λ (c : Campaign). c.id == d.link.campaign_id) db.campaigns ≡ some d.campaign)
    × (get_lead d.link.lead_id db.leads ≡ some d.lead)
    × (find_row (is_next_step d.link) db.steps ≡ some d.step)

-- An open row of the join.
abbrev pub IsOpenRow : Option ℕ → Option ℕ → Db → Due → Type 0
IsOpenRow campaign org db d = (is_open campaign org d ≡ true) × IsJoined db d

module _ (source : Db) (campaign org : Option ℕ) (texts : Texts) (ignore_delay : Bool)
    (now : ℕ) where
  -- A follow-up for an open row of the tables, not before its time.
  abbrev pub IsFollowup : Message → Type 0
  IsFollowup m =
      (d : Due) × IsOpenRow campaign org source d
      × ((not ignore_delay && is_early now d) ≡ false)
      × (m ≡ new_followup texts now d m.id)

-- One message at most for each lead, campaign and step.
abbrev pub IsSingle : List Message → Type 0
IsSingle ms = (lead campaign step : ℕ) → count_rows (is_live_touch lead campaign step) ms ≤ 1

pub messages-insert_followup :
    (s : Services) (texts : Texts) (now : ℕ) (d : Due) (db : Db)
    → (insert_followup s texts now d db).messages
      ≡ db.messages ++ new_followup texts now d db.next_message_id ∷ []
unfolding insert_followup
messages-insert_followup s texts now d db =
    messages-record_outbound s d.campaign.organization_id (some d.campaign.id) d.lead.id
      (texts.followup_subject d) (texts.followup_body d) now _

count-any {ℓ} : {A : Type ℓ} (q : A → Bool) (xs : List A) → any q xs ≡ false → count_rows q xs ≡ 0
count-any q [] e = refl
count-any q (x ∷ xs) e = elim (Bool-cases (q x)) [
  | inl t ↦ absurd (ground arith)
  | inr n ↦ rw n (count-any q xs (rw n at e))
]

-- A message for which there was none is the only one.
IsSingle-new :
    (texts : Texts) (now id : ℕ) (d : Due) (ms : List Message)
    → any (is_live_touch_of d) ms ≡ false
    → IsSingle ms
    → IsSingle (ms ++ new_followup texts now d id ∷ [])
IsSingle-new texts now id d ms e h lead campaign step =
    elim (Bool-cases (is_live_touch lead campaign step (new_followup texts now d id))) [
      | inr n ↦
          rw (select-last_out (is_live_touch lead campaign step) ms (new_followup texts now d id) n)
            (h lead campaign step)
      | inl t ↦
          let l : d.lead.id ≡ lead = (==_iff d.lead.id lead).0 (ground arith) in
          let c : d.campaign.id ≡ campaign = (==_iff d.campaign.id campaign).0 (ground arith) in
          let k : d.step.id ≡ step = (==_iff d.step.id step).0 (ground arith) in
          let none_before : count_rows (is_live_touch_of d) ms ≡ 0 =
            count-any (is_live_touch_of d) ms e in
          let none_here : count_rows (is_live_touch lead campaign step) ms ≡ 0 =
            rw⁻¹ (l, c, k) none_before in
          rw (select-last_in (is_live_touch lead campaign step) ms (new_followup texts now d id) t)
            (omega (
              arith,
              length-append (select (is_live_touch lead campaign step) ms)
                  (new_followup texts now d id ∷ []),
            ))
    ]

IsSingle-each :
    (s : Services) (texts : Texts) (ignore_delay : Bool) (now : ℕ) (ds : List Due) (db : Db)
    → IsSingle db.messages
    → IsSingle (generate_each s texts ignore_delay now ds db).1.messages
unfolding generate_each
IsSingle-each s texts ignore_delay now [] db h = h
IsSingle-each s texts ignore_delay now (d ∷ ds) db h =
    elim (Bool-cases (is_passed_over ignore_delay now d db)) [
      | inl t ↦ rw (t, generate_each) (IsSingle-each s texts ignore_delay now ds db h)
      | inr n ↦
          let free : any (is_live_touch_of d) db.messages ≡ false = ground arith in
          rw (n, generate_each)
            (IsSingle-each s texts ignore_delay now ds (insert_followup s texts now d db) (
              rw (messages-insert_followup s texts now d db)
                (IsSingle-new texts now db.next_message_id d db.messages free h)))
    ]

module _ (source : Db) (campaign org : Option ℕ) (s : Services) (texts : Texts)
    (ignore_delay : Bool) (now : ℕ) where
  -- The table has grown by one follow-up for each number.
  abbrev pub HasDrafted : List Message → List ℕ → List Message → Type 0
  HasDrafted before ks after =
      (added : List Message) × (after ≡ before ++ added)
      × (length added ≡ length ks)
      × All (IsFollowup source campaign org texts ignore_delay now) added

  -- A draft in front of what the rest of the loop adds.
  drafted_first :
      (d : Due) (id : ℕ) (before : List Message) (ks : List ℕ) (after : List Message)
      → IsOpenRow campaign org source d
      → (not ignore_delay && is_early now d) ≡ false
      → HasDrafted (before ++ new_followup texts now d id ∷ []) ks after
      → HasDrafted before (id ∷ ks) after
  drafted_first d id before ks after o e (added, same, counts, each) = (
    new_followup texts now d id ∷ added,
    same ∙ append_assoc before (new_followup texts now d id ∷ []) added,
    ap suc counts,
    ((d, o, e, refl), each),
  )

  generate_each-HasDrafted :
      (ds : List Due) (db : Db)
      → All (IsOpenRow campaign org source) ds
      → HasDrafted db.messages
          (generate_each s texts ignore_delay now ds db).0
          (generate_each s texts ignore_delay now ds db).1.messages
        × (length (generate_each s texts ignore_delay now ds db).0 ≤ length ds)
  unfolding generate_each
  generate_each-HasDrafted [] db h = (([], sym (append-nil db.messages), refl, tt), omega arith)
  generate_each-HasDrafted (d ∷ ds) db h =
      elim (Bool-cases (is_passed_over ignore_delay now d db)) [
        | inl t ↦
            let rest = generate_each-HasDrafted ds db h.1 in
            rw (t, generate_each) (rest.0, omega (arith, rest.1))
        | inr n ↦
            let next = insert_followup s texts now d db in
            let rest = generate_each-HasDrafted ds next h.1 in
            let early : (not ignore_delay && is_early now d) ≡ false = ground arith in
            rw (n, generate_each)
              (
                drafted_first d db.next_message_id db.messages _ _ h.0 early (
                    subst
                      (λ ms.
                        HasDrafted ms (generate_each s texts ignore_delay now ds next).0
                          (generate_each s texts ignore_delay now ds next).1.messages)
                      (messages-insert_followup s texts now d db) rest.0),
                omega (arith, rest.1),
              )
      ]

messages-log_generated :
    (org : Option ℕ) (ks : List ℕ) (db : Db) → (log_generated org ks db).messages ≡ db.messages
messages-log_generated org [] db = refl
messages-log_generated org (k ∷ ks) db = refl

-- What holds of the rows that the query selects holds of those that it returns.
pub due_followups-All :
    (P : Due → Type 0) (engine : Engine) (campaign org : Option ℕ) (limit : ℤ) (db : Db)
    → All P (select (is_open campaign org) (join_all db db.campaign_leads))
    → All P (due_followups engine campaign org limit db)
unfolding due_followups
due_followups-All P engine campaign org limit db each =
    All-take P (row_limit limit) _ (in_order engine)
  where
    rows : List Due
    rows = select (is_open campaign org) (join_all db db.campaign_leads)

    early : All P (select (λ d. not (was_contacted d)) rows)
    early = All-select _ _ rows each

    sorted : All P (sort_by contact_key (select was_contacted rows))
    sorted = All-sort_by contact_key _ _ (All-select _ _ rows each)

    in_order : (e : Engine) → All P (ordered e rows)
    in_order sqlite = All-append _ _ _ early sorted
    in_order postgres = All-append _ _ _ sorted early

join_of-IsJoined :
    (db : Db) (before : List CampaignLead) (cl : CampaignLead) (after : List CampaignLead)
    → db.campaign_leads ≡ before ++ cl ∷ after
    → All (IsJoined db) (join_of db cl)
join_of-IsJoined db before cl after split =
    go (find_row (λ (c : Campaign). c.id == cl.campaign_id) db.campaigns) refl
      (get_lead cl.lead_id db.leads) refl (find_row (is_next_step cl) db.steps) refl
  where
    go :
        (c : Option Campaign)
        → find_row (λ (c : Campaign). c.id == cl.campaign_id) db.campaigns ≡ c
        → (l : Option Lead) → get_lead cl.lead_id db.leads ≡ l
        → (t : Option SequenceStep) → find_row (is_next_step cl) db.steps ≡ t
        → All (IsJoined db) (joined db cl c l t)
    go none e l f t g = tt
    go (some c) e none f t g = tt
    go (some c) e (some l) f none g = tt
    go (some c) e (some l) f (some t) g = (((before, after, split), e, f, g), tt)

join_all-IsJoined :
    (db : Db) (before cls : List CampaignLead)
    → db.campaign_leads ≡ before ++ cls
    → All (IsJoined db) (join_all db cls)
join_all-IsJoined db before [] split = tt
join_all-IsJoined db before (cl ∷ cls) split =
    All-append _ (join_of db cl) (join_all db cls) (join_of-IsJoined db before cl cls split) (
      join_all-IsJoined db (before ++ cl ∷ []) cls
        (split ∙ sym (append_assoc before (cl ∷ []) cls)))

select_open-IsOpenRow :
    (campaign org : Option ℕ) (db : Db) (ds : List Due)
    → All (IsJoined db) ds
    → All (IsOpenRow campaign org db) (select (is_open campaign org) ds)
select_open-IsOpenRow campaign org db [] h = tt
select_open-IsOpenRow campaign org db (d ∷ ds) h = elim (Bool-cases (is_open campaign org d)) [
  | inl t ↦ rw t ((t, h.0), select_open-IsOpenRow campaign org db ds h.1)
  | inr f ↦ rw f (select_open-IsOpenRow campaign org db ds h.1)
]

due_followups-IsOpenRow :
    (engine : Engine) (campaign org : Option ℕ) (limit : ℤ) (db : Db)
    → All (IsOpenRow campaign org db) (due_followups engine campaign org limit db)
due_followups-IsOpenRow engine campaign org limit db =
    due_followups-All (IsOpenRow campaign org db) engine campaign org limit db (
      select_open-IsOpenRow campaign org db (join_all db db.campaign_leads)
        (join_all-IsJoined db [] db.campaign_leads refl))

length-due_followups :
    (engine : Engine) (campaign org : Option ℕ) (limit : ℤ) (db : Db)
    → length (due_followups engine campaign org limit db) ≤ row_limit limit
unfolding due_followups
length-due_followups engine campaign org limit db =
    let taken =
      length-take (row_limit limit)
        (ordered engine (select (is_open campaign org) (join_all db db.campaign_leads))) in
    omega arith

row_limit_bounds : (limit : ℤ) → (1 ≤ row_limit limit) × (row_limit limit ≤ 200)
row_limit_bounds (pos n) = ground arith
row_limit_bounds (negsuc n) = ground arith

-- The table of messages grows by one follow-up draft for each number returned, at most 200 of them
-- whatever the limit is; each is for a row of the tables before the run: a link of campaign_leads, its
-- campaign, its lead and the step after the emails sent. The campaign and the step are active, the
-- lead has not opted out, the link says neither that the lead responded nor that a meeting is booked,
-- and has messages left, and it is not before the delay of the step unless that is ignored. If there
-- is at most one live message for each lead, campaign and step before, there is afterwards.
pub generate_from-HasDrafted :
    (s : Services) (texts : Texts) (engine : Engine) (campaign : Option ℕ) (limit : ℤ)
    (org : Option ℕ) (ignore_delay : Bool) (now : ℕ) (db : Db)
    → IsSingle db.messages
    → let r = generate_from s texts engine campaign limit org ignore_delay now db in
      HasDrafted db campaign org s texts ignore_delay now db.messages r.0 r.1.messages
      × (length r.0 ≤ 200)
      × IsSingle r.1.messages
unfolding generate_from
generate_from-HasDrafted s texts engine campaign limit org ignore_delay now db h =
    let ds = due_followups engine campaign org limit db in
    let added =
      generate_each-HasDrafted db campaign org s texts ignore_delay now ds db
        (due_followups-IsOpenRow engine campaign org limit db) in
    let bounded = length-due_followups engine campaign org limit db in
    let (ks, db') = generate_each s texts ignore_delay now ds db in
    rw (messages-log_generated org ks db') (
      added.0,
      omega (arith, added.1, bounded, (row_limit_bounds limit).1),
      IsSingle-each s texts ignore_delay now ds db h,
    )
