-- ===== src/Contexts/Halt.antt =====
-- An answer of a lead halts the follow-ups of services/sequence_service.py.
use shiku_ai_powered_sales_d.Prelude.{
  All, All-append, All-update_rows, Bool-cases, List, Option, Text, [], arith, codes, false,
  find_row, find_row_holds, inl, inr, none, refl, select, some, text_eq, true, update_rows, ℕ, ℤ,
  ◌&&◌, ◌==◌, ◌||◌, ◌∷◌, ◌≡◌,
}
use shiku_ai_powered_sales_d.Store.Schema.{Campaign, CampaignLead, Db, Lead, SequenceStep}
use shiku_ai_powered_sales_d.Store.Rows.{get_lead}
use shiku_ai_powered_sales_d.Drafts.Replies.{Services}
use shiku_ai_powered_sales_d.Drafts.Send.{of_lead}
use shiku_ai_powered_sales_d.Drafts.Scheduler.{Engine}
use shiku_ai_powered_sales_d.Sequences.Followups.{
  Due, due_followups, is_next_step, is_open, join_all, join_of, joined,
}
use shiku_ai_powered_sales_d.Sequences.Drafted.{due_followups-All}
use shiku_ai_powered_sales_d.Contexts.Inbound.{
  booked_rows, is_no_answer, normalized_intent, or_first, record_answer, record_inbound,
  set_meeting_booked, set_responded,
}

-- A row of the lead and the campaign is marked as answered.
abbrev IsAnswered : ℕ → ℕ → CampaignLead → Type 0
IsAnswered campaign lead cl = of_lead campaign lead cl ≡ true → cl.responded ≡ true

-- A row of the query for the lead and the campaign has such a link.
abbrev HasAnswered : ℕ → ℕ → Due → Type 0
HasAnswered campaign lead d =
    (d.campaign.id == campaign && d.lead.id == lead) ≡ true → d.link.responded ≡ true

set_responded-IsAnswered :
    (campaign lead : ℕ) (rows : List CampaignLead)
    → All (IsAnswered campaign lead) (update_rows (of_lead campaign lead) (set_responded true) rows)
set_responded-IsAnswered campaign lead [] = tt
set_responded-IsAnswered campaign lead (cl ∷ rows) = (
  elim (Bool-cases (of_lead campaign lead cl)) [
    | inl t ↦ rw t (λ h. refl)
    | inr n ↦ rw n (λ h. absurd (cc (n, h)))
  ],
  set_responded-IsAnswered campaign lead rows,
)

booked_rows-IsAnswered :
    (campaign lead : ℕ) (intent : Text) (rows : List CampaignLead)
    → All (IsAnswered campaign lead) rows
    → All (IsAnswered campaign lead) (booked_rows campaign lead intent rows)
booked_rows-IsAnswered campaign lead intent rows h =
    elim (Bool-cases (text_eq (codes "meeting_confirmation") intent)) [
      | inl t ↦ rw t (
          All-update_rows (IsAnswered campaign lead) (of_lead campaign lead) set_meeting_booked rows
            (λ cl a q. a) h)
      | inr n ↦ rw n h
    ]

-- The join keeps the marks.
join_of-HasAnswered :
    (campaign lead : ℕ) (db : Db) (cl : CampaignLead)
    → IsAnswered campaign lead cl
    → All (HasAnswered campaign lead) (join_of db cl)
join_of-HasAnswered campaign lead db cl a =
    go (find_row (λ (c : Campaign). c.id == cl.campaign_id) db.campaigns) refl
      (get_lead cl.lead_id db.leads) refl (find_row (is_next_step cl) db.steps)
  where
    go :
        (c : Option Campaign)
        → find_row (λ (c : Campaign). c.id == cl.campaign_id) db.campaigns ≡ c
        → (l : Option Lead) → get_lead cl.lead_id db.leads ≡ l
        → (t : Option SequenceStep) → All (HasAnswered campaign lead) (joined db cl c l t)
    go none e l f t = tt
    go (some c) e none f t = tt
    go (some c) e (some l) f none = tt
    go (some c) e (some l) f (some t) =
        let same_campaign =
          find_row_holds (λ (c : Campaign). c.id == cl.campaign_id) db.campaigns e in
        let same_lead = find_row_holds (λ (l : Lead). l.id == cl.lead_id) db.leads f in
        (λ h. a (ground arith), tt)

join_all-HasAnswered :
    (campaign lead : ℕ) (db : Db) (cls : List CampaignLead)
    → All (IsAnswered campaign lead) cls
    → All (HasAnswered campaign lead) (join_all db cls)
join_all-HasAnswered campaign lead db [] h = tt
join_all-HasAnswered campaign lead db (cl ∷ cls) h =
    All-append _ (join_of db cl) (join_all db cls) (join_of-HasAnswered campaign lead db cl h.0)
      (join_all-HasAnswered campaign lead db cls h.1)

-- The query leaves out the rows of the lead and the campaign.
abbrev pub IsOther : ℕ → ℕ → Due → Type 0
IsOther campaign lead d = (d.campaign.id == campaign && d.lead.id == lead) ≡ false

select_open-IsOther :
    (campaign lead : ℕ) (c org : Option ℕ) (ds : List Due)
    → All (HasAnswered campaign lead) ds
    → All (IsOther campaign lead) (select (is_open c org) ds)
select_open-IsOther campaign lead c org [] h = tt
select_open-IsOther campaign lead c org (d ∷ ds) h = elim (Bool-cases (is_open c org d)) [
  | inr n ↦ rw n (select_open-IsOther campaign lead c org ds h.1)
  | inl t ↦ rw t (
    elim (Bool-cases (d.campaign.id == campaign && d.lead.id == lead)) [
      | inr n ↦ n
      | inl q ↦ let answered : d.link.responded ≡ true = h.0 q in absurd (ground arith)
    ],
    select_open-IsOther campaign lead c org ds h.1,
  )
]

-- After an answer of a lead to a campaign that is neither a bounce nor spam, whatever its other
-- texts are, the query of the due follow-ups, on either database and with any limit, returns no row
-- for that lead and that campaign.
pub due_followups-record_inbound :
    (s : Services) (engine : Engine) (o : Option ℕ) (campaign lead : ℕ)
    (subject body intent : Option Text) (now : ℕ) (c org : Option ℕ) (limit : ℤ) (db : Db)
    → (campaign == 0 || lead == 0) ≡ false
    → is_no_answer (normalized_intent intent) ≡ false
    → All (IsOther campaign lead) (
        due_followups engine c org limit
          (record_inbound s o (some campaign) (some lead) subject body intent now db))
unfolding record_inbound
due_followups-record_inbound s engine o campaign lead subject body intent now c org limit db g h =
    let text = normalized_intent intent in
    let after = record_answer s (or_first o) campaign lead subject body text now db in
    let marked : All (IsAnswered campaign lead) after.campaign_leads =
      booked_rows-IsAnswered campaign lead text _
        (rw h (set_responded-IsAnswered campaign lead db.campaign_leads)) in
    rw g (
      due_followups-All (IsOther campaign lead) engine c org limit after (
        select_open-IsOther campaign lead c org _
          (join_all-HasAnswered campaign lead after after.campaign_leads marked)))
