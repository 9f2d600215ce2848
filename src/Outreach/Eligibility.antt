-- ===== src/Outreach/Eligibility.antt =====
-- Which leads `_claim_next_outreach_touch` reserves a touch for.
use shiku_ai_powered_sales_d.Prelude.{
  Bool, Bool-cases, List, Option, Text, [], any, ap, arith, false, find_row, find_row-update, inl,
  inr, none, refl, select-last_out, some, sort_by, suc, sym, true, zero, ℕ, ◌&&◌, ◌+◌, ◌==◌, ◌∙◌,
  ◌≡◌,
}
use shiku_ai_powered_sales_d.Store.Schema.{
  CampaignLead, CampaignSequence, Channel, Db, Lead, Message,
}
use shiku_ai_powered_sales_d.Store.Rows.{get_lead, is_missing, is_sent}
use shiku_ai_powered_sales_d.Drafts.Send.{of_lead}
use shiku_ai_powered_sales_d.Outreach.Sequence.{
  Candidate, NextStep, Position, Refusal, at_step, candidate_at, candidate_for, candidate_of_lead,
  channel_prerequisite_error, check_channel, check_delay, created_key, find_next_sequence_step,
  find_sequence, first_step, halted, ineligible, is_touch, last_of, position_after, ready,
  skip_intro, skip_step, step_of, touches_of, unless_error, unless_halted, waits,
}
use shiku_ai_powered_sales_d.Outreach.Claim.{
  Claim, Skipped, claim_loop, claim_next_outreach_touch, claimed, conflicted, is_first_touch,
  lead_required, nothing_left, raise_touches, record_skipped_sequence_step, refused,
  skipped_message, turn, unless_conflict,
}
use mathlib.Core.Path.{subst}
use mathlib.Core.Option

abbrev pub AllowsLead : Channel → Option Lead → Type 0
AllowsLead channel none = ⊥
AllowsLead channel (some l) =
    (l.email_opt_out ≡ false) × (channel_prerequisite_error channel l ≡ none)

abbrev pub IsSentLast : Option Message → Type 0
IsSentLast none = Unit {0}
IsSentLast (some m) = is_sent m.status ≡ true

-- The lead exists, is not opted out and has the data of the channel; it has neither answered in the
-- campaign nor booked a meeting; and its last touch, if there is one, was sent.
abbrev pub IsEligible : ℕ → ℕ → ℕ → Db → NextStep → Type 0
IsEligible org campaign lead db n =
    AllowsLead n.channel (get_lead lead db.leads)
    × (halted (find_row (of_lead campaign lead) db.campaign_leads) ≡ none)
    × IsSentLast (last_of (touches_of org campaign lead db))

ready_eq : {m n : NextStep} → Candidate.ready m ≡ ready n → m ≡ n
ready_eq e = cc

check_delay-channel :
    (ignore : Bool) (now : ℕ) (last : Option ℕ) (m n : NextStep)
    → check_delay ignore now last m ≡ ready n
    → m.channel ≡ n.channel
check_delay-channel ignore now none m n e = ap (λ (x : NextStep). x.channel) (ready_eq e)
check_delay-channel ignore now (some last) m n e = ground arith

unless_error-ready :
    (intro : Text) (m n : NextStep) (o : Option Text) (next : Candidate)
    → unless_error intro m o next ≡ ready n
    → (o ≡ none) × (next ≡ ready n)
unless_error-ready intro m n none next e = (refl, e)
unless_error-ready intro m n (some t) next e = absurd (cc)

check_channel-ready :
    (intro : Text) (m n : NextStep) (l : Lead) (next : Candidate)
    → (next ≡ ready n → m.channel ≡ n.channel)
    → check_channel intro m l next ≡ ready n
    → channel_prerequisite_error n.channel l ≡ none
check_channel-ready intro m n l next same e =
    let h = unless_error-ready intro m n (channel_prerequisite_error m.channel l) next e in
    subst (λ c. channel_prerequisite_error c l ≡ none) (same h.1) h.0

unless_halted-ready :
    (r : Option Refusal) (next : Candidate) (n : NextStep)
    → unless_halted r next ≡ ready n
    → (r ≡ none) × (next ≡ ready n)
unless_halted-ready none next n e = (refl, e)
unless_halted-ready (some r) next n e = absurd (cc)

module _ (str : ℕ → Text) (org campaign lead : ℕ) (ignore : Bool) (now : ℕ) (n : NextStep) where
  candidate_at-ready :
      (l : Lead) (k : ℕ) (last : Option ℕ) (q : Option CampaignSequence) (db : Db)
      → candidate_at str org campaign lead ignore now l k last q db ≡ ready n
      → channel_prerequisite_error n.channel l ≡ none
  candidate_at-ready l k last (some q) db e =
      let step = step_of campaign q db in
      check_channel-ready (skip_intro str step.step_number) step n l
        (check_delay ignore now last step) (check_delay-channel ignore now last step n) e
  candidate_at-ready l k last none db e = elim (Bool-cases (k == 1)) [
    | inl t ↦
        check_channel-ready [] first_step n l (ready first_step)
          (λ h. ap (λ (x : NextStep). x.channel) (ready_eq h)) (simp t at e)
    | inr f ↦ ground arith
  ]

  at_position-ready :
      (l : Lead) (at : Position) (db : Db)
      → candidate_for str org campaign lead ignore now l at db ≡ ready n
      → channel_prerequisite_error n.channel l ≡ none
  at_position-ready l (waits step status) db e = absurd (cc)
  at_position-ready l (at_step k last) db e =
      candidate_at-ready l k last (find_sequence str org campaign lead ignore now k db.sequences) db
        e

  position-ready :
      (l : Lead) (count : ℕ) (last : Option Message) (touches : List Message) (db : Db)
      → candidate_for str org campaign lead ignore now l
          (position_after campaign count last touches db)
          db
        ≡ ready n
      → (channel_prerequisite_error n.channel l ≡ none) × IsSentLast last
  position-ready l count none touches db e =
      (at_position-ready l (at_step (count + 1) none) db e, tt)
  position-ready l count (some m) touches db e = elim (Bool-cases (is_sent m.status)) [
    | inl t ↦ (at_position-ready l (position_after campaign count (some m) touches db) db e, t)
    | inr f ↦ absurd (ground arith)
  ]

  lead-ready :
      (o : Option Lead) (db : Db)
      → candidate_of_lead str org campaign lead ignore now o db ≡ ready n
      → AllowsLead n.channel o
        × (halted (find_row (of_lead campaign lead) db.campaign_leads) ≡ none)
        × IsSentLast (last_of (touches_of org campaign lead db))
  lead-ready none db e = absurd (cc)
  lead-ready (some l) db e = elim (Bool-cases l.email_opt_out) [
    | inl t ↦ absurd (ground arith)
    | inr f ↦
        let h =
          unless_halted-ready (halted (find_row (of_lead campaign lead) db.campaign_leads)) _ n
            (simp f at e) in
        let p = position-ready l _ (last_of (touches_of org campaign lead db)) _ db h.1 in
        ((f, p.0), h.0, p.1)
  ]

  pub find_next-IsEligible :
      (db : Db)
      → find_next_sequence_step str org campaign lead ignore now db ≡ ready n
      → IsEligible org campaign lead db n
  unfolding find_next_sequence_step
  find_next-IsEligible db e = lead-ready (get_lead lead db.leads) db e

module _ (str : ℕ → Text) (org campaign lead : ℕ) (address : Option Text) (now : ℕ) (reason : Text)
    (n : NextStep) (db : Db) where
  abbrev skip_db : Db
  skip_db = record_skipped_sequence_step str org campaign lead address now reason n db

  pub skipped-not_touch :
      is_touch org campaign lead (skipped_message str org campaign lead address now reason n db)
      ≡ false
  skipped-not_touch = ground arith

  pub touches_of-skip : touches_of org campaign lead skip_db ≡ touches_of org campaign lead db
  unfolding record_skipped_sequence_step touches_of
  touches_of-skip = ap (sort_by created_key) (
      select-last_out (is_touch org campaign lead) db.messages
        (skipped_message str org campaign lead address now reason n db) skipped-not_touch)

  pub halted-skip :
      halted (find_row (of_lead campaign lead) skip_db.campaign_leads)
      ≡ halted (find_row (of_lead campaign lead) db.campaign_leads)
  unfolding record_skipped_sequence_step
  halted-skip =
      let f = raise_touches str org campaign lead address now n.step_number in
      ap halted (find_row-update (of_lead campaign lead) f db.campaign_leads (λ c. refl))
      ∙ kept (find_row (of_lead campaign lead) db.campaign_leads)
    where
      kept :
          (o : Option CampaignLead)
          → halted (Option.map (raise_touches str org campaign lead address now n.step_number) o)
            ≡ halted o
      kept none = refl
      kept (some c) = refl

  pub IsEligible-skip :
      (m : NextStep) → IsEligible org campaign lead skip_db m → IsEligible org campaign lead db m
  unfolding record_skipped_sequence_step
  IsEligible-skip m h =
      (h.0, sym halted-skip ∙ h.1, subst (λ t. IsSentLast (last_of t)) touches_of-skip h.2)

pub claimed_step_eq :
    {j k : ℕ} {m n : NextStep} {ss ts : List Skipped}
    → Claim.claimed j m ss ≡ claimed k n ts
    → m ≡ n
claimed_step_eq e = cc

module _ (str : ℕ → Text) (org campaign lead : ℕ) (address : Option Text) (now : ℕ)
    (ignore : Bool) where
  claim_loop-IsEligible :
      (turns : ℕ) (skipped : List Skipped) (db : Db) (k : ℕ) (n : NextStep) (ss : List Skipped)
      → (claim_loop str org campaign lead address now ignore turns skipped db).0 ≡ claimed k n ss
      → IsEligible org campaign lead db n
  unfolding claim_loop
  claim_loop-IsEligible zero skipped db k n ss e = absurd (cc)
  claim_loop-IsEligible (suc turns) skipped db k n ss e =
      go (λ ts d. claim_loop-IsEligible turns ts d k n ss)
        (find_next_sequence_step str org campaign lead ignore now db) refl e
    where
      go :
          ((ts : List Skipped) (d : Db)
            → (claim_loop str org campaign lead address now ignore turns ts d).0 ≡ claimed k n ss
            → IsEligible org campaign lead d n)
          → (c : Candidate) → find_next_sequence_step str org campaign lead ignore now db ≡ c
          → (turn str org campaign lead address now
              (claim_loop str org campaign lead address now ignore turns)
              skipped
              c
              db).0
            ≡ claimed k n ss
          → IsEligible org campaign lead db n
      go ih (ready m) f e =
          subst (λ x. IsEligible org campaign lead db x) (claimed_step_eq e)
            (find_next-IsEligible str org campaign lead ignore now m db f)
      go ih (skip_step reason m) f e =
          IsEligible-skip str org campaign lead address now reason m db n (ih _ _ e)
      go ih (ineligible r) f e = absurd (cc)

-- A claim that stands is the one of the loop.
pub unless_conflict-claimed :
    (org campaign lead : ℕ) (db : Db) (r : Claim × Db) (k : ℕ) (n : NextStep) (ss : List Skipped)
    → (unless_conflict org campaign lead db r).0 ≡ claimed k n ss
    → r.0 ≡ claimed k n ss
unless_conflict-claimed org campaign lead db (claimed j m ts, d) k n ss e =
    elim (Bool-cases
      (is_missing m.sequence_step_id && any (is_first_touch org campaign lead) db.messages)) [
        | inl t ↦ let bad : Claim.conflicted ≡ claimed k n ss = rw t at e in absurd (cc)
        | inr f ↦ rw f at e
      ]
unless_conflict-claimed org campaign lead db (lead_required, d) k n ss e = e
unless_conflict-claimed org campaign lead db (nothing_left, d) k n ss e = e
unless_conflict-claimed org campaign lead db (conflicted, d) k n ss e = e
unless_conflict-claimed org campaign lead db (refused r, d) k n ss e = e

-- If `_claim_next_outreach_touch` reserves a touch, then in the state before the call the lead exists,
-- is not opted out and has the data that the channel of the reserved step needs, it has neither
-- responded in the campaign nor booked a meeting, and its last touch, if it has one, is sent.
pub claim_next_outreach_touch-IsEligible :
    (str : ℕ → Text) (org campaign lead : ℕ) (address : Option Text) (ignore : Bool) (now : ℕ)
    (db : Db) (k : ℕ) (n : NextStep) (ss : List Skipped)
    → (claim_next_outreach_touch str org campaign (some lead) address ignore now db).0
      ≡ claimed k n ss
    → IsEligible org campaign lead db n
unfolding claim_next_outreach_touch
claim_next_outreach_touch-IsEligible str org campaign lead address ignore now db k n ss e =
    elim (Bool-cases (lead == 0)) [
      | inl t ↦ absurd (ground arith)
      | inr f ↦ claim_loop-IsEligible str org campaign lead address now ignore 5 [] db k n ss (
          unless_conflict-claimed org campaign lead db
            (claim_loop str org campaign lead address now ignore 5 [] db) k n ss (simp f at e))
    ]
