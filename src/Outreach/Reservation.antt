-- ===== src/Outreach/Reservation.antt =====
-- A reserved touch keeps another from being reserved.
use shiku_ai_powered_sales_d.Prelude.{
  ==_refl, All, All-append, All-select, Bool, Bool-cases, List, Option, Text, [], any, ap, arith,
  false, find_row, inl, inr, none, refl, select, select-last_in, some, sort_by, sort_by-last, suc,
  true, zero, ℕ, ◌&&◌, ◌++◌, ◌==◌, ◌∙◌, ◌∷◌, ◌≡◌, ◌≤◌,
}
use shiku_ai_powered_sales_d.Store.Schema.{Channel, Db, Lead, Message, SequenceStep, generating}
use shiku_ai_powered_sales_d.Store.Rows.{get_lead, is_missing, is_sent}
use shiku_ai_powered_sales_d.Drafts.Send.{of_lead}
use shiku_ai_powered_sales_d.Outreach.Sequence.{
  Candidate, NextStep, candidate_of_lead, created_key, find_next_sequence_step, halted, ineligible,
  is_touch, last_of, message_step_number, pending_touch, ready, skip_step, touches_of,
}
use shiku_ai_powered_sales_d.Outreach.Claim.{
  Claim, Skipped, claim_loop, claim_next_outreach_touch, claimed, conflicted, insert_message,
  is_first_touch, lead_required, nothing_left, record_skipped_sequence_step, refused,
  reserved_message, turn, unless_conflict,
}
use shiku_ai_powered_sales_d.Outreach.Eligibility.{
  AllowsLead, IsEligible, claimed_step_eq, find_next-IsEligible,
}
use mathlib.Core.Path.{subst}

-- No message is from after now.
abbrev pub IsBefore : ℕ → Db → Type 0
IsBefore now db = All (λ (m : Message). created_key m ≤ now) db.messages

last_of-append : (ms : List Message) (m : Message) → last_of (ms ++ m ∷ []) ≡ some m
last_of-append [] m = refl
last_of-append (x ∷ []) m = refl
last_of-append (x ∷ y ∷ ms) m = last_of-append (y ∷ ms) m

module _ (str : ℕ → Text) (org campaign lead : ℕ) (address : Option Text) (now : ℕ) (n : NextStep)
    (db : Db) where
  abbrev reserved : Message
  reserved = reserved_message str org campaign lead address now n db

  reserved-touch : is_touch org campaign lead reserved ≡ true
  reserved-touch = ground (arith, ==_refl org, ==_refl campaign, ==_refl lead)

  last-reserved :
      IsBefore now db
      → last_of (touches_of org campaign lead (insert_message reserved db)) ≡ some reserved
  unfolding touches_of
  last-reserved before =
      let touches = select (is_touch org campaign lead) db.messages in
      ap (λ ms. last_of (sort_by created_key ms))
        (select-last_in (is_touch org campaign lead) db.messages reserved reserved-touch)
      ∙ ap last_of (
          sort_by-last created_key touches reserved (
            All-select (λ (m : Message). created_key m ≤ now) (is_touch org campaign lead)
              db.messages before))
      ∙ last_of-append (sort_by created_key touches) reserved

module _ (str : ℕ → Text) (org campaign lead : ℕ) (again : Bool) (later : ℕ) where
  candidate-pending :
      (c : Channel) (o : Option Lead) (d : Db) (m : Message)
      → AllowsLead c o
      → halted (find_row (of_lead campaign lead) d.campaign_leads) ≡ none
      → last_of (touches_of org campaign lead d) ≡ some m
      → is_sent m.status ≡ false
      → candidate_of_lead str org campaign lead again later o d
        ≡ ineligible (pending_touch (message_step_number m.sequence_step_id d.steps) m.status)
  candidate-pending c none d m allows halt last unsent = absurd allows
  candidate-pending c (some l) d m allows halt last unsent =
      rw allows.0 (rw halt (rw last (rw unsent refl)))

  -- What stands between a claim and the next one.
  abbrev pub IsReserved : Option ℕ → Db → Type 0
  IsReserved step d =
      find_next_sequence_step str org campaign lead again later d
      ≡ ineligible (pending_touch step (some generating))

  reserve-IsReserved :
      (address : Option Text) (now : ℕ) (n : NextStep) (db : Db)
      → IsEligible org campaign lead db n
      → IsBefore now db
      → IsReserved
          (message_step_number n.sequence_step_id db.steps)
          (insert_message (reserved_message str org campaign lead address now n db) db)
  unfolding find_next_sequence_step
  reserve-IsReserved address now n db h before =
      let m = reserved_message str org campaign lead address now n db in
      candidate-pending n.channel (get_lead lead db.leads) (insert_message m db) m h.0 h.1
        (last-reserved str org campaign lead address now n db before) refl

  module _ (address : Option Text) (now : ℕ) (ignore : Bool) where
    IsBefore-skip :
        (reason : Text) (m : NextStep) (db : Db)
        → IsBefore now db
        → IsBefore now (record_skipped_sequence_step str org campaign lead address now reason m db)
    unfolding record_skipped_sequence_step
    IsBefore-skip reason m db h =
        All-append (λ (x : Message). created_key x ≤ now) db.messages _ h (omega arith, tt)

    abbrev Reserves : List SequenceStep → Claim × Db → Type 0
    Reserves steps (claimed k n ss, d) = IsReserved (message_step_number n.sequence_step_id steps) d
    Reserves steps (_, d) = Unit {0}

    after_skip :
        (reason : Text) (m : NextStep) (db : Db) (r : Claim × Db)
        → Reserves
            (record_skipped_sequence_step str org campaign lead address now reason m db).steps
            r
        → Reserves db.steps r
    unfolding record_skipped_sequence_step
    after_skip reason m db r h = h

    claim_loop-Reserves :
        (turns : ℕ) (skipped : List Skipped) (db : Db)
        → IsBefore now db
        → Reserves db.steps (claim_loop str org campaign lead address now ignore turns skipped db)
    unfolding claim_loop
    claim_loop-Reserves zero skipped db before = tt
    claim_loop-Reserves (suc turns) skipped db before =
        go (λ ts d. claim_loop-Reserves turns ts d)
          (find_next_sequence_step str org campaign lead ignore now db) refl
      where
        go :
            ((ts : List Skipped) (d : Db)
              → IsBefore now d
              → Reserves d.steps (claim_loop str org campaign lead address now ignore turns ts d))
            → (c : Candidate) → find_next_sequence_step str org campaign lead ignore now db ≡ c
            → Reserves db.steps (
                turn str org campaign lead address now
                  (claim_loop str org campaign lead address now ignore turns)
                  skipped
                  c
                  db)
        go ih (ready m) f =
            reserve-IsReserved address now m db
              (find_next-IsEligible str org campaign lead ignore now m db f) before
        go ih (skip_step reason m) f =
            after_skip reason m db _ (ih _ _ (IsBefore-skip reason m db before))
        go ih (ineligible r) f = tt

    conflict-Reserves :
        (db : Db) (r : Claim × Db)
        → Reserves db.steps r
        → Reserves db.steps (unless_conflict org campaign lead db r)
    conflict-Reserves db (claimed k n ss, d) h =
        elim (Bool-cases
          (is_missing n.sequence_step_id && any (is_first_touch org campaign lead) db.messages)) [
            | inl t ↦ rw t tt
            | inr f ↦ rw f h
          ]
    conflict-Reserves db (lead_required, d) h = tt
    conflict-Reserves db (nothing_left, d) h = tt
    conflict-Reserves db (conflicted, d) h = tt
    conflict-Reserves db (refused r, d) h = tt

    claim-Reserves :
        (db : Db)
        → (lead == 0) ≡ false
        → IsBefore now db
        → Reserves db.steps
            (claim_next_outreach_touch str org campaign (some lead) address ignore now db)
    unfolding claim_next_outreach_touch
    claim-Reserves db f before = rw f (conflict-Reserves db _ (claim_loop-Reserves 5 [] db before))

    lead_of_claimed :
        (db : Db) (k : ℕ) (n : NextStep) (ss : List Skipped)
        → (claim_next_outreach_touch str org campaign (some lead) address ignore now db).0
          ≡ claimed k n ss
        → (lead == 0) ≡ false
    unfolding claim_next_outreach_touch
    lead_of_claimed db k n ss e = elim (Bool-cases (lead == 0)) [
      | inl t ↦ absurd (ground arith)
      | inr f ↦ f
    ]

    Reserves-claimed :
        (steps : List SequenceStep) (c : Claim) (d : Db) (k : ℕ) (n : NextStep) (ss : List Skipped)
        → c ≡ claimed k n ss
        → Reserves steps (c, d)
        → IsReserved (message_step_number n.sequence_step_id steps) d
    Reserves-claimed steps lead_required d k n ss e h = absurd (cc)
    Reserves-claimed steps nothing_left d k n ss e h = absurd (cc)
    Reserves-claimed steps conflicted d k n ss e h = absurd (cc)
    Reserves-claimed steps (refused r) d k n ss e h = absurd (cc)
    Reserves-claimed steps (claimed j m ts) d k n ss e h =
        subst (λ (x : NextStep). IsReserved (message_step_number x.sequence_step_id steps) d)
          (claimed_step_eq e) h

claim_again :
    (str : ℕ → Text) (org campaign lead : ℕ) (address : Option Text) (again : Bool) (later : ℕ)
    (step : Option ℕ) (d : Db)
    → (lead == 0) ≡ false
    → IsReserved str org campaign lead again later step d
    → claim_next_outreach_touch str org campaign (some lead) address again later d
      ≡ (refused (pending_touch step (some generating)), d)
unfolding claim_next_outreach_touch claim_loop
claim_again str org campaign lead address again later step d f h = rw f (rw h refl)

-- If no message is dated after now and `_claim_next_outreach_touch` reserves a touch, a second call
-- for the same lead of the same campaign on the state it leaves, at any time, by anyone and with or
-- without the delay, is refused because of a pending touch and changes nothing.
pub claim_next_outreach_touch-exclusive :
    (str : ℕ → Text) (org campaign lead : ℕ) (address address' : Option Text) (ignore again : Bool)
    (now later : ℕ) (db : Db) (k : ℕ) (n : NextStep) (ss : List Skipped)
    → IsBefore now db
    → (claim_next_outreach_touch str org campaign (some lead) address ignore now db).0
      ≡ claimed k n ss
    → let d = (claim_next_outreach_touch str org campaign (some lead) address ignore now db).1 in
      claim_next_outreach_touch str org campaign (some lead) address' again later d ≡ (
        refused (pending_touch (message_step_number n.sequence_step_id db.steps) (some generating)),
        d,
      )
claim_next_outreach_touch-exclusive str org campaign lead address address' ignore again now later db
      k n ss before e =
    let (c, d) = claim_next_outreach_touch str org campaign (some lead) address ignore now db in
    let f = lead_of_claimed str org campaign lead again later address now ignore db k n ss e in
    claim_again str org campaign lead address' again later _ d f (
      Reserves-claimed str org campaign lead again later address now ignore db.steps c d k n ss e
        (claim-Reserves str org campaign lead again later address now ignore db f before))
