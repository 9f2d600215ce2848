-- ===== src/Outreach/Skips.antt =====
-- A step that is skipped because the lead lacks the data of its channel.
use shiku_ai_powered_sales_d.Prelude.{
  Bool, List, Option, Text, [], ap, arith, false, find_row, if◌then◌else◌, length, length-append,
  none, refl, some, suc, sym, true, zero, ℕ, ◌++◌, ◌+◌, ◌==◌, ◌∙◌, ◌∷◌, ◌≡◌,
}
use shiku_ai_powered_sales_d.Store.Schema.{CampaignSequence, Db, Lead, Message, SequenceStep}
use shiku_ai_powered_sales_d.Store.Rows.{get_lead, is_sent}
use shiku_ai_powered_sales_d.Drafts.Send.{of_lead}
use shiku_ai_powered_sales_d.Outreach.Sequence.{
  NextStep, Position, Refusal, at_step, candidate_at, candidate_for, candidate_of_lead,
  find_next_sequence_step, find_sequence, ineligible, last_of, message_step_number, or_number,
  position_after, position_of, skip_step, touch_count_of, touches_of, unless_halted, waits,
}
use shiku_ai_powered_sales_d.Outreach.Claim.{
  Claim, Skipped, claim_loop, claim_next_outreach_touch, claimed, conflicted, lead_required,
  nothing_left, record_skipped_sequence_step, refused, skipped_of, unless_conflict,
}
use shiku_ai_powered_sales_d.Outreach.Eligibility.{halted-skip, touches_of-skip}
use mathlib.Core.Path.{subst, ap₂}

-- The last touch is sent and of a step whose number is not 0.
abbrev pub FollowsStep : List SequenceStep → Option Message → Type 0
FollowsStep steps none = ⊥
FollowsStep steps (some m) =
    (is_sent m.status ≡ true)
    × ((j : ℕ) × (message_step_number m.sequence_step_id steps ≡ some (suc j)))

module _ (str : ℕ → Text) (org campaign lead : ℕ) (address : Option Text) (ignore : Bool)
    (now : ℕ) where
  abbrev Follows : Db → Type 0
  Follows db = FollowsStep db.steps (last_of (touches_of org campaign lead db))

  abbrev skip : Text → NextStep → Db → Db
  skip reason n db = record_skipped_sequence_step str org campaign lead address now reason n db

  or_number-suc : (j b : ℕ) → or_number (some (suc j)) b ≡ suc j
  or_number-suc j b = ground arith

  module _ (reason : Text) (n : NextStep) (db : Db) where
    -- The count of touches does not matter where the step of the last touch is known.
    position_after-skip :
        (last : Option Message) (touches : List Message) (count count' : ℕ)
        → FollowsStep db.steps last
        → position_after campaign count last touches (skip reason n db)
          ≡ position_after campaign count' last touches db
    unfolding record_skipped_sequence_step
    position_after-skip none touches count count' h = absurd h
    position_after-skip (some m) touches count count' h =
        rw h.0 (rw h.1.1 (rw or_number-suc (rw or_number-suc refl)))

    position-skip :
        Follows db
        → position_of str org campaign lead ignore now (skip reason n db)
          ≡ position_of str org campaign lead ignore now db
    position-skip h =
        let d = skip reason n db in
        let count = touch_count_of (find_row (of_lead campaign lead) d.campaign_leads) in
        let count' = touch_count_of (find_row (of_lead campaign lead) db.campaign_leads) in
        let touches = touches_of org campaign lead db in
        ap (λ ts. position_after campaign count (last_of ts) ts d)
          (touches_of-skip str org campaign lead address now reason n db)
        ∙ position_after-skip (last_of touches) touches count count' h

    candidate_at-skip :
        (l : Lead) (k : ℕ) (last : Option ℕ) (q : Option CampaignSequence)
        → candidate_at str org campaign lead ignore now l k last q (skip reason n db)
          ≡ candidate_at str org campaign lead ignore now l k last q db
    unfolding record_skipped_sequence_step
    candidate_at-skip l k last none = refl
    candidate_at-skip l k last (some q) = refl

    candidate_for-skip :
        (l : Lead) (at : Position)
        → candidate_for str org campaign lead ignore now l at (skip reason n db)
          ≡ candidate_for str org campaign lead ignore now l at db
    unfolding record_skipped_sequence_step
    candidate_for-skip l (waits step status) = refl
    candidate_for-skip l (at_step k last) =
        candidate_at-skip l k last (find_sequence str org campaign lead ignore now k db.sequences)

    candidate_of_lead-skip :
        (o : Option Lead)
        → Follows db
        → candidate_of_lead str org campaign lead ignore now o (skip reason n db)
          ≡ candidate_of_lead str org campaign lead ignore now o db
    candidate_of_lead-skip none h = refl
    candidate_of_lead-skip (some l) h =
        let at = position_of str org campaign lead ignore now db in
        let same =
          ap (λ at. candidate_for str org campaign lead ignore now l at (skip reason n db))
            (position-skip h)
          ∙ candidate_for-skip l at in
        ap (λ c. if l.email_opt_out then ineligible Refusal.opted_out else c)
          (ap₂ unless_halted (halted-skip str org campaign lead address now reason n db) same)

    find_next-skip :
        Follows db
        → find_next_sequence_step str org campaign lead ignore now (skip reason n db)
          ≡ find_next_sequence_step str org campaign lead ignore now db
    unfolding find_next_sequence_step record_skipped_sequence_step
    find_next-skip h = candidate_of_lead-skip (get_lead lead db.leads) h

    Follows-skip : Follows db → Follows (skip reason n db)
    unfolding record_skipped_sequence_step
    Follows-skip h =
        subst (λ t. FollowsStep db.steps (last_of t))
          (sym (touches_of-skip str org campaign lead address now reason n db)) h

    length-skip : length (skip reason n db).messages ≡ length db.messages + 1
    unfolding record_skipped_sequence_step
    length-skip = length-append db.messages _

  -- The lead is stuck: the turns find the same step and leave it out, each with a failed message.
  stuck_loop :
      (reason : Text) (n : NextStep) (turns : ℕ) (skipped : List Skipped) (db : Db)
      → Follows db
      → find_next_sequence_step str org campaign lead ignore now db ≡ skip_step reason n
      → let (c, d) = claim_loop str org campaign lead address now ignore turns skipped db in
        (c ≡ nothing_left)
        × (find_next_sequence_step str org campaign lead ignore now d ≡ skip_step reason n)
        × (length d.messages ≡ length db.messages + turns)
  unfolding claim_loop
  stuck_loop reason n zero skipped db h e = (refl, e, omega arith)
  stuck_loop reason n (suc turns) skipped db h e =
      let ih =
        stuck_loop reason n turns
          (skipped ++ skipped_of str org campaign lead address now reason n ∷ []) (skip reason n db)
          (Follows-skip reason n db h) (find_next-skip reason n db h ∙ e) in
      rw e (ih.0, ih.1, omega (arith, ih.2, length-skip reason n db))

conflict-nothing :
    (org campaign lead : ℕ) (db : Db) (r : Claim × Db)
    → r.0 ≡ nothing_left
    → unless_conflict org campaign lead db r ≡ r
conflict-nothing org campaign lead db (claimed k n ss, d) e = absurd (cc)
conflict-nothing org campaign lead db (lead_required, d) e = refl
conflict-nothing org campaign lead db (nothing_left, d) e = refl
conflict-nothing org campaign lead db (conflicted, d) e = refl
conflict-nothing org campaign lead db (refused r, d) e = refl

-- If the last touch of a lead is sent and of a step that has a number, and the lead lacks the data of
-- the channel of the next step, a call of `_claim_next_outreach_touch` reserves nothing, adds five
-- messages for the one step and leaves the lead where it was: the next step is the same and is
-- skipped again. The sequence does not advance.
pub claim_next_outreach_touch-stuck :
    (str : ℕ → Text) (org campaign lead : ℕ) (address : Option Text) (ignore : Bool) (now : ℕ)
    (reason : Text) (n : NextStep) (db : Db)
    → (lead == 0) ≡ false
    → FollowsStep db.steps (last_of (touches_of org campaign lead db))
    → find_next_sequence_step str org campaign lead ignore now db ≡ skip_step reason n
    → let (c, d) = claim_next_outreach_touch str org campaign (some lead) address ignore now db in
      (c ≡ nothing_left)
      × (find_next_sequence_step str org campaign lead ignore now d ≡ skip_step reason n)
      × (length d.messages ≡ length db.messages + 5)
unfolding claim_next_outreach_touch
claim_next_outreach_touch-stuck str org campaign lead address ignore now reason n db f h e =
    let r = claim_loop str org campaign lead address now ignore 5 [] db in
    let stuck = stuck_loop str org campaign lead address ignore now reason n 5 [] db h e in
    rw f (
      subst
        (λ (x : Claim × Db).
          (x.0 ≡ nothing_left)
          × (find_next_sequence_step str org campaign lead ignore now x.1 ≡ skip_step reason n)
          × (length x.1.messages ≡ length db.messages + 5))
        (sym (conflict-nothing org campaign lead db r stuck.0)) stuck)
