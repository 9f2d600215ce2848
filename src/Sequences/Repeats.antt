-- ===== src/Sequences/Repeats.antt =====
-- A second run of `generate_due_followup_drafts` of services/sequence_service.py.
use shiku_ai_powered_sales_d.Prelude.{
  ==_refl, All, Bool, Bool-cases, List, Option, [], any, arith, false, inl, inr, refl, sym, true, ℕ,
  ℤ, ◌++◌, ◌∙◌, ◌∷◌, ◌≡◌,
}
use shiku_ai_powered_sales_d.Store.Schema.{CampaignLead, Db, Message}
use shiku_ai_powered_sales_d.Drafts.Replies.{Services}
use shiku_ai_powered_sales_d.Drafts.Send.{record_outbound}
use shiku_ai_powered_sales_d.Drafts.Scheduler.{Engine}
use shiku_ai_powered_sales_d.Sequences.Followups.{
  Due, Texts, due_followups, generate_each, generate_from, insert_followup, is_live_touch_of,
  is_passed_over, join_all, join_of, log_generated, new_followup,
}
use shiku_ai_powered_sales_d.Sequences.Drafted.{messages-insert_followup}
use mathlib.Core.Path.{subst}

-- The tables that the query reads are the same.
abbrev SameTables : Db → Db → Type 0
SameTables db db' =
    (db'.campaign_leads ≡ db.campaign_leads)
    × (db'.campaigns ≡ db.campaigns)
    × (db'.leads ≡ db.leads)
    × (db'.steps ≡ db.steps)
    × (db'.sequences ≡ db.sequences)

insert_followup-SameTables :
    (s : Services) (texts : Texts) (now : ℕ) (d : Due) (db : Db)
    → SameTables db (insert_followup s texts now d db)
unfolding insert_followup record_outbound
insert_followup-SameTables s texts now d db = ground arith

generate_each-SameTables :
    (s : Services) (texts : Texts) (ignore_delay : Bool) (now : ℕ) (ds : List Due) (db : Db)
    → SameTables db (generate_each s texts ignore_delay now ds db).1
unfolding generate_each
generate_each-SameTables s texts ignore_delay now [] db = (refl, refl, refl, refl, refl)
generate_each-SameTables s texts ignore_delay now (d ∷ ds) db =
    elim (Bool-cases (is_passed_over ignore_delay now d db)) [
      | inl t ↦ rw (t, generate_each) (generate_each-SameTables s texts ignore_delay now ds db)
      | inr n ↦
          let next = insert_followup s texts now d db in
          let a = insert_followup-SameTables s texts now d db in
          let b = generate_each-SameTables s texts ignore_delay now ds next in
          rw (n, generate_each) (b.0 ∙ a.0, b.1 ∙ a.1, b.2 ∙ a.2, b.3 ∙ a.3, b.4 ∙ a.4)
    ]

join_of-SameTables :
    (db db' : Db) (cl : CampaignLead) → SameTables db db' → join_of db' cl ≡ join_of db cl
join_of-SameTables db db' cl h = rw (h.1, h.2, h.3, h.4) refl

join_all-SameTables :
    (db db' : Db) (cls : List CampaignLead) → SameTables db db' → join_all db' cls ≡ join_all db cls
join_all-SameTables db db' [] h = refl
join_all-SameTables db db' (cl ∷ cls) h =
    rw (join_of-SameTables db db' cl h, join_all-SameTables db db' cls h) refl

due_followups-SameTables :
    (engine : Engine) (campaign org : Option ℕ) (limit : ℤ) (db db' : Db)
    → SameTables db db'
    → due_followups engine campaign org limit db' ≡ due_followups engine campaign org limit db
unfolding due_followups
due_followups-SameTables engine campaign org limit db db' h =
    rw (h.0, join_all-SameTables db db' db.campaign_leads h) refl

any-append {ℓ} :
    {A : Type ℓ} (q : A → Bool) (xs ys : List A) → any q xs ≡ true → any q (xs ++ ys) ≡ true
any-append q [] ys h = absurd (cc)
any-append q (x ∷ xs) ys h = elim (Bool-cases (q x)) [
  | inl t ↦ rw t refl
  | inr n ↦ rw n (any-append q xs ys (rw n at h))
]

own_touch :
    (texts : Texts) (now id : ℕ) (d : Due) → is_live_touch_of d (new_followup texts now d id) ≡ true
own_touch texts now id d = rw (==_refl d.lead.id, ==_refl d.campaign.id, ==_refl d.step.id) refl

any-own_touch :
    (texts : Texts) (now id : ℕ) (d : Due) (ms : List Message)
    → any (is_live_touch_of d) (ms ++ new_followup texts now d id ∷ []) ≡ true
any-own_touch texts now id d [] = rw (own_touch texts now id d) refl
any-own_touch texts now id d (m ∷ ms) = ground (arith, any-own_touch texts now id d ms)

-- A row that is passed over is passed over ever after, at the same time.
passed_over-insert :
    (s : Services) (texts : Texts) (ignore_delay : Bool) (now : ℕ) (d x : Due) (db : Db)
    → is_passed_over ignore_delay now x db ≡ true
    → is_passed_over ignore_delay now x (insert_followup s texts now d db) ≡ true
passed_over-insert s texts ignore_delay now d x db h =
    rw (messages-insert_followup s texts now d db)
      (elim (Bool-cases (any (is_live_touch_of x) db.messages)) [
        | inl t ↦
            let more =
              any-append (is_live_touch_of x) db.messages
                (new_followup texts now d db.next_message_id ∷ []) t in
            ground arith
        | inr n ↦ ground arith
      ])

passed_over-each :
    (s : Services) (texts : Texts) (ignore_delay : Bool) (now : ℕ) (ds : List Due) (x : Due)
    (db : Db)
    → is_passed_over ignore_delay now x db ≡ true
    → is_passed_over ignore_delay now x (generate_each s texts ignore_delay now ds db).1 ≡ true
unfolding generate_each
passed_over-each s texts ignore_delay now [] x db h = h
passed_over-each s texts ignore_delay now (d ∷ ds) x db h =
    elim (Bool-cases (is_passed_over ignore_delay now d db)) [
      | inl t ↦ rw (t, generate_each) (passed_over-each s texts ignore_delay now ds x db h)
      | inr n ↦
          rw (n, generate_each)
            (passed_over-each s texts ignore_delay now ds x (insert_followup s texts now d db)
              (passed_over-insert s texts ignore_delay now d x db h))
    ]

passed_over_self :
    (s : Services) (texts : Texts) (ignore_delay : Bool) (now : ℕ) (d : Due) (db : Db)
    → is_passed_over ignore_delay now d (insert_followup s texts now d db) ≡ true
passed_over_self s texts ignore_delay now d db =
    rw (messages-insert_followup s texts now d db)
      (ground (arith, any-own_touch texts now db.next_message_id d db.messages))

module _ (s : Services) (texts : Texts) (ignore_delay : Bool) (now : ℕ) where
  after_passed :
      (d : Due) (ds : List Due) (db : Db)
      → is_passed_over ignore_delay now d db ≡ true
      → (generate_each s texts ignore_delay now (d ∷ ds) db).1
        ≡ (generate_each s texts ignore_delay now ds db).1
  unfolding generate_each
  after_passed d ds db t = rw (t, generate_each) refl

  after_drafted :
      (d : Due) (ds : List Due) (db : Db)
      → is_passed_over ignore_delay now d db ≡ false
      → (generate_each s texts ignore_delay now (d ∷ ds) db).1
        ≡ (generate_each s texts ignore_delay now ds (insert_followup s texts now d db)).1
  unfolding generate_each
  after_drafted d ds db n = rw (n, generate_each) refl

  -- Every row is passed over in these tables.
  abbrev AllPassed : List Due → Db → Type 0
  AllPassed ds db = All (λ d. is_passed_over ignore_delay now d db ≡ true) ds

  each_passed_over :
      (ds : List Due) (db : Db) → AllPassed ds (generate_each s texts ignore_delay now ds db).1
  each_passed_over [] db = tt
  each_passed_over (d ∷ ds) db = elim (Bool-cases (is_passed_over ignore_delay now d db)) [
    | inl t ↦
        subst (AllPassed (d ∷ ds)) (sym (after_passed d ds db t))
          (passed_over-each s texts ignore_delay now ds d db t, each_passed_over ds db)
    | inr n ↦
        let next = insert_followup s texts now d db in
        subst (AllPassed (d ∷ ds)) (sym (after_drafted d ds db n)) (
          passed_over-each s texts ignore_delay now ds d next
              (passed_over_self s texts ignore_delay now d db),
          each_passed_over ds next,
        )
  ]

nothing_generated :
    (s : Services) (texts : Texts) (ignore_delay : Bool) (now : ℕ) (ds : List Due) (db : Db)
    → All (λ d. is_passed_over ignore_delay now d db ≡ true) ds
    → generate_each s texts ignore_delay now ds db ≡ ([], db)
unfolding generate_each
nothing_generated s texts ignore_delay now [] db h = refl
nothing_generated s texts ignore_delay now (d ∷ ds) db h =
    rw (h.0, generate_each) (nothing_generated s texts ignore_delay now ds db h.1)

SameTables-log_generated :
    (org : Option ℕ) (ks : List ℕ) (db db' : Db)
    → SameTables db db'
    → SameTables db (log_generated org ks db')
SameTables-log_generated org [] db db' h = h
SameTables-log_generated org (k ∷ ks) db db' h = h

log_generated-passed_over :
    (ignore_delay : Bool) (now : ℕ) (org : Option ℕ) (ks : List ℕ) (ds : List Due) (db : Db)
    → All (λ d. is_passed_over ignore_delay now d db ≡ true) ds
    → All (λ d. is_passed_over ignore_delay now d (log_generated org ks db) ≡ true) ds
log_generated-passed_over ignore_delay now org [] ds db h = h
log_generated-passed_over ignore_delay now org (k ∷ ks) ds db h = h

-- A second run with the same arguments, right after the first, generates nothing and leaves every
-- table as it is.
pub generate_from-again :
    (s : Services) (texts : Texts) (engine : Engine) (campaign : Option ℕ) (limit : ℤ)
    (org : Option ℕ) (ignore_delay : Bool) (now : ℕ) (db : Db)
    → let after = (generate_from s texts engine campaign limit org ignore_delay now db).1 in
      generate_from s texts engine campaign limit org ignore_delay now after ≡ ([], after)
unfolding generate_from
generate_from-again s texts engine campaign limit org ignore_delay now db =
    let ds = due_followups engine campaign org limit db in
    let (ks, db') = generate_each s texts ignore_delay now ds db in
    let same =
      SameTables-log_generated org ks db db'
        (generate_each-SameTables s texts ignore_delay now ds db) in
    rw
      (
        due_followups-SameTables engine campaign org limit db (log_generated org ks db') same,
        nothing_generated s texts ignore_delay now ds (log_generated org ks db') (
            log_generated-passed_over ignore_delay now org ks ds db'
              (each_passed_over s texts ignore_delay now ds db)),
      )
      refl
