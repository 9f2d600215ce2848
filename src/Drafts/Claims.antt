-- ===== src/Drafts/Claims.antt =====
-- The two branches of `_claim_due_scheduled_drafts` do the same.
use mathlib.Core.Path.{ap₂, subst}
use shiku_ai_powered_sales_d.Prelude.{
  ==_iff, All, All-sort_by, All-take, All-weaken, Bool-cases, List, Option, [], ap, arith, false,
  if◌then◌else◌, inl, inr, map, refl, select, some, some_eq, sort_by, sym, true, update_rows, ℕ,
  ◌==◌, ◌∙◌, ◌∷◌, ◌≡◌,
}
use shiku_ai_powered_sales_d.Store.Schema.{Db, Message}
use shiku_ai_powered_sales_d.Store.Rows.{get_message, is_approved, is_scheduled}
use shiku_ai_powered_sales_d.Store.Distinct.{Distinct, IsOwnRow-All}
use shiku_ai_powered_sales_d.Drafts.Replies.{Services}
use shiku_ai_powered_sales_d.Drafts.Scheduler.{
  claim, claim_ids, claim_in_one_statement, claim_one_by_one, due_rows, id_of, is_claimable, is_due,
  is_in, schedule_key,
}

-- What the loop makes of one row.
claimed_row : ℕ → List ℕ → Message → Message
claimed_row now [] m = m
claimed_row now (k ∷ ks) m = claimed_row now ks (if is_claimable k m then claim now m else m)

claim_ids-map :
    (now : ℕ) (ks : List ℕ) (ms : List Message) → claim_ids now ks ms ≡ map (claimed_row now ks) ms
unfolding claim_ids claimed_row
claim_ids-map now [] [] = refl
claim_ids-map now [] (m ∷ ms) = ap (λ r. m ∷ r) (claim_ids-map now [] ms)
claim_ids-map now (k ∷ ks) ms =
    claim_ids-map now ks (update_rows (is_claimable k) (claim now) ms) ∙ fuse ms
  where
    fuse :
        (ms : List Message)
        → map (claimed_row now ks) (update_rows (is_claimable k) (claim now) ms)
          ≡ map (claimed_row now (k ∷ ks)) ms
    fuse [] = refl
    fuse (m ∷ ms) =
        ap (λ r. claimed_row now ks (if is_claimable k m then claim now m else m) ∷ r) (fuse ms)

-- A row that is being sent is not claimed again.
claimed_row-sending :
    (now : ℕ) (ks : List ℕ) (m : Message) → is_scheduled m.status ≡ false → claimed_row now ks m ≡ m
unfolding claimed_row
claimed_row-sending now [] m h = refl
claimed_row-sending now (k ∷ ks) m h =
    let h' : is_claimable k m ≡ false = ground arith in rw h' (claimed_row-sending now ks m h)

claimed_row-in :
    (now : ℕ) (ks : List ℕ) (m : Message)
    → is_in ks m.id ≡ true
    → is_scheduled m.status ≡ true
    → is_approved m.approved ≡ true
    → claimed_row now ks m ≡ claim now m
unfolding claimed_row
claimed_row-in now [] m h st ap = cc
claimed_row-in now (k ∷ ks) m h st ap = elim (Bool-cases (m.id == k)) [
  | inl t ↦
      let t' : is_claimable k m ≡ true = ground arith in
      rw t' (claimed_row-sending now ks (claim now m) refl)
  | inr f ↦
      let f' : is_claimable k m ≡ false = ground arith in
      let h' : is_in ks m.id ≡ true = ground arith in rw f' (claimed_row-in now ks m h' st ap)
]

claimed_row-out :
    (now : ℕ) (ks : List ℕ) (m : Message) → is_in ks m.id ≡ false → claimed_row now ks m ≡ m
unfolding claimed_row
claimed_row-out now [] m h = refl
claimed_row-out now (k ∷ ks) m h =
    let f : is_claimable k m ≡ false = ground arith in
    let h' : is_in ks m.id ≡ false = ground arith in rw f (claimed_row-out now ks m h')

module _ (s : Services) (now limit : ℕ) (org : Option ℕ) (db : Db)
    (distinct : Distinct db.messages) where
  -- A row of the result of the query: a row of the table that is due.
  abbrev IsDueRow : Message → Type 0
  IsDueRow x = (get_message x.id db.messages ≡ some x) × (is_due s now org x ≡ true)

  both :
      (xs : List Message)
      → All (λ (x : Message). get_message x.id db.messages ≡ some x) xs
      → All IsDueRow (select (is_due s now org) xs)
  both [] h = tt
  both (x ∷ xs) h = elim (Bool-cases (is_due s now org x)) [
    | inl t ↦ rw t ((h.0, t), both xs h.1)
    | inr f ↦ rw f (both xs h.1)
  ]

  pub due_rows-IsDueRow : All IsDueRow (due_rows s now limit org db)
  unfolding due_rows
  due_rows-IsDueRow =
      All-take IsDueRow limit (sort_by schedule_key (select (is_due s now org) db.messages)) (
        All-sort_by schedule_key IsDueRow (select (is_due s now org) db.messages)
          (both db.messages (IsOwnRow-All db.messages distinct)))

  -- A row of the table whose identifier is in the result is due.
  due_of_in :
      (xs : List Message) (m : Message)
      → All IsDueRow xs
      → get_message m.id db.messages ≡ some m
      → is_in (map id_of xs) m.id ≡ true
      → is_due s now org m ≡ true
  due_of_in [] m h own i = cc
  due_of_in (x ∷ xs) m h own i = elim (Bool-cases (x.id == m.id)) [
    | inl t ↦
        let x' : get_message m.id db.messages ≡ some x =
          subst (λ k. get_message k db.messages ≡ some x) ((==_iff x.id m.id).0 t) h.0.0 in
        subst (λ y. is_due s now org y ≡ true) (some_eq (sym x' ∙ own)) h.0.1
    | inr f ↦ due_of_in xs m h.1 own (rw f at i)
  ]

  pub same_rows :
      (ks : List ℕ) (ms : List Message)
      → All (λ (m : Message). is_in ks m.id ≡ true → is_due s now org m ≡ true) ms
      → update_rows (λ m. is_in ks m.id) (claim now) ms ≡ claim_ids now ks ms
  same_rows ks ms h = pointwise ms h ∙ sym (claim_ids-map now ks ms)
    where
      pointwise :
          (ms : List Message)
          → All (λ (m : Message). is_in ks m.id ≡ true → is_due s now org m ≡ true) ms
          → update_rows (λ m. is_in ks m.id) (claim now) ms ≡ map (claimed_row now ks) ms
      pointwise [] h = refl
      pointwise (m ∷ ms) h = elim (Bool-cases (is_in ks m.id)) [
        | inl t ↦ rw t (
            ap₂ ◌∷◌ (sym (claimed_row-in now ks m t (sched m (h.0 t)) (appr m (h.0 t))))
              (pointwise ms h.1))
        | inr f ↦ rw f (ap₂ ◌∷◌ (sym (claimed_row-out now ks m f)) (pointwise ms h.1))
      ]
        where
          sched : (m : Message) → is_due s now org m ≡ true → is_scheduled m.status ≡ true
          sched m h = ground arith

          appr : (m : Message) → is_due s now org m ≡ true → is_approved m.approved ≡ true
          appr m h = ground arith

-- With distinct identifiers, the statement of the Postgres branch and the loop of the other branch
-- return the same identifiers and leave the same database.
pub claim_in_one_statement-eq-claim_one_by_one :
    (s : Services) (now limit : ℕ) (org : Option ℕ) (db : Db)
    → Distinct db.messages
    → claim_in_one_statement s now limit org db ≡ claim_one_by_one s now limit org db
unfolding claim_in_one_statement claim_one_by_one
claim_in_one_statement-eq-claim_one_by_one s now limit org db distinct =
    let rows = due_rows s now limit org db in
    ap (λ (ms : List Message). (map id_of rows, record db { messages = ms }))
      (same_rows s now limit org db distinct (map id_of rows) db.messages (
        All-weaken (λ (m : Message). get_message m.id db.messages ≡ some m)
          (λ (m : Message). is_in (map id_of rows) m.id ≡ true → is_due s now org m ≡ true)
          db.messages
          (λ m own.
            due_of_in s now limit org db distinct rows m
              (due_rows-IsDueRow s now limit org db distinct) own)
          (IsOwnRow-All db.messages distinct)))
