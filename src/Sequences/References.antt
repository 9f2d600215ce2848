-- ===== src/Sequences/References.antt =====
-- The steps that messages refer to.
use shiku_ai_powered_sales_d.Prelude.{
  ==_iff, Bool, Bool-cases, List, Option, [], any, arith, delete_rows, false, find_row, inl, inr,
  none, not, refl, select, some, some_eq, sort_by, sym, true, update_rows, ℕ, ◌&&◌, ◌++◌, ◌==◌,
  ◌||◌, ◌∙◌, ◌∷◌, ◌≡◌,
}
use shiku_ai_powered_sales_d.Store.Schema.{Campaign, Db, SequenceStep}
use shiku_ai_powered_sales_d.Sequences.Replace.{
  CleanStep, RawStep, clean_steps, existing_of, has_step_id, is_campaign, is_referenced,
  is_requested, kept_row, of_campaign, put_step, put_steps, replace_in, replace_sequence_steps,
  retire, retire_steps, set_step, step_key, switch_off,
}
use mathlib.Core.Path.{subst}

-- The row of a step, by its identifier, its number and its campaign.
abbrev pub is_step : ℕ → ℕ → ℕ → SequenceStep → Bool
is_step k n campaign t = t.id == k && t.step_number == n && t.campaign_id == campaign

any-update :
    (p q : SequenceStep → Bool) (f : SequenceStep → SequenceStep) (xs : List SequenceStep)
    → ((x : SequenceStep) → p (f x) ≡ p x)
    → any p (update_rows q f xs) ≡ any p xs
any-update p q f [] same = refl
any-update p q f (x ∷ xs) same = ground (arith, same x, any-update p q f xs same)

any-append :
    (p : SequenceStep → Bool) (xs ys : List SequenceStep)
    → any p xs ≡ true
    → any p (xs ++ ys) ≡ true
any-append p [] ys h = absurd (cc)
any-append p (x ∷ xs) ys h = elim (Bool-cases (p x)) [
  | inl t ↦ simp t refl
  | inr f ↦ simp f (any-append p xs ys (simp f at h))
]

any-delete :
    (p q : SequenceStep → Bool) (xs : List SequenceStep)
    → ((x : SequenceStep) → p x ≡ true → q x ≡ false)
    → any p xs ≡ true
    → any p (delete_rows q xs) ≡ true
any-delete p q [] apart h = absurd (cc)
any-delete p q (x ∷ xs) apart h = elim (Bool-cases (p x)) [
  | inl t ↦ simp (apart x t, t) refl
  | inr f ↦ ground (arith, f, any-delete p q xs apart (simp f at h))
]

module _ (k n c : ℕ) where
  -- A message refers to the step, and its row is there.
  abbrev IsKept : Db → Type 0
  IsKept db = (is_referenced k db ≡ true) × (any (is_step k n c) db.steps ≡ true)

  other_id :
      (j : ℕ) (db : Db) (t : SequenceStep)
      → is_referenced k db ≡ true
      → is_referenced j db ≡ false
      → is_step k n c t ≡ true
      → has_step_id j t ≡ false
  other_id j db t here there h = elim (Bool-cases (t.id == j)) [
    | inl e ↦
        let a : t.id ≡ j = (==_iff t.id j).0 e in
        let b : t.id ≡ k = (==_iff t.id k).0 (ground arith) in
        let same : j ≡ k = sym a ∙ b in absurd (cc)
    | inr e ↦ e
  ]

  retire-IsKept : (j : ℕ) (db : Db) → IsKept db → IsKept (retire j db)
  retire-IsKept j db (here, there) = elim (Bool-cases (is_referenced j db)) [
    | inl t ↦
        simp t
          (here, any-update (is_step k n c) (has_step_id j) switch_off db.steps (λ x. refl) ∙ there)
    | inr f ↦ simp f (
      here,
      any-delete (is_step k n c) (has_step_id j) db.steps (λ x h. other_id j db x here f h) there,
    )
  ]

  put_step-IsKept :
      (campaign : ℕ) (s : CleanStep) (o : Option SequenceStep) (db : Db)
      → IsKept db
      → IsKept (put_step campaign s o db)
  put_step-IsKept campaign s none db (here, there) =
      (here, any-append (is_step k n c) db.steps _ there)
  put_step-IsKept campaign s (some t) db (here, there) = (
    here,
    any-update (is_step k n c) (has_step_id t.id) (set_step s) db.steps (λ x. refl) ∙ there,
  )

  put_steps-IsKept :
      (campaign : ℕ) (before : List SequenceStep) (cs : List CleanStep) (db : Db)
      → IsKept db
      → IsKept (put_steps campaign before cs db)
  unfolding put_steps
  put_steps-IsKept campaign before [] db h = h
  put_steps-IsKept campaign before (s ∷ cs) db h =
      let o = existing_of s.step_number before in
      put_steps-IsKept campaign before cs (put_step campaign s o db)
        (put_step-IsKept campaign s o db h)

  retire_steps-IsKept :
      (cs : List CleanStep) (before ts : List SequenceStep) (db : Db)
      → IsKept db
      → IsKept (retire_steps cs before ts db)
  unfolding retire_steps
  retire_steps-IsKept cs before [] db h = h
  retire_steps-IsKept cs before (t ∷ ts) db h =
      elim (Bool-cases (is_requested cs t || not (kept_row before t))) [
        | inl e ↦ simp e (retire_steps-IsKept cs before ts db h)
        | inr e ↦
            simp e (retire_steps-IsKept cs before ts (retire t.id db) (retire-IsKept t.id db h))
      ]

  replace_in-IsKept :
      (campaign : ℕ) (o : Option Campaign) (cleaned : Option (List CleanStep)) (db db' : Db)
      → replace_in campaign o cleaned db ≡ some db'
      → IsKept db
      → any (is_step k n c) db'.steps ≡ true
  replace_in-IsKept campaign o none db db' e h = absurd (cc)
  replace_in-IsKept campaign none (some cs) db db' e h = absurd (cc)
  replace_in-IsKept campaign (some x) (some cs) db db' e h =
      let sorted = sort_by step_key cs in
      let before = select (of_campaign campaign) db.steps in
      let put = put_steps campaign before sorted db in
      let kept =
        retire_steps-IsKept sorted before before put
          (put_steps-IsKept campaign before sorted db h) in
      subst (λ (d : Db). any (is_step k n c) d.steps ≡ true) (some_eq e) kept.1

-- If `replace_sequence_steps` succeeds, the row of a step that a message refers to is still there
-- afterwards, with its identifier, its number and its campaign, whether or not the step is among
-- those asked for.
pub replace_sequence_steps-IsKept :
    (k n c campaign : ℕ) (raw : List RawStep) (org : Option ℕ) (db db' : Db)
    → replace_sequence_steps campaign raw org db ≡ some db'
    → is_referenced k db ≡ true
    → any (is_step k n c) db.steps ≡ true
    → any (is_step k n c) db'.steps ≡ true
unfolding replace_sequence_steps
replace_sequence_steps-IsKept k n c campaign raw org db db' e here there =
    replace_in-IsKept k n c campaign (find_row (is_campaign campaign org) db.campaigns)
      (clean_steps raw []) db db' e (here, there)
