-- ===== src/Leads/Tenants.antt =====
-- Calls for one organization leave the leads of the others.
use shiku_ai_powered_sales_d.Prelude.{
  All, All-weaken, Bool, Bool-cases, List, [], any, arith, delete_rows, false, inl, inr, not, refl,
  select, select-last_out, true, update_rows, ℕ, ◌==◌, ◌∙◌, ◌∷◌, ◌≡◌,
}
use shiku_ai_powered_sales_d.Leads.Schema.{Crm, LeadRow}
use shiku_ai_powered_sales_d.Leads.Edit.{is_lead, new_lead}
use shiku_ai_powered_sales_d.Leads.Remove.{is_listed}
use shiku_ai_powered_sales_d.Leads.Requests.{LeadRequest, is_permitted, serve_leads}
use shiku_ai_powered_sales_d.Leads.Keeps.{KeepsLeads}
use shiku_ai_powered_sales_d.Leads.Histories.{serve_leads-keeps}
use shiku_ai_powered_sales_d.Leads.Uniqueness.{
  AllApart, HasUniqueLeads, HasUniqueLeads-Keeps, apart,
}

abbrev pub of_organization : ℕ → LeadRow → Bool
of_organization org l = l.organization_id == org

abbrev pub others : ℕ → ℕ → Bool
others v org = not (org == v)

select-update_out {ℓ} :
    {A : Type ℓ} (p q : A → Bool) (f : A → A) (xs : List A)
    → ((x : A) → p (f x) ≡ p x)
    → ((x : A) → q x ≡ true → p x ≡ false)
    → select p (update_rows q f xs) ≡ select p xs
select-update_out p q f [] same out = refl
select-update_out p q f (x ∷ xs) same out =
    let rest = select-update_out p q f xs same out in
    elim (Bool-cases (q x)) [
      | inl t ↦
          let a : p x ≡ false = out x t in let b : p (f x) ≡ false = same x ∙ a in rw (t, b, a) rest
      | inr n ↦ rw (n, rest) refl
    ]

select-delete_out {ℓ} :
    {A : Type ℓ} (p r : A → Bool) (xs : List A)
    → All (λ x. r x ≡ true → p x ≡ false) xs
    → select p (delete_rows r xs) ≡ select p xs
select-delete_out p r [] h = refl
select-delete_out p r (x ∷ xs) h =
    let rest = select-delete_out p r xs h.1 in
    elim (Bool-cases (r x)) [
      | inl t ↦ let a : p x ≡ false = h.0 t in rw (t, a) rest
      | inr n ↦ rw (n, rest) refl
    ]

none_behind :
    (x : LeadRow) (k org : ℕ) (ls : List LeadRow)
    → All (λ (y : LeadRow). apart x y ≡ true) ls
    → (x.id == k) ≡ true
    → any (is_lead k org) ls ≡ false
none_behind x k org [] h e = refl
none_behind x k org (y ∷ ls) h e = ground (arith, none_behind x k org ls h.1 e)

-- Where a lead of the identifier belongs to the organization, every lead of the identifier does.
only_owner :
    (k org : ℕ) (ls : List LeadRow)
    → AllApart ls
    → any (is_lead k org) ls ≡ true
    → All (λ (x : LeadRow). (x.id == k) ≡ true → (x.organization_id == org) ≡ true) ls
only_owner k org [] h e = tt
only_owner k org (x ∷ ls) h e = elim (Bool-cases (is_lead k org x)) [
  | inl t ↦ (
    λ s. ground arith,
    All-weaken (λ (y : LeadRow). apart x y ≡ true)
        (λ (y : LeadRow). (y.id == k) ≡ true → (y.organization_id == org) ≡ true) ls
        (λ y a s. absurd (ground arith)) h.0,
  )
  | inr n ↦ (
    λ s. absurd (ground (arith, none_behind x k org ls h.0 s)),
    only_owner k org ls h.1 (rw n at e),
  )
]

only_owners :
    (ks : List ℕ) (org : ℕ) (ls : List LeadRow)
    → AllApart ls
    → All (λ k. any (is_lead k org) ls ≡ true) ks
    → All (λ (x : LeadRow). is_listed ks x.id ≡ true → (x.organization_id == org) ≡ true) ls
only_owners [] org ls h own = every ls
  where
    every :
        (ys : List LeadRow)
        → All (λ (x : LeadRow). is_listed [] x.id ≡ true → (x.organization_id == org) ≡ true) ys
    every [] = tt
    every (y ∷ ys) = (λ s. absurd (cc), every ys)
only_owners (k ∷ ks) org ls h own =
    both ls (only_owner k org ls h own.0) (only_owners ks org ls h own.1)
  where
    both :
        (ys : List LeadRow)
        → All (λ (x : LeadRow). (x.id == k) ≡ true → (x.organization_id == org) ≡ true) ys
        → All (λ (x : LeadRow). is_listed ks x.id ≡ true → (x.organization_id == org) ≡ true) ys
        → All
            (λ (x : LeadRow). is_listed (k ∷ ks) x.id ≡ true → (x.organization_id == org) ≡ true)
            ys
    both [] a b = tt
    both (y ∷ ys) a b = (
      λ s. elim (Bool-cases (k == y.id)) [ inl t ↦ a.0 (ground arith) | inr n ↦ b.0 (rw n at s) ],
      both ys a.1 b.1,
    )

module _ (v : ℕ) (rows : List LeadRow) where
  -- The leads of the organization are these.
  abbrev HasLeads : Crm → Type 0
  HasLeads db = HasUniqueLeads db × (select (of_organization v) db.leads ≡ rows)

  updated_elsewhere :
      (k org : ℕ) (f : LeadRow → LeadRow) (db : Crm)
      → others v org ≡ true
      → ((l : LeadRow) → (f l).organization_id ≡ l.organization_id)
      → select (of_organization v) (update_rows (is_lead k org) f db.leads)
        ≡ select (of_organization v) db.leads
  updated_elsewhere k org f db ok keep =
      select-update_out (of_organization v) (is_lead k org) f db.leads (λ x. rw (keep x) refl)
        (λ x t. ground arith)

  HasLeads-Keeps : KeepsLeads (others v) false false HasLeads
  HasLeads-Keeps =
      let sound = HasUniqueLeads-Keeps in
      record {
        inserts = λ org address status score raw db ok h e n. (
          sound.inserts org address status score raw db refl h.0 e n,
          select-last_out (of_organization v) db.leads
                (new_lead db.next_lead_id org address status score raw) (ground arith)
              ∙ h.1,
        );
        assigns = λ lead org ids db ok h m own. h;
        unassigns = λ lead db h. h;
        writes = λ k org f l db ok h keep address e n. (
          sound.writes k org f l db refl h.0 keep address e n,
          updated_elsewhere k org f db ok (λ x. (keep x).1) ∙ h.1,
        );
        touches = λ k org f db ok h keep. (
          sound.touches k org f db refl h.0 keep,
          updated_elsewhere k org f db ok (λ x. (keep x).1) ∙ h.1,
        );
        removes = λ org ks db ok h own. (
          sound.removes org ks db refl h.0 own,
          select-delete_out (of_organization v) (λ (l : LeadRow). is_listed ks l.id) db.leads
                (All-weaken _ _ db.leads (λ x g t. let same = g t in ground arith)
                  (only_owners ks org db.leads h.0.0 own))
              ∙ h.1,
        );
        statuses = λ k s db ok h. absurd (cc);
        contacts = λ lead campaign now db ok h. absurd (cc);
        logs = λ org e db h. h;
      }

-- If the leads have different identifiers and addresses, the leads of an organization are after
-- every history of calls for other organizations exactly what they were, where no call is a change
-- of status or a touch (`update_lead_status` and `update_lead_touch`), which test no organization.
pub serve_leads-others :
    (v : ℕ) (rs : List (ℕ × LeadRequest)) (db : Crm)
    → HasUniqueLeads db
    → All (λ (r : ℕ × LeadRequest). is_permitted (others v) false false r.0 r.1 ≡ true) rs
    → select (of_organization v) (serve_leads rs db).leads ≡ select (of_organization v) db.leads
serve_leads-others v rs db h ok =
    let rows = select (of_organization v) db.leads in
    (serve_leads-keeps (others v) false false (HasLeads v rows) (HasLeads-Keeps v rows) rs db ok
      (h, refl)).1
