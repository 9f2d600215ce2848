-- ===== src/Leads/Ownership.antt =====
-- A lead is assigned to campaigns of its own organization only.
use shiku_ai_powered_sales_d.Prelude.{
  ==_iff, All, All-append, All-select, All-weaken, Bool, Bool-cases, List, [], any, arith,
  delete_rows, false, inl, inr, negsuc, pos, refl, true, update_rows, ℕ, ℤ, ◌&&◌, ◌++◌, ◌==◌, ◌∙◌,
  ◌∷◌, ◌≡◌,
}
use shiku_ai_powered_sales_d.Store.Schema.{Campaign, CampaignLead}
use shiku_ai_powered_sales_d.Leads.Schema.{Crm, LeadRow}
use shiku_ai_powered_sales_d.Leads.Assign.{
  assign_each, has_none, is_assignment, is_own_campaign, missing_of, new_assignment,
}
use shiku_ai_powered_sales_d.Leads.Edit.{is_lead}
use shiku_ai_powered_sales_d.Leads.Remove.{has_lead_id, is_listed}
use shiku_ai_powered_sales_d.Leads.Requests.{LeadRequest, is_permitted, serve_leads}
use shiku_ai_powered_sales_d.Leads.Keeps.{KeepsLeads, KeepsOwner}
use shiku_ai_powered_sales_d.Leads.Statements.{any-update_rows, is_lead-KeepsOwner}
use shiku_ai_powered_sales_d.Leads.Histories.{serve_leads-keeps}

-- Some campaign of the row's number belongs to the organization of the row's lead.
abbrev pub is_co_owned : List Campaign → List LeadRow → CampaignLead → Bool
is_co_owned cs ls cl =
    any (λ (c : Campaign). c.id == cl.campaign_id && any (is_lead cl.lead_id c.organization_id) ls)
      cs

abbrev pub IsCoOwned : Crm → Type 0
IsCoOwned db = All (λ cl. is_co_owned db.campaigns db.leads cl ≡ true) db.campaign_leads

-- Leads that are all still there.
Includes : List LeadRow → List LeadRow → ℕ → Type 0
Includes before after k =
    (org : ℕ) → any (is_lead k org) before ≡ true → any (is_lead k org) after ≡ true

is_co_owned-Includes :
    (cs : List Campaign) (before after : List LeadRow) (cl : CampaignLead)
    → Includes before after cl.lead_id
    → is_co_owned cs before cl ≡ true
    → is_co_owned cs after cl ≡ true
unfolding Includes
is_co_owned-Includes [] before after cl i h = absurd (cc)
is_co_owned-Includes (c ∷ cs) before after cl i h =
    elim (Bool-cases
      (c.id == cl.campaign_id && any (is_lead cl.lead_id c.organization_id) before)) [
        | inl t ↦
            let there : any (is_lead cl.lead_id c.organization_id) before ≡ true = ground arith in
            let still = i c.organization_id there in
            let same : (c.id == cl.campaign_id) ≡ true = ground arith in rw (same, still) refl
        | inr n ↦
            let rest : is_co_owned cs before cl ≡ true = rw n at h in
            let more = is_co_owned-Includes cs before after cl i rest in ground arith
      ]

IsCoOwned-Includes :
    (cs : List Campaign) (before after : List LeadRow) (rows : List CampaignLead)
    → ((k : ℕ) → Includes before after k)
    → All (λ cl. is_co_owned cs before cl ≡ true) rows
    → All (λ cl. is_co_owned cs after cl ≡ true) rows
IsCoOwned-Includes cs before after rows i h =
    All-weaken _ _ rows (λ cl e. is_co_owned-Includes cs before after cl (i cl.lead_id) e) h

update-Includes :
    (q : LeadRow → Bool) (f : LeadRow → LeadRow) (ls : List LeadRow) (k : ℕ)
    → KeepsOwner f
    → Includes ls (update_rows q f ls) k
unfolding Includes
update-Includes q f ls k keep org h =
    any-update_rows (is_lead k org) q f ls (is_lead-KeepsOwner k org f keep) ∙ h

append-Includes : (ls more : List LeadRow) (k : ℕ) → Includes ls (ls ++ more) k
unfolding Includes
append-Includes [] more k org h = absurd (cc)
append-Includes (l ∷ ls) more k org h = elim (Bool-cases (is_lead k org l)) [
  | inl t ↦ rw t refl
  | inr n ↦ rw n (append-Includes ls more k org (rw n at h))
]

delete-Includes :
    (ks : List ℕ) (ls : List LeadRow) (k : ℕ)
    → is_listed ks k ≡ false
    → Includes ls (delete_rows (λ (l : LeadRow). is_listed ks l.id) ls) k
unfolding Includes
delete-Includes ks [] k n org h = absurd (cc)
delete-Includes ks (l ∷ ls) k n org h = elim (Bool-cases (is_lead k org l)) [
  | inl t ↦
      let same : l.id ≡ k = (==_iff l.id k).0 (ground arith) in
      let stays : is_listed ks l.id ≡ false = rw same n in rw stays (rw t refl)
  | inr f ↦
      let rest = delete-Includes ks ls k n org (rw f at h) in
      elim (Bool-cases (is_listed ks l.id)) [ inl t ↦ rw t rest | inr a ↦ rw a (rw f rest) ]
]

removed-IsCoOwned :
    (cs : List Campaign) (ks : List ℕ) (ls : List LeadRow) (rows : List CampaignLead)
    → All (λ cl. is_co_owned cs ls cl ≡ true) rows
    → All
        (λ cl. is_co_owned cs (delete_rows (λ (l : LeadRow). is_listed ks l.id) ls) cl ≡ true)
        (delete_rows (λ (cl : CampaignLead). is_listed ks cl.lead_id) rows)
removed-IsCoOwned cs ks ls [] h = tt
removed-IsCoOwned cs ks ls (cl ∷ rows) h = elim (Bool-cases (is_listed ks cl.lead_id)) [
  | inl t ↦ rw t (removed-IsCoOwned cs ks ls rows h.1)
  | inr n ↦ rw n (
    is_co_owned-Includes cs ls _ cl (delete-Includes ks ls cl.lead_id n) h.0,
    removed-IsCoOwned cs ks ls rows h.1,
  )
]

-- A campaign of the organization and a lead of it make a row that is owned by one.
new-is_co_owned :
    (cs : List Campaign) (ls : List LeadRow) (k lead org : ℕ)
    → any (is_own_campaign org k) cs ≡ true
    → any (is_lead lead org) ls ≡ true
    → is_co_owned cs ls (new_assignment k lead) ≡ true
new-is_co_owned [] ls k lead org c l = absurd (cc)
new-is_co_owned (x ∷ cs) ls k lead org c l = elim (Bool-cases (is_own_campaign org k x)) [
  | inl t ↦
      let owner : x.organization_id ≡ org = (==_iff x.organization_id org).0 (ground arith) in
      let number : (x.id == k) ≡ true = ground arith in rw (number, owner, l) refl
  | inr n ↦ let rest = new-is_co_owned cs ls k lead org (rw n at c) l in ground arith
]

assign_each-IsCoOwned :
    (cs : List Campaign) (ls : List LeadRow) (lead org : ℕ) (ids : List ℤ)
    (rows : List CampaignLead)
    → has_none (missing_of org cs ids) ≡ true
    → any (is_lead lead org) ls ≡ true
    → All (λ cl. is_co_owned cs ls cl ≡ true) rows
    → All (λ cl. is_co_owned cs ls cl ≡ true) (assign_each lead ids rows)
unfolding assign_each
assign_each-IsCoOwned cs ls lead org [] rows m own h = h
assign_each-IsCoOwned cs ls lead org (negsuc k ∷ ids) rows m own h = absurd (cc)
assign_each-IsCoOwned cs ls lead org (pos k ∷ ids) rows m own h =
    elim (Bool-cases (any (is_own_campaign org k) cs)) [
      | inr n ↦ absurd (ground arith)
      | inl t ↦
          let m' : has_none (missing_of org cs ids) ≡ true = ground arith in
          elim (Bool-cases (any (is_assignment k lead) rows)) [
            | inl u ↦ rw u (assign_each-IsCoOwned cs ls lead org ids rows m' own h)
            | inr v ↦ rw v (
                assign_each-IsCoOwned cs ls lead org ids (rows ++ new_assignment k lead ∷ []) m' own
                  (All-append _ rows _ h (new-is_co_owned cs ls k lead org t own, tt)))
          ]
    ]

IsCoOwned-Keeps : KeepsLeads (λ o. true) true false IsCoOwned
IsCoOwned-Keeps = record {
  inserts = λ org address status score raw db ok h e n.
      IsCoOwned-Includes db.campaigns db.leads _ db.campaign_leads (append-Includes db.leads _) h;
  assigns = λ lead org ids db ok h m own.
      assign_each-IsCoOwned db.campaigns db.leads lead org ids db.campaign_leads m own h;
  unassigns = λ lead db h. All-select _ _ db.campaign_leads h;
  writes = λ k org f l db ok h keep address e n.
      IsCoOwned-Includes db.campaigns db.leads _ db.campaign_leads
        (λ j. update-Includes (is_lead k org) f db.leads j keep) h;
  touches = λ k org f db ok h keep.
      IsCoOwned-Includes db.campaigns db.leads _ db.campaign_leads
        (λ j. update-Includes (is_lead k org) f db.leads j (λ l. ((keep l).0, (keep l).1))) h;
  removes = λ org ks db ok h own. removed-IsCoOwned db.campaigns ks db.leads db.campaign_leads h;
  statuses = λ k s db ok h.
      IsCoOwned-Includes db.campaigns db.leads _ db.campaign_leads
        (λ j.
          update-Includes (has_lead_id k) (λ l. record l { status = s }) db.leads j
            (λ l. (refl, refl)))
        h;
  contacts = λ lead campaign now db ok h. absurd (cc);
  logs = λ org e db h. h;
}

-- If each assignment joins a lead with a campaign of the lead's organization, so does each after
-- every history of calls, whatever identifiers of campaigns the callers send, where no call is a
-- touch (`update_lead_touch`), which assigns a lead without a test of the organizations.
pub serve_leads-IsCoOwned :
    (rs : List (ℕ × LeadRequest)) (db : Crm)
    → All (λ (r : ℕ × LeadRequest). is_permitted (λ o. true) true false r.0 r.1 ≡ true) rs
    → IsCoOwned db
    → IsCoOwned (serve_leads rs db)
serve_leads-IsCoOwned rs db ok h =
    serve_leads-keeps (λ o. true) true false IsCoOwned IsCoOwned-Keeps rs db ok h
