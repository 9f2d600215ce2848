-- ===== src/Leads/Upserts.antt =====
-- What the import of a row leaves of a lead that is there.
use shiku_ai_powered_sales_d.Prelude.{
  ==_refl, List, Option, Text, arith, false, find_row, find_row-unread, find_row_holds, none, refl,
  some, true, update_rows, ℕ, ℤ, ◌+◌, ◌∙◌, ◌≡◌,
}
use shiku_ai_powered_sales_d.Store.Schema.{new}
use shiku_ai_powered_sales_d.Leads.Schema.{Crm, LeadOutcome, LeadRow, RawLead, done, raised, unsaid}
use shiku_ai_powered_sales_d.Leads.Normalize.{normalize_email, normalize_status, nullable_int}
use shiku_ai_powered_sales_d.Leads.Edit.{has_email, is_lead}
use shiku_ai_powered_sales_d.Leads.Import.{
  ImportState, assign_row, import_row, merge_lead, row_ids, with_assigned,
}
use shiku_ai_powered_sales_d.Leads.Frames.{IsFramed, assign_campaigns-IsFramed}

abbrev pub HasReset : ℕ → Text → LeadRow → Crm → Type 0
HasReset org address l db =
    (l' : LeadRow) × (find_row (has_email org address) db.leads ≡ some l')
    × (l'.id ≡ l.id)
    × (l'.status ≡ new)
    × (l'.email_opt_out ≡ false)

leads-with_assigned :
    (idx : ℕ) (raw : RawLead) (p : ImportState) (o : LeadOutcome Crm)
    → IsFramed p.crm o
    → (with_assigned idx raw p o).crm.leads ≡ p.crm.leads
leads-with_assigned idx raw p (raised e) f = refl
leads-with_assigned idx raw p (done db) f = f.0

-- If a row of an import with upsert names a lead that is there, and says nothing of its status and
-- of the opt-out, then the lead is new and opted in after the row, whatever it was before and
-- whether or not the assignment of its campaigns raises; the identifiers and the score of the row
-- are such that they can be read.
pub import_row-HasReset :
    (org : ℕ) (ids zs : List ℤ) (idx : ℕ) (raw : RawLead) (p : ImportState) (address : Text)
    (l : LeadRow) (score : Option ℤ)
    → normalize_email raw.email ≡ done address
    → find_row (has_email org address) p.crm.leads ≡ some l
    → row_ids raw ids ≡ done zs
    → nullable_int raw.icp_score ≡ done score
    → raw.status ≡ none
    → raw.email_opt_out ≡ unsaid
    → HasReset org address l (import_row org true ids idx raw p).crm
unfolding import_row normalize_status
import_row-HasReset org ids zs idx raw p address l score e f r n st opt =
    rw (e, st, r, f, n, same) (merge_lead new score raw l, found, refl, refl, rw opt refl)
  where
    updated : Crm
    updated = record p.crm {
      leads = update_rows (is_lead l.id org) (merge_lead new score raw) p.crm.leads;
    }

    same :
        (assign_row org idx raw zs l.id
          (record p { updated = p.updated + 1; crm = updated })).crm.leads
        ≡ updated.leads
    same = leads-with_assigned idx raw _ _ (assign_campaigns-IsFramed l.id org false zs updated)

    own : is_lead l.id org l ≡ true
    own =
        let held = find_row_holds (has_email org address) p.crm.leads f in
        ground (arith, ==_refl l.id)

    found : find_row (has_email org address) updated.leads ≡ some (merge_lead new score raw l)
    found =
        find_row-unread (has_email org address) (is_lead l.id org) (merge_lead new score raw)
          p.crm.leads (λ x. refl)
        ∙ rw (f, own) refl
