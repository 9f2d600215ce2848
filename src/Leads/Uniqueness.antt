-- ===== src/Leads/Uniqueness.antt =====
-- Leads differ in their identifiers, and in their organizations or addresses; the addresses are
-- normalised.
use shiku_ai_powered_sales_d.Prelude.{
  All, All-append, All-select, All-update_rows, All-weaken, Bool, Bool-cases, List, [], any, arith,
  false, find_row, inl, inr, ltb, not, refl, select, some, some_eq, sym, text_eq_sym, true,
  update_rows, update_rows_unmet, ℕ, ◌&&◌, ◌++◌, ◌+◌, ◌==◌, ◌||◌, ◌∷◌, ◌≡◌,
}
use shiku_ai_powered_sales_d.Leads.Touch.{touch_row}
use shiku_ai_powered_sales_d.Leads.Schema.{Crm, LeadRow}
use shiku_ai_powered_sales_d.Leads.Normalize.{is_email}
use shiku_ai_powered_sales_d.Leads.Edit.{clashes, has_email, is_lead, new_lead}
use shiku_ai_powered_sales_d.Leads.Remove.{has_lead_id}
use shiku_ai_powered_sales_d.Leads.Requests.{LeadRequest, serve_leads}
use shiku_ai_powered_sales_d.Leads.Keeps.{KeepsAddress, KeepsKey, KeepsLeads, KeepsOwner}
use shiku_ai_powered_sales_d.Leads.Histories.{everything_permitted, serve_leads-keeps}
use mathlib.Core.Path.{subst}

abbrev pub apart : LeadRow → LeadRow → Bool
apart x y = not (y.id == x.id) && not (has_email x.organization_id x.email y)

abbrev pub AllApart : List LeadRow → Type 0
AllApart [] = Unit
AllApart (x ∷ xs) = All (λ (y : LeadRow). apart x y ≡ true) xs × AllApart xs

abbrev pub IsBelow : ℕ → List LeadRow → Type 0
IsBelow next ls = All (λ (l : LeadRow). ltb l.id next ≡ true) ls

abbrev pub IsSoundTable : List LeadRow → ℕ → Type 0
IsSoundTable ls next =
    AllApart ls × IsBelow next ls × All (λ (l : LeadRow). is_email l.email ≡ true) ls

abbrev pub HasUniqueLeads : Crm → Type 0
HasUniqueLeads db = IsSoundTable db.leads db.next_lead_id

has_email_sym :
    (x y : LeadRow) → has_email x.organization_id x.email y ≡ has_email y.organization_id y.email x
has_email_sym x y = rw (text_eq_sym x.email y.email) (ground arith)

apart_sym : (x y : LeadRow) → apart x y ≡ true → apart y x ≡ true
apart_sym x y h = ground (arith, has_email_sym x y)

-- Where rows lie apart from a row, their selection, and their updates by what leaves the key, do.
AllApart-select : (q : LeadRow → Bool) (ls : List LeadRow) → AllApart ls → AllApart (select q ls)
AllApart-select q [] h = tt
AllApart-select q (l ∷ ls) h = elim (Bool-cases (q l)) [
  | inl t ↦ rw t (All-select (λ (y : LeadRow). apart l y ≡ true) q ls h.0, AllApart-select q ls h.1)
  | inr f ↦ rw f (AllApart-select q ls h.1)
]

AllApart-touch :
    (q : LeadRow → Bool) (f : LeadRow → LeadRow) (ls : List LeadRow)
    → KeepsKey f
    → AllApart ls
    → AllApart (update_rows q f ls)
AllApart-touch q f [] keep h = tt
AllApart-touch q f (l ∷ ls) keep h = (
  elim (Bool-cases (q l)) [
    | inl t ↦ rw t (
        All-update_rows (λ (y : LeadRow). apart (f l) y ≡ true) q f ls
          (λ y a t. rw ((keep y).0, (keep y).1, (keep y).2) a)
          (All-weaken _ _ ls (λ y a. rw ((keep l).0, (keep l).1, (keep l).2) a) h.0))
    | inr n ↦ rw n (
        All-update_rows (λ (y : LeadRow). apart l y ≡ true) q f ls
          (λ y a t. rw ((keep y).0, (keep y).1, (keep y).2) a) h.0)
  ],
  AllApart-touch q f ls keep h.1,
)

AllApart-insert :
    (l : LeadRow) (ls : List LeadRow)
    → AllApart ls
    → IsBelow l.id ls
    → any (has_email l.organization_id l.email) ls ≡ false
    → AllApart (ls ++ l ∷ [])
AllApart-insert l [] h b e = (tt, tt)
AllApart-insert l (x ∷ ls) h b e =
    let fresh : has_email l.organization_id l.email x ≡ false = ground arith in
    let rest : any (has_email l.organization_id l.email) ls ≡ false = ground arith in
    let different : apart x l ≡ true = rw (has_email_sym x l, fresh) (ground arith) in
    (
      All-append (λ (y : LeadRow). apart x y ≡ true) ls (l ∷ []) h.0 (different, tt),
      AllApart-insert l ls h.1 b.1 rest,
    )

any-All {ℓ} :
    {A : Type ℓ} (q : A → Bool) (xs : List A) → any q xs ≡ false → All (λ x. q x ≡ false) xs
any-All q [] e = tt
any-All q (x ∷ xs) e =
    let here : q x ≡ false = ground arith in
    let rest : any q xs ≡ false = ground arith in (here, any-All q xs rest)

module _ (k : ℕ) (q : LeadRow → Bool) (f : LeadRow → LeadRow) (keep : KeepsOwner f)
    (fixes : (x : LeadRow) → q x ≡ true → (x.id == k) ≡ true) where
  -- Behind a row that is met, none is.
  unmet_behind :
      (x : LeadRow) (ls : List LeadRow)
      → q x ≡ true
      → All (λ (y : LeadRow). apart x y ≡ true) ls
      → All (λ y. q y ≡ false) ls
  unmet_behind x ls t h = All-weaken _ _ ls (λ y a. behind y a) h
    where
      behind : (y : LeadRow) → apart x y ≡ true → q y ≡ false
      behind y a = elim (Bool-cases (q y)) [
        | inl u ↦ let here = fixes x t in let there = fixes y u in absurd (ground arith)
        | inr n ↦ n
      ]

  apart_written_row :
      (l x : LeadRow) → apart l x ≡ true → clashes (f l) x ≡ false → apart (f l) x ≡ true
  apart_written_row l x a c = rw ((keep l).0) (ground (arith, (keep l).0))

  apart_written :
      (x : LeadRow) (ls : List LeadRow) {l : LeadRow}
      → All (λ (y : LeadRow). apart x y ≡ true) ls
      → AllApart ls
      → find_row q ls ≡ some l
      → clashes (f l) x ≡ false
      → All (λ (y : LeadRow). apart x y ≡ true) (update_rows q f ls)
  apart_written x [] h d e c = tt
  apart_written x (y ∷ ls) {l} h d e c = elim (Bool-cases (q y)) [
    | inl t ↦
        let same : y ≡ l = some_eq (rw t at e) in
        let c' : clashes (f y) x ≡ false = subst (λ z. clashes (f z) x ≡ false) (sym same) c in
        let mirrored : apart y x ≡ true = apart_sym x y h.0 in
        let unmet = update_rows_unmet q f ls (unmet_behind y ls t d.0) in
        rw (t, unmet) (apart_sym (f y) x (apart_written_row y x mirrored c'), h.1)
    | inr n ↦ rw n (h.0, apart_written x ls h.1 d.1 (rw n at e) c)
  ]

  AllApart-write :
      (ls : List LeadRow) {l : LeadRow}
      → AllApart ls
      → find_row q ls ≡ some l
      → any (clashes (f l)) ls ≡ false
      → AllApart (update_rows q f ls)
  AllApart-write [] h e c = tt
  AllApart-write (x ∷ ls) {l} h e c = elim (Bool-cases (q x)) [
    | inl t ↦
        let same : x ≡ l = some_eq (rw t at e) in
        let c' : any (clashes (f x)) (x ∷ ls) ≡ false =
          subst (λ z. any (clashes (f z)) (x ∷ ls) ≡ false) (sym same) c in
        let unmet = update_rows_unmet q f ls (unmet_behind x ls t h.0) in
        rw (t, unmet) (written x ls h.0 (any-All (clashes (f x)) (x ∷ ls) c').1, h.1)
    | inr n ↦
        let here : clashes (f l) x ≡ false = ground arith in
        let rest : any (clashes (f l)) ls ≡ false = ground arith in
        rw n (apart_written x ls h.0 h.1 (rw n at e) here, AllApart-write ls h.1 (rw n at e) rest)
  ]
    where
      written :
          (x : LeadRow) (ys : List LeadRow)
          → All (λ (y : LeadRow). apart x y ≡ true) ys
          → All (λ y. clashes (f x) y ≡ false) ys
          → All (λ (y : LeadRow). apart (f x) y ≡ true) ys
      written x [] a c = tt
      written x (y ∷ ys) a c = (apart_written_row x y a.0 c.0, written x ys a.1 c.1)

IsBelow-weaken : (n : ℕ) (ls : List LeadRow) → IsBelow n ls → IsBelow (n + 1) ls
IsBelow-weaken n ls h = All-weaken _ _ ls (λ l e. ground arith) h

-- An assignment of columns that leaves the identifier leaves the bound and, with it, the addresses.
rows-update :
    (next : ℕ) (q : LeadRow → Bool) (f : LeadRow → LeadRow) (ls : List LeadRow)
    → KeepsOwner f
    → KeepsAddress f
    → IsBelow next ls × All (λ (l : LeadRow). is_email l.email ≡ true) ls
    → IsBelow next (update_rows q f ls)
      × All (λ (l : LeadRow). is_email l.email ≡ true) (update_rows q f ls)
rows-update next q f ls keep address h = (
  All-update_rows (λ (l : LeadRow). ltb l.id next ≡ true) q f ls (λ l e t. rw ((keep l).0) e) h.0,
  All-update_rows (λ (l : LeadRow). is_email l.email ≡ true) q f ls (λ l e t. address l e) h.1,
)

IsSoundTable-touch :
    (next : ℕ) (q : LeadRow → Bool) (f : LeadRow → LeadRow) (ls : List LeadRow)
    → KeepsKey f
    → IsSoundTable ls next
    → IsSoundTable (update_rows q f ls) next
IsSoundTable-touch next q f ls keep h =
    let rows =
      rows-update next q f ls (λ l. ((keep l).0, (keep l).1)) (λ l e. rw ((keep l).2) e)
        (h.1, h.2) in
    (AllApart-touch q f ls keep h.0, rows.0, rows.1)

pub HasUniqueLeads-Keeps : KeepsLeads (λ o. true) true true HasUniqueLeads
HasUniqueLeads-Keeps = record {
  inserts = λ org address status score raw db ok h e n. (
    AllApart-insert (new_lead db.next_lead_id org address status score raw) db.leads h.0 h.1 n,
    All-append _ db.leads _ (IsBelow-weaken db.next_lead_id db.leads h.1) (ground arith, tt),
    All-append _ db.leads _ h.2 (e, tt),
  );
  assigns = λ lead org ids db ok h m own. h;
  unassigns = λ lead db h. h;
  writes = λ k org f l db ok h keep address e n.
      let rows = rows-update db.next_lead_id (is_lead k org) f db.leads keep address (h.1, h.2) in
      (
        AllApart-write k (is_lead k org) f keep (λ x t. ground arith) db.leads h.0 e n,
        rows.0,
        rows.1,
      );
  touches =
      λ k org f db ok h keep. IsSoundTable-touch db.next_lead_id (is_lead k org) f db.leads keep h;
  removes = λ org ks db ok h own.
      (AllApart-select _ db.leads h.0, All-select _ _ db.leads h.1, All-select _ _ db.leads h.2);
  statuses = λ k s db ok h.
      IsSoundTable-touch db.next_lead_id (has_lead_id k) (λ l. record l { status = s }) db.leads
        (λ x. (refl, refl, refl)) h;
  contacts = λ lead campaign now db ok h. elim (Bool-cases (lead == 0 || campaign == 0)) [
    | inl t ↦ rw t h
    | inr f ↦ rw f (
        IsSoundTable-touch db.next_lead_id (has_lead_id lead) (touch_row now) db.leads
          (λ x. (refl, refl, refl)) h)
  ];
  logs = λ org e db h. h;
}

-- From tables in which the leads have different identifiers, all in use before the next one,
-- different addresses within each organization, and only addresses of the accepted form, every
-- history of calls leads to such tables.
pub serve_leads-HasUniqueLeads :
    (rs : List (ℕ × LeadRequest)) (db : Crm)
    → HasUniqueLeads db
    → HasUniqueLeads (serve_leads rs db)
serve_leads-HasUniqueLeads rs db h =
    serve_leads-keeps (λ o. true) true true HasUniqueLeads HasUniqueLeads-Keeps rs db
      (everything_permitted rs) h
