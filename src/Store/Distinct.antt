-- ===== src/Store/Distinct.antt =====
-- Messages with distinct identifiers: an update by identifier touches the row that a query found.
use mathlib.Core.Path.{subst}
use shiku_ai_powered_sales_d.Prelude.{
  ==_iff, ==_refl, All, All-find_row, All-select, All-update_rows, Bool, Bool-cases, List, [], ap,
  arith, false, find_row, find_row_holds, if◌then◌else◌, inl, inr, refl, select, some, some_eq, sym,
  true, update_rows, ℕ, ◌==◌, ◌∷◌, ◌≡◌,
}
use shiku_ai_powered_sales_d.Store.Schema.{Message}
use shiku_ai_powered_sales_d.Store.Rows.{get_message, with_id}

abbrev pub Distinct : List Message → Type 0
Distinct [] = Unit
Distinct (m ∷ ms) = All (λ (x : Message). (x.id == m.id) ≡ false) ms × Distinct ms

abbrev pub KeepsId : (Message → Message) → Type 0
KeepsId f = (m : Message) → (f m).id ≡ m.id

All-update_id :
    (j : ℕ) (p : Message → Bool) (f : Message → Message) (ms : List Message)
    → KeepsId f
    → All (λ (x : Message). (x.id == j) ≡ false) ms
    → All (λ (x : Message). (x.id == j) ≡ false) (update_rows p f ms)
All-update_id j p f ms keep h =
    All-update_rows (λ (x : Message). (x.id == j) ≡ false) p f ms (λ x hx t. rw (keep x) hx) h

pub Distinct-update_rows :
    (p : Message → Bool) (f : Message → Message) (ms : List Message)
    → KeepsId f
    → Distinct ms
    → Distinct (update_rows p f ms)
Distinct-update_rows p f [] keep d = tt
Distinct-update_rows p f (m ∷ ms) keep d = (head, Distinct-update_rows p f ms keep d.1)
  where
    head : All (λ (x : Message). (x.id == (if p m then f m else m).id) ≡ false) (update_rows p f ms)
    head = elim (Bool-cases (p m)) [
      | inl t ↦ rw (t, keep m) (All-update_id m.id p f ms keep d.0)
      | inr e ↦ rw e (All-update_id m.id p f ms keep d.0)
    ]

pub Distinct-select :
    (p : Message → Bool) (ms : List Message) → Distinct ms → Distinct (select p ms)
Distinct-select p [] d = tt
Distinct-select p (m ∷ ms) d = elim (Bool-cases (p m)) [
  | inl t ↦
      rw t (All-select (λ (x : Message). (x.id == m.id) ≡ false) p ms d.0, Distinct-select p ms d.1)
  | inr e ↦ rw e (Distinct-select p ms d.1)
]

-- Two updates of the rows of one identifier are one update.
pub update_rows_twice :
    (k : ℕ) (f g : Message → Message) (ms : List Message)
    → KeepsId f
    → update_rows (with_id k) g (update_rows (with_id k) f ms)
      ≡ update_rows (with_id k) (λ m. g (f m)) ms
update_rows_twice k f g [] keep = refl
update_rows_twice k f g (m ∷ ms) keep = elim (Bool-cases (m.id == k)) [
  | inl t ↦
      let t' : ((f m).id == k) ≡ true = ground (arith, keep m) in
      rw (t, t') (ap (λ r. g (f m) ∷ r) (update_rows_twice k f g ms keep))
  | inr e ↦ rw (e, e) (ap (λ r. m ∷ r) (update_rows_twice k f g ms keep))
]

-- No row of the identifier, no update.
update_rows_absent :
    (k : ℕ) (f : Message → Message) (ms : List Message)
    → All (λ (x : Message). (x.id == k) ≡ false) ms
    → update_rows (with_id k) f ms ≡ ms
update_rows_absent k f [] h = refl
update_rows_absent k f (m ∷ ms) h = rw h.0 (ap (λ r. m ∷ r) (update_rows_absent k f ms h.1))

-- A query that fixes the identifier finds the row that the identifier alone finds.
pub get_message-find_row :
    (k : ℕ) (p : Message → Bool) (ms : List Message) {m : Message}
    → Distinct ms
    → find_row p ms ≡ some m
    → ((x : Message) → p x ≡ true → (x.id == k) ≡ true)
    → get_message k ms ≡ some m
get_message-find_row k p [] d e fixes = e
get_message-find_row k p (x ∷ ms) {m} d e fixes = elim (Bool-cases (p x)) [
  | inl t ↦ rw (fixes x t) (rw t at e)
  | inr f ↦ elim (Bool-cases (x.id == k)) [
    | inl same ↦ absurd (clash same (rw f at e))
    | inr apart ↦ rw apart (get_message-find_row k p ms d.1 (rw f at e) fixes)
  ]
]
  where
    clash : (x.id == k) ≡ true → find_row p ms ≡ some m → ⊥
    clash same found = ground (
      arith,
      fixes m (find_row_holds p ms found),
      All-find_row (λ (y : Message). (y.id == x.id) ≡ false) p ms d.0 found,
    )

-- An update by identifier keeps a property of all rows if it keeps it at the row found.
pub All-update_found {κ} :
    (P : Message → Type κ) (k : ℕ) (f : Message → Message) (ms : List Message) {m : Message}
    → Distinct ms
    → All P ms
    → get_message k ms ≡ some m
    → P (f m)
    → All P (update_rows (with_id k) f ms)
All-update_found P k f [] d h e pf = tt
All-update_found P k f (x ∷ ms) {m} d h e pf = elim (Bool-cases (x.id == k)) [
  | inl t ↦ rw t (hit (rw t at e), rw (update_rows_absent k f ms (absent t)) h.1)
  | inr n ↦ rw n (h.0, All-update_found P k f ms d.1 h.1 (rw n at e) pf)
]
  where
    hit : some x ≡ some m → P (f x)
    hit q = subst (λ y. P (f y)) (sym (some_eq q)) pf

    absent : (x.id == k) ≡ true → All (λ (y : Message). (y.id == k) ≡ false) ms
    absent t = subst (λ j. All (λ (y : Message). (y.id == j) ≡ false) ms) ((==_iff x.id k).0 t) d.0

-- What a row that is found becomes under an update by its identifier.
pub get_message-update :
    (k : ℕ) (f : Message → Message) (ms : List Message) {m : Message}
    → KeepsId f
    → get_message k ms ≡ some m
    → get_message k (update_rows (with_id k) f ms) ≡ some (f m)
get_message-update k f [] keep e = absurd (cc)
get_message-update k f (x ∷ ms) {m} keep e = elim (Bool-cases (x.id == k)) [
  | inl t ↦
      let t' : ((f x).id == k) ≡ true = ground (arith, keep x) in
      rw (t, t') (ap (λ y. some (f y)) (some_eq (rw t at e)))
  | inr n ↦ rw (n, n) (get_message-update k f ms keep (rw n at e))
]

-- The other rows are found as they were.
pub get_message-update_ne :
    (j k : ℕ) (f : Message → Message) (ms : List Message)
    → KeepsId f
    → (j == k) ≡ false
    → get_message j (update_rows (with_id k) f ms) ≡ get_message j ms
get_message-update_ne j k f [] keep ne = refl
get_message-update_ne j k f (x ∷ ms) keep ne =
    ground (arith, keep x, get_message-update_ne j k f ms keep ne)

-- Every row is the one that its identifier finds.
pub IsOwnRow-All :
    (ms : List Message) → Distinct ms → All (λ (x : Message). get_message x.id ms ≡ some x) ms
IsOwnRow-All [] d = tt
IsOwnRow-All (m ∷ ms) d = (rw (==_refl m.id), step ms d.0 (IsOwnRow-All ms d.1))
  where
    step :
        (xs : List Message)
        → All (λ (x : Message). (x.id == m.id) ≡ false) xs
        → All (λ (x : Message). get_message x.id ms ≡ some x) xs
        → All (λ (x : Message). get_message x.id (m ∷ ms) ≡ some x) xs
    step [] n h = tt
    step (x ∷ xs) n h = (apart x n.0 h.0, step xs n.1 h.1)
      where
        apart :
            (x : Message)
            → (x.id == m.id) ≡ false
            → get_message x.id ms ≡ some x
            → get_message x.id (m ∷ ms) ≡ some x
        apart x n h = let n' : (m.id == x.id) ≡ false = ground arith in rw n' h
