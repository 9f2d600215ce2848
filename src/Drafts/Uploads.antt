-- ===== src/Drafts/Uploads.antt =====
-- What the loop over the uploads of `add_draft_attachments` has done when it ends.
use shiku_ai_powered_sales_d.Prelude.{
  ==_refl, Bool, Bool-cases, List, Option, Text, [], ap, arith, count_rows, inl, inr, is_empty,
  length, ltb, none, refl, select, select-last_out, some, suc, true, ℕ, ◌++◌, ◌+◌, ◌==◌, ◌∙◌, ◌∷◌,
  ◌≡◌, ◌≤◌,
}
use shiku_ai_powered_sales_d.Store.Schema.{Attachment, Db}
use shiku_ai_powered_sales_d.Store.Rows.{log_draft_event}
use shiku_ai_powered_sales_d.Drafts.Replies.{Reply, Services, attachments_added}
use shiku_ai_powered_sales_d.Drafts.Edit.{pending_draft_exists}
use shiku_ai_powered_sales_d.Drafts.Attachments.{
  Upload, add_draft_attachments, and_then, checked_size, commit_uploads, count_attachments,
  decode_attachment_content, insert_decoded, insert_uploads, max_draft_attachment_bytes,
  max_draft_attachments, new_attachment, payload_of,
}

abbrev pub is_oversize : Attachment → Bool
is_oversize a = ltb max_draft_attachment_bytes a.size_bytes

-- The attachments that are over the limit, of all drafts.
abbrev pub count_oversize : Db → ℕ
count_oversize db = count_rows is_oversize db.attachments

-- The outcome of inserting `n` files of one draft: an exception, or `n` new rows of it, the messages
-- and the events as they were, and none over the limit more than before.
abbrev pub HasInserted : ℕ → ℕ → Db → Option (List ℕ × Db) → Type 0
HasInserted k n db none = Unit {0}
HasInserted k n db (some (ids, db')) =
    (db'.messages ≡ db.messages)
    × (db'.events ≡ db.events)
    × (length ids ≡ n)
    × (count_attachments k db' ≡ count_attachments k db + n)
    × (count_oversize db' ≡ count_oversize db)

count-append :
    (k : ℕ) (xs : List Attachment) (a : Attachment)
    → (a.email_message_id == k) ≡ true
    → length (select (λ (b : Attachment). b.email_message_id == k) (xs ++ a ∷ []))
      ≡ length (select (λ (b : Attachment). b.email_message_id == k) xs) + 1
count-append k [] a h = rw h (omega arith)
count-append k (x ∷ xs) a h = ground (arith, count-append k xs a h)

and_then-HasInserted :
    (k n id : ℕ) (db : Db) (db' : Db) (o : Option (List ℕ × Db))
    → db'.messages ≡ db.messages
    → db'.events ≡ db.events
    → count_attachments k db' ≡ count_attachments k db + 1
    → (count_oversize db' ≡ count_oversize db)
    → HasInserted k n db' o
    → HasInserted k (suc n) db (elim o [ none ↦ none | some (ids, d) ↦ some (id ∷ ids, d) ])
and_then-HasInserted k n id db db' none m e c w h = tt
and_then-HasInserted k n id db db' (some (ids, d)) m e c w h =
    (h.0 ∙ m, h.1 ∙ e, ap suc h.2, omega (arith, h.3), h.4 ∙ w)

size_of_checked :
    (s : Services) (raw : Option (List ℕ)) {file : Text × ℕ}
    → checked_size s raw ≡ some file
    → file.1 ≤ max_draft_attachment_bytes
size_of_checked s none e = absurd (cc)
size_of_checked s (some raw) e = ground arith

-- Every upload that is inserted adds one row, of a size within the limit.
pub insert_uploads-HasInserted :
    (s : Services) (k : ℕ) (us : List Upload) (db : Db)
    → HasInserted k (length us) db (insert_uploads s k us db)
unfolding insert_uploads decode_attachment_content
insert_uploads-HasInserted s k [] db = (refl, refl, refl, omega arith, refl)
insert_uploads-HasInserted s k (u ∷ us) db =
    go (λ d. insert_uploads-HasInserted s k us d)
      (checked_size s (s.b64decode (payload_of u.content_base64))) refl
  where
    go :
        ((d : Db) → HasInserted k (length us) d (insert_uploads s k us d))
        → (o : Option (Text × ℕ)) → checked_size s (s.b64decode (payload_of u.content_base64)) ≡ o
        → HasInserted k
            (suc (length us))
            db
            (and_then (insert_uploads s k us) (insert_decoded k u o db))
    go ih none e = tt
    go ih (some (content, size)) e =
        let a = new_attachment k db.next_attachment_id u (content, size) in
        let db' : Db = record db {
          attachments = db.attachments ++ a ∷ [];
          next_attachment_id = db.next_attachment_id + 1;
        } in
        and_then-HasInserted k (length us) db.next_attachment_id db db' (insert_uploads s k us db')
          refl refl (count-append k db.attachments a (==_refl k))
          (ap length (
            select-last_out is_oversize db.attachments a
              (ground (arith, size_of_checked s (s.b64decode (payload_of u.content_base64)) e))))
          (ih db')

-- The outcome of `add_draft_attachments`: the state before, or `n` new rows, at most five in all.
abbrev pub HasAttached : ℕ → ℕ → Db → Option Reply × Db → Type 0
HasAttached k n db (some (attachments_added ids), db') =
    (db'.messages ≡ db.messages)
    × (length ids ≡ n)
    × (count_attachments k db' ≡ count_attachments k db + n)
    × (count_attachments k db' ≤ max_draft_attachments)
    × (count_oversize db' ≡ count_oversize db)
HasAttached k n db (r, db') = db' ≡ db

commit_uploads-HasAttached :
    (k : ℕ) (actor : Text) (n : ℕ) (db : Db) (o : Option (List ℕ × Db))
    → count_attachments k db + n ≤ max_draft_attachments
    → HasInserted k n db o
    → HasAttached k n db (commit_uploads k actor n db o)
unfolding log_draft_event
commit_uploads-HasAttached k actor n db none small h = refl
commit_uploads-HasAttached k actor n db (some (ids, db')) small h =
    (h.0, h.2, h.3, omega (arith, small, h.3), h.4)

-- `add_draft_attachments` either answers that the files were added, and then the messages are as
-- they were, there is one new row and one new identifier for each file, the draft has five
-- attachments at most and none of the new ones is over the limit, or it answers something
-- else or raises, and then the state is the one before the call.
pub add_draft_attachments-HasAttached :
    (s : Services) (draft_id : ℕ) (uploads : List Upload) (actor : Text) (org : Option ℕ) (db : Db)
    → HasAttached draft_id
        (length uploads)
        db
        (add_draft_attachments s draft_id uploads actor org db)
unfolding add_draft_attachments
add_draft_attachments-HasAttached s k us actor org db = elim (Bool-cases (is_empty actor)) [
  | inl e ↦ simp e refl
  | inr e ↦ elim (Bool-cases (length us == 0)) [
    | inl z ↦ simp (e, z) refl
    | inr z ↦ elim (Bool-cases (pending_draft_exists k org db)) [
      | inr x ↦ simp (e, z, x) refl
      | inl x ↦ elim (Bool-cases (ltb max_draft_attachments (count_attachments k db + length us))) [
        | inl b ↦ simp (e, z, x, b) refl
        | inr b ↦
            simp (e, z, x, b)
              (commit_uploads-HasAttached k actor (length us) db (insert_uploads s k us db)
                (ground arith) (insert_uploads-HasInserted s k us db))
      ]
    ]
  ]
]
