-- ===== src/Drafts/Deletion.antt =====
-- What `process_single_draft_delete` leaves.
use shiku_ai_powered_sales_d.Prelude.{
  Bool, Bool-cases, List, Option, Text, [], ap, arith, count_rows, delete_rows, find_row, inl, inr,
  none, refl, some, ℕ, ◌++◌, ◌==◌, ◌∙◌, ◌∷◌, ◌≡◌,
}
use shiku_ai_powered_sales_d.Store.Schema.{Attachment, Db, Event, Message, draft_deleted, of_draft}
use shiku_ai_powered_sales_d.Store.Rows.{get_message, log_draft_event, owner_of, with_id}
use shiku_ai_powered_sales_d.Drafts.Replies.{Reply, deleted, not_found}
use shiku_ai_powered_sales_d.Drafts.Edit.{
  delete_pick, is_deletable, process_single_draft_delete, stop_attempts,
  stop_future_attempts_for_draft,
}
use shiku_ai_powered_sales_d.Drafts.Attachments.{count_attachments}
use mathlib.Core.Path.{ap₂}

find_row-delete {ℓ} :
    {A : Type ℓ} (p : A → Bool) (xs : List A) → find_row p (delete_rows p xs) ≡ none
find_row-delete p [] = refl
find_row-delete p (x ∷ xs) = elim (Bool-cases (p x)) [
  | inl t ↦ simp t (find_row-delete p xs)
  | inr f ↦ simp f (find_row-delete p xs)
]

count_rows-delete {ℓ} :
    {A : Type ℓ} (p : A → Bool) (xs : List A) → count_rows p (delete_rows p xs) ≡ 0
count_rows-delete p [] = refl
count_rows-delete p (x ∷ xs) = elim (Bool-cases (p x)) [
  | inl t ↦ simp t (count_rows-delete p xs)
  | inr f ↦ simp f (count_rows-delete p xs)
]

module _ (stop : Bool) (m : Message) (db : Db) where
  stop_attempts-keeps :
      ((stop_attempts stop m db).messages ≡ db.messages)
      × ((stop_attempts stop m db).attachments ≡ db.attachments)
      × ((stop_attempts stop m db).events ≡ db.events)
  unfolding stop_future_attempts_for_draft
  stop_attempts-keeps = (ground arith, ground arith, ground arith)

-- The event of a deletion, as it is written: with no organization.
abbrev pub deletion_event : ℕ → Text → Bool → Event
deletion_event k actor stop = of_draft (record {
  organization_id = none;
  kind = draft_deleted stop;
  draft_id = k;
  actor_id = actor;
  approval_id = none;
})

abbrev pub IsDeletion : ℕ → Text → Db → Reply × Db → Type 0
IsDeletion k actor db (deleted stop, db') =
    (get_message k db'.messages ≡ none)
    × (count_attachments k db' ≡ 0)
    × (db'.events ≡ db.events ++ deletion_event k actor stop ∷ [])
IsDeletion k actor db (not_found, db') = db' ≡ db
IsDeletion k actor db _ = ⊥

delete_pick-IsDeletion :
    (k : ℕ) (stop : Bool) (actor : Text) (o : Option Message) (db : Db)
    → IsDeletion k actor db (delete_pick k stop actor o db)
unfolding log_draft_event
delete_pick-IsDeletion k stop actor none db = refl
delete_pick-IsDeletion k stop actor (some m) db =
    let of_it = λ (a : Attachment). a.email_message_id == k in
    let kept : Db = record db {
      messages = delete_rows (with_id k) db.messages;
      attachments = delete_rows of_it db.attachments;
    } in
    let (ms, files, es) = stop_attempts-keeps stop m kept in
    let gone : get_message k (stop_attempts stop m kept).messages ≡ none =
      ap (get_message k) ms ∙ find_row-delete (with_id k) db.messages in
    (
      gone,
      ap (count_rows of_it) files ∙ count_rows-delete of_it db.attachments,
      ap₂
          (λ (xs : List Event) (o : Option Message).
            xs
            ++ of_draft (record {
              organization_id = owner_of o;
              kind = draft_deleted stop;
              draft_id = k;
              actor_id = actor;
              approval_id = none;
            })
              ∷ [])
          es gone,
    )

-- `process_single_draft_delete` either finds nothing and changes nothing, or afterwards no message
-- has the identifier, no attachment is of it, and one event is added, which names no organization,
-- whatever organization the message was of.
pub process_single_draft_delete-IsDeletion :
    (k : ℕ) (stop : Bool) (actor : Text) (org : Option ℕ) (db : Db)
    → IsDeletion k actor db (process_single_draft_delete k stop actor org db)
unfolding process_single_draft_delete
process_single_draft_delete-IsDeletion k stop actor org db =
    delete_pick-IsDeletion k stop actor (find_row (is_deletable k org) db.messages) db
