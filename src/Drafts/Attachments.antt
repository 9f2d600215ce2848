-- ===== src/Drafts/Attachments.antt =====
-- The attachments of a draft in services/draft_service.py. A `ValueError` leaves the operation with
-- no reply, and takes back what its transaction had written.
use shiku_ai_powered_sales_d.Prelude.{
  List, Option, Text, [], any, codes, delete_rows, has_prefix, if◌then◌else◌, is_empty, length, ltb,
  none, not, or_text, reverse, select, some, strip, take, ℕ, ◌&&◌, ◌*◌, ◌++◌, ◌+◌, ◌==◌, ◌∷◌,
}
use shiku_ai_powered_sales_d.Store.Schema.{
  Attachment, Db, draft_attachment_deleted, draft_attachments_added,
}
use shiku_ai_powered_sales_d.Store.Rows.{log_draft_event}
use shiku_ai_powered_sales_d.Drafts.Replies.{
  Reply, Services, attachment_deleted, attachment_not_found, attachments_added, attachments_empty,
  not_found, permission_denied, too_many_attachments, validation_error,
}
use shiku_ai_powered_sales_d.Drafts.Send.{get_draft_attachments}
use shiku_ai_powered_sales_d.Drafts.Edit.{pending_draft_exists}

abbrev pub max_draft_attachments : ℕ
max_draft_attachments = 5

abbrev pub max_draft_attachment_bytes : ℕ
max_draft_attachment_bytes = 5 * 1024 * 1024

-- What the caller sends for one file.
pub record Upload : Type 0 where
  pub filename : Text
  pub content_type : Option Text
  pub content_base64 : Text

-- `os.path.basename`: what stands behind the last slash.
unfoldable pub basename_from : Text → Text → Text
basename_from [] last = reverse last
basename_from (c ∷ s) last = basename_from s (if c == b'/' then [] else c ∷ last)

-- `_safe_filename`
unfoldable pub safe_filename : Text → Text
safe_filename name =
    let safe = select (λ c. not (c == 0)) (basename_from (strip name) []) in
    or_text (some (take 255 safe)) (codes "attachment")

-- `content.split(",", 1)[1]`
abbrev after_comma : Text → Text
after_comma [] = []
after_comma (c ∷ s) = let rest = after_comma s in if c == b',' then s else rest

abbrev pub payload_of : Text → Text
payload_of text =
    let content = strip text in
    if has_prefix (codes "data:") content && any (λ c. c == b',') content
    then after_comma content
    else content

abbrev pub checked_size : Services → Option (List ℕ) → Option (Text × ℕ)
checked_size s none = none
checked_size s (some raw) =
    if ltb max_draft_attachment_bytes (length raw) then none else some (s.b64encode raw, length raw)

-- `_decode_attachment_content`; `none` is either of its `ValueError`s.
unfoldable pub decode_attachment_content : Services → Text → Option (Text × ℕ)
decode_attachment_content s text = checked_size s (s.b64decode (payload_of text))

-- `value or None`
abbrev or_missing : Option Text → Option Text
or_missing none = none
or_missing (some t) = if is_empty t then none else some t

abbrev pub new_attachment : ℕ → ℕ → Upload → Text × ℕ → Attachment
new_attachment draft_id id u (content, size) = record {
  id = id;
  email_message_id = draft_id;
  filename = safe_filename (or_text (some u.filename) (codes "attachment"));
  content_type = or_missing u.content_type;
  content_base64 = content;
  size_bytes = size;
}

abbrev pub insert_decoded : ℕ → Upload → Option (Text × ℕ) → Db → Option (ℕ × Db)
insert_decoded draft_id u none db = none
insert_decoded draft_id u (some file) db = some (
  db.next_attachment_id,
  record db {
    attachments = db.attachments ++ new_attachment draft_id db.next_attachment_id u file ∷ [];
    next_attachment_id = db.next_attachment_id + 1;
  },
)

-- The loop over the uploads: the new identifiers, or the exception of the first bad one.
abbrev pub and_then : (Db → Option (List ℕ × Db)) → Option (ℕ × Db) → Option (List ℕ × Db)
and_then rest none = none
and_then rest (some (id, db)) = elim (rest db) [
  | none ↦ none
  | some (ids, db') ↦ some (id ∷ ids, db')
]

unfoldable pub insert_uploads : Services → ℕ → List Upload → Db → Option (List ℕ × Db)
insert_uploads s draft_id [] db = some ([], db)
insert_uploads s draft_id (u ∷ us) db =
    and_then (insert_uploads s draft_id us)
      (insert_decoded draft_id u (decode_attachment_content s u.content_base64) db)

abbrev pub count_attachments : ℕ → Db → ℕ
count_attachments draft_id db = length (get_draft_attachments draft_id db)

-- The reply with the committed state, or `none` with the state that the rollback restores.
abbrev pub commit_uploads : ℕ → Text → ℕ → Db → Option (List ℕ × Db) → Option Reply × Db
commit_uploads draft_id actor n db none = (none, db)
commit_uploads draft_id actor n db (some (ids, db')) = (
  some (attachments_added ids),
  log_draft_event (draft_attachments_added n) draft_id actor none db',
)

unfoldable pub add_draft_attachments :
    Services → ℕ → List Upload → Text → Option ℕ → Db → Option Reply × Db
add_draft_attachments s draft_id uploads actor org db =
    if is_empty actor
    then (some permission_denied, db)
    else if length uploads == 0
    then (some (validation_error attachments_empty), db)
    else if not (pending_draft_exists draft_id org db)
    then (some not_found, db)
    else if ltb max_draft_attachments (count_attachments draft_id db + length uploads)
    then (some (validation_error too_many_attachments), db)
    else commit_uploads draft_id actor (length uploads) db (insert_uploads s draft_id uploads db)

unfoldable pub delete_draft_attachment : ℕ → ℕ → Text → Option ℕ → Db → Reply × Db
delete_draft_attachment draft_id attachment_id actor org db =
    let is_it = λ (a : Attachment). a.id == attachment_id && a.email_message_id == draft_id in
    if is_empty actor
    then (permission_denied, db)
    else if not (pending_draft_exists draft_id org db)
    then (not_found, db)
    else if any is_it db.attachments
    then (
      attachment_deleted,
      log_draft_event (draft_attachment_deleted attachment_id) draft_id actor none (record db {
        attachments = delete_rows (λ (a : Attachment). a.id == attachment_id) db.attachments;
      }),
    )
    else (attachment_not_found, db)
