-- ===== src/Drafts/Requests.antt =====
-- One request to services/draft_service.py as a value, with the time at which it is served, and a
-- history of requests, each served to its end before the next.
use shiku_ai_powered_sales_d.Prelude.{Bool, List, Option, Text, [], none, some, ℕ, ◌∷◌}
use shiku_ai_powered_sales_d.Store.Schema.{Db}
use shiku_ai_powered_sales_d.Drafts.Replies.{Reply, Services}
use shiku_ai_powered_sales_d.Drafts.Review.{approve_draft, batch_approve_drafts}
use shiku_ai_powered_sales_d.Drafts.Edit.{
  batch_delete_drafts, delete_draft, return_scheduled_draft_to_review, update_draft_content,
  update_scheduled_draft,
}
use shiku_ai_powered_sales_d.Drafts.Attachments.{
  Upload, add_draft_attachments, delete_draft_attachment,
}
use shiku_ai_powered_sales_d.Drafts.Scheduler.{Engine, send_due_scheduled_drafts}

pub data Request : Type 0 where
  review : ℕ → Bool → Text → Option Text → Option ℕ → Request
  review_batch : List ℕ → Bool → Text → Option Text → Option ℕ → Request
  edit : ℕ → Text → Text → Text → Option ℕ → Request
  edit_scheduled : ℕ → Text → Text → Option Text → Text → Option ℕ → Request
  return_to_review : ℕ → Text → Option ℕ → Request
  attach : ℕ → List Upload → Text → Option ℕ → Request
  detach : ℕ → ℕ → Text → Option ℕ → Request
  delete : ℕ → Bool → Text → Option ℕ → Request
  delete_batch : List ℕ → Bool → Text → Option ℕ → Request
  run_scheduler : Engine → ℕ → Text → Option ℕ → Request

abbrev pub after_edit : Option (Reply × Db) → Db → Db
after_edit none db = db
after_edit (some (r, db')) db = db'

-- The state after a request.
unfoldable pub serve : Services → ℕ → Request → Db → Db
serve s now (review k yes_or_no actor value org) db =
    (approve_draft s actor now k yes_or_no value org db).1
serve s now (review_batch ks yes_or_no actor value org) db =
    (batch_approve_drafts s ks yes_or_no actor value org now db).1
serve s now (edit k subject body actor org) db =
    (update_draft_content k subject body actor org db).1
serve s now (edit_scheduled k subject body value actor org) db =
    after_edit (update_scheduled_draft s k subject body value actor org db) db
serve s now (return_to_review k actor org) db = (return_scheduled_draft_to_review k actor org db).1
serve s now (attach k uploads actor org) db = (add_draft_attachments s k uploads actor org db).1
serve s now (detach k a actor org) db = (delete_draft_attachment k a actor org db).1
serve s now (delete k stop actor org) db = (delete_draft k stop actor org db).1
serve s now (delete_batch ks stop actor org) db = (batch_delete_drafts ks stop actor org db).1
serve s now (run_scheduler engine limit actor org) db =
    (send_due_scheduled_drafts engine s limit actor org now db).1

unfoldable pub serve_all : Services → List (ℕ × Request) → Db → Db
serve_all s [] db = db
serve_all s ((now, r) ∷ rest) db = serve_all s rest (serve s now r db)
