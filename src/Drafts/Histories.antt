-- ===== src/Drafts/Histories.antt =====
-- Every request, and so every history of requests, keeps what each update keeps.
use shiku_ai_powered_sales_d.Prelude.{
  Bool, Bool-cases, List, Option, Option-cases, Text, [], any, arith, false, find_row, find_row-any,
  find_row_holds, inl, inr, length, map, none, some, sorted_set, true, update_rows, ℕ, ◌==◌, ◌∷◌,
  ◌≡◌,
}
use shiku_ai_powered_sales_d.Store.Schema.{Db, Message, draft_attachments_added}
use shiku_ai_powered_sales_d.Store.Rows.{get_message, log_draft_event}
use shiku_ai_powered_sales_d.Store.Distinct.{get_message-find_row}
use shiku_ai_powered_sales_d.Drafts.Replies.{Services}
use shiku_ai_powered_sales_d.Drafts.Times.{Parsed, absent, at, malformed, schedule_at}
use shiku_ai_powered_sales_d.Drafts.Finish.{send_approved_draft}
use shiku_ai_powered_sales_d.Drafts.Sending.{messages-log_draft_event}
use shiku_ai_powered_sales_d.Drafts.Review.{
  approve_draft, batch_approve_drafts, process_single_draft_approval,
}
use shiku_ai_powered_sales_d.Drafts.Edit.{
  batch_delete_drafts, delete_draft, is_deletable, is_pending_draft, is_scheduled_row,
  pending_draft_exists, process_single_draft_delete, return_scheduled_draft_to_review,
  stop_attempts, stop_future_attempts_for_draft, update_draft_content, update_scheduled_at,
  update_scheduled_draft,
}
use shiku_ai_powered_sales_d.Drafts.Scheduler.{
  Engine, claim, claim_due_scheduled_drafts, claim_ids, claim_limit, claim_one_by_one, due_rows,
  id_of, is_claimable, postgres, send_due_scheduled_drafts, sqlite, sweep,
}
use shiku_ai_powered_sales_d.Drafts.Requests.{
  Request, after_edit, attach, delete, delete_batch, detach, edit, edit_scheduled, return_to_review,
  review, review_batch, run_scheduler, serve, serve_all,
}
use shiku_ai_powered_sales_d.Drafts.Invariants.{Keeps, for_each-keeps, review-keeps, send-keeps}
use shiku_ai_powered_sales_d.Drafts.Attachments.{
  Upload, add_draft_attachments, commit_uploads, delete_draft_attachment, insert_uploads,
}
use shiku_ai_powered_sales_d.Drafts.Uploads.{HasInserted, insert_uploads-HasInserted}
use shiku_ai_powered_sales_d.Drafts.Claims.{claim_in_one_statement-eq-claim_one_by_one}

pub messages-stop_attempts :
    (stop : Bool) (m : Message) (db : Db) → (stop_attempts stop m db).messages ≡ db.messages
unfolding stop_future_attempts_for_draft
messages-stop_attempts stop m db = ground arith

module _ (s : Services) (I : List Message → Type 0) (keeps : Keeps s I) where
  -- A query that fixes the identifier, met by some row.
  met :
      (k : ℕ) (q : Message → Bool) (ms : List Message)
      → I ms
      → ((x : Message) → q x ≡ true → (x.id == k) ≡ true)
      → any q ms ≡ true
      → (m : Message) × (get_message k ms ≡ some m) × (q m ≡ true)
  met k q ms h fixes e =
      let (m, f) = find_row-any q ms e in
      (m, get_message-find_row k q ms (keeps.distinct ms h) f fixes, find_row_holds q ms f)

  edit-keeps :
      (k : ℕ) (subject body actor : Text) (org : Option ℕ) (db : Db)
      → I db.messages
      → I (update_draft_content k subject body actor org db).1.messages
  unfolding update_draft_content log_draft_event
  edit-keeps k subject body actor org db h = elim (Bool-cases (pending_draft_exists k org db)) [
    | inl t ↦ written (met k (is_pending_draft k org) db.messages h (λ x q. ground arith) t) t
    | inr n ↦ unwritten n
  ]
    where
      written :
          (m : Message) × (get_message k db.messages ≡ some m) × (is_pending_draft k org m ≡ true)
          → pending_draft_exists k org db ≡ true
          → I (update_draft_content k subject body actor org db).1.messages
      written (m, f, q) t = ground (arith, keeps.edits db.messages k org m subject body h f q)

      unwritten :
          pending_draft_exists k org db ≡ false
          → I (update_draft_content k subject body actor org db).1.messages
      unwritten n = ground arith

  edit_scheduled-keeps :
      (k : ℕ) (subject body : Text) (time : Parsed) (actor : Text) (org : Option ℕ) (db : Db)
      → I db.messages
      → I (after_edit (update_scheduled_at time k subject body actor org db) db).messages
  unfolding update_scheduled_at log_draft_event
  edit_scheduled-keeps k subject body malformed actor org db h = h
  edit_scheduled-keeps k subject body absent actor org db h = h
  edit_scheduled-keeps k subject body (at time) actor org db h =
      elim (Bool-cases (any (is_scheduled_row k org) db.messages)) [
        | inl t ↦ written (met k (is_scheduled_row k org) db.messages h (λ x q. ground arith) t) t
        | inr n ↦ ground arith
      ]
    where
      written :
          (m : Message) × (get_message k db.messages ≡ some m) × (is_scheduled_row k org m ≡ true)
          → any (is_scheduled_row k org) db.messages ≡ true
          → I (after_edit (update_scheduled_at (at time) k subject body actor org db) db).messages
      written (m, f, q) t =
          ground (arith, keeps.reschedules db.messages k org m subject body time h f q)

  return-keeps :
      (k : ℕ) (actor : Text) (org : Option ℕ) (db : Db)
      → I db.messages
      → I (return_scheduled_draft_to_review k actor org db).1.messages
  unfolding return_scheduled_draft_to_review log_draft_event
  return-keeps k actor org db h = elim (Bool-cases (any (is_scheduled_row k org) db.messages)) [
    | inl t ↦ written (met k (is_scheduled_row k org) db.messages h (λ x q. ground arith) t) t
    | inr n ↦ ground arith
  ]
    where
      written :
          (m : Message) × (get_message k db.messages ≡ some m) × (is_scheduled_row k org m ≡ true)
          → any (is_scheduled_row k org) db.messages ≡ true
          → I (return_scheduled_draft_to_review k actor org db).1.messages
      written (m, f, q) t = ground (arith, keeps.returns db.messages k org m h f q)

  pub delete-keeps :
      (k : ℕ) (stop : Bool) (actor : Text) (org : Option ℕ) (db : Db)
      → I db.messages
      → I (process_single_draft_delete k stop actor org db).1.messages
  unfolding process_single_draft_delete log_draft_event
  delete-keeps k stop actor org db h =
      elim (Option-cases (find_row (is_deletable k org) db.messages)) [
        | inl e ↦ rw e h
        | inr (m, e) ↦ rw e (
            rw messages-stop_attempts (
              keeps.deletes db.messages k org m h
                (get_message-find_row k (is_deletable k org) db.messages
                  (keeps.distinct db.messages h) e (λ x q. ground arith))
                (find_row_holds (is_deletable k org) db.messages e)))
      ]

  attach-keeps :
      (k : ℕ) (us : List Upload) (actor : Text) (org : Option ℕ) (db : Db)
      → I db.messages
      → I (add_draft_attachments s k us actor org db).1.messages
  unfolding add_draft_attachments
  attach-keeps k us actor org db h =
      let inserted : I
          (commit_uploads k actor (length us) db (insert_uploads s k us db)).1.messages =
        committed (insert_uploads s k us db) (insert_uploads-HasInserted s k us db) in
      ground arith
    where
      committed :
          (o : Option (List ℕ × Db))
          → HasInserted k (length us) db o
          → I (commit_uploads k actor (length us) db o).1.messages
      committed none e = h
      committed (some (ids, d)) e =
          rw (messages-log_draft_event (draft_attachments_added (length us)) k actor none d)
            (rw e.0 h)

  detach-keeps :
      (k a : ℕ) (actor : Text) (org : Option ℕ) (db : Db)
      → I db.messages
      → I (delete_draft_attachment k a actor org db).1.messages
  unfolding delete_draft_attachment log_draft_event
  detach-keeps k a actor org db h = ground arith

  claim_ids-keeps : (now : ℕ) (ks : List ℕ) (ms : List Message) → I ms → I (claim_ids now ks ms)
  unfolding claim_ids
  claim_ids-keeps now [] ms h = h
  claim_ids-keeps now (k ∷ ks) ms h =
      claim_ids-keeps now ks (update_rows (is_claimable k) (claim now) ms) (keeps.claims ms k now h)

  one_by_one-keeps :
      (now limit : ℕ) (org : Option ℕ) (db : Db)
      → I db.messages
      → I (claim_one_by_one s now limit org db).1.messages
  unfolding claim_one_by_one
  one_by_one-keeps now limit org db h =
      claim_ids-keeps now (map id_of (due_rows s now limit org db)) db.messages h

  pub claim-keeps :
      (engine : Engine) (now limit : ℕ) (org : Option ℕ) (db : Db)
      → I db.messages
      → I (claim_due_scheduled_drafts engine s now limit org db).1.messages
  unfolding claim_due_scheduled_drafts
  claim-keeps sqlite now limit org db h = one_by_one-keeps now limit org db h
  claim-keeps postgres now limit org db h =
      rw
        (claim_in_one_statement-eq-claim_one_by_one s now limit org db
          (keeps.distinct db.messages h))
        (one_by_one-keeps now limit org db h)

  pub scheduler-keeps :
      (engine : Engine) (limit : ℕ) (actor : Text) (org : Option ℕ) (now : ℕ) (db : Db)
      → I db.messages
      → I (send_due_scheduled_drafts engine s limit actor org now db).1.messages
  unfolding send_due_scheduled_drafts sweep
  scheduler-keeps engine limit actor org now db h =
      let swept = sweep s now org db in
      let claimed = claim_due_scheduled_drafts engine s now (claim_limit limit) org swept in
      for_each-keeps (λ (d : Db). I d.messages) (λ k. send_approved_draft s k actor none org now)
        (λ k d i. send-keeps s I keeps k actor none org now d i) claimed.0 claimed.1
        (claim-keeps engine now (claim_limit limit) org swept
          (keeps.releases _ now org (keeps.pauses db.messages org h)))

  batch_approve-keeps :
      (ks : List ℕ) (yes_or_no : Bool) (actor : Text) (value : Option Text) (org : Option ℕ)
      (now : ℕ) (db : Db)
      → I db.messages
      → I (batch_approve_drafts s ks yes_or_no actor value org now db).1.messages
  unfolding batch_approve_drafts
  batch_approve-keeps ks yes_or_no actor value org now db h =
      let each =
        for_each-keeps (λ (d : Db). I d.messages)
          (λ k. process_single_draft_approval s actor now k yes_or_no value org)
          (λ k d i. review-keeps s I keeps k yes_or_no actor value org now d i) (sorted_set ks) db
          h in
      ground arith

  batch_delete-keeps :
      (ks : List ℕ) (stop : Bool) (actor : Text) (org : Option ℕ) (db : Db)
      → I db.messages
      → I (batch_delete_drafts ks stop actor org db).1.messages
  unfolding batch_delete_drafts
  batch_delete-keeps ks stop actor org db h =
      let each =
        for_each-keeps (λ (d : Db). I d.messages)
          (λ k. process_single_draft_delete k stop actor org)
          (λ k d i. delete-keeps k stop actor org d i) (sorted_set ks) db h in
      ground arith

  pub serve-keeps :
      (now : ℕ) (r : Request) (db : Db) → I db.messages → I (serve s now r db).messages
  unfolding serve
  serve-keeps now (review k yes_or_no actor value org) db h =
      unfold approve_draft in
      let kept = review-keeps s I keeps k yes_or_no actor value org now db h in ground arith
  serve-keeps now (review_batch ks yes_or_no actor value org) db h =
      batch_approve-keeps ks yes_or_no actor value org now db h
  serve-keeps now (edit k subject body actor org) db h = edit-keeps k subject body actor org db h
  serve-keeps now (edit_scheduled k subject body value actor org) db h =
      unfold update_scheduled_draft in
      let kept =
        edit_scheduled-keeps k subject body (schedule_at s.parse_iso value) actor org db h in
      ground arith
  serve-keeps now (return_to_review k actor org) db h = return-keeps k actor org db h
  serve-keeps now (attach k us actor org) db h = attach-keeps k us actor org db h
  serve-keeps now (detach k a actor org) db h = detach-keeps k a actor org db h
  serve-keeps now (delete k stop actor org) db h =
      unfold delete_draft in let kept = delete-keeps k stop actor org db h in ground arith
  serve-keeps now (delete_batch ks stop actor org) db h = batch_delete-keeps ks stop actor org db h
  serve-keeps now (run_scheduler engine limit actor org) db h =
      scheduler-keeps engine limit actor org now db h

  pub serve_all-keeps :
      (rs : List (ℕ × Request)) (db : Db) → I db.messages → I (serve_all s rs db).messages
  unfolding serve_all
  serve_all-keeps [] db h = h
  serve_all-keeps ((now, r) ∷ rs) db h =
      serve_all-keeps rs (serve s now r db) (serve-keeps now r db h)
