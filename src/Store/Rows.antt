-- ===== src/Store/Rows.antt =====
-- Tests on the columns of a row, and the statements on one message.
use shiku_ai_powered_sales_d.Prelude.{
  ℕ, Bool, true, false, Option, none, some, List, [], ◌∷◌, ◌++◌, Text, find_row, update_rows, ◌==◌,
  if◌then◌else◌,
}
use shiku_ai_powered_sales_d.Store.Schema.{
  Status, draft, scheduled, sending, sent, failed, generating, Direction, inbound, outbound,
  Approval, pending, approved, Message, Lead, EventKind, of_draft, ApprovalId, Db,
}

abbrev pub is_draft : Option Status → Bool
is_draft (some draft) = true
is_draft _ = false

abbrev pub is_scheduled : Option Status → Bool
is_scheduled (some scheduled) = true
is_scheduled _ = false

abbrev pub is_sending : Option Status → Bool
is_sending (some sending) = true
is_sending _ = false

abbrev pub is_sent : Option Status → Bool
is_sent (some sent) = true
is_sent _ = false

abbrev pub is_failed : Option Status → Bool
is_failed (some failed) = true
is_failed _ = false

abbrev pub is_generating : Option Status → Bool
is_generating (some generating) = true
is_generating _ = false

abbrev pub is_missing {ℓ} : {A : Type ℓ} → Option A → Bool
is_missing none = true
is_missing (some _) = false

abbrev pub is_outbound : Direction → Bool
is_outbound outbound = true
is_outbound inbound = false

abbrev pub is_pending : Approval → Bool
is_pending pending = true
is_pending _ = false

abbrev pub is_approved : Approval → Bool
is_approved approved = true
is_approved _ = false

-- `organization_id = ?`, or no such condition where the argument is `None`.
abbrev pub in_org : Option ℕ → ℕ → Bool
in_org none o = true
in_org (some k) o = o == k

-- The truth value of an identifier: `None` and 0 are false.
abbrev pub truthy : Option ℕ → Bool
truthy none = false
truthy (some n) = if n == 0 then false else true

-- `COALESCE(a, b)`
abbrev pub coalesce {ℓ} : {A : Type ℓ} → Option A → Option A → Option A
coalesce none b = b
coalesce (some a) b = some a

abbrev pub with_id : ℕ → Message → Bool
with_id k m = m.id == k

abbrev pub get_message : ℕ → List Message → Option Message
get_message k = find_row (with_id k)

-- `UPDATE email_messages SET f WHERE id = k`
abbrev pub update_message : ℕ → (Message → Message) → Db → Db
update_message k f db = record db { messages = update_rows (with_id k) f db.messages }

abbrev pub get_lead : ℕ → List Lead → Option Lead
get_lead k = find_row (λ (l : Lead). l.id == k)

abbrev pub owner_of : Option Message → Option ℕ
owner_of none = none
owner_of (some m) = some m.organization_id

-- `_log_draft_event`: the organization is read from the message as it stands now.
unfoldable pub log_draft_event : EventKind → ℕ → Text → Option ApprovalId → Db → Db
log_draft_event kind draft_id actor approval db = record db {
  events =
      db.events
      ++ of_draft (record {
        organization_id = owner_of (get_message draft_id db.messages);
        kind = kind;
        draft_id = draft_id;
        actor_id = actor;
        approval_id = approval;
      })
        ∷ [];
}
