-- ===== src/Metering/Actions.antt =====
-- The rows of `ai_usage_actions`, and the context of one action.
use shiku_ai_powered_sales_d.Prelude.{
  Bool, List, Option, Text, [], any, at_least, codes, false, find_row, if◌then◌else◌, none, not,
  some, strip, text_eq, update_rows, ℕ, ℤ, ◌*◌, ◌++◌, ◌+◌, ◌==◌, ◌||◌, ◌∷◌,
}
use shiku_ai_powered_sales_d.Metering.Schema.{Action, Meter, Period, Tenancy}
use shiku_ai_powered_sales_d.Metering.Periods.{ensure_billing_period_snapshot}

abbrev action_credits : List (Text × (Text × ℕ))
action_credits =
    (codes "DrafterAgent", (codes "draft_generated", 5))
    ∷ (codes "ReviewerAgent", (codes "draft_reviewed", 1))
    ∷ (codes "LlamaGuardAgent", (codes "safety_checked", 1))
    ∷ (codes "IntentExtractor", (codes "reply_classified", 1))
    ∷ (codes "EmailIntentExtractor", (codes "reply_classified", 1))
    ∷ (codes "EmailResponseAgent", (codes "reply_generated", 3))
    ∷ (codes "EmailResponseEvaluator", (codes "reply_reviewed", 1))
    ∷ (codes "EmailSenderAgent", (codes "reply_action_executed", 2))
    ∷ (codes "MeetingDetailsAgent", (codes "meeting_assist", 2))
    ∷ (codes "CalendarAgent", (codes "meeting_assist", 2))
    ∷ []

abbrev get_or {ℓ} : {A : Type ℓ} → A → Text → List (Text × A) → A
get_or default key [] = default
get_or default key ((k, a) ∷ rest) = if text_eq k key then a else get_or default key rest

unfoldable pub action_defaults_for_agent : Text → Text × ℕ
action_defaults_for_agent agent = get_or (codes "llm_agent_call", 1) agent action_credits

abbrev multipliers : List (Text × ℕ)
multipliers = (codes "cost_optimized", 1) ∷ (codes "balanced", 2) ∷ (codes "quality_first", 4) ∷ []

abbrev or_blank : Option Text → Text
or_blank none = []
or_blank (some t) = t

unfoldable pub credits_for_routing_mode : ℤ → Option Text → ℕ
credits_for_routing_mode base mode = at_least 0 base * get_or 1 (strip (or_blank mode)) multipliers

-- The arguments of `record_ai_usage_action`.
pub record Usage : Type 0 where
  pub organization_id : ℕ
  pub action_type : Text
  pub user_id : Option ℕ
  pub quantity : ℤ
  pub credits_used : Option ℤ
  pub source_object_type : Option Text
  pub source_object_id : Option Text
  pub status : Text
  pub idempotency_key : Option Text
  pub metadata : List (Text × Text)
  pub request_id : Option Text

abbrev pub or_else {ℓ} : {A : Type ℓ} → Option A → Option A → Option A
or_else none b = b
or_else (some a) b = some a

-- `request_id or get_request_id()`
abbrev or_current : Option Text → Option Text → Option Text
or_current (some (c ∷ t)) current = some (c ∷ t)
or_current _ current = current

abbrev pub charged : Usage → ℕ
charged u = elim u.credits_used [ none ↦ at_least 0 u.quantity | some c ↦ at_least 0 c ]

abbrev pub new_action : Usage → Period → Meter → Action
new_action u p st = record {
  id = st.next_action_id;
  organization_id = u.organization_id;
  user_id = or_else u.user_id st.current_user_id;
  request_id = or_current u.request_id st.request_id;
  action_type = u.action_type;
  quantity = at_least 1 u.quantity;
  credits_used = charged u;
  billing_period_start = p.period_start;
  billing_period_end = p.period_end;
  source_object_type = u.source_object_type;
  source_object_id = u.source_object_id;
  status = u.status;
  idempotency_key = u.idempotency_key;
  metadata = u.metadata;
}

-- `WHERE idempotency_key = ?`, which no row with NULL satisfies.
abbrev pub has_key : Text → Option Text → Bool
has_key key none = false
has_key key (some k) = text_eq k key

abbrev pub is_keyed : Text → Action → Bool
is_keyed key a = has_key key a.idempotency_key

-- The row that the key stands for already; an empty key is no key. That no two calls send an empty
-- key, whose second row the table would refuse, is assumed.
abbrev pub existing : Option Text → List Action → Option Action
existing none actions = none
existing (some []) actions = none
existing (some (c ∷ t)) actions = find_row (is_keyed (c ∷ t)) actions

abbrev pub insert_action : Action → Meter → Meter
insert_action a st = record st {
  actions = st.actions ++ a ∷ [];
  next_action_id = st.next_action_id + 1;
}

abbrev pub or_insert : Usage → Period → Meter → Option Action → Action × Meter
or_insert u p st (some a) = (a, st)
or_insert u p st none = (new_action u p st, insert_action (new_action u p st) st)

unfoldable pub record_ai_usage_action : Tenancy → ℕ → Usage → Meter → Action × Meter
record_ai_usage_action t now u st =
    let (p, st') = ensure_billing_period_snapshot t now u.organization_id st in
    or_insert u p st' (existing u.idempotency_key st'.actions)

-- `dict.update`
abbrev set_field : Text × Text → List (Text × Text) → List (Text × Text)
set_field (k, v) [] = (k, v) ∷ []
set_field (k, v) ((j, w) ∷ rest) =
    if text_eq j k then (k, v) ∷ rest else (j, w) ∷ set_field (k, v) rest

abbrev merge_fields : List (Text × Text) → List (Text × Text) → List (Text × Text)
merge_fields [] fields = fields
merge_fields (f ∷ patch) fields = merge_fields patch (set_field f fields)

-- The arguments of `update_ai_usage_action` after the identifier.
pub record Change : Type 0 where
  pub action_type : Option Text
  pub credits_used : Option ℤ
  pub status : Option Text
  pub metadata_patch : List (Text × Text)

abbrev or_keep {ℓ} : {A : Type ℓ} → Option A → A → A
or_keep none a = a
or_keep (some b) a = b

abbrev or_keep_credits : Option ℤ → ℕ → ℕ
or_keep_credits none n = n
or_keep_credits (some c) n = at_least 0 c

abbrev pub change_action : Change → Action → Action
change_action c a = record a {
  action_type = or_keep c.action_type a.action_type;
  credits_used = or_keep_credits c.credits_used a.credits_used;
  status = or_keep c.status a.status;
  metadata = merge_fields c.metadata_patch a.metadata;
}

abbrev pub has_action_id : ℕ → Action → Bool
has_action_id k a = a.id == k

-- The row after the update, or `none` for the empty dictionary.
unfoldable pub update_ai_usage_action : ℕ → Change → Meter → Option Action × Meter
update_ai_usage_action k c st =
    if k == 0 || not (any (has_action_id k) st.actions)
    then (none, st)
    else let actions = update_rows (has_action_id k) (change_action c) st.actions in
      (find_row (has_action_id k) actions, record st { actions = actions })

-- How the body of a `with` block ends.
pub data Outcome (A : Type 0) : Type 0 where
  returned : A → Outcome A
  raised : Text → Outcome A

abbrev pub mark_error : Text → Change
mark_error e = record {
  action_type = none;
  credits_used = none;
  status = some (codes "error");
  metadata_patch = (codes "error", e) ∷ [];
}

-- `int(action["id"]) if action.get("id") else None`
abbrev pub nonzero : ℕ → Option ℕ
nonzero k = if k == 0 then none else some k

abbrev pub set_current_ai_action_id : Option ℕ → Meter → Meter
set_current_ai_action_id k st = record st { current_action_id = k }

abbrev pub close_action : {A : Type 0} → ℕ → Outcome A × Meter → Outcome A × Meter
close_action k (returned a, st) = (returned a, st)
close_action k (raised e, st) = (raised e, (update_ai_usage_action k (mark_error e) st).1)

-- `with ai_usage_action_context(...) as action: body`
unfoldable pub ai_usage_action_context :
    {A : Type 0}
    → Tenancy
    → ℕ
    → Usage
    → (Action → Meter → Outcome A × Meter)
    → Meter
    → Outcome A × Meter
ai_usage_action_context t now u body st =
    let (action, st1) = record_ai_usage_action t now u st in
    let (outcome, st2) =
      close_action action.id (body action (set_current_ai_action_id (nonzero action.id) st1)) in
    (outcome, set_current_ai_action_id st1.current_action_id st2)
