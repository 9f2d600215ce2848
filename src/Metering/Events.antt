-- ===== src/Metering/Events.antt =====
-- The rows of `platform_usage_events` in services/metering_service.py.
use shiku_ai_powered_sales_d.Prelude.{
  Bool, List, Option, Text, [], at_least, find_row, none, some, ℕ, ℤ, ◌++◌, ◌+◌, ◌∷◌,
}
use shiku_ai_powered_sales_d.Metering.Schema.{Meter, PlatformEvent}
use shiku_ai_powered_sales_d.Metering.Actions.{has_key, or_else}

-- The arguments of `record_platform_usage_event`.
pub record PlatformUsage : Type 0 where
  pub event_type : Text
  pub organization_id : Option ℕ
  pub user_id : Option ℕ
  pub quantity : ℤ
  pub source_object_type : Option Text
  pub source_object_id : Option Text
  pub idempotency_key : Option Text
  pub metadata : List (Text × Text)

abbrev new_event : PlatformUsage → Meter → PlatformEvent
new_event u st = record {
  id = st.next_event_id;
  organization_id = u.organization_id;
  user_id = or_else u.user_id st.current_user_id;
  event_type = u.event_type;
  quantity = at_least 1 u.quantity;
  source_object_type = u.source_object_type;
  source_object_id = u.source_object_id;
  idempotency_key = u.idempotency_key;
  metadata = u.metadata;
}

abbrev pub is_keyed_event : Text → PlatformEvent → Bool
is_keyed_event key e = has_key key e.idempotency_key

abbrev pub existing_event : Option Text → List PlatformEvent → Option PlatformEvent
existing_event none events = none
existing_event (some []) events = none
existing_event (some (c ∷ t)) events = find_row (is_keyed_event (c ∷ t)) events

abbrev or_insert_event : PlatformUsage → Meter → Option PlatformEvent → PlatformEvent × Meter
or_insert_event u st (some e) = (e, st)
or_insert_event u st none = (
  new_event u st,
  record st {
    platform_events = st.platform_events ++ new_event u st ∷ [];
    next_event_id = st.next_event_id + 1;
  },
)

unfoldable pub record_platform_usage_event : PlatformUsage → Meter → PlatformEvent × Meter
record_platform_usage_event u st =
    or_insert_event u st (existing_event u.idempotency_key st.platform_events)
