-- ===== src/Drafts/Times.antt =====
-- The helpers at the top of services/draft_service.py: schedule times, and the errors of a send.
use shiku_ai_powered_sales_d.Prelude.{
  Bool, Option, Text, [], codes, false, has_prefix, if◌then◌else◌, is_empty, none, not, occurs_in,
  or_text, some, strip, ℕ, ◌&&◌, ◌==◌, ◌||◌, ◌∷◌,
}
use shiku_ai_powered_sales_d.Store.Schema.{Status}
use shiku_ai_powered_sales_d.Store.Rows.{is_scheduled, is_sending}

-- The outcome of `_schedule_iso` and `_parse_schedule_at`: a time, `None`, or a `ValueError`.
pub data Parsed : Type 0 where
  at : ℕ → Parsed
  absent malformed : Parsed

-- `normalized[:-1] + "+00:00"` where the text ends in `Z`.
unfoldable pub with_offset : Text → Text
with_offset [] = []
with_offset (c ∷ []) = if c == b'Z' then codes "+00:00" else c ∷ []
with_offset (c ∷ d ∷ s) = c ∷ with_offset (d ∷ s)

abbrev read_time : Option ℕ → Parsed
read_time none = malformed
read_time (some t) = at t

-- `_parse_schedule_at`, which `_schedule_iso` prints at whole seconds.
unfoldable pub schedule_at : (Text → Option ℕ) → Option Text → Parsed
schedule_at parse_iso none = absent
schedule_at parse_iso (some value) =
    if is_empty (strip value) then absent else read_time (parse_iso (with_offset (strip value)))

-- `_schedule_was_requested`
abbrev pub schedule_was_requested : Option Text → Bool
schedule_was_requested none = false
schedule_was_requested (some value) = not (is_empty (strip value))

-- `_is_safety_system_unavailable`
abbrev pub is_safety_system_unavailable : Option Text → Bool
is_safety_system_unavailable error =
    occurs_in (codes "Safety check system unavailable") (or_text error [])

-- `_is_safety_content_block`
unfoldable pub is_safety_content_block : Option Text → Bool
is_safety_content_block error =
    has_prefix (codes "Safety check failed:") (or_text error [])
    && not (is_safety_system_unavailable error)

-- `_is_scheduled_send_status`
abbrev pub is_scheduled_send_status : Option Status → Bool
is_scheduled_send_status status = is_scheduled status || is_sending status
