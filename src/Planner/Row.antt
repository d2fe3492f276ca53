-- ===== src/Planner/Row.antt =====
-- app/ledger/planner.py: `_get_ledger_row` and `_active_client_calendars`, the rows that the planner
-- reads. The LEFT JOINs are lookups by id with the ON clause's other conditions.
use busybridge.Prelude.{
  ℕ, Bool, false, ◌&&◌, ◌||◌, Option, none, some, List, map, ◌==◌, if◌then◌else◌, find_first,
  select, and_then, Text, truthy, codes,
}
use busybridge.Errors.{Result, ok, raise, value_error}
use busybridge.Ledger.{Event, Calendar, Subscription, Db, is_client_source, is_personal, is_webcal}

-- SELECT e.*, with the joined columns.
pub record Row : Type 0 where
  pub event : Event
  pub open event use *
  pub source_label : Option Text
  pub calendar_color_id : Option Text
  pub placement_label : Option Text
  -- ws.placement_kind = 'client' (a NULL or 'main' kind reads as not)
  pub placed_on_client : Bool
  pub placement_client_resolved_id : Option ℕ

-- id = x, where x may be NULL.
abbrev pub is_id : Option ℕ → ℕ → Bool
is_id none n = false
is_id (some m) n = m == n

-- NULLIF(x, '')
abbrev non_empty : Option Text → Option Text
non_empty x = if truthy x then x else none

abbrev coalesce : Option Text → Option Text → Option Text
coalesce none y = y
coalesce (some x) y = some x

source_calendar : Db → Event → Option Calendar
source_calendar db e =
    if is_client_source e.source_type || is_personal e.source_type
    then find_first (λ c. is_id e.source_calendar_id c.id) db.calendars
    else none

subscription_of : Db → Event → Option Subscription
subscription_of db e =
    if is_webcal e.source_type
    then find_first (λ w. is_id e.source_calendar_id w.id) db.subscriptions
    else none

placement_calendar : Db → Option Subscription → Option Calendar
placement_calendar db ws =
    and_then ws
      λ w. find_first (λ c. is_id w.placement_client_calendar_id c.id && c.is_active) db.calendars

abbrev on_client : Option Subscription → Bool
on_client none = false
on_client (some w) = w.placed_on_client

unfoldable pub join_row : Db → Event → Row
unfolding source_calendar subscription_of placement_calendar
join_row db e =
    let cc = source_calendar db e in
    let ws = subscription_of db e in
    let cc_placement = placement_calendar db ws in
    let placed = is_webcal e.source_type && on_client ws in
    record {
      event = e;
      source_label =
          coalesce (and_then cc λ c. c.display_name)
            (non_empty (and_then ws λ w. w.display_prefix));
      calendar_color_id =
          if is_client_source e.source_type || is_personal e.source_type
          then and_then cc (λ c. c.color_id)
          else if placed
          then and_then cc_placement (λ c. c.color_id)
          else none;
      placement_label = if placed then and_then cc_placement (λ c. c.display_name) else none;
      placed_on_client = on_client ws;
      placement_client_resolved_id = and_then cc_placement λ c. some c.id;
    }

abbrev or_missing : Option Event → Result Event
or_missing none = raise (value_error (codes "ledger_event not found"))
or_missing (some e) = ok e

abbrev joined : Db → Result Event → Result Row
joined db (ok e) = ok (join_row db e)
joined db (raise x) = raise x

unfoldable pub get_ledger_row : Db → ℕ → Result Row
unfolding join_row
get_ledger_row db i = joined db (or_missing (find_first (λ e. e.id == i) db.events))

-- The ids of the user's active calendars of type 'client'.
unfoldable pub active_client_calendars : Db → ℕ → List ℕ
active_client_calendars db user =
    map (λ c. c.id) (select (λ c. c.user_id == user && (c.is_active && c.is_client)) db.calendars)
