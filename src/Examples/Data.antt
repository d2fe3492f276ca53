-- ===== src/Examples/Data.antt =====
-- A small calendar service and the rows that the examples run on.
use busybridge.Prelude.{ℕ, suc, true, false, none, some, List, [], ◌∷◌, codes}
use busybridge.Errors.{Exn, ok, raise}
use busybridge.Json.{Fields, end, field, str}
use busybridge.Ledger.{
  client, Event, Projection, Op, Db, Calendar, sha, active, present_full, present_full_rsvp_only,
  to_main, to_client, present, update, pending, body,
}
use busybridge.Google.{GoogleClient, World, Page}
use busybridge.Planner.Row.{Row}
use busybridge.Outbox.Create.{Setup}

abbrev pub refused : ℕ → Exn
refused n = record {
  status = some n;
  message = codes "refused";
  reason = [];
  is_value_error = false;
}

abbrev pub made : Fields
made = field (codes "id") (str (codes "bb1")) (field (codes "etag") (str (codes "e1")) end)

abbrev pub nothing_listed : Page
nothing_listed = record { items = []; next_page_token = none; next_sync_token = none }

-- A service that counts its calls, creates what it is asked to, and holds nothing else.
abbrev pub empty_service : GoogleClient
empty_service = record {
  State = ℕ;
  insert_event = λ cal d n. (ok made, suc n);
  get_event = λ cal i n. (raise (refused 404), suc n);
  update_event = λ cal i d etag n. (raise (refused 404), suc n);
  patch_event = λ cal i d send n. (ok made, suc n);
  delete_event = λ cal i n. (raise (refused 410), suc n);
  list_events = λ cal listing n. (ok nothing_listed, suc n);
  list_instances = λ cal i listing n. (ok nothing_listed, suc n);
}

abbrev pub plain_setup : Setup
plain_setup = record {
  derive_google_event_id = λ p generation. ok (codes "bb1");
  writeback_notifications = false;
}

abbrev pub meeting : Event
meeting = record {
  id = 1;
  user_id = 7;
  canonical_uid = codes "client:3:m";
  parent_canonical_uid = none;
  source_type = client;
  source_calendar_id = some 3;
  source_event_id = some (codes "m");
  source_etag = none;
  source_updated_at = none;
  ical_uid = none;
  summary = some (codes "Meeting");
  description = none;
  location = none;
  start_at = some (codes "2026-03-10T09:00:00Z");
  end_at = some (codes "2026-03-10T10:00:00Z");
  start_timezone = none;
  end_timezone = none;
  is_all_day = false;
  show_as = none;
  visibility = none;
  color_id = none;
  organizer_email = none;
  user_can_edit = true;
  user_rsvp_status = none;
  attendees_json = none;
  conference_data_json = none;
  pending_conference_id = none;
  source_html_link = none;
  recurrence_rule_json = none;
  recurrence_instance_original_start = none;
  status = active;
  user_intentionally_deleted = false;
  is_recurring = false;
  origin_writeback_pending = true;
  source_delete_pending = false;
  version = 2;
  created_at = none;
  updated_at = none;
  cancelled_at = none;
  last_seen_at = none;
}

abbrev pub row_of : Event → Row
row_of e = record {
  event = e;
  source_label = none;
  calendar_color_id = none;
  placement_label = none;
  placed_on_client = false;
  placement_client_resolved_id = none;
}

abbrev pub main_copy : Projection
main_copy = record {
  id = 11;
  ledger_event_id = 1;
  target_kind = to_main;
  target_calendar_id = none;
  desired_state = present_full;
  desired_payload_hash = sha 5;
  desired_ledger_version = 2;
  current_state = present;
  google_event_id = some (codes "bb1");
  google_etag = none;
  applied_payload_hash = some (sha 4);
  applied_ledger_version = some 1;
  last_attempt_at = none;
  next_attempt_at = none;
  attempts = 0;
  last_error = none;
  permanently_failed = false;
  google_id_generation = 0;
  google_id_generation_floor = 0;
  updated_at = none;
}

abbrev pub writeback : Projection
writeback = record main_copy {
  id = 12;
  target_kind = to_client;
  target_calendar_id = some 3;
  desired_state = present_full_rsvp_only;
}

abbrev pub update_op : Op
update_op = record {
  id = 21;
  user_id = 7;
  projection_id = 11;
  operation = update;
  idempotency_key = record { projection = 11; version = 2; operation = update };
  ledger_version_at_enqueue = 2;
  desired_payload_hash = some (sha 5);
  target_google_calendar_id = codes "main@x";
  payload_json = some (body end);
  status = pending;
  attempts = 0;
  next_attempt_at = none;
  last_error = none;
  last_http_status = none;
  created_at = 0;
  started_at = none;
  completed_at = none;
}

abbrev pub calendars : List Calendar
calendars =
    record {
      id = 3;
      user_id = 7;
      is_active = true;
      is_client = true;
      display_name = none;
      color_id = none;
    }
    ∷ record {
      id = 4;
      user_id = 7;
      is_active = true;
      is_client = true;
      display_name = none;
      color_id = none;
    }
    ∷ []

abbrev pub ledger : Db
ledger = record {
  events = meeting ∷ [];
  projections = main_copy ∷ writeback ∷ [];
  operations = update_op ∷ [];
  affected = [];
  calendars = calendars;
  subscriptions = [];
  alerts = [];
  calendar_sync_states = [];
  main_sync_states = [];
  paused_users = [];
  sync_paused = false;
}

abbrev pub world : World empty_service
world = record { db = ledger; google = 0 }
