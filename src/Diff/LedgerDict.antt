-- ===== src/Diff/LedgerDict.antt =====
-- app/ledger/diff.py: `_proj_row_to_ledger_dict`.
use busybridge.Prelude.{false, none, []}
use busybridge.Ledger.{active}
use busybridge.Planner.Row.{Row}

-- The columns that the dictionary has, of the row that _PROJECTION_SELECT reads. The others, which no
-- renderer may read, are blank.
unfoldable pub proj_row_to_ledger_dict : Row → Row
proj_row_to_ledger_dict r = record {
  event = record {
    id = 0;
    user_id = 0;
    canonical_uid = [];
    parent_canonical_uid = none;
    source_type = r.source_type;
    source_calendar_id = none;
    source_event_id = none;
    source_etag = none;
    source_updated_at = none;
    ical_uid = none;
    summary = r.summary;
    description = r.description;
    location = r.location;
    start_at = r.start_at;
    end_at = r.end_at;
    start_timezone = r.start_timezone;
    end_timezone = r.end_timezone;
    is_all_day = r.is_all_day;
    show_as = r.show_as;
    visibility = none;
    color_id = r.color_id;
    organizer_email = none;
    user_can_edit = r.user_can_edit;
    user_rsvp_status = r.user_rsvp_status;
    attendees_json = r.attendees_json;
    conference_data_json = r.conference_data_json;
    pending_conference_id = none;
    source_html_link = r.source_html_link;
    recurrence_rule_json = r.recurrence_rule_json;
    recurrence_instance_original_start = none;
    status = active;
    user_intentionally_deleted = false;
    is_recurring = false;
    origin_writeback_pending = false;
    source_delete_pending = false;
    version = 0;
    created_at = none;
    updated_at = none;
    cancelled_at = none;
    last_seen_at = none;
  };
  source_label = r.source_label;
  calendar_color_id = r.calendar_color_id;
  placement_label = r.placement_label;
  placed_on_client = false;
  placement_client_resolved_id = none;
}
