-- ===== src/Ingest/Rows.antt =====
-- app/ledger/ingest/client.py: what the ingest writes to a row of ledger_events, and
-- `_read_is_stale`, `_mark_cancelled`, `_apply_event_to_ledger` and `_insert_ledger_row`.
use busybridge.Prelude.{
  ℕ, suc, Bool, true, false, ◌&&◌, ◌||◌, not, Option, none, some, List, [], ◌∷◌, ◌++◌, map,
  if◌then◌else◌, ◌==◌, ltb, find_first, Text, text_eq, codes,
}
use busybridge.Errors.{Result, ok, raise, other_error, Action, ◌>>=◌, ◌>>◌, return, lift, modify}
use busybridge.Json.{Fields, get, as_text}
use busybridge.Ledger.{Event, Db, Source, active, cancelled, is_cancelled}
use busybridge.Planner.Persist.{next_id}
use busybridge.Outbox.Record.{set_event}
use busybridge.Ingest.Fields.{Content, Hashable, extract_event_fields, content_hash, content_of_row}
use busybridge.Ingest.Conference.{Resolution, resolve_conference}

-- The library functions that the ingest calls: str.lower, json.dumps with SHA-256, the conversion of
-- a time to UTC, the parsing of a timestamp, and the conversion of a wall time in a named zone.
pub record Readers : Type 0 where
  pub lower : Text → Text
  pub digest : Hashable → ℕ
  pub utc_instant : Text → Option Text
  pub parse_instant : Text → Option ℕ
  pub in_zone : Text → Text → Option Text

-- What every event of a pass is ingested with.
pub record Reader : Type 0 where
  pub readers : Readers
  pub now : ℕ
  pub user_id : ℕ
  pub user_email : Text
  pub owned_emails : List Text
  pub skip_if_older : Bool

unfoldable pub extract : Reader → Fields → Result Content
unfolding extract_event_fields
extract c event = extract_event_fields c.readers.lower c.user_email c.owned_emails event

abbrev pub hash_of : Reader → Content → ℕ
hash_of c f = content_hash c.readers.utc_instant c.readers.digest f

-- SELECT * FROM ledger_events WHERE user_id = ? AND canonical_uid = ?
unfoldable pub event_by_uid : ℕ → Text → Db → Option Event
event_by_uid user uid db =
    find_first (λ e. e.user_id == user && text_eq e.canonical_uid uid) db.events

-- The columns of an INSERT, and the defaults of the others.
unfoldable pub blank_row : ℕ → ℕ → Text → Option Text → Source → Option ℕ → Option Text → Event
blank_row i user uid parent kind calendar source_event = record {
  id = i;
  user_id = user;
  canonical_uid = uid;
  parent_canonical_uid = parent;
  source_type = kind;
  source_calendar_id = calendar;
  source_event_id = source_event;
  source_etag = none;
  source_updated_at = none;
  ical_uid = none;
  summary = none;
  description = none;
  location = none;
  start_at = none;
  end_at = none;
  start_timezone = none;
  end_timezone = none;
  is_all_day = false;
  show_as = none;
  visibility = none;
  color_id = none;
  organizer_email = none;
  user_can_edit = true;
  user_rsvp_status = none;
  attendees_json = none;
  conference_data_json = none;
  pending_conference_id = none;
  source_html_link = none;
  recurrence_rule_json = none;
  recurrence_instance_original_start = none;
  status = active;
  user_intentionally_deleted = false;
  is_recurring = false;
  origin_writeback_pending = false;
  source_delete_pending = false;
  version = 1;
  created_at = none;
  updated_at = none;
  cancelled_at = none;
  last_seen_at = none;
}

abbrev pub fresh_id : Db → ℕ
fresh_id db = next_id (map (λ e. e.id) db.events)

-- INSERT of a row, and cursor.lastrowid.
unfoldable pub insert_event_row : (ℕ → Event) → Action Db ℕ
unfolding next_id
insert_event_row row db =
    (ok (fresh_id db), record db { events = db.events ++ row (fresh_id db) ∷ [] })

-- The content columns that an override of one occurrence has: neither a rule nor its flag.
unfoldable pub with_instance_content : Content → Event → Event
with_instance_content f e = record e {
  summary = f.summary;
  description = f.description;
  location = f.location;
  start_at = f.start_at;
  end_at = f.end_at;
  start_timezone = f.start_timezone;
  end_timezone = f.end_timezone;
  is_all_day = f.is_all_day;
  show_as = f.show_as;
  visibility = f.visibility;
  color_id = f.color_id;
  organizer_email = f.organizer_email;
  user_can_edit = f.user_can_edit;
  user_rsvp_status = f.user_rsvp_status;
  attendees_json = f.attendees_json;
  conference_data_json = f.conference_data_json;
  source_html_link = f.source_html_link;
}

unfoldable pub with_content : Content → Event → Event
unfolding with_instance_content
with_content f e = record (with_instance_content f e) {
  recurrence_rule_json = f.recurrence_rule_json;
  is_recurring = f.is_recurring;
}

unfoldable pub with_source : Fields → Event → Event
with_source event e = record e {
  source_etag = as_text (get event (codes "etag"));
  source_updated_at = as_text (get event (codes "updated"));
}

abbrev pub stamped_new : ℕ → Event → Event
stamped_new now e = record e {
  created_at = some now;
  updated_at = some now;
  last_seen_at = some now;
}

-- status = 'active', version = version + 1 and the times of an UPDATE.
unfoldable pub bumped : ℕ → Event → Event
bumped now e = record e {
  status = active;
  version = suc e.version;
  updated_at = some now;
  last_seen_at = some now;
}

unfoldable pub cancel_row : ℕ → Event → Event
cancel_row now e = record e {
  status = cancelled;
  version = suc e.version;
  cancelled_at = some now;
  updated_at = some now;
  last_seen_at = some now;
}

unfoldable pub mark_cancelled : ℕ → ℕ → Db → Db
unfolding cancel_row
mark_cancelled now i = set_event i (cancel_row now)

unfoldable pub seen : ℕ → Event → Event
seen now e = record e { last_seen_at = some now }

unfoldable pub seen_with : ℕ → Option Text → Event → Event
seen_with now candidate e = record e { last_seen_at = some now; pending_conference_id = candidate }

-- _parse_iso_utc reads no empty text.
abbrev parsed : (Text → Option ℕ) → Option Text → Option ℕ
parsed parse none = none
parsed parse (some []) = none
parsed parse (some (c ∷ s)) = parse (c ∷ s)

abbrev older : Option ℕ → Option ℕ → Bool
older (some a) (some b) = ltb a b
older _ _ = false

unfoldable pub read_is_stale : Readers → Fields → Event → Bool
read_is_stale r event existing =
    older (parsed r.parse_instant (as_text (get event (codes "updated"))))
      (parsed r.parse_instant existing.source_updated_at)

abbrev pub kept_answer : Bool → Option Text → Content → Content
kept_answer true answer f = record f { user_rsvp_status = answer }
kept_answer false answer f = f

-- The columns read, less an answer that the source has not got yet.
unfoldable pub intended : Event → Content → Content
intended e f = kept_answer e.origin_writeback_pending e.user_rsvp_status f

unfoldable pub resolution_for : Event → Content → Resolution
unfolding resolve_conference
resolution_for e f =
    resolve_conference e.conference_data_json e.pending_conference_id f.conference_data_json

unfoldable pub is_changed : Reader → Event → Content → Bool
unfolding content_of_row content_hash
is_changed c e f = not (hash_of c f == hash_of c (content_of_row e)) || (resolution_for e f).changed

-- The columns of the UPDATE for the call's link.
unfoldable pub with_conference : Resolution → Event → Event
with_conference r e = record e {
  conference_data_json = r.stored;
  pending_conference_id = r.pending;
}

unfoldable pub applied_row : Reader → Fields → Content → Resolution → Event → Event
unfolding with_content with_source bumped with_conference
applied_row c event f r e = bumped c.now (with_conference r (with_content f (with_source event e)))

-- The comparison and the UPDATE, of the row as it is and the columns to store.
unfoldable pub settle_event : Reader → Fields → Event → Content → Action Db Bool
unfolding is_changed resolution_for applied_row seen_with
settle_event c event e f =
    if is_changed c e f || is_cancelled e.status
    then modify (set_event e.id (applied_row c event f (resolution_for e f))) >> return true
    else modify (set_event e.id (seen_with c.now (resolution_for e f).pending)) >> return false

abbrev or_missing : Option Event → Action Db Event
or_missing none db = (raise (other_error (codes "NoneType")), db)
or_missing (some e) db = (ok e, db)

-- The row of the id.
unfoldable pub event_row : ℕ → Action Db Event
event_row i db = or_missing (find_first (λ x. x.id == i) db.events) db

unfoldable pub apply_event_to_ledger : Reader → ℕ → Fields → Action Db Bool
unfolding extract settle_event intended read_is_stale seen event_row
apply_event_to_ledger c i event = do
  f ← lift (extract c event)
  e ← event_row i
  if c.skip_if_older && read_is_stale c.readers event e
      then modify (set_event i (seen c.now)) >> return false
      else settle_event c event e (intended e f)

unfoldable pub new_row : ℕ → Fields → Content → Event → Event
unfolding with_content with_source
new_row now event f e = stamped_new now (with_content f (with_source event e))

-- The row of a top-level event of a calendar.
unfoldable pub insert_ledger_row : Reader → Source → Text → ℕ → Fields → Text → Action Db ℕ
unfolding extract new_row insert_event_row blank_row
insert_ledger_row c kind uid calendar event event_id = do
  f ← lift (extract c event)
  insert_event_row (λ i.
      new_row c.now event f (blank_row i c.user_id uid none kind (some calendar) (some event_id)))
