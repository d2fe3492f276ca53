-- ===== src/Ingest/Instance.antt =====
-- app/ledger/ingest/client.py: `_ingest_instance` and `_maybe_ingest_detached_cancellation`, for every
-- kind of source.
use busybridge.Prelude.{
  ℕ, Bool, true, false, ◌&&◌, ◌||◌, not, Option, none, some, if◌then◌else◌, Text, codes, is_some,
  get_or,
}
use busybridge.Errors.{ok, Action, ◌>>=◌, ◌>>◌, return, lift, modify}
use busybridge.Json.{
  str, obj, Fields, end, field, get, put, object_at, is_text, truthy_json, as_text,
}
use busybridge.Ledger.{Event, EventStatus, Db, Source, cancelled, released, is_cancelled}
use busybridge.Outbox.Record.{set_event}
use busybridge.Identity.Canonical.{canonical_uid_for_instance}
use busybridge.Ingest.Fields.{Content}
use busybridge.Ingest.Instant.{
  instance_original_start, split_instance_shaped_id, stamp_to_original_start,
}
use busybridge.Ingest.Conference.{Resolution}
use busybridge.Ingest.Rows.{
  Reader, extract, event_by_uid, blank_row, insert_event_row, with_instance_content, with_source,
  with_conference, stamped_new, bumped, cancel_row, seen, seen_with, read_is_stale, intended,
  resolution_for, is_changed,
}

-- What one event came to, and the ledger row it came to.
abbrev pub Outcome : Type 0
Outcome = Text × Option ℕ

-- Where an occurrence belongs: its source, and its series by canonical uid.
pub record Occurrence : Type 0 where
  pub parent_canonical : Text
  pub source_type : Source
  pub source_calendar_id : Option ℕ
  pub source_event_id : Option Text

abbrev pub is_released : EventStatus → Bool
is_released released = true
is_released _ = false

abbrev pub is_released_row : Option Event → Bool
is_released_row none = false
is_released_row (some e) = is_released e.status

abbrev pub skipped : Outcome
skipped = (codes "skipped", none)

abbrev pub skipped_row : Event → Outcome
skipped_row e = (codes "skipped", some e.id)

abbrev pub status_is_cancelled : Fields → Bool
status_is_cancelled event = is_text (get event (codes "status")) (codes "cancelled")

-- The shape that a stub's own start shows.
unfoldable pub display_is_all_day : Fields → Option Bool
unfolding object_at
display_is_all_day event =
    let start = object_at event (codes "start") in
    if is_some (get start (codes "dateTime"))
    then some false
    else if is_some (get start (codes "date"))
    then some true
    else none

module _ (c : Reader) (o : Occurrence) where
  -- The new row of an occurrence; an instance row is not recurring.
  unfoldable pub instance_row : Text → Text → ℕ → Event
  unfolding blank_row
  instance_row uid start i =
      record (blank_row i c.user_id uid (some o.parent_canonical) o.source_type o.source_calendar_id
        o.source_event_id) { recurrence_instance_original_start = some start }

  unfoldable pub cancelled_instance : Text → Text → Bool → ℕ → Event
  unfolding instance_row
  cancelled_instance uid start all_day i = record (stamped_new c.now (instance_row uid start i)) {
    is_all_day = all_day;
    status = cancelled;
    cancelled_at = some c.now;
  }

  unfoldable pub cancel_instance_row : Option Bool → Event → Event
  unfolding cancel_row
  cancel_instance_row display e = record (cancel_row c.now e) {
    is_all_day = get_or display e.is_all_day;
  }

  unfoldable pub cancel_occurrence : Fields → Text → Text × Bool → Option Event → Action Db Outcome
  unfolding cancelled_instance cancel_instance_row insert_event_row
  cancel_occurrence event uid (start, all_day) none = do
    i ← insert_event_row (cancelled_instance uid start (get_or (display_is_all_day event) all_day))
    return (codes "cancelled", some i)
  cancel_occurrence event uid slot (some e) =
      if is_cancelled e.status
      then return (skipped_row e)
      else modify (set_event e.id (cancel_instance_row (display_is_all_day event)))
        >> return (codes "cancelled", some e.id)

  unfoldable pub new_override : Fields → Content → Text → Text → ℕ → Event
  unfolding with_instance_content with_source instance_row
  new_override event f uid start i =
      stamped_new c.now (with_instance_content f (with_source event (instance_row uid start i)))

  unfoldable pub applied_override : Fields → Content → Resolution → Event → Event
  unfolding with_instance_content with_source with_conference bumped
  applied_override event f r e =
      bumped c.now (with_conference r (with_instance_content f (with_source event e)))

  -- The comparison and the UPDATE. Only a changed row is set active.
  unfoldable pub settle_override : Fields → Event → Content → Action Db Outcome
  unfolding is_changed resolution_for applied_override seen_with
  settle_override event e f =
      if is_changed c e f
      then modify (set_event e.id (applied_override event f (resolution_for e f)))
        >> return (codes "updated", some e.id)
      else modify (set_event e.id (seen_with c.now (resolution_for e f).pending))
        >> return (skipped_row e)

  abbrev pub content_for : Fields → Option Content → Action Db Content
  content_for event none = lift (extract c event)
  content_for event (some f) = return f

  unfoldable pub override_occurrence :
      Fields → Option Content → Text → Text → Option Event → Action Db Outcome
  unfolding extract new_override settle_override intended read_is_stale seen insert_event_row
  override_occurrence event given uid start none = do
    f ← content_for event given
    i ← insert_event_row (new_override event f uid start)
    return (codes "created", some i)
  override_occurrence event given uid start (some e) =
      if c.skip_if_older && read_is_stale c.readers event e
      then modify (set_event e.id (seen c.now)) >> return (skipped_row e)
      else do f ← content_for event given; settle_override event e (intended e f)

  abbrev pub instance_uid : Fields → Text
  instance_uid event =
      canonical_uid_for_instance c.readers.utc_instant o.parent_canonical
        (instance_original_start c.readers.in_zone event).0

  unfoldable pub ingest_found_instance : Fields → Option Content → Option Event → Action Db Outcome
  unfolding instance_original_start cancel_occurrence override_occurrence canonical_uid_for_instance
  ingest_found_instance event given found =
      let slot = instance_original_start c.readers.in_zone event in
      let uid = instance_uid event in
      if is_released_row found
      then return skipped
      else if status_is_cancelled event
      then cancel_occurrence event uid slot found
      else override_occurrence event given uid slot.0 found

  unfoldable pub ingest_instance : Fields → Option Content → Action Db Outcome
  unfolding ingest_found_instance event_by_uid canonical_uid_for_instance
  ingest_instance event given db =
      ingest_found_instance event given (event_by_uid c.user_id (instance_uid event) db) db

abbrev has_key : Fields → Text → Bool
has_key d k = is_some (get d k)

abbrev slot_field : Text × Bool → Fields
slot_field (start, true) = field (codes "date") (str start) end
slot_field (start, false) = field (codes "dateTime") (str start) end

-- The slot from the stamp, where the tombstone shows none.
unfoldable pub with_slot : Text → Fields → Fields
unfolding object_at stamp_to_original_start
with_slot stamp event =
    let ost = object_at event (codes "originalStartTime") in
    if has_key ost (codes "dateTime") || has_key ost (codes "date")
    then event
    else put event (codes "originalStartTime") (obj (slot_field (stamp_to_original_start stamp)))

abbrev pub is_live_parent : Option Event → Bool
is_live_parent none = false
is_live_parent (some e) = not (is_released e.status)

abbrev pub detached_occurrence : (Text → Text) → Source → Option ℕ → Fields → Text → Occurrence
detached_occurrence make_parent kind calendar event base = record {
  parent_canonical = make_parent base;
  source_type = kind;
  source_calendar_id = calendar;
  source_event_id = as_text (get event (codes "id"));
}

module _ (c : Reader) (make_parent : Text → Text) (kind : Source) (calendar : Option ℕ) where
  abbrev pub ingest_detached : Fields → Text × Text → Action Db (Option Outcome)
  ingest_detached event (base, stamp) db =
      if is_live_parent (event_by_uid c.user_id (make_parent base) db)
      then (ingest_instance c (detached_occurrence make_parent kind calendar event base)
              (with_slot stamp event) none
            >>= λ o. return (some o))
          db
      else (ok none, db)

  abbrev pub if_shaped : Fields → Option (Text × Text) → Action Db (Option Outcome)
  if_shaped event none = return none
  if_shaped event (some split) = ingest_detached event split

  unfoldable pub maybe_ingest_detached_cancellation : Fields → Action Db (Option Outcome)
  unfolding ingest_instance split_instance_shaped_id event_by_uid with_slot
  maybe_ingest_detached_cancellation event =
      if truthy_json (get event (codes "recurringEventId"))
      then return none
      else if_shaped event (split_instance_shaped_id (as_text (get event (codes "id"))))
