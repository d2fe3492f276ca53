-- ===== src/Ingest/Personal.antt =====
-- app/ledger/ingest/personal.py: `_ingest_one`, for a calendar that the engine never writes to.
use busybridge.Prelude.{ℕ, ◌||◌, Option, none, some, ◌∷◌, ◌==◌, if◌then◌else◌, Text, codes, is_some}
use busybridge.Errors.{ok, Action, ◌>>=◌, ◌>>◌, return, lift, modify}
use busybridge.Json.{Fields, get, as_text}
use busybridge.Ledger.{Event, Db, personal, is_cancelled}
use busybridge.Outbox.Record.{set_event}
use busybridge.Identity.EventId.{is_managed_google_event_id}
use busybridge.Identity.Canonical.{canonical_uid_personal}
use busybridge.Ingest.Fields.{Content, content_of_row}
use busybridge.Ingest.Rows.{
  Reader, extract, hash_of, event_by_uid, mark_cancelled, insert_ledger_row, with_content,
  with_source, bumped, seen,
}
use busybridge.Ingest.Instance.{
  Outcome, skipped, skipped_row, status_is_cancelled, is_released_row, ingest_instance,
  maybe_ingest_detached_cancellation,
}
use busybridge.Ingest.Client.{projection_match, or_key_error, or_skipped}

-- The columns of the UPDATE: the candidate for the call's link is left as it is.
unfoldable pub personal_row : Reader → Fields → Content → Event → Event
unfolding with_content with_source bumped
personal_row c event f e = bumped c.now (with_content f (with_source event e))

module _ (c : Reader) (calendar : ℕ) where
  -- The comparison and the UPDATE. Only a changed row is set active.
  unfoldable pub update_personal : Fields → Event → Action Db Outcome
  unfolding extract content_of_row personal_row seen
  update_personal event e = do
    f ← lift (extract c event)
    if hash_of c f == hash_of c (content_of_row e)
        then modify (set_event e.id (seen c.now)) >> return (skipped_row e)
        else modify (set_event e.id (personal_row c event f)) >> return (codes "updated", some e.id)

  unfoldable pub ingest_top_level : Text → Fields → Option Event → Action Db Outcome
  unfolding canonical_uid_personal maybe_ingest_detached_cancellation mark_cancelled
      insert_ledger_row update_personal
  ingest_top_level i event none =
      if status_is_cancelled event
      then maybe_ingest_detached_cancellation c (canonical_uid_personal calendar) personal
          (some calendar) event
        >>= (λ o. return (or_skipped o))
      else insert_ledger_row c personal (canonical_uid_personal calendar i) calendar event i
        >>= (λ new. return (codes "created", some new))
  ingest_top_level i event (some e) =
      if is_released_row (some e)
      then return skipped
      else if status_is_cancelled event
      then (if is_cancelled e.status
          then return (skipped_row e)
          else modify (mark_cancelled c.now e.id) >> return (codes "cancelled", some e.id))
      else update_personal event e

  abbrev pub by_series : Text → Fields → Option Text → Action Db Outcome
  by_series i event (some (s ∷ series)) db =
      ingest_instance c
        (record {
          parent_canonical = canonical_uid_personal calendar (s ∷ series);
          source_type = personal;
          source_calendar_id = some calendar;
          source_event_id = some i;
        })
        event none db
  by_series i event _ db =
      ingest_top_level i event (event_by_uid c.user_id (canonical_uid_personal calendar i) db) db

  abbrev pub unless_ours : Text → Fields → Action Db Outcome
  unless_ours i event db =
      if is_managed_google_event_id (some i) || is_some (projection_match i db)
      then (ok skipped, db)
      else by_series i event (as_text (get event (codes "recurringEventId"))) db

  -- An ingest of personal calendars is never told to skip older reads.
  unfoldable pub ingest_one : Fields → Action Db Outcome
  unfolding ingest_top_level ingest_instance is_managed_google_event_id projection_match
      event_by_uid canonical_uid_personal
  ingest_one event = do
    i ← lift (or_key_error (as_text (get event (codes "id"))))
    unless_ours i event
