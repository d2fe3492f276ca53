-- ===== src/Ingest/Main.antt =====
-- app/ledger/ingest/main.py: `_ingest_one_main_event`. An occurrence of a managed series
-- (`_ingest_managed_recurring_instance`) is taken as an argument.
use busybridge.Prelude.{
  ℕ, Bool, false, ◌&&◌, ◌||◌, Option, none, some, ◌∷◌, ◌==◌, if◌then◌else◌, find_first, is_some,
  truthy, Text, codes,
}
use busybridge.Errors.{Result, ok, Action, ◌>>=◌, ◌>>◌, return, lift, modify}
use busybridge.Json.{Fields, get, as_text}
use busybridge.Ledger.{
  Event, Projection, Db, main_native, is_active, is_cancelled, is_client_source, is_personal,
  is_webcal,
}
use busybridge.Outbox.Record.{set_event}
use busybridge.Identity.EventId.{is_managed_google_event_id}
use busybridge.Identity.Canonical.{canonical_uid_main_native}
use busybridge.Ingest.Fields.{content_of_row}
use busybridge.Ingest.Rows.{
  extract, hash_of, event_by_uid, blank_row, insert_event_row, new_row, mark_cancelled, seen,
}
use busybridge.Ingest.Instance.{
  Outcome, Occurrence, skipped, skipped_row, status_is_cancelled, is_released, is_released_row,
  ingest_instance, maybe_ingest_detached_cancellation,
}
use busybridge.Ingest.Client.{is_that, or_key_error, or_skipped}
use busybridge.Ingest.Personal.{personal_row}
use busybridge.Ingest.MainEdits.{
  MainReader, is_true, mark_main_drift_reverted, mark_user_intentionally_deleted,
  maybe_arm_organizer_source_delete, live_instance_delete_covered_by_series,
  managed_instance_orphaned_by_split,
}
use busybridge.Ingest.EditBack.{maybe_apply_main_edit_back}

abbrev pub reported : Text → Event → Outcome
reported word e = (word, some e.id)

abbrev pub ours_skipped : Outcome
ours_skipped = (codes "our_writes_skipped", none)

abbrev event_of : Db → Projection → Option Event
event_of db p = find_first (λ e. e.id == p.ledger_event_id) db.events

abbrev is_users : ℕ → Option Event → Bool
is_users user none = false
is_users user (some e) = e.user_id == user

abbrev then_event : Db → Option Projection → Option Event
then_event db none = none
then_event db (some p) = event_of db p

-- The event of a projection that holds the id, by the JOIN.
unfoldable pub matched_event : ℕ → Text → Db → Option Event
matched_event user i db =
    then_event db (
      find_first (λ p. is_that i p.google_event_id && is_users user (event_of db p)) db.projections)

module _ (c : MainReader) where
  abbrev pub reverts : Event → Db → Result Outcome × Db
  reverts e db =
      (ok (reported (codes "main_drift_reverted") e), mark_main_drift_reverted c.reader.now e.id db)

  abbrev pub cancels : Text → Event → Db → Result Outcome × Db
  cancels word e db = (ok (reported word e), mark_cancelled c.reader.now e.id db)

  -- A deleted occurrence of a managed copy: a live one of a client is cancelled only if its series
  -- still has its slot.
  unfoldable pub occurrence_deleted : Event → Option Bool → Db → Result Outcome × Db
  unfolding mark_main_drift_reverted mark_cancelled
  occurrence_deleted e covers db =
      if is_active e.status && is_client_source e.source_type
      then (if is_true covers then cancels (codes "cancelled_instance") e db else reverts e db)
      else cancels (codes "cancelled_instance") e db

  -- A managed copy of the event e was deleted on the main calendar.
  unfoldable pub copy_deleted : Event → Action Db Outcome
  unfolding occurrence_deleted live_instance_delete_covered_by_series mark_main_drift_reverted
      mark_user_intentionally_deleted maybe_arm_organizer_source_delete
  copy_deleted e db =
      if is_personal e.source_type || is_webcal e.source_type
      then reverts e db
      else if truthy e.parent_canonical_uid
      then occurrence_deleted e (live_instance_delete_covered_by_series c e db) db
      else (
        ok (reported (codes "user_deletes") e),
        maybe_arm_organizer_source_delete c.propagates_deletes e
            (mark_user_intentionally_deleted c.reader.now e.id db),
      )

  unfoldable pub copy_edited : Fields → Event → Action Db Outcome
  unfolding mark_cancelled
  copy_edited event e db =
      if managed_instance_orphaned_by_split c e db
      then cancels (codes "main_drift_reverted") e db
      else (maybe_apply_main_edit_back c event e >>= λ word. return (reported word e)) db

  unfoldable pub ingest_copy : Fields → Option Event → Action Db Outcome
  unfolding copy_deleted copy_edited
  ingest_copy event none = return ours_skipped
  ingest_copy event (some e) =
      if is_released e.status
      then return ours_skipped
      else if status_is_cancelled event
      then copy_deleted e
      else copy_edited event e

  abbrev native_uid : Text → Text
  native_uid i = canonical_uid_main_native c.reader.user_id i

  abbrev update_native : Fields → Event → Action Db Outcome
  update_native event e = do
    f ← lift (extract c.reader event)
    if hash_of c.reader f == hash_of c.reader (content_of_row e)
        then modify (set_event e.id (seen c.reader.now)) >> return (skipped_row e)
        else modify (set_event e.id (personal_row c.reader event f))
          >> return (reported (codes "native_updated") e)

  abbrev insert_native : Text → Fields → Action Db Outcome
  insert_native i event = do
    f ← lift (extract c.reader event)
    new ← insert_event_row (λ n.
        new_row c.reader.now event f
          (blank_row n c.reader.user_id (native_uid i) none main_native none (some i)))
    return (codes "native_created", some new)

  unfoldable pub ingest_native : Text → Fields → Option Event → Action Db Outcome
  unfolding extract content_of_row seen personal_row insert_event_row new_row blank_row
      canonical_uid_main_native maybe_ingest_detached_cancellation mark_cancelled
  ingest_native i event none =
      if status_is_cancelled event
      then maybe_ingest_detached_cancellation c.reader native_uid main_native none event
        >>= (λ o. return (or_skipped o))
      else insert_native i event
  ingest_native i event (some e) =
      if is_released_row (some e)
      then return skipped
      else if status_is_cancelled event
      then (if is_cancelled e.status
          then return (skipped_row e)
          else (λ db. cancels (codes "cancelled_native") e db))
      else update_native event e

  abbrev native_occurrence : Text → Text → Occurrence
  native_occurrence i series = record {
    parent_canonical = native_uid series;
    source_type = main_native;
    source_calendar_id = none;
    source_event_id = some i;
  }

module _ (c : MainReader) (managed_instance : Fields → Text → Action Db Outcome) where
  abbrev by_series : Text → Fields → Option Text → Action Db Outcome
  by_series i event (some (s ∷ series)) =
      if is_managed_google_event_id (some (s ∷ series))
      then managed_instance event (s ∷ series)
      else ingest_instance c.reader (native_occurrence c i (s ∷ series)) event none
  by_series i event _ =
      λ db. ingest_native c i event (event_by_uid c.reader.user_id (native_uid c i) db) db

  unfoldable pub ingest_by_id : Text → Fields → Option Event → Action Db Outcome
  unfolding managed_instance_orphaned_by_split maybe_apply_main_edit_back ingest_copy ingest_native
      ingest_instance event_by_uid is_managed_google_event_id canonical_uid_main_native
  ingest_by_id i event found =
      if is_some found || is_managed_google_event_id (some i)
      then ingest_copy c event found
      else by_series i event (as_text (get event (codes "recurringEventId")))

  unfoldable pub ingest_one_main_event : Fields → Action Db Outcome
  unfolding ingest_by_id matched_event
  ingest_one_main_event event = do
    i ← lift (or_key_error (as_text (get event (codes "id"))))
    λ db. ingest_by_id i event (matched_event c.reader.user_id i db) db
