-- ===== src/Ingest/Client.antt =====
-- app/ledger/ingest/client.py: `_ingest_one_event`, what it does with the engine's own copies, and
-- `_is_recurring_parent`.
use busybridge.Prelude.{
  ℕ, Bool, true, false, ◌&&◌, ◌||◌, not, Option, none, some, List, [], ◌∷◌, ◌++◌, if◌then◌else◌,
  Text, text_eq, codes, is_some, find_first,
}
use busybridge.Errors.{Result, ok, raise, other_error, Action, ◌>>=◌, ◌>>◌, return, lift, modify}
use busybridge.Json.{Fields, get, as_text, truthy_json}
use busybridge.Ledger.{Event, Projection, Db, client, gone, is_absent, is_cancelled}
use busybridge.Outbox.Record.{set_projection}
use busybridge.Identity.EventId.{is_managed_google_event_id}
use busybridge.Identity.Canonical.{canonical_uid_client}
use busybridge.Ingest.Instant.{split_instance_shaped_id}
use busybridge.Ingest.Rows.{
  Reader, event_by_uid, mark_cancelled, apply_event_to_ledger, insert_ledger_row,
}
use busybridge.Ingest.Instance.{
  Outcome, Occurrence, skipped, skipped_row, status_is_cancelled, is_released_row, ingest_instance,
  maybe_ingest_detached_cancellation,
}

unfoldable pub is_recurring_parent : Fields → Bool
unfolding is_managed_google_event_id
is_recurring_parent event =
    truthy_json (get event (codes "recurrence"))
    && (not (truthy_json (get event (codes "recurringEventId")))
        && (not (status_is_cancelled event)
            && not (is_managed_google_event_id (as_text (get event (codes "id"))))))

abbrev pub is_that : Text → Option Text → Bool
is_that i none = false
is_that i (some j) = text_eq j i

abbrev has_google_id : Text → Projection → Bool
has_google_id i p = is_that i p.google_event_id

-- SELECT … FROM ledger_projections WHERE google_event_id = ? LIMIT 1
unfoldable pub projection_match : Text → Db → Option Projection
projection_match i db = find_first (has_google_id i) db.projections

-- A deleted copy: nothing of it is there any more.
unfoldable pub reset_copy : Projection → Projection
reset_copy p = record p {
  current_state = gone;
  google_event_id = none;
  google_etag = none;
  applied_ledger_version = none;
  applied_payload_hash = none;
}

unfoldable pub reassert : Text → Projection → Projection
reassert etag p = record p { applied_ledger_version = none; google_etag = some etag }

abbrev pub drifted : Projection → Option Text → Option Text → Db → Db
drifted p (some (a ∷ etag)) (some (b ∷ stored)) db =
    if text_eq (a ∷ etag) (b ∷ stored) then db else set_projection p.id (reassert (a ∷ etag)) db
drifted p etag stored db = db

unfoldable pub maybe_revert_client_drift : Projection → Fields → Db → Db
unfolding reset_copy reassert
maybe_revert_client_drift p event db =
    if status_is_cancelled event
    then (if is_absent p.desired_state then db else set_projection p.id reset_copy db)
    else drifted p (as_text (get event (codes "etag"))) p.google_etag db

unfoldable pub is_series_of_ours : Db → Text → Bool
unfolding is_managed_google_event_id projection_match
is_series_of_ours db base =
    is_managed_google_event_id (some base) || is_some (projection_match base db)

abbrev pub named_series : Option Text → List Text
named_series none = []
named_series (some []) = []
named_series (some (c ∷ s)) = (c ∷ s) ∷ []

abbrev pub shaped_series : Option (Text × Text) → List Text
shaped_series none = []
shaped_series (some (base, stamp)) = base ∷ []

-- The candidates; one that stands there twice is looked up once in the source.
unfoldable pub managed_series_instance_base : Fields → Db → Option Text
unfolding is_series_of_ours split_instance_shaped_id
managed_series_instance_base event db = find_first (is_series_of_ours db) (
    named_series (as_text (get event (codes "recurringEventId")))
    ++ shaped_series (split_instance_shaped_id (as_text (get event (codes "id")))))

abbrev pub or_key_error : Option Text → Result Text
or_key_error none = raise (other_error (codes "KeyError"))
or_key_error (some i) = ok i

abbrev pub or_skipped : Option Outcome → Outcome
or_skipped none = skipped
or_skipped (some o) = o

abbrev pub changed_word : Bool → Text
changed_word true = codes "updated"
changed_word false = codes "skipped"

abbrev pub series_occurrence : ℕ → Text → Text → Occurrence
series_occurrence calendar i series = record {
  parent_canonical = canonical_uid_client calendar series;
  source_type = client;
  source_calendar_id = some calendar;
  source_event_id = some i;
}

module _ (c : Reader) (calendar : ℕ) where
  -- A top-level event, whose row is `found`.
  unfoldable pub ingest_top_level : Text → Fields → Option Event → Action Db Outcome
  unfolding canonical_uid_client maybe_ingest_detached_cancellation mark_cancelled
      apply_event_to_ledger insert_ledger_row
  ingest_top_level i event none =
      if status_is_cancelled event
      then maybe_ingest_detached_cancellation c (canonical_uid_client calendar) client
          (some calendar) event
        >>= (λ o. return (or_skipped o))
      else insert_ledger_row c client (canonical_uid_client calendar i) calendar event i
        >>= (λ new. return (codes "created", some new))
  ingest_top_level i event (some e) =
      if is_released_row (some e)
      then return skipped
      else if status_is_cancelled event
      then (if is_cancelled e.status
          then return (skipped_row e)
          else modify (mark_cancelled c.now e.id) >> return (codes "cancelled", some e.id))
      else apply_event_to_ledger c e.id event
        >>= (λ changed. return (changed_word changed, some e.id))

  abbrev pub by_series : Text → Fields → Option Text → Action Db Outcome
  by_series i event (some (s ∷ series)) db =
      ingest_instance c (series_occurrence calendar i (s ∷ series)) event none db
  by_series i event _ db =
      ingest_top_level i event (event_by_uid c.user_id (canonical_uid_client calendar i) db) db

  abbrev pub unless_tampered : Text → Fields → Option Text → Action Db Outcome
  unless_tampered i event (some base) = return (codes "tampered_managed_instance", none)
  unless_tampered i event none = by_series i event (as_text (get event (codes "recurringEventId")))

  abbrev pub unless_ours : Text → Fields → Option Projection → Action Db Outcome
  unless_ours i event (some p) db = (ok skipped, maybe_revert_client_drift p event db)
  unless_ours i event none db =
      if is_managed_google_event_id (some i)
      then (ok skipped, db)
      else unless_tampered i event (managed_series_instance_base event db) db

  unfoldable pub ingest_one_event : Fields → Action Db Outcome
  unfolding ingest_top_level ingest_instance managed_series_instance_base event_by_uid
      canonical_uid_client maybe_revert_client_drift projection_match is_managed_google_event_id
  ingest_one_event event = do
    i ← lift (or_key_error (as_text (get event (codes "id"))))
    λ db. unless_ours i event (projection_match i db) db
