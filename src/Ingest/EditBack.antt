-- ===== src/Ingest/EditBack.antt =====
-- app/ledger/ingest/main.py: `_maybe_apply_main_edit_back`, what an edit of a managed copy on the main
-- calendar leads to.
use busybridge.Prelude.{
  ℕ, Bool, true, false, not, ◌&&◌, ◌||◌, Option, none, some, [], ◌==◌, if◌then◌else◌, find_first,
  update_where, is_some, get_or, Text, text_eq, codes, or_text,
}
use busybridge.Errors.{Result, ok, raise, Action, ◌>>=◌, ◌>>◌, return, lift, modify}
use busybridge.Json.{Fields, end, get, object_at, as_text}
use busybridge.Ledger.{Event, Projection, Db, is_client_source, to_a_client}
use busybridge.Outbox.Record.{set_event}
use busybridge.Planner.Row.{join_row}
use busybridge.Payload.Strip.{strip_full_copy_metadata}
use busybridge.Ingest.Fields.{normalise_owned_emails, answer_in, canonical_instant}
use busybridge.Ingest.Conference.{same_id}
use busybridge.Ingest.MainEdits.{MainReader, main_projection_of, touched, unconverge}

-- The tuple of _extract_start_end.
pub record Times : Type 0 where
  pub start : Option Text
  pub finish : Option Text
  pub start_timezone : Option Text
  pub end_timezone : Option Text
  pub all_day : Option Bool

abbrev times_in : Fields → Fields → Times
times_in s f =
    if is_some (get s (codes "date"))
    then record {
      start = as_text (get s (codes "date"));
      finish = as_text (get f (codes "date"));
      start_timezone = none;
      end_timezone = none;
      all_day = some true;
    }
    else if is_some (get s (codes "dateTime"))
    then record {
      start = as_text (get s (codes "dateTime"));
      finish = as_text (get f (codes "dateTime"));
      start_timezone = as_text (get s (codes "timeZone"));
      end_timezone = as_text (get f (codes "timeZone"));
      all_day = some false;
    }
    else record {
      start = none;
      finish = none;
      start_timezone = none;
      end_timezone = none;
      all_day = none;
    }

unfoldable pub extract_start_end : Fields → Times
unfolding object_at
extract_start_end event = times_in (object_at event (codes "start")) (object_at event (codes "end"))

abbrev text_in : Fields → Text → Text
text_in d k = or_text (as_text (get d k)) []

unfoldable pub detail_differs : Fields → Fields → Bool
detail_differs event canonical =
    not (text_eq (text_in event (codes "summary")) (text_in canonical (codes "summary")))
    || (not
          (text_eq (text_in event (codes "description")) (text_in canonical (codes "description")))
        || not (text_eq (text_in event (codes "location")) (text_in canonical (codes "location"))))

-- Which categories of an edit go back to the source.
pub record Edit : Type 0 where
  pub rsvp : Bool
  pub time : Bool
  pub detail : Bool

abbrev pub is_any : Edit → Bool
is_any x = x.rsvp || (x.time || x.detail)

-- Of a changed category, whether it applies: only an event of a client, and time and detail only where
-- the user can edit it.
unfoldable pub applicable : Event → Edit → Edit
applicable e changed = record {
  rsvp = changed.rsvp && is_client_source e.source_type;
  time = changed.time && (e.user_can_edit && is_client_source e.source_type);
  detail = changed.detail && (e.user_can_edit && is_client_source e.source_type);
}

abbrev coalesced : {A : Type 0} → Bool → Option A → Option A → Option A
coalesced true (some a) old = some a
coalesced _ _ old = old

abbrev chosen : {A : Type 0} → Bool → A → A → A
chosen true new old = new
chosen false new old = old

module _ (c : MainReader) (event : Fields) where
  abbrev utc : Option Text → Bool → Option Text
  utc = canonical_instant c.reader.readers.utc_instant

  unfoldable pub changes : Option Text → Fields → Event → Edit
  unfolding canonical_instant extract_start_end detail_differs
  changes answer canonical e =
      let t = extract_start_end event in
      let all_day = get_or t.all_day false in
      record {
        rsvp = is_some answer && not (same_id answer e.user_rsvp_status);
        time =
            is_some t.start
            && (not (same_id (utc t.start all_day) (utc e.start_at e.is_all_day))
                || not (same_id (utc t.finish all_day) (utc e.end_at e.is_all_day)));
        detail = detail_differs event canonical;
      }

  -- The columns of the UPDATE.
  unfoldable pub edited_row : Edit → Option Text → Event → Event
  unfolding touched extract_start_end strip_full_copy_metadata
  edited_row x answer e =
      let t = extract_start_end event in
      record (touched c.reader.now e) {
        user_rsvp_status = coalesced x.rsvp answer e.user_rsvp_status;
        start_at = coalesced x.time t.start e.start_at;
        end_at = coalesced x.time t.finish e.end_at;
        start_timezone = chosen x.time t.start_timezone e.start_timezone;
        end_timezone = chosen x.time t.end_timezone e.end_timezone;
        is_all_day = chosen x.time (get_or t.all_day e.is_all_day) e.is_all_day;
        summary = chosen x.detail (as_text (get event (codes "summary"))) e.summary;
        description =
            chosen x.detail
              (strip_full_copy_metadata c.style (as_text (get event (codes "description"))))
              e.description;
        location = chosen x.detail (as_text (get event (codes "location"))) e.location;
        origin_writeback_pending = is_any x || e.origin_writeback_pending;
      }

  abbrev same_calendar : Option ℕ → Option ℕ → Bool
  same_calendar (some a) (some b) = a == b
  same_calendar _ _ = false

  unfoldable pub is_redelivered : Bool → Event → Projection → Bool
  is_redelivered propagating e p =
      p.ledger_event_id == e.id
      && (not (to_a_client p.target_kind)
          || (propagating
              && (to_a_client p.target_kind
                  && same_calendar p.target_calendar_id e.source_calendar_id)))

  unfoldable pub carry_edit : Edit → Option Text → Event → Db → Db
  unfolding edited_row is_redelivered
  carry_edit x answer e db = record (set_event e.id (edited_row x answer) db) {
    projections =
        update_where (is_redelivered (is_any x) e) (unconverge c.reader.now) db.projections;
  }

  abbrev rendered_as : Result (Option Fields) → Result Fields
  rendered_as (raise x) = raise x
  rendered_as (ok none) = ok end
  rendered_as (ok (some d)) = ok d

  abbrev pub canonical_of : Event → Db → Option Projection → Result Fields
  canonical_of e db none = ok end
  canonical_of e db (some p) = rendered_as (c.render p.desired_state (join_row db e))

  abbrev pub main_of : ℕ → Db → Option Projection
  main_of i db =
      find_first (λ p. main_projection_of i p && not (is_some p.target_calendar_id)) db.projections

  abbrev pub new_answer : Result (Option Text)
  new_answer =
      answer_in c.reader.readers.lower
        (normalise_owned_emails c.reader.readers.lower c.reader.user_email c.reader.owned_emails)
        (get event (codes "attendees"))

  unfoldable pub settle_edit : Edit → Option Text → Event → Action Db Text
  unfolding applicable carry_edit
  settle_edit changed answer e =
      let x = applicable e changed in
      if is_any changed
      then modify (carry_edit x answer e)
        >> return (if is_any x then codes "main_edit_propagated" else codes "main_drift_reverted")
      else return (codes "our_writes_skipped")

  unfoldable pub maybe_apply_main_edit_back : Event → Action Db Text
  unfolding main_projection_of changes settle_edit join_row normalise_owned_emails
  maybe_apply_main_edit_back e = do
    canonical ← λ db. (canonical_of e db (main_of e.id db), db)
    answer ← lift new_answer
    settle_edit (changes answer canonical e) answer e
