-- ===== src/Examples/Ingest.antt =====
-- app/ledger/ingest: its theorems at a small ledger.
use busybridge.Prelude.{
  ◌≤◌, ℕ, ◌≡◌, refl, true, false, none, some, inl, inr, [], ◌∷◌, length, find_first, codes,
  get_elem?, Text, suc, arith, ◌==◌, Option, any, starts_with, text_eq,
}
use busybridge.Errors.{ok, raise, Action, return, ◌>>=◌}
use busybridge.Json.{Fields, end, field, str, obj, is_text, get, as_text, truthy_json}
use busybridge.Ledger.{Event, Db, cancelled, personal}
use busybridge.Google.{GoogleClient, World}
use busybridge.Ingest.Fields.{Hashable, content_of_row, content_hash}
use busybridge.Ingest.Rows.{Reader, extract, apply_event_to_ledger}
use busybridge.Ingest.Instance.{Outcome, skipped_row}
use busybridge.Ingest.Instant.{
  split_instance_shaped_id, stamp_to_original_start, all_digits, is_date,
}
use busybridge.Ingest.Client.{ingest_one_event, is_series_of_ours}
use busybridge.Ingest.Personal
use busybridge.Ingest.Gather.{Gathered}
use busybridge.Ingest.Pass.{scanned, ingest_client_calendar}
use busybridge.Ingest.PassRows.{Successor, pass_keeps_rows}
use busybridge.Ingest.Stamps.{split-derived}
use busybridge.Ingest.Settling.{third_reading_is_quiet}
use busybridge.Ingest.OwnCopies.{own_copy_mints_nothing}
use busybridge.Ingest.Scans.{refused_scan_holds_token}
use busybridge.Ingest.Restored.{personal_restored_stays_cancelled}
use busybridge.Ingest.MainEdits.{MainReader}
use busybridge.Ingest.Main.{matched_event, ingest_one_main_event, ours_skipped}
use busybridge.Ingest.SourceSafety.{OnlyBumped, read_only_source_is_safe}
use busybridge.Ingest.Arming.{deletes, no_delete_at_source}
use busybridge.Identity.EventId.{derive_instance_google_event_id}
use busybridge.Examples.Data.{refused, empty_service, meeting, ledger}

abbrev summary_length : Hashable → ℕ
summary_length h = elim h.summary [ none ↦ 0 | some s ↦ length s ]

abbrev reader : Reader
reader = record {
  readers = record {
    lower = λ s. s;
    digest = summary_length;
    utc_instant = λ s. some s;
    parse_instant = λ s. none;
    in_zone = λ zone s. none;
  };
  now = 100;
  user_id = 7;
  user_email = codes "me@x";
  owned_emails = [];
  skip_if_older = false;
}

-- The meeting under a longer name, with the user's old answer.
abbrev renamed : Fields
renamed = field (codes "id") (str (codes "m")) (
    field (codes "summary") (str (codes "A longer meeting")) (
      field (codes "conferenceData") (obj (field (codes "conferenceId") (str (codes "room")) end))
        end))

-- A service that lists the renamed meeting, and no instances.
abbrev renaming_service : GoogleClient
renaming_service = record empty_service {
  list_events = λ cal l n. (
    ok (record {
      items = renamed ∷ [];
      next_page_token = none;
      next_sync_token = some (codes "t");
    }),
    suc n,
  );
  list_instances = λ cal i l n. (raise (refused 500), suc n);
}

abbrev at_start : World renaming_service
at_start = record { db = ledger; google = 0 }

pass_keeps_rows_example :
    (y : Event) × (get_elem?
        (ingest_client_calendar renaming_service 3 0 reader 3 (codes "work@x") at_start).1.db.events
        0
      ≡ some y)
    × Successor meeting y
unfolding find_first
pass_keeps_rows_example =
    pass_keeps_rows renaming_service 3 0 reader 3 (codes "work@x") at_start 0 meeting (refl, tt)
      refl

third_reading_is_quiet_example :
    let after = λ (d : Db). (apply_event_to_ledger reader 1 renamed d).1 in
    (y : Event) × (z : Event) × (find_first (λ x. x.id == 1) (after (after ledger)).events ≡ some y)
    × (find_first (λ x. x.id == 1) (after (after (after ledger))).events ≡ some z)
    × (y.version ≤ 4)
    × ((apply_event_to_ledger reader 1 renamed (after (after ledger))).0 ≡ ok false)
    × (z ≡ record y {
      last_seen_at = z.last_seen_at;
      pending_conference_id = z.pending_conference_id;
    })
unfolding extract get text_eq truthy_json find_first
third_reading_is_quiet_example = third_reading_is_quiet reader renamed _ 1 meeting ledger refl refl

split-derived_example :
    (split_instance_shaped_id (
        some
          (derive_instance_google_event_id (λ s. none) (codes "series") (codes "2024-02-29") true))
      ≡ some (codes "series", codes "20240229"))
    × (stamp_to_original_start (codes "20240229") ≡ (codes "2024-02-29", true))
unfolding all_digits is_date
split-derived_example =
    split-derived b'2' b'0' b'2' b'4' b'0' b'2' b'2' b'9' (λ s. none) b's' (codes "eries") true refl
      refl

-- A deleted copy of the engine's own, and an occurrence of it.
abbrev tampered : Fields
tampered = field (codes "id") (str (codes "bb00000000000ck_20260310")) (
    field (codes "recurringEventId") (str (codes "bb00000000000ck"))
      (field (codes "status") (str (codes "cancelled")) end))

own_copy_mints_nothing_example :
    (ingest_one_event reader 3 tampered ledger).1.events ≡ ledger.events
unfolding is_series_of_ours as_text get text_eq starts_with
own_copy_mints_nothing_example =
    own_copy_mints_nothing reader 3 tampered (codes "bb00000000000ck_20260310") ledger refl
      (inr (codes "bb00000000000ck", refl, (λ h. ground arith), refl))

abbrev full : Gathered
full = record { counters = []; affected = []; parents = codes "series" ∷ []; full_sync = true }

abbrev held : Gathered × Option Text
held = (full, none)

refused_scan_holds_token_example : held.1 ≡ none
unfolding scanned any text_eq ◌>>=◌
refused_scan_holds_token_example =
    refused_scan_holds_token renaming_service (ingest_one_event reader 3) (codes "work@x") 2
      (codes "series") full (some (codes "t")) at_start (record { db = ledger; google = 1 }) held
      (λ l n. (refused 500, suc n, refl)) refl refl refl

abbrev gone_meeting : Event
gone_meeting = record meeting { status = cancelled }

abbrev with_gone : Db
with_gone = record ledger { events = gone_meeting ∷ [] }

abbrev back : Fields
back = field (codes "id") (str (codes "m")) (field (codes "summary") (str (codes "Meeting")) end)

personal_restored_stays_cancelled_example :
    let out = Personal.ingest_top_level reader 3 (codes "m") back (some gone_meeting) with_gone in
    (out.0 ≡ ok (skipped_row gone_meeting))
    × ((y : Event) × (find_first (λ x. x.id == 1) out.1.events ≡ some y) × (y.status ≡ cancelled))
unfolding extract content_hash content_of_row is_text get text_eq truthy_json as_text find_first
personal_restored_stays_cancelled_example =
    personal_restored_stays_cancelled reader 3 (codes "m") back _ gone_meeting with_gone refl refl
      refl refl refl

abbrev main_reader : MainReader
main_reader = record {
  reader = reader;
  style = record {
    managed_event_prefix = codes "[BB]";
    busy_block_title = codes "Busy";
    personal_busy_block_title = codes "Busy";
    declined_events_free_slot = true;
  };
  render = λ state row. ok none;
  covers = λ series start all_day. none;
  is_finite = λ series. false;
  strip_r_suffix = λ i. i;
  propagates_deletes = false;
}

abbrev private_meeting : Event
private_meeting = record meeting { source_type = personal }

abbrev private_ledger : Db
private_ledger = record ledger { events = private_meeting ∷ [] }

abbrev skip_instance : Fields → Text → Action Db Outcome
skip_instance event series = return ours_skipped

-- The copy of the meeting, with another title.
abbrev renamed_copy : Fields
renamed_copy =
    field (codes "id") (str (codes "bb1"))
      (field (codes "summary") (str (codes "A longer meeting")) end)

abbrev deleted_copy : Fields
deleted_copy =
    field (codes "id") (str (codes "bb1")) (field (codes "status") (str (codes "cancelled")) end)

read_only_source_is_safe_example :
    OnlyBumped 100 private_meeting private_ledger
      (ingest_one_main_event main_reader skip_instance renamed_copy private_ledger).1
unfolding matched_event as_text get text_eq find_first
read_only_source_is_safe_example =
    read_only_source_is_safe main_reader skip_instance renamed_copy (codes "bb1") private_meeting
      private_ledger refl refl refl

-- The deleted copy of a meeting that the user organises, while the setting is off.
no_delete_at_source_example :
    deletes (ingest_one_main_event main_reader skip_instance deleted_copy ledger).1 ≡ deletes ledger
unfolding matched_event as_text get text_eq find_first
no_delete_at_source_example =
    no_delete_at_source main_reader skip_instance deleted_copy (codes "bb1") meeting ledger refl
      refl (inr (inl refl))
