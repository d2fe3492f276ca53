-- ===== src/Examples/Reconciler.antt =====
-- app/ledger/reconciler.py: its theorems at a small database.
use busybridge.Planner.Targets.{resolve_targets}
use busybridge.Planner.Persist.{upsert_all, upsert_projection}
use busybridge.Planner.Desired.{compute_desired_projections}
use busybridge.Planner.Row.{active_client_calendars, join_row, get_ledger_row}
use busybridge.Diff.Select.{
  is_origin_writeback, diverged_projections, is_legacy_personal_source_target,
}
use busybridge.Outbox.Enqueue.{same_idem, enqueue}
use busybridge.Prelude.{
  ◌+◌, ◌≡◌, refl, true, false, none, some, List, [], ◌∷◌, map, length, find_first, codes, any,
  select,
}
use busybridge.Errors.{ok, ◌>>=◌}
use busybridge.Json.{end}
use busybridge.Ledger.{Affected, Db, done, absent_hash}
use busybridge.Google.{World}
use busybridge.Planner.Plan.{Context, targets_for, plan_for_ledger_event}
use busybridge.Diff.Decide.{Pass, decide}
use busybridge.Diff.Pass.{diff_and_enqueue_for_user}
use busybridge.Reconciler.Pause.{pause_mode}
use busybridge.Reconciler.Affected.{
  clear_affected_ledger_rows, read_affected_ledger_rows, ids_to_plan, delete_rows, plan_affected,
}
use busybridge.Reconciler.DryRun.{Preview, snapshot_dry_run_outbox, discard_dry_run_outbox}
use busybridge.Reconciler.DryPass.{has_distinct_ids, is_of_owner, discard_restores_outbox}
use busybridge.Reconciler.Reconcile.{Arguments, Ingest, blank_report, pass_for, reconcile_user}
use busybridge.Reconciler.Queue.{is_ascending, holds_id, is_queued, Planned, plan_affected_clears}
use busybridge.Triggers.Recorded.{distinct, record_affected_events, recorded_rows_survive}
use busybridge.Prelude.{◌++◌}
use busybridge.Reconciler.Frozen.{dry_run_of_paused_user}
use busybridge.Examples.Data.{empty_service, plain_setup, update_op, ledger, world}

abbrev clock : Pass
clock = record {
  user = 0;
  main_calendar_id = [];
  google_calendar_id_for = λ i. none;
  render_payload = λ state r p v kind main. ok (some end);
  derive_instance_id = λ parent start all_day. ok parent;
  now = 100;
  wall_clock = 101;
}

abbrev no_ingest : Ingest empty_service
no_ingest = record {
  ingest_client_calendar = λ c w. (ok end, w);
  ingest_personal_calendar = λ c w. (ok end, w);
  ingest_webcal_subscription = none;
  ingest_main_calendar = λ w. (ok end, w);
  discover_orphans = λ dry w. (ok end, w);
}

abbrev dry : Arguments
dry = record {
  user_id = 7;
  main_google_calendar_id = codes "main@x";
  client_calendars = record { id = 3; google_calendar_id = codes "work@x" } ∷ [];
  all_known_client_calendars = [];
  personal_calendars = [];
  webcal_subscriptions = [];
  include_main = true;
  drain = true;
  run_discovery = false;
  dry_run = true;
}

abbrev context : Context
context = record {
  hasher = λ state r kind. ok absent_hash;
  recurrence = record { occurrence_keys = λ r. none; occurrence_key = λ start all_day. none };
  settings = record { sync_personal_all_day_events = true; declined_events_free_slot = true };
  now = 100;
}

-- The user is paused, and the main copy's update is done.
abbrev paused_ledger : Db
paused_ledger = record ledger {
  operations = record update_op { status = done } ∷ [];
  paused_users = 7 ∷ [];
}

abbrev paused_world : World empty_service
paused_world = record world { db = paused_ledger }

discard_restores_outbox_example :
    let staged = (diff_and_enqueue_for_user (pass_for empty_service dry clock) paused_ledger).1 in
    (ps : List Preview) × (discard_dry_run_outbox 7 (snapshot_dry_run_outbox 7 paused_ledger) staged
      ≡ (ok ps, record staged { operations = record update_op { status = done } ∷ [] }))
unfolding find_first same_idem has_distinct_ids any is_of_owner pass_for
discard_restores_outbox_example =
    discard_restores_outbox (pass_for empty_service dry clock) paused_ledger
      (record { found_by_id = refl; found_by_key = refl; keyed = refl; can_load = refl }, tt) refl
      (refl, tt)

dry_run_of_paused_user_example :
    (ps : List Preview) × (reconcile_user empty_service plain_setup context no_ingest clock dry
        paused_world
      ≡ (
        ok (record (blank_report true) { enqueued = 0 + 2; preview_operations = some ps }),
        record paused_world {
          db =
              record (diff_and_enqueue_for_user
                (pass_for empty_service dry clock)
                paused_ledger).1 { operations = record update_op { status = done } ∷ [] };
        },
      ))
unfolding pause_mode any diff_and_enqueue_for_user select diverged_projections find_first pass_for
    join_row ◌>>=◌ decide is_legacy_personal_source_target is_origin_writeback enqueue same_idem
    has_distinct_ids is_of_owner
dry_run_of_paused_user_example =
    dry_run_of_paused_user empty_service plain_setup context no_ingest clock dry paused_world _ 2
      refl refl refl
      (record { found_by_id = refl; found_by_key = refl; keyed = refl; can_load = refl }, tt) refl
      (refl, tt)

-- Two entries of the user's for one event, and one of another user's.
abbrev queue : List Affected
queue =
    record { id = 1; user_id = 7; ledger_event_id = 1 }
    ∷ record { id = 2; user_id = 8; ledger_event_id = 5 }
    ∷ record { id = 3; user_id = 7; ledger_event_id = 1 }
    ∷ []

abbrev queued : Db
queued = record ledger { affected = queue }

plan_affected_clears_example :
    let rows = read_affected_ledger_rows 7 queued in
    let ids = ids_to_plan rows in
    (is_ascending ids ≡ true)
    × (holds_id ids 1 ≡ any (is_queued 7 1) queue)
    × (1 ≡ length ids)
    × (t : Db) × Planned context ids queued t
    × ((plan_affected context 7 queued).1
        ≡ record t { affected = delete_rows (map (λ a. a.id) rows) queue })
unfolding plan_affected ◌>>=◌ select plan_for_ledger_event get_ledger_row find_first targets_for
    compute_desired_projections upsert_all resolve_targets upsert_projection active_client_calendars
plan_affected_clears_example = plan_affected_clears context 7 1 queued _ 1 refl

recorded_rows_survive_example :
    (news : List Affected) × (map (λ a. a.ledger_event_id) news ≡ distinct (5 ∷ 6 ∷ 5 ∷ []))
    × ((clear_affected_ledger_rows
          (1 ∷ 3 ∷ [])
          (record_affected_events 3 8 (5 ∷ 6 ∷ 5 ∷ []) queued)).affected
        ≡ delete_rows (1 ∷ 3 ∷ []) queue ++ news)
unfolding read_affected_ledger_rows select
recorded_rows_survive_example = recorded_rows_survive 3 7 8 (5 ∷ 6 ∷ 5 ∷ []) queued
