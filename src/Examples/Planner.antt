-- ===== src/Examples/Planner.antt =====
-- app/ledger/planner.py: its theorems at concrete rows.
use busybridge.Prelude.{
  ℕ, ◌≡◌, refl, true, false, ◌&&◌, ◌||◌, none, some, List, [], ◌∷◌, arith, get_elem?, if◌then◌else◌,
  update_where, text_eq, find_first, select, any,
}
use busybridge.Errors.{ok, ◌>>=◌}
use busybridge.Ledger.{
  personal, webcal, Projection, Db, sha, absent_hash, Desired, present_full, present_busy, absent,
  present_full_rsvp_only, to_main, to_client,
}
use busybridge.Planner.Row.{Row, active_client_calendars}
use busybridge.Planner.Desired.{
  Roles, Flags, is_free, has_declined, is_withdrawn, compute_desired_projections, busy_peer,
}
use busybridge.Planner.Targets.{TargetState, resolve_targets, is_origin}
use busybridge.Planner.Persist.{
  upsert_rows, upsert_projection, upsert_all, mark_implicit_absent, is_projection_of,
}
use busybridge.Planner.Plan.{Context, targets_for, plan_row}
use busybridge.Planner.Privacy.{full_copy_only_on_placement}
use busybridge.Planner.Fanout.{client_event_blocks_peers}
use busybridge.Planner.Upsert.{find_target}
use busybridge.Planner.Plan.{plan_for_ledger_event}
use busybridge.Ledger.{Event}
use busybridge.Prelude.{codes}
use busybridge.Planner.Cascade.{cascade_depth}
use busybridge.Planner.Replan.{plan_row-realises, plan_row-absent}
use busybridge.Examples.Data.{meeting, row_of, writeback, ledger}

abbrev live_flags : Flags
live_flags = record {
  parent_inactive = false;
  no_live_occurrences = false;
  main_native_redundant = false;
  sync_personal_all_day = false;
  declined_frees_slot = true;
}

abbrev meeting_row : Row
meeting_row = row_of meeting

abbrev meeting_roles : Roles
meeting_roles = record {
  main = present_full;
  peer_clients = present_busy;
  origin_client = present_full_rsvp_only;
}

abbrev clients : List ℕ
clients = 3 ∷ 4 ∷ []

abbrev on : ℕ → Desired → TargetState
on cal state = record { kind = to_client; calendar_id = some cal; state = state }

-- A feed that is placed on calendar 4.
abbrev feed_row : Row
feed_row = record (row_of (record meeting { source_type = webcal; source_calendar_id = some 9 })) {
  placed_on_client = true;
  placement_client_resolved_id = some 4;
}

full_copy_only_on_placement_example :
    (feed_row.source_type ≡ webcal)
    × (feed_row.placed_on_client ≡ true)
    × ((on 4 present_full).calendar_id ≡ feed_row.placement_client_resolved_id)
unfolding compute_desired_projections is_free text_eq resolve_targets is_origin
full_copy_only_on_placement_example =
    full_copy_only_on_placement feed_row live_flags
      (record { main = present_full; peer_clients = present_busy; origin_client = present_full })
      clients 2 (on 4 present_full) refl refl refl refl

abbrev errand_row : Row
errand_row = row_of (record meeting { source_type = personal; source_calendar_id = some 8 })

client_event_blocks_peers_example :
    (get_elem? (resolve_targets meeting_row meeting_roles clients) 0
      ≡ some (record { kind = to_main; calendar_id = none; state = present_full }))
    × (get_elem? (resolve_targets meeting_row meeting_roles clients) 2
        ≡ some (record {
          kind = to_client;
          calendar_id = some 4;
          state =
              if is_free meeting_row || (true && has_declined meeting_row)
              then absent
              else present_busy;
        }))
unfolding is_withdrawn compute_desired_projections busy_peer is_free text_eq has_declined
client_event_blocks_peers_example =
    client_event_blocks_peers meeting_row live_flags meeting_roles clients 1 4 refl refl refl refl
      (λ e. ground arith)

abbrev context : Context
context = record {
  hasher = λ state r kind. ok (sha 9);
  recurrence = record { occurrence_keys = λ r. none; occurrence_key = λ start all_day. start };
  settings = record { sync_personal_all_day_events = false; declined_events_free_slot = true };
  now = 500;
}

abbrev meeting_targets : List TargetState
meeting_targets =
    record { kind = to_main; calendar_id = none; state = present_full }
    ∷ on 3 present_full_rsvp_only
    ∷ on 4 present_busy
    ∷ []

abbrev planned : Db
planned = (plan_row context meeting_row ledger).1

plan_row-realises_example :
    (p : Projection) × (find_target meeting_row (on 4 present_busy) planned.projections ≡ some p)
    × (p.desired_state ≡ present_busy)
unfolding find_first targets_for compute_desired_projections resolve_targets active_client_calendars
    select is_origin busy_peer is_free text_eq has_declined plan_row ◌>>=◌ upsert_all
    upsert_projection
plan_row-realises_example =
    plan_row-realises context meeting_row meeting_targets ledger planned 3 2 (on 4 present_busy)
      (refl, (refl, tt)) ((refl, (refl, tt)), ((refl, tt), (tt, tt))) refl refl refl

-- A copy on a calendar that is active no longer.
abbrev stray : Projection
stray = record writeback { id = 13; target_calendar_id = some 5 }

abbrev with_stray : Db
with_stray = record ledger { projections = stray ∷ [] }

plan_row-absent_example : (absent ≡ absent) × (absent_hash ≡ absent_hash)
unfolding targets_for compute_desired_projections resolve_targets active_client_calendars select
    is_origin busy_peer is_free text_eq has_declined plan_row ◌>>=◌ upsert_all upsert_projection
    mark_implicit_absent update_where upsert_rows find_first is_projection_of any
plan_row-absent_example =
    plan_row-absent context meeting_row meeting_targets with_stray
      (plan_row context meeting_row with_stray).1 3 0
      (record stray {
        desired_state = absent;
        desired_payload_hash = absent_hash;
        desired_ledger_version = 2;
        updated_at = some 500;
      })
      refl refl refl refl refl

-- A series with one modified occurrence.
abbrev series : Event
series = record meeting { is_recurring = true }

abbrev occurrence : Event
occurrence = record meeting { id = 2; parent_canonical_uid = some (codes "client:3:m") }

abbrev series_ledger : Db
series_ledger = record ledger { events = series ∷ occurrence ∷ [] }

cascade_depth_example :
    plan_for_ledger_event context 5 1 series_ledger
    ≡ plan_for_ledger_event context 2 1 series_ledger
unfolding find_first
cascade_depth_example = cascade_depth context 3 1 series_ledger (refl, (refl, tt))
