-- ===== src/Planner/Targets.antt =====
-- app/ledger/planner.py: `_resolve_targets`, from roles to concrete calendars.
use busybridge.Prelude.{
  ℕ, Bool, ◌&&◌, ◌||◌, Option, none, some, List, ◌∷◌, map, if◌then◌else◌, is_some,
}
use busybridge.Ledger.{Target, to_main, to_client, Desired, is_client_source, is_webcal}
use busybridge.Planner.Row.{Row, is_id}
use busybridge.Planner.Desired.{Roles}

-- One (kind, calendar id, state) triple.
pub record TargetState : Type 0 where
  pub kind : Target
  pub calendar_id : Option ℕ
  pub state : Desired

-- The (kind, calendar id) pair by which a projection is found.
abbrev pub target_key : TargetState → Target × Option ℕ
target_key t = (t.kind, t.calendar_id)

abbrev pub client_key : ℕ → Target × Option ℕ
client_key cal = (to_client, some cal)

-- A webcal row's resolved placement routes as its origin.
unfoldable pub is_placed : Row → Bool
is_placed r = is_webcal r.source_type && is_some r.placement_client_resolved_id

unfoldable pub origin_cal_id : Row → Option ℕ
unfolding is_placed
origin_cal_id r = if is_placed r then r.placement_client_resolved_id else r.source_calendar_id

-- Whether the origin id is an id of client_calendars.
unfoldable pub same_id_space : Row → Bool
unfolding is_placed
same_id_space r = is_placed r || is_client_source r.source_type

unfoldable pub is_origin : Row → ℕ → Bool
unfolding origin_cal_id same_id_space
is_origin r cal = same_id_space r && is_id (origin_cal_id r) cal

unfoldable pub client_target : Row → Roles → ℕ → TargetState
client_target r d cal = record {
  kind = to_client;
  calendar_id = some cal;
  state = if is_origin r cal then d.origin_client else d.peer_clients;
}

unfoldable pub resolve_targets : Row → Roles → List ℕ → List TargetState
unfolding client_target
resolve_targets r d clients =
    record { kind = to_main; calendar_id = none; state = d.main } ∷ map (client_target r d) clients
