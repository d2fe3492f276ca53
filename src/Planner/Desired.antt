-- ===== src/Planner/Desired.antt =====
-- app/ledger/planner.py: `_compute_desired_projections`, what each role of calendar should hold.
use busybridge.Prelude.{
  Bool, not, ◌&&◌, ◌||◌, if◌then◌else◌, is_some, text_eq, truthy, or_text, codes,
}
use busybridge.Errors.{Result, ok, raise, value_error}
use busybridge.Ledger.{
  Source, main_native, client, personal, webcal, other, Desired, present_full, present_busy,
  present_personal_busy, present_full_rsvp_only, absent, is_cancelled,
}
use busybridge.Planner.Row.{Row}

-- The dict with keys 'main', 'peer_clients' and 'origin_client'.
pub record Roles : Type 0 where
  pub main : Desired
  pub peer_clients : Desired
  pub origin_client : Desired

-- The flags that the caller looks up, and the two settings.
pub record Flags : Type 0 where
  pub parent_inactive : Bool
  pub no_live_occurrences : Bool
  pub main_native_redundant : Bool
  pub sync_personal_all_day : Bool
  pub declined_frees_slot : Bool

abbrev pub nowhere : Roles
nowhere = record { main = absent; peer_clients = absent; origin_client = absent }

-- show_as == "free", where a missing or empty show_as is "busy"
unfoldable pub is_free : Row → Bool
is_free r = text_eq (or_text r.show_as (codes "busy")) (codes "free")

-- user_rsvp_status == "declined"
unfoldable pub has_declined : Row → Bool
has_declined r = text_eq (or_text r.user_rsvp_status (codes "")) (codes "declined")

-- The tests of the universal override.
unfoldable pub is_withdrawn : Row → Flags → Bool
is_withdrawn r f =
    r.user_intentionally_deleted
    || (is_cancelled r.status
        || (f.parent_inactive || (f.no_live_occurrences || f.main_native_redundant)))

-- A peer's busy block, unless the event is free or was declined.
unfoldable pub busy_peer : Row → Flags → Desired
busy_peer r f =
    if not (is_free r) && not (f.declined_frees_slot && has_declined r)
    then present_busy
    else absent

unfoldable pub desired_for_source : Source → Row → Flags → Result Roles
desired_for_source main_native r f =
    ok (record { main = absent; peer_clients = busy_peer r f; origin_client = absent })
desired_for_source client r f = ok (record {
  main = present_full;
  peer_clients = busy_peer r f;
  origin_client =
      if truthy r.user_rsvp_status || r.user_can_edit then present_full_rsvp_only else absent;
})
desired_for_source personal r f =
    if r.is_all_day && not f.sync_personal_all_day
    then ok nowhere
    else ok (record {
      main = present_personal_busy;
      peer_clients = present_personal_busy;
      origin_client = absent;
    })
desired_for_source webcal r f = ok (record {
  main = present_full;
  peer_clients = if is_free r then absent else present_busy;
  origin_client =
      if r.placed_on_client && is_some r.placement_client_resolved_id then present_full else absent;
})
desired_for_source (other s) r f = raise (value_error (codes "unknown source_type"))

unfoldable pub compute_desired_projections : Row → Flags → Result Roles
unfolding is_withdrawn desired_for_source
compute_desired_projections r f =
    if is_withdrawn r f then ok nowhere else desired_for_source r.source_type r f
