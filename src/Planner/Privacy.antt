-- ===== src/Planner/Privacy.antt =====
-- app/ledger/planner.py: which calendar gets how much of an event.
use busybridge.Prelude.{
  ℕ, zero, suc, ◌≡◌, ◌⊎◌, inl, inr, true, Option, none, some, List, arith, get_elem?, get_elem?-map,
}
use busybridge.Errors.{ok}
use busybridge.Ledger.{
  client, personal, webcal, to_main, to_client, present_full, present_personal_busy,
  present_full_rsvp_only, absent,
}
use busybridge.Planner.Row.{Row, is_id}
use busybridge.Planner.Desired.{Roles, Flags, busy_peer, compute_desired_projections}
use busybridge.Planner.Targets.{TargetState, is_origin, client_target, resolve_targets}

-- The targets are the main calendar and the clients, each with its role's state.
pub target_cases :
    (r : Row) (d : Roles) (clients : List ℕ) (i : ℕ) (t : TargetState)
    → get_elem? (resolve_targets r d clients) i ≡ some t
    → (t ≡ record { kind = to_main; calendar_id = none; state = d.main })
      ⊎ ((cal : ℕ) × (t ≡ client_target r d cal))
unfolding resolve_targets
target_cases r d clients zero t h = inl (ground arith)
target_cases r d clients (suc i) t h =
    let (cal, _, e) = get_elem?-map (client_target r d) clients i t h in inr (cal, e)

pub is_id_sound : (o : Option ℕ) (n : ℕ) → is_id o n ≡ true → some n ≡ o
is_id_sound none n h = ground arith
is_id_sound (some m) n h = ground arith

-- A full-detail copy reaches a client calendar only when the event is a webcal feed's, the feed is
-- placed on a client, and the calendar is the one that it is placed on.
pub full_copy_only_on_placement :
    (r : Row) (f : Flags) (d : Roles) (clients : List ℕ) (i : ℕ) (t : TargetState)
    → compute_desired_projections r f ≡ ok d
    → get_elem? (resolve_targets r d clients) i ≡ some t
    → t.kind ≡ to_client
    → t.state ≡ present_full
    → (r.source_type ≡ webcal)
      × (r.placed_on_client ≡ true)
      × (t.calendar_id ≡ r.placement_client_resolved_id)
unfolding compute_desired_projections client_target is_origin busy_peer
full_copy_only_on_placement r f d clients i t computed at kind state =
    elim (target_cases r d clients i t at) [
      | inl e ↦ ground arith
      | inr (cal, e) ↦ ground (
        arith,
        is_id_sound r.placement_client_resolved_id cal,
        is_id_sound r.source_calendar_id cal,
      )
    ]

-- The writeback state is planned for a client event only, on exactly the client calendar that
-- sourced it.
pub writeback_only_to_source :
    (r : Row) (f : Flags) (d : Roles) (clients : List ℕ) (i : ℕ) (t : TargetState)
    → compute_desired_projections r f ≡ ok d
    → get_elem? (resolve_targets r d clients) i ≡ some t
    → t.state ≡ present_full_rsvp_only
    → (r.source_type ≡ client) × (t.kind ≡ to_client) × (t.calendar_id ≡ r.source_calendar_id)
unfolding compute_desired_projections client_target is_origin busy_peer
writeback_only_to_source r f d clients i t computed at state =
    elim (target_cases r d clients i t at) [
      | inl e ↦ ground arith
      | inr (cal, e) ↦ ground (
        arith,
        is_id_sound r.placement_client_resolved_id cal,
        is_id_sound r.source_calendar_id cal,
      )
    ]

-- A personal event shows as a personal busy block or not at all, on every target.
pub personal_is_opaque :
    (r : Row) (f : Flags) (d : Roles) (clients : List ℕ) (i : ℕ) (t : TargetState)
    → r.source_type ≡ personal
    → compute_desired_projections r f ≡ ok d
    → get_elem? (resolve_targets r d clients) i ≡ some t
    → (t.state ≡ present_personal_busy) ⊎ (t.state ≡ absent)
unfolding compute_desired_projections client_target is_origin
personal_is_opaque r f d clients i t source computed at = elim (target_cases r d clients i t at) [
  | inl e ↦ ground arith
  | inr (cal, e) ↦ ground arith
]
