-- ===== src/Planner/Fanout.antt =====
-- app/ledger/planner.py: every calendar is planned, and with which block.
use busybridge.Prelude.{
  ℕ, suc, ◌≡◌, ◌≢◌, refl, ap, inl, inr, true, false, ◌&&◌, ◌||◌, none, some, List, [], ◌∷◌, map,
  arith, if◌then◌else◌, get_elem?, get_elem?-map-some,
}
use busybridge.Errors.{ok}
use busybridge.Ledger.{client, to_main, to_client, present_full, present_busy, absent}
use busybridge.Planner.Row.{Row}
use busybridge.Planner.Desired.{
  Roles, Flags, is_withdrawn, has_declined, is_free, busy_peer, compute_desired_projections,
}
use busybridge.Planner.Targets.{
  TargetState, target_key, client_key, is_origin, client_target, resolve_targets,
}
use busybridge.Planner.Privacy.{target_cases, is_id_sound}

-- A cancelled, deleted, orphaned, exhausted or redundant event is absent on every target.
pub withdrawn_everywhere :
    (r : Row) (f : Flags) (d : Roles) (clients : List ℕ) (i : ℕ) (t : TargetState)
    → is_withdrawn r f ≡ true
    → compute_desired_projections r f ≡ ok d
    → get_elem? (resolve_targets r d clients) i ≡ some t
    → t.state ≡ absent
unfolding compute_desired_projections client_target
withdrawn_everywhere r f d clients i t gone computed at = elim (target_cases r d clients i t at) [
  | inl e ↦ ground arith
  | inr (cal, e) ↦ ground arith
]

-- A live client event is a full copy on the main calendar; each active client but the one that
-- sourced it gets a busy block, unless the event is free or was declined (with the setting on),
-- and then it gets nothing.
pub client_event_blocks_peers :
    (r : Row) (f : Flags) (d : Roles) (clients : List ℕ) (i cal : ℕ)
    → r.source_type ≡ client
    → is_withdrawn r f ≡ false
    → compute_desired_projections r f ≡ ok d
    → get_elem? clients i ≡ some cal
    → r.source_calendar_id ≢ some cal
    → (get_elem? (resolve_targets r d clients) 0
        ≡ some (record { kind = to_main; calendar_id = none; state = present_full }))
      × (get_elem? (resolve_targets r d clients) (suc i)
          ≡ some (record {
            kind = to_client;
            calendar_id = some cal;
            state =
                if is_free r || (f.declined_frees_slot && has_declined r)
                then absent
                else present_busy;
          }))
unfolding compute_desired_projections resolve_targets client_target is_origin busy_peer
client_event_blocks_peers r f d clients i cal source live computed at peer = ground (
  arith,
  get_elem?-map-some (client_target r d) clients i cal,
  is_id_sound r.source_calendar_id cal,
)

-- Planning names the main calendar once and then each active client once, in the list's order.
pub targets_cover :
    (r : Row) (d : Roles) (clients : List ℕ)
    → map target_key (resolve_targets r d clients) ≡ (to_main, none) ∷ map client_key clients
unfolding resolve_targets
targets_cover r d clients = ap (◌∷◌ (to_main, none)) (ids clients)
  where
    ids : (cs : List ℕ) → map target_key (map (client_target r d) cs) ≡ map client_key cs
    ids [] = refl
    ids (c ∷ cs) = ap (◌∷◌ (client_key c)) (ids cs)
