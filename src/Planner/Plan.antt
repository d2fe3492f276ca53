-- ===== src/Planner/Plan.antt =====
-- app/ledger/planner.py: `plan_for_ledger_event`, its lookups and its cascade to instance rows.
-- The hash of a rendered payload and the expansion of a recurrence are parameters.
use busybridge.Prelude.{
  ℕ, zero, suc, ◌+◌, Bool, true, false, not, ◌&&◌, ◌||◌, Option, none, some, List, [], ◌∷◌, ◌==◌,
  if◌then◌else◌, is_some, and_then, find_first, select, any, Text, text_eq, truthy, codes,
}
use busybridge.Errors.{Result, ok, raise, other_error, Action, ◌>>=◌, ◌>>◌, return, throw, modify}
use busybridge.Ledger.{Event, EventStatus, released, Db, is_active, is_cancelled, is_main_native}
use busybridge.Planner.Row.{Row, get_ledger_row, active_client_calendars}
use busybridge.Planner.Desired.{Roles, Flags, compute_desired_projections}
use busybridge.Planner.Targets.{TargetState, resolve_targets}
use busybridge.Planner.Persist.{Hasher, upsert_all, mark_implicit_absent}

-- a = b in SQL, where a may be NULL.
abbrev pub is_uid : Option Text → Text → Bool
is_uid none t = false
is_uid (some s) t = text_eq s t

-- a = b in SQL, where both may be NULL.
abbrev same_text : Option Text → Option Text → Bool
same_text a none = false
same_text a (some t) = is_uid a t

unfoldable pub is_inactive : Event → Bool
is_inactive e = is_cancelled e.status || e.user_intentionally_deleted

unfoldable pub main_native_is_redundant : Db → Row → Bool
main_native_is_redundant db r =
    is_main_native r.source_type
    && (truthy r.ical_uid
        && any
            (λ e.
              e.user_id == r.user_id
              && (same_text e.ical_uid r.ical_uid
                  && (not (is_main_native e.source_type) && is_active e.status)))
            db.events)

abbrev inactive_parent : Option Event → Bool
inactive_parent none = false
inactive_parent (some p) = is_inactive p

abbrev parent_of : Db → Row → Option Event
parent_of db r =
    and_then r.parent_canonical_uid
      λ uid. find_first (λ e. e.user_id == r.user_id && text_eq e.canonical_uid uid) db.events

unfoldable pub parent_is_inactive : Db → Row → Bool
unfolding is_inactive
parent_is_inactive db r =
    if truthy r.parent_canonical_uid then inactive_parent (parent_of db r) else false

-- SELECT … WHERE user_id = ? AND parent_canonical_uid = ?
unfoldable pub children_of : Db → Row → List Event
children_of db r =
    select (λ e. e.user_id == r.user_id && is_uid e.parent_canonical_uid r.canonical_uid) db.events

-- What the planner takes from recurrence.py, which stands on dateutil: the keys of a finite
-- series' occurrences (none if it has no recurrence, no start, or no finite expansion), and the
-- key of a stored instance's original start.
pub record Recurrence : Type 0 where
  pub occurrence_keys : Row → Option (List Text)
  pub occurrence_key : Option Text → Bool → Option Text

abbrev has_key : Recurrence → Row → Text → Event → Bool
has_key rec r key e =
    is_uid (rec.occurrence_key e.recurrence_instance_original_start r.is_all_day) key

-- inactive_by_key.get(key, False): some child has the key, and every child with it is inactive.
unfoldable pub is_key_inactive : Recurrence → Row → List Event → Text → Bool
unfolding is_inactive
is_key_inactive rec r children key =
    any (has_key rec r key) children
    && not (any (λ e. has_key rec r key e && not (is_inactive e)) children)

abbrev none_live : Recurrence → Row → List Event → Option (List Text) → Bool
none_live rec r children none = false
none_live rec r children (some keys) =
    not (any (λ key. not (is_key_inactive rec r children key)) keys)

unfoldable pub recurring_parent_has_no_live_occurrences : Recurrence → Db → Row → Bool
unfolding children_of is_key_inactive
recurring_parent_has_no_live_occurrences rec db r =
    if is_some r.parent_canonical_uid || not r.is_recurring
    then false
    else none_live rec r (children_of db r) (rec.occurrence_keys r)

-- The settings that planning reads.
pub record Settings : Type 0 where
  pub sync_personal_all_day_events : Bool
  pub declined_events_free_slot : Bool

unfoldable pub flags_for : Recurrence → Settings → Db → Row → Flags
unfolding main_native_is_redundant parent_is_inactive recurring_parent_has_no_live_occurrences
flags_for rec s db r = record {
  parent_inactive = parent_is_inactive db r;
  no_live_occurrences = recurring_parent_has_no_live_occurrences rec db r;
  main_native_redundant = main_native_is_redundant db r;
  sync_personal_all_day = s.sync_personal_all_day_events;
  declined_frees_slot = s.declined_events_free_slot;
}

-- What a pass of the planner needs from outside.
pub record Context : Type 0 where
  pub hasher : Hasher
  pub recurrence : Recurrence
  pub settings : Settings
  pub now : ℕ

abbrev resolved : Db → Row → Result Roles → Result (List TargetState)
resolved db r (ok d) = ok (resolve_targets r d (active_client_calendars db r.user_id))
resolved db r (raise e) = raise e

unfoldable pub targets_for : Context → Db → Row → Result (List TargetState)
unfolding flags_for
targets_for c db r =
    resolved db r (compute_desired_projections r (flags_for c.recurrence c.settings db r))

-- The body of `plan_for_ledger_event` up to the cascade, for a row that is not released.
unfoldable pub plan_row : Context → Row → Action Db ℕ
plan_row c r = do
  targets ← λ db. (targets_for c db r, db)
  written ← upsert_all c.hasher c.now r targets
  modify λ db. record db {
    projections = mark_implicit_absent c.now r.id r.version targets db.projections;
  }
  return written

abbrev is_released : EventStatus → Bool
is_released released = true
is_released _ = false

-- The loop over the child rows.
unfoldable pub plan_each : (ℕ → Action Db ℕ) → List Event → Action Db ℕ
plan_each plan [] = return 0
plan_each plan (e ∷ es) = do n ← plan e.id; rest ← plan_each plan es; return (n + rest)

-- Every modified-instance row of a series master is planned again.
unfoldable pub replan_instance_children : (ℕ → Action Db ℕ) → Row → Action Db ℕ
unfolding plan_each
replan_instance_children plan r =
    if is_some r.parent_canonical_uid || not r.is_recurring then return 0 else λ db.
    plan_each plan (children_of db r) db

-- The recursion through the cascade takes fuel; running out raises.
unfoldable pub plan_for_ledger_event : Context → ℕ → ℕ → Action Db ℕ
unfolding plan_row replan_instance_children
plan_for_ledger_event c zero event = throw (other_error (codes "cascade too deep"))
plan_for_ledger_event c (suc depth) event = do
  r ← λ db. (get_ledger_row db event, db)
  if is_released r.status then return 0 else do
    written ← plan_row c r
    more ← replan_instance_children (plan_for_ledger_event c depth) r
    return (written + more)
