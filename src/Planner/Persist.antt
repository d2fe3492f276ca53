-- ===== src/Planner/Persist.antt =====
-- app/ledger/planner.py: `_upsert_projection` and `_mark_implicit_absent`, which write the desired
-- columns of ledger_projections. A loop that updates each selected row by its id is one UPDATE with
-- the loop's tests in the WHERE clause.
use busybridge.Prelude.{
  ℕ, suc, max, Bool, false, not, ◌&&◌, Option, none, some, List, [], ◌∷◌, ◌++◌, map, ◌==◌,
  if◌then◌else◌, is_some, same_nullable, find_first, update_where, any,
}
use busybridge.Errors.{Result, Action, ◌>>=◌, ◌>>◌, return, lift, modify}
use busybridge.Ledger.{
  Target, Desired, absent, Hash, absent_hash, Projection, Db, unknown, is_absent, same_state,
  same_hash, same_target, to_a_client,
}
use busybridge.Planner.Row.{Row}
use busybridge.Planner.Targets.{TargetState}

-- The id that SQLite gives to a new row of an INTEGER PRIMARY KEY column.
unfoldable pub next_id : List ℕ → ℕ
next_id [] = 1
next_id (n ∷ ns) = max (suc n) (next_id ns)

-- WHERE ledger_event_id = ? AND target_kind = ? AND COALESCE(target_calendar_id, -1) = …
unfoldable pub is_projection_of : ℕ → Target → Option ℕ → Projection → Bool
is_projection_of event kind cal p =
    p.ledger_event_id == event
    && (same_target p.target_kind kind && same_nullable p.target_calendar_id cal)

-- The origin-writeback target of a row whose pending flag is set.
unfoldable pub is_armed_origin : Row → TargetState → Bool
is_armed_origin r t =
    r.origin_writeback_pending
    && (to_a_client t.kind
        && (is_some r.source_calendar_id && same_nullable t.calendar_id r.source_calendar_id))

unfoldable pub new_projection : ℕ → Row → TargetState → Hash → List Projection → Projection
unfolding next_id
new_projection now r t hash ps = record {
  id = next_id (map (λ p. p.id) ps);
  ledger_event_id = r.id;
  target_kind = t.kind;
  target_calendar_id = t.calendar_id;
  desired_state = t.state;
  desired_payload_hash = hash;
  desired_ledger_version = r.version;
  current_state = unknown;
  google_event_id = none;
  google_etag = none;
  applied_payload_hash = none;
  applied_ledger_version = none;
  last_attempt_at = none;
  next_attempt_at = none;
  attempts = 0;
  last_error = none;
  permanently_failed = false;
  google_id_generation = 0;
  google_id_generation_floor = 0;
  updated_at = some now;
}

-- The UPDATE of a row whose desired state changed; a new hash also clears a permanent failure.
unfoldable pub redesired : ℕ → Row → TargetState → Hash → Projection → Projection
redesired now r t hash p =
    let hash_changed = not (same_hash p.desired_payload_hash hash) in
    record p {
      desired_state = t.state;
      desired_payload_hash = hash;
      desired_ledger_version = r.version;
      permanently_failed = if hash_changed then false else p.permanently_failed;
      last_error = if hash_changed then none else p.last_error;
      updated_at = some now;
    }

-- A content-identical replan, which leaves the row untouched.
unfoldable pub is_same_plan : Row → TargetState → Hash → Projection → Bool
is_same_plan r t hash p =
    same_state p.desired_state t.state
    && (same_hash p.desired_payload_hash hash && not (is_armed_origin r t))

unfoldable pub write_projection :
    ℕ → Row → TargetState → Hash → Option Projection → List Projection → List Projection
unfolding new_projection redesired is_same_plan
write_projection now r t hash none ps = ps ++ new_projection now r t hash ps ∷ []
write_projection now r t hash (some old) ps =
    if is_same_plan r t hash old
    then ps
    else update_where (λ p. p.id == old.id) (redesired now r t hash) ps

unfoldable pub upsert_rows : ℕ → Row → TargetState → Hash → List Projection → List Projection
unfolding write_projection
upsert_rows now r t hash ps =
    write_projection now r t hash (find_first (is_projection_of r.id t.kind t.calendar_id) ps) ps

-- Absent-desired already, and not stuck on a failed delete.
unfoldable pub is_settled_absent : Projection → Bool
is_settled_absent p =
    is_absent p.desired_state
    && (same_hash p.desired_payload_hash absent_hash && not p.permanently_failed)

-- (kind, calendar) in keep
unfoldable pub is_kept : List TargetState → Projection → Bool
is_kept keep p =
    any (λ t. same_target p.target_kind t.kind && same_nullable p.target_calendar_id t.calendar_id)
      keep

unfoldable pub is_implicit_absent : ℕ → List TargetState → Projection → Bool
unfolding is_settled_absent is_kept
is_implicit_absent event keep p =
    p.ledger_event_id == event && (not (is_kept keep p) && not (is_settled_absent p))

unfoldable pub make_absent : ℕ → ℕ → Projection → Projection
make_absent now version p = record p {
  desired_state = absent;
  desired_payload_hash = absent_hash;
  desired_ledger_version = version;
  permanently_failed = false;
  updated_at = some now;
}

unfoldable pub mark_implicit_absent :
    ℕ → ℕ → ℕ → List TargetState → List Projection → List Projection
unfolding is_implicit_absent make_absent
mark_implicit_absent now event version keep ps =
    update_where (is_implicit_absent event keep) (make_absent now version) ps

-- How a target is rendered and hashed: `hash_payload(render_payload(…))`, which may raise.
abbrev pub Hasher : Type 0
Hasher = Desired → Row → Target → Result Hash

unfoldable pub upsert_projection : Hasher → ℕ → Row → TargetState → Action Db (Unit {0})
upsert_projection hasher now r t = do
  hash ← lift (hasher t.state r t.kind)
  modify (λ db. record db { projections = upsert_rows now r t hash db.projections })

-- The loop over the targets; returns how many were written.
unfoldable pub upsert_all : Hasher → ℕ → Row → List TargetState → Action Db ℕ
upsert_all hasher now r [] = return 0
upsert_all hasher now r (t ∷ ts) = do
  upsert_projection hasher now r t
  written ← upsert_all hasher now r ts
  return (suc written)
