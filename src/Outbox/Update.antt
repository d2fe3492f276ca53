-- ===== src/Outbox/Update.antt =====
-- app/ledger/outbox.py: `_do_update` and `_retire_orphaned_instance_tombstone`.
use busybridge.Prelude.{
  ℕ, suc, Bool, true, false, not, ◌&&◌, Option, none, some, [], ◌∷◌, ◌++◌, map, ◌==◌, if◌then◌else◌,
  and_then, Text, truthy, codes, find_first, update_where,
}
use busybridge.Errors.{Exn, ok, raise, value_error, Action, ◌>>=◌, ◌>>◌, return, throw, lift}
use busybridge.Json.{Fields, get, is_text, as_text, truthy_json}
use busybridge.Ledger.{Event, Projection, Op, Db, absent, gone, absent_hash, cancelled, is_active}
use busybridge.Planner.Persist.{next_id}
use busybridge.Google.{GoogleClient, World, on_db, write}
use busybridge.Outbox.Record.{
  get_projection, set_projection, record_success, mark_superseded, request_projection_replan,
}
use busybridge.Outbox.Retry.{Outcome, succeeded, superseded_by, is_status}
use busybridge.Outbox.Create.{attempt, or_empty, id_of, is_gone_status}

-- The columns of an absent projection that nothing follows up.
unfoldable pub retired : ℕ → Projection → Projection
retired now p = record p {
  desired_state = absent;
  current_state = gone;
  desired_payload_hash = absent_hash;
  applied_payload_hash = some absent_hash;
  applied_ledger_version = some p.desired_ledger_version;
  google_event_id = none;
  google_etag = none;
  permanently_failed = false;
  last_error = none;
  updated_at = some now;
}

-- The ledger event of a projection (the JOIN).
abbrev pub event_of_projection : Db → ℕ → Option Event
event_of_projection db i =
    and_then (find_first (λ p. p.id == i) db.projections)
      λ p. find_first (λ e. e.id == p.ledger_event_id) db.events

-- INSERT INTO affected_ledger_events
abbrev pub enqueue_replan : ℕ → ℕ → Db → Db
enqueue_replan user event db = record db {
  affected =
      db.affected
      ++ record {
        id = next_id (map (λ a. a.id) db.affected);
        user_id = user;
        ledger_event_id = event;
      }
        ∷ [];
}

-- The verdict on the ledger row: an active one is cancelled, and queued for replan.
unfoldable pub cancel_occurrence : ℕ → Event → Db → Db
unfolding next_id
cancel_occurrence now e db =
    if is_active e.status
    then enqueue_replan e.user_id e.id (record db {
      events =
          update_where (λ x. x.id == e.id && is_active x.status)
            (λ x. record x {
              status = cancelled;
              cancelled_at = some now;
              updated_at = some now;
              version = suc x.version;
            })
            db.events;
    })
    else db

-- A cancelled event that belongs to no series.
unfoldable pub is_detached_tombstone : Fields → Bool
is_detached_tombstone target =
    is_text (get target (codes "status")) (codes "cancelled")
    && not (truthy_json (get target (codes "recurringEventId")))

-- The projection as a user's deletion of the copy leaves it: to be created again.
unfoldable pub reset_gone : Projection → Projection
reset_gone p = record p {
  current_state = gone;
  google_event_id = none;
  google_etag = none;
  applied_ledger_version = none;
  applied_payload_hash = none;
}

-- proj["google_etag"] or None
abbrev pub or_null : Option Text → Option Text
or_null none = none
or_null (some s) = if truthy (some s) then some s else none

module _ (g : GoogleClient) where
  unfoldable pub retire : ℕ → Op → Projection → Event → Action (World g) Bool
  unfolding retired cancel_occurrence
  retire now op proj e = do
    write g (set_projection proj.id (retired now))
    write g (cancel_occurrence now e)
    write g (mark_superseded now op (codes "instance_tombstone_out_of_range") 400)
    return true

  -- The confirming GET; an exception leaves the decision to the caller.
  unfoldable pub retire_if_tombstone :
      ℕ → Op → Projection → Text → Option Event → Action (World g) Bool
  unfolding retire
  retire_if_tombstone now op proj gid none = return false
  retire_if_tombstone now op proj gid (some e) =
      if truthy e.parent_canonical_uid
      then (do
        target ← attempt g (g.get_event op.target_google_calendar_id gid)
        elim target [
          | raise x ↦ return false
          | ok event ↦ if is_detached_tombstone event then retire now op proj e else return false
        ])
      else return false

  unfoldable pub retire_orphaned_instance_tombstone : ℕ → Op → Projection → Action (World g) Bool
  unfolding retire_if_tombstone
  retire_orphaned_instance_tombstone now op proj = elim (or_null proj.google_event_id) [
    | none ↦ return false
    | some gid ↦ λ w. retire_if_tombstone now op proj gid (event_of_projection w.db proj.id) w
  ]

  -- A 412: refresh the etag if the GET answers, and ask for a replan.
  unfoldable pub etag_mismatch : ℕ → Op → Projection → Text → Action (World g) Outcome
  etag_mismatch now op proj gid = do
    fresh ← attempt g (g.get_event op.target_google_calendar_id gid)
    elim fresh [
      | raise x ↦ return tt
      | ok event ↦ write g (
          set_projection proj.id
            (λ p. record p { google_etag = some (or_empty (as_text (get event (codes "etag")))) }))
    ]
    write g (mark_superseded now op (codes "etag_mismatch") 412)
    write g (request_projection_replan op.projection_id)
    return superseded_by

  -- A 404 or 410: the copy is gone, so the next diff creates it again.
  unfoldable pub target_gone : ℕ → Op → Projection → ℕ → Action (World g) Outcome
  unfolding reset_gone
  target_gone now op proj status = do
    write g (set_projection proj.id reset_gone)
    write g (mark_superseded now op (codes "target_event_gone") status)
    write g (request_projection_replan op.projection_id)
    return superseded_by

  unfoldable pub bad_request : ℕ → Op → Projection → Exn → Action (World g) Outcome
  unfolding retire_orphaned_instance_tombstone
  bad_request now op proj e = do
    done ← retire_orphaned_instance_tombstone now op proj
    if done then return superseded_by else throw e

  abbrev status_or : Option ℕ → ℕ
  status_or none = 404
  status_or (some n) = n

  unfoldable pub update_failed : ℕ → Op → Projection → Text → Exn → Action (World g) Outcome
  unfolding etag_mismatch target_gone bad_request
  update_failed now op proj gid e =
      if is_status 412 e.status
      then etag_mismatch now op proj gid
      else if is_gone_status e.status
      then target_gone now op proj (status_or e.status)
      else if is_status 400 e.status
      then bad_request now op proj e
      else throw e

  unfoldable pub updated : ℕ → Op → Fields → Action (World g) Outcome
  updated now op result = do
    google_id ← lift (id_of result)
    on_db g (record_success now op google_id (or_empty (as_text (get result (codes "etag")))))
    return succeeded

  unfoldable pub update_event : ℕ → Op → Fields → Projection → Action (World g) Outcome
  unfolding update_failed updated
  update_event now op payload proj = elim (or_null proj.google_event_id) [
    | none ↦ throw (value_error (codes "update op has no google_event_id on its projection"))
    | some gid ↦ do
      answer ←
          attempt g
            (g.update_event op.target_google_calendar_id gid payload (or_null proj.google_etag))
      elim answer [ ok result ↦ updated now op result | raise e ↦ update_failed now op proj gid e ]
  ]

  unfoldable pub do_update : ℕ → Op → Option Fields → Action (World g) Outcome
  unfolding update_event
  do_update now op none = throw (value_error (codes "update op has no payload"))
  do_update now op (some payload) = do
    proj ← on_db g (get_projection op.projection_id)
    update_event now op payload proj
