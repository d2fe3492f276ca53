-- ===== src/Reconciler/DryRun.antt =====
-- app/ledger/reconciler.py: a dry run's snapshot of the outbox, and the discard that undoes what the
-- pass did to it.
use busybridge.Prelude.{
  ℕ, max, Bool, true, false, not, ◌&&◌, ◌||◌, Option, none, some, List, [], ◌∷◌, map, ◌==◌, leb,
  ltb, if◌then◌else◌, any, select, find_first, Text, codes, ◌++◌,
}
use busybridge.Errors.{Result, ok, raise, other_error, Action, ◌>>=◌, ◌>>◌, return, modify}
use busybridge.Json.{Json, Fields, get}
use busybridge.Ledger.{
  OpKind, OpStatus, pending, in_flight, done, permanent_failure, superseded, Op, Projection, Event,
  Target, Db, is_pending,
}
use busybridge.Outbox.Drain.{loads}

abbrev pub same_status : OpStatus → OpStatus → Bool
same_status pending pending = true
same_status in_flight in_flight = true
same_status done done = true
same_status permanent_failure permanent_failure = true
same_status superseded superseded = true
same_status _ _ = false

-- The user's rows. Of each, only the snapshotted columns and the id are read.
unfoldable pub snapshot_dry_run_outbox : ℕ → Db → List Op
snapshot_dry_run_outbox user db = select (λ o. o.user_id == user) db.operations

-- max(snapshot, default=0)
unfoldable pub watermark : List Op → ℕ
watermark [] = 0
watermark (o ∷ os) = max o.id (watermark os)

abbrev or_key_error : Option Op → Result Op
or_key_error none = raise (other_error (codes "KeyError"))
or_key_error (some o) = ok o

-- snapshot[id]
unfoldable pub snapshot_of : List Op → ℕ → Result Op
snapshot_of snapshot i = or_key_error (find_first (λ o. o.id == i) snapshot)

abbrev pub keep_if_changed : Op → Result Op → Result (List Op) → Result (List Op)
keep_if_changed o (raise e) rest = raise e
keep_if_changed o (ok old) (raise e) = raise e
keep_if_changed o (ok old) (ok os) = ok (if same_status o.status old.status then os else o ∷ os)

-- The rows whose status is not the snapshot's.
unfoldable pub changed_rows : List Op → List Op → Result (List Op)
unfolding snapshot_of
changed_rows snapshot [] = ok []
changed_rows snapshot (o ∷ os) =
    keep_if_changed o (snapshot_of snapshot o.id) (changed_rows snapshot os)

-- A row of the table up to the watermark, or above it.
unfoldable pub is_old : ℕ → ℕ → Op → Bool
is_old user mark o = o.user_id == user && leb o.id mark

unfoldable pub is_new : ℕ → ℕ → Op → Bool
is_new user mark o = o.user_id == user && ltb mark o.id

abbrev pub has_id : List Op → Op → Bool
has_id rows o = any (λ r. r.id == o.id) rows

-- An entry of preview_operations.
pub record Preview : Type 0 where
  pub outbox_id : ℕ
  pub operation : OpKind
  pub target_calendar : Text
  pub target_kind : Target
  pub event_summary : Option Text
  pub canonical_uid : Text
  pub would_send_summary : Option Json

abbrev would_send : Option Fields → Option Json
would_send none = none
would_send (some d) = get d (codes "summary")

abbrev preview_of : Op → Projection → Event → Result (Option Fields) → Result (List Preview)
preview_of o p e (raise x) = raise x
preview_of o p e (ok payload) = ok (
    record {
      outbox_id = o.id;
      operation = o.operation;
      target_calendar = o.target_google_calendar_id;
      target_kind = p.target_kind;
      event_summary = e.summary;
      canonical_uid = e.canonical_uid;
      would_send_summary = would_send payload;
    }
    ∷ [])

abbrev pub joined_event : Op → Projection → Option Event → Result (List Preview)
joined_event o p none = ok []
joined_event o p (some e) = preview_of o p e (loads o.payload_json)

abbrev pub joined : Db → Op → Option Projection → Result (List Preview)
joined db o none = ok []
joined db o (some p) = joined_event o p (find_first (λ e. e.id == p.ledger_event_id) db.events)

abbrev pub both : Result (List Preview) → Result (List Preview) → Result (List Preview)
both (raise e) rest = raise e
both (ok ps) (raise e) = raise e
both (ok ps) (ok qs) = ok (ps ++ qs)

-- The loop over the joined rows.
unfoldable pub preview_rows : Db → List Op → Result (List Preview)
preview_rows db [] = ok []
preview_rows db (o ∷ os) =
    both (joined db o (find_first (λ p. p.id == o.projection_id) db.projections))
      (preview_rows db os)

-- The snapshotted columns, as they were.
unfoldable pub restored : Op → Op → Op
restored old o = record o {
  status = old.status;
  attempts = old.attempts;
  next_attempt_at = old.next_attempt_at;
  last_error = old.last_error;
  last_http_status = old.last_http_status;
  payload_json = old.payload_json;
  started_at = old.started_at;
  completed_at = old.completed_at;
  ledger_version_at_enqueue = old.ledger_version_at_enqueue;
  desired_payload_hash = old.desired_payload_hash;
}

abbrev pub restored_by : Op → Option Op → Op
restored_by o none = o
restored_by o (some old) = restored old o

-- The UPDATE … WHERE id = ? of each changed row.
unfoldable pub restore_rows : List Op → List Op → List Op → List Op
unfolding restored
restore_rows snapshot changed ops =
    map
      (λ o. if has_id changed o then restored_by o (find_first (λ s. s.id == o.id) snapshot) else o)
      ops

unfoldable pub undo : ℕ → List Op → List Op → List Op → List Op
unfolding is_new restore_rows watermark
undo user snapshot changed ops =
    restore_rows snapshot changed (select (λ o. not (is_new user (watermark snapshot) o)) ops)

-- Of the changed rows, those that are pending now and were not.
unfoldable pub resurrected_rows : List Op → List Op
resurrected_rows changed = select (λ o. is_pending o.status) changed

-- What the pass would have sent.
unfoldable pub previewed : ℕ → List Op → List Op → List Op → List Op
unfolding is_new watermark resurrected_rows
previewed user snapshot changed ops =
    select
      (λ o.
        is_new user (watermark snapshot) o
        || (o.user_id == user && has_id (resurrected_rows changed) o))
      ops

unfoldable pub discard_dry_run_outbox : ℕ → List Op → Action Db (List Preview)
unfolding changed_rows is_old watermark preview_rows previewed undo
discard_dry_run_outbox user snapshot = do
  changed ←
      λ db. (changed_rows snapshot (select (is_old user (watermark snapshot)) db.operations), db)
  preview ← λ db. (preview_rows db (previewed user snapshot changed db.operations), db)
  modify λ db. record db { operations = undo user snapshot changed db.operations }
  return preview
