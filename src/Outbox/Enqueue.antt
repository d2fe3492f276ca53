-- ===== src/Outbox/Enqueue.antt =====
-- app/ledger/outbox.py: `enqueue`. The clock `now` is an argument.
use busybridge.Prelude.{
  ℕ, Bool, true, false, not, ◌&&◌, ◌||◌, Option, none, some, List, [], ◌∷◌, ◌++◌, map, ◌==◌,
  if◌then◌else◌, Text, text_eq, find_first, update_where, codes,
}
use busybridge.Errors.{ok, raise, value_error, Action}
use busybridge.Json.{Fields}
use busybridge.Ledger.{
  Hash, OpKind, create, update, delete, patch, delete_source, unknown_op, pending, superseded,
  BodyText, body, IdemKey, Op, Db, is_pending, is_in_flight,
}
use busybridge.Planner.Persist.{next_id}

-- The arguments of `enqueue`.
pub record Request : Type 0 where
  pub user_id : ℕ
  pub projection_id : ℕ
  pub operation : OpKind
  pub ledger_version : ℕ
  pub target_google_calendar_id : Text
  pub payload : Option Fields
  pub desired_payload_hash : Option Hash

abbrev pub same_kind : OpKind → OpKind → Bool
same_kind create create = true
same_kind update update = true
same_kind delete delete = true
same_kind patch patch = true
same_kind delete_source delete_source = true
same_kind (unknown_op s) (unknown_op t) = text_eq s t
same_kind _ _ = false

unfoldable pub same_idem : IdemKey → IdemKey → Bool
same_idem a b =
    a.projection == b.projection && (a.version == b.version && same_kind a.operation b.operation)

abbrev pub is_known : OpKind → Bool
is_known (unknown_op s) = false
is_known _ = true

abbrev pub idem_of : Request → IdemKey
idem_of q = record {
  projection = q.projection_id;
  version = q.ledger_version;
  operation = q.operation;
}

abbrev pub find_key : IdemKey → List Op → Option Op
find_key key = find_first (λ o. same_idem o.idempotency_key key)

-- status in (pending, in_flight)
abbrev pub is_live : Op → Bool
is_live o = is_pending o.status || is_in_flight o.status

-- An older pending op of the same projection with another key.
unfoldable pub is_older : Request → Op → Bool
is_older q o =
    o.projection_id == q.projection_id
    && (is_pending o.status && not (same_idem o.idempotency_key (idem_of q)))

unfoldable pub supersede : ℕ → Op → Op
supersede now o = record o { status = superseded; completed_at = some now }

unfoldable pub supersede_older : ℕ → Request → List Op → List Op
unfolding is_older supersede
supersede_older now q ops = update_where (is_older q) (supersede now) ops

abbrev pub dumps : Option Fields → Option BodyText
dumps none = none
dumps (some d) = some (body d)

unfoldable pub new_op : ℕ → Request → List Op → Op
unfolding next_id
new_op now q ops = record {
  id = next_id (map (λ o. o.id) ops);
  user_id = q.user_id;
  projection_id = q.projection_id;
  operation = q.operation;
  idempotency_key = idem_of q;
  ledger_version_at_enqueue = q.ledger_version;
  desired_payload_hash = q.desired_payload_hash;
  target_google_calendar_id = q.target_google_calendar_id;
  payload_json = dumps q.payload;
  status = pending;
  attempts = 0;
  next_attempt_at = some now;
  last_error = none;
  last_http_status = none;
  created_at = now;
  started_at = none;
  completed_at = none;
}

-- A settled op with the same key is brought back to pending.
unfoldable pub resurrect : ℕ → Request → Op → Op
resurrect now q o = record o {
  status = pending;
  attempts = 0;
  next_attempt_at = some now;
  last_error = none;
  last_http_status = none;
  payload_json = dumps q.payload;
  started_at = none;
  completed_at = none;
  ledger_version_at_enqueue = q.ledger_version;
  desired_payload_hash = q.desired_payload_hash;
}

-- INSERT … ON CONFLICT(idempotency_key) DO NOTHING, then the resurrection if nothing was inserted;
-- with the id that `enqueue` returns.
unfoldable pub insert_or_resurrect : ℕ → Request → Option Op → List Op → ℕ × List Op
unfolding new_op resurrect
insert_or_resurrect now q none ops = (next_id (map (λ o. o.id) ops), ops ++ new_op now q ops ∷ [])
insert_or_resurrect now q (some old) ops =
    (old.id, update_where (λ o. same_idem o.idempotency_key (idem_of q)) (resurrect now q) ops)

unfoldable pub queue_op : ℕ → Request → List Op → ℕ × List Op
unfolding supersede_older insert_or_resurrect
queue_op now q ops =
    let rest = supersede_older now q ops in
    insert_or_resurrect now q (find_key (idem_of q) rest) rest

-- The op with this key, if it is still to be done.
unfoldable pub live_op : Request → List Op → Option Op
live_op q ops = elim (find_key (idem_of q) ops) [
  | none ↦ none
  | some o ↦ if is_live o then some o else none
]

unfoldable pub enqueue_ops : ℕ → Request → Option Op → List Op → ℕ × List Op
unfolding queue_op
enqueue_ops now q (some o) ops = (o.id, ops)
enqueue_ops now q none ops = queue_op now q ops

unfoldable pub enqueue : ℕ → Request → Action Db ℕ
unfolding enqueue_ops live_op
enqueue now q db =
    let (i, ops) = enqueue_ops now q (live_op q db.operations) db.operations in
    if is_known q.operation
    then (ok i, record db { operations = ops })
    else (raise (value_error (codes "unknown operation")), db)
