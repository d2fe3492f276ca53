-- ===== src/Outbox/Record.antt =====
-- app/ledger/outbox.py: how the drain records what became of an op. Each is the UPDATEs of one
-- helper, by the ids of the op and of its projection.
use busybridge.Prelude.{
  ℕ, suc, ◌+◌, ◌-◌, ◌*◌, min, Bool, true, false, Option, none, some, List, [], ◌∷◌, ◌++◌, ◌==◌,
  and_then, Text, codes, find_first, update_where, get_elem?, length,
}
use busybridge.Errors.{Result, ok, raise, other_error, Action, ◌>>=◌, ◌>>◌, lift, modify}
use busybridge.Ledger.{
  Event, Projection, Op, Alert, Db, Hash, absent_hash, present, gone, errored, pending, done,
  superseded, permanent_failure,
}

abbrev pub set_op : ℕ → (Op → Op) → Db → Db
set_op i f db = record db { operations = update_where (λ o. o.id == i) f db.operations }

abbrev pub set_projection : ℕ → (Projection → Projection) → Db → Db
set_projection i f db = record db { projections = update_where (λ p. p.id == i) f db.projections }

abbrev pub set_event : ℕ → (Event → Event) → Db → Db
set_event i f db = record db { events = update_where (λ e. e.id == i) f db.events }

abbrev or_vanished : Option Projection → Result Projection
or_vanished none = raise (other_error (codes "projection vanished"))
or_vanished (some p) = ok p

unfoldable pub get_projection : ℕ → Action Db Projection
get_projection i db = (or_vanished (find_first (λ p. p.id == i) db.projections), db)

-- The hash that the op was enqueued for, not the one that its projection wants by now.
unfoldable pub applied_hash_for : Op → Action Db Hash
unfolding get_projection
applied_hash_for op = elim op.desired_payload_hash [
  | some stamped ↦ lift (ok stamped)
  | none ↦ do p ← get_projection op.projection_id; lift (ok p.desired_payload_hash)
]

-- The op's own row on success.
unfoldable pub finish_op : ℕ → Op → Op
finish_op now o = record o { status = done; completed_at = some now; last_http_status = some 200 }

-- The columns that every success sets.
unfoldable pub applied : ℕ → Op → Hash → Projection → Projection
applied now op hash p = record p {
  current_state = present;
  applied_payload_hash = some hash;
  applied_ledger_version = some op.ledger_version_at_enqueue;
  last_attempt_at = some now;
  next_attempt_at = none;
  attempts = suc p.attempts;
  last_error = none;
  permanently_failed = false;
  updated_at = some now;
}

abbrev event_of : Db → ℕ → Option ℕ
event_of db i = and_then (find_first (λ p. p.id == i) db.projections) λ p. some p.ledger_event_id

abbrev clear_writeback : Option ℕ → Db → Db
clear_writeback none db = db
clear_writeback (some e) db = set_event e (λ x. record x { origin_writeback_pending = false }) db

unfoldable pub record_origin_writeback_applied : ℕ → Op → Action Db (Unit {0})
unfolding applied_hash_for finish_op applied
record_origin_writeback_applied now op = do
  hash ← applied_hash_for op
  modify (set_projection op.projection_id (applied now op hash))
  modify (λ db. clear_writeback (event_of db op.projection_id) db)
  modify (set_op op.id (finish_op now))

unfoldable pub record_success : ℕ → Op → Text → Text → Action Db (Unit {0})
unfolding applied_hash_for finish_op applied
record_success now op google_id etag = do
  hash ← applied_hash_for op
  modify (
      set_projection op.projection_id (λ p. record (applied now op hash p) {
        google_event_id = some google_id;
        google_etag = some etag;
      }))
  modify (set_op op.id (finish_op now))

unfoldable pub record_absent : ℕ → Op → Db → Db
unfolding finish_op applied
record_absent now op db = set_op op.id (finish_op now) (
    set_projection op.projection_id
      (λ p. record (applied now op absent_hash p) { current_state = gone }) db)

unfoldable pub mark_superseded : ℕ → Op → Text → ℕ → Db → Db
mark_superseded now op error status = set_op op.id (λ o. record o {
  status = superseded;
  completed_at = some now;
  last_error = some error;
  last_http_status = some status;
})

abbrev pub second : ℕ
second = 1_000_000

-- _BACKOFF_SECONDS, by index; an index past the end does not occur.
abbrev pub backoff_table : List ℕ
backoff_table = 1 ∷ 2 ∷ 4 ∷ 8 ∷ 16 ∷ 32 ∷ 60 ∷ []

abbrev pub or_zero : Option ℕ → ℕ
or_zero none = 0
or_zero (some n) = n

-- The delay after the claim that found `attempts` earlier ones.
unfoldable pub backoff : ℕ → ℕ
backoff attempts =
    or_zero (get_elem? backoff_table (min (suc attempts - 1) (length backoff_table - 1)))

unfoldable pub mark_retry : ℕ → Op → Text → Option ℕ → Db → Db
unfolding backoff
mark_retry now op error status = set_op op.id (λ o. record o {
  status = pending;
  next_attempt_at = some (now + backoff op.attempts * second);
  last_error = some error;
  last_http_status = status;
})

unfoldable pub mark_permanent_failure : ℕ → Op → Text → Option ℕ → Db → Db
mark_permanent_failure now op error status db =
    set_projection op.projection_id
      (λ p. record p {
        current_state = errored;
        permanently_failed = true;
        last_attempt_at = some now;
        last_error = some error;
        updated_at = some now;
      })
      (set_op op.id
        (λ o. record o {
          status = permanent_failure;
          completed_at = some now;
          last_error = some error;
          last_http_status = status;
        })
        db)

abbrev has_failed : Option Projection → Bool
has_failed none = false
has_failed (some p) = p.permanently_failed

-- An alert for the first failure of an episode only.
unfoldable pub alert_once : Bool → Alert → Db → Db
alert_once true a db = db
alert_once false a db = record db { alerts = db.alerts ++ a ∷ [] }

-- The text of the error and of the alert is shortened; their numbers are the alert's fields.
unfoldable pub give_up_burned_ids : ℕ → Op → ℕ → Db → Db
unfolding mark_permanent_failure alert_once
give_up_burned_ids now op generation db =
    alert_once (has_failed (find_first (λ p. p.id == op.projection_id) db.projections))
      (record { user_id = op.user_id; projection_id = op.projection_id; generation = generation })
      (mark_permanent_failure now op (codes "gave up after burned id generations") none
        (set_projection op.projection_id (λ p. record p { google_id_generation = generation }) db))

unfoldable pub request_projection_replan : ℕ → Db → Db
request_projection_replan i = set_projection i (λ p. record p { applied_ledger_version = none })
