-- ===== src/Examples/Outbox.antt =====
-- app/ledger/outbox.py: its theorems at concrete rows.
use busybridge.Outbox.Update.{do_update}
use busybridge.Prelude.{
  All, ◌⊎◌, ◌≡◌, ◌≤◌, refl, inr, ◌⊎◌, true, false, none, some, [], ◌∷◌, codes, starts_with,
  find_first, update_where, any, text_eq,
}
use busybridge.Errors.{ok, ◌>>=◌}
use busybridge.Ledger.{Op, Db, delete, superseded, in_flight}
use busybridge.Google.{on_google, on_db, write}
use busybridge.Outbox.Record.{
  mark_retry, request_projection_replan, mark_superseded, get_projection, record_success,
}
use busybridge.Outbox.Retry.{retried, is_deterministic, classify_and_retry, is_rate_limited}
use busybridge.Outbox.Claim.{is_due, claim_next}
use busybridge.Outbox.Enqueue.{Request, idem_of, find_key, live_op, enqueue, same_idem}
use busybridge.Outbox.Create.{attempt, ceiling_reached}
use busybridge.Outbox.Drain.{execute_op, drain_user, no_work}
use busybridge.Outbox.Outcomes.{recorded}
use busybridge.Outbox.Queue.{IsQueued, enqueue-IsQueued, enqueue_idem, enqueue_supersedes}
use busybridge.Outbox.Claims.{claim_next-oldest}
use busybridge.Outbox.Execute.{execute_op-recorded}
use busybridge.Ledger.{patch, personal}
use busybridge.Examples.Data.{meeting, writeback}
use busybridge.Google.{World}
use busybridge.Prelude.{inl}
use busybridge.Prelude.{arith, ◌≤◌, ◌+◌}
use busybridge.Json.{end, as_text, get}
use busybridge.Outbox.Create.{do_create}
use busybridge.Ledger.{Projection, sha}
use busybridge.Outbox.Ceiling.{create_within_ceiling}
use busybridge.Examples.Data.{main_copy}
use busybridge.Outbox.ReadOnly.{execute_op_personal}
use busybridge.Outbox.Policy.{IsWaiting, accounted, transient_failures_wait, drain_user-counts}
use busybridge.Examples.Data.{refused, empty_service, plain_setup, update_op, ledger, world}

-- The update finds the event gone from the calendar, and is superseded.
abbrev superseded_op : Op
superseded_op = record update_op {
  status = superseded;
  completed_at = some 1000;
  last_error = some (codes "target_event_gone");
  last_http_status = some 404;
}

execute_op-recorded_example :
    superseded ≡ recorded (execute_op empty_service plain_setup 1000 update_op world).0
unfolding execute_op ◌>>=◌ on_google on_db write attempt do_update get_projection find_first
    request_projection_replan mark_superseded update_where
execute_op-recorded_example =
    execute_op-recorded empty_service plain_setup 1000 0 update_op superseded_op world refl refl

abbrev removal : Request
removal = record {
  user_id = 7;
  projection_id = 11;
  operation = delete;
  ledger_version = 3;
  target_google_calendar_id = codes "main@x";
  payload = none;
  desired_payload_hash = none;
}

abbrev queued : Db
queued = (enqueue 50 removal ledger).1

enqueue-IsQueued_example :
    (o : Op) × (find_key (idem_of removal) queued.operations ≡ some o)
    × (o.id ≡ 22)
    × IsQueued 50 removal o
unfolding enqueue live_op find_first same_idem update_where
enqueue-IsQueued_example = enqueue-IsQueued 50 22 removal ledger queued refl refl

enqueue_idem_example : enqueue 90 removal queued ≡ (ok 22, queued)
unfolding enqueue find_first same_idem update_where
enqueue_idem_example = enqueue_idem 50 90 22 removal ledger queued refl

-- The op that was queued behind the superseded update.
abbrev removal_op : Op
removal_op = record update_op {
  id = 22;
  operation = delete;
  idempotency_key = idem_of removal;
  ledger_version_at_enqueue = 3;
  desired_payload_hash = none;
  payload_json = none;
  next_attempt_at = some 50;
  created_at = 50;
}

enqueue_supersedes_example : removal_op.idempotency_key ≡ idem_of removal
unfolding enqueue live_op find_first same_idem update_where
enqueue_supersedes_example =
    enqueue_supersedes 50 22 1 removal ledger queued removal_op refl refl refl refl refl

transient_failures_wait_example :
    ((classify_and_retry 1000 update_op (refused 503) ledger).0 ≡ retried)
    × IsWaiting 1000 (record update_op {
      next_attempt_at = some 1_001_000;
      last_error = some (codes "refused");
      last_http_status = some 503;
    })
unfolding classify_and_retry is_deterministic mark_retry is_rate_limited any starts_with
    update_where
transient_failures_wait_example =
    transient_failures_wait 1000 0 update_op _ (refused 503) ledger (inr refl) refl refl

drain_user-counts_example :
    let end = drain_user empty_service plain_setup 1000 7 5 world in
    (end.0.processed ≡ accounted end.0)
    × (end.0.processed ≤ 5)
    × ((false ≡ false) ⊎ (end ≡ (no_work, world)))
drain_user-counts_example = drain_user-counts empty_service plain_setup 1000 7 5 world

claim_next-oldest_example :
    (is_due 1000 7 update_op ≡ true)
    × All (λ o. (is_due 1000 7 o ≡ false) ⊎ (update_op.id ≤ o.id)) ledger.operations
unfolding claim_next is_due any
claim_next-oldest_example =
    claim_next-oldest 1000 7 ledger (claim_next 1000 7 ledger).1 update_op refl

abbrev crashed : Db
crashed = record ledger { operations = record update_op { status = in_flight } ∷ [] }

-- The writeback of an event that came from a personal calendar.
abbrev personal_op : Op
personal_op = record update_op { projection_id = 12; operation = patch }

abbrev personal_world : World empty_service
personal_world = record world {
  db = record ledger { events = record meeting { source_type = personal } ∷ [] };
}

execute_op_personal_example :
    (execute_op empty_service plain_setup 1000 personal_op personal_world).1.google ≡ 0
unfolding find_first
execute_op_personal_example =
    execute_op_personal empty_service plain_setup 1000 personal_op personal_world writeback
      (record meeting { source_type = personal }) (inl refl) refl refl refl

-- The main copy with its new id.
abbrev created_copy : Projection
created_copy = record main_copy {
  google_etag = some (codes "e1");
  applied_payload_hash = some (sha 5);
  applied_ledger_version = some 2;
  last_attempt_at = some 1000;
  attempts = 1;
  updated_at = some 1000;
}

create_within_ceiling_example :
    created_copy.google_id_generation ≤ created_copy.google_id_generation_floor + 50
unfolding find_first do_create ◌>>=◌ on_db get_projection ceiling_reached attempt write as_text get
    text_eq record_success update_where
create_within_ceiling_example =
    create_within_ceiling empty_service plain_setup 1000 0 update_op (some end) world main_copy
      created_copy (refl, (refl, tt)) refl (omega arith) refl refl
