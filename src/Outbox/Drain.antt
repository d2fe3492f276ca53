-- ===== src/Outbox/Drain.antt =====
-- app/ledger/outbox.py: `_execute_op` and `drain_user`. An exception that leaves a handler is
-- classified where `_execute_op` catches it, so the drain's own catch-all is never reached.
use busybridge.Prelude.{ℕ, zero, suc, Option, none, some, if◌then◌else◌, codes}
use busybridge.Errors.{Result, ok, raise, value_error, Action, ◌>>=◌, throw, lift}
use busybridge.Json.{Fields}
use busybridge.Ledger.{
  OpKind, create, update, delete, patch, delete_source, unknown_op, BodyText, body, broken, Op,
}
use busybridge.Google.{GoogleClient, World}
use busybridge.Outbox.Retry.{
  Outcome, succeeded, retried, failed_permanent, superseded_by, classify_and_retry,
}
use busybridge.Outbox.Claim.{reclaim_stale_operations, claim_next}
use busybridge.Outbox.Create.{Setup, do_create}
use busybridge.Outbox.Update.{do_update}
use busybridge.Outbox.Remove.{do_delete, do_delete_source, do_patch}

-- json.loads(op["payload_json"]) if op["payload_json"] else None
abbrev pub loads : Option BodyText → Result (Option Fields)
loads none = ok none
loads (some (body d)) = ok (some d)
loads (some broken) = raise (value_error (codes "JSONDecodeError"))

-- The dict of counters.
pub record Counters : Type 0 where
  pub processed : ℕ
  pub succeeded_count : ℕ
  pub retried_count : ℕ
  pub failed_permanent_count : ℕ
  pub superseded_count : ℕ

abbrev pub no_work : Counters
no_work = record {
  processed = 0;
  succeeded_count = 0;
  retried_count = 0;
  failed_permanent_count = 0;
  superseded_count = 0;
}

unfoldable pub count_outcome : Outcome → Counters → Counters
count_outcome succeeded c = record c {
  processed = suc c.processed;
  succeeded_count = suc c.succeeded_count;
}
count_outcome retried c = record c {
  processed = suc c.processed;
  retried_count = suc c.retried_count;
}
count_outcome failed_permanent c = record c {
  processed = suc c.processed;
  failed_permanent_count = suc c.failed_permanent_count;
}
count_outcome superseded_by c = record c {
  processed = suc c.processed;
  superseded_count = suc c.superseded_count;
}

module _ (g : GoogleClient) (setup : Setup) (now : ℕ) where
  unfoldable pub run_op : Op → OpKind → Option Fields → Action (World g) Outcome
  run_op op create payload = do_create g setup now op payload
  run_op op update payload = do_update g now op payload
  run_op op delete payload = do_delete g now op
  run_op op patch payload = do_patch g setup.writeback_notifications now op payload
  run_op op delete_source payload = do_delete_source g now op
  run_op op (unknown_op s) payload = throw (value_error (codes "unknown operation"))

  -- The body of the try.
  unfoldable pub try_op : Op → Action (World g) Outcome
  unfolding run_op
  try_op op = do payload ← lift (loads op.payload_json); run_op op op.operation payload

  abbrev pub settle : Op → Result Outcome → World g → Outcome × World g
  settle op (ok o) w = (o, w)
  settle op (raise e) w =
      let (o, db) = classify_and_retry now op e w.db in (o, record w { db = db })

  unfoldable pub execute_op : Op → World g → Outcome × World g
  unfolding try_op
  execute_op op w = let (r, w') = try_op op w in settle op r w'

  -- The loop, by the ops that are left of max_ops.
  unfoldable pub drain_loop : ℕ → ℕ → Counters → World g → Counters × World g
  unfolding execute_op count_outcome
  drain_loop user zero c w = (c, w)
  drain_loop user (suc left) c w =
      let (found, db) = claim_next now user w.db in
      elim found [
        | none ↦ (c, record w { db = db })
        | some op ↦
            let (outcome, w') = execute_op op (record w { db = db }) in
            drain_loop user left (count_outcome outcome c) w'
      ]

  unfoldable pub drain_user : ℕ → ℕ → World g → Counters × World g
  unfolding drain_loop
  drain_user user max_ops w =
      if w.db.sync_paused
      then (no_work, w)
      else drain_loop user max_ops no_work
          (record w { db = reclaim_stale_operations now user w.db })
