-- ===== src/Reconciler/Frozen.antt =====
-- app/ledger/reconciler.py: what a pass leaves alone under a pause.
use busybridge.Prelude.{ℕ, ◌+◌, ◌≡◌, refl, ◌∙◌, true, false, some, List, All}
use busybridge.Errors.{ok, Action, bind_at}
use busybridge.Ledger.{Db}
use busybridge.Google.{GoogleClient, World, on_db}
use busybridge.Planner.Plan.{Context}
use busybridge.Outbox.Create.{Setup}
use busybridge.Diff.Decide.{Pass}
use busybridge.Diff.Pass.{diff_and_enqueue_for_user}
use busybridge.Reconciler.Pause.{pause_mode, user_pause}
use busybridge.Reconciler.DryRun.{Preview, snapshot_dry_run_outbox, discard_dry_run_outbox}
use busybridge.Reconciler.Staging.{IsSound}
use busybridge.Reconciler.DryPass.{has_distinct_ids, is_of_owner, discard_restores_outbox}
use busybridge.Reconciler.Reconcile.{
  Arguments, Ingest, Report, blank_report, pass_for, diff_drain, diff_drain_until_quiescent,
  run_pass, dry_pass, reconcile_user,
}

module _ (g : GoogleClient) (setup : Setup) (context : Context) (ingest : Ingest g)
    (clock : Pass) where
  on_db_at :
      {A : Type 0} (m : Action Db A) (w : World g) (db : Db) (a : A)
      → m w.db ≡ (ok a, db)
      → on_db g m w ≡ (ok a, record w { db = db })
  unfolding on_db
  on_db_at m w db a h = rw h refl

  -- Without the drain the convergence loop is one pass of the diff.
  undrained :
      (pass : Pass) (out : Report) (w : World g) (db : Db) (n : ℕ)
      → diff_and_enqueue_for_user pass w.db ≡ (ok n, db)
      → diff_drain_until_quiescent g setup context pass false out w
        ≡ (ok (record out { enqueued = out.enqueued + n }), record w { db = db })
  unfolding diff_drain_until_quiescent diff_drain
  undrained pass out w db n h =
      bind_at (on_db g (diff_and_enqueue_for_user pass)) _ w (record w { db = db }) n
        (on_db_at (diff_and_enqueue_for_user pass) w db n h)

  dry_run_at :
      (a : Arguments) (w : World g) (db : Db) (n : ℕ) (ps : List Preview)
      → diff_and_enqueue_for_user (pass_for g a clock) w.db ≡ (ok n, db)
      → discard_dry_run_outbox a.user_id (snapshot_dry_run_outbox a.user_id w.db) db
        ≡ (ok ps, record db { operations = w.db.operations })
      → dry_pass g setup context ingest clock a true w ≡ (
        ok (record (blank_report true) { enqueued = 0 + n; preview_operations = some ps }),
        record w { db = record db { operations = w.db.operations } },
      )
  unfolding dry_pass run_pass
  dry_run_at a w db n ps h k =
      bind_at _ _ w w (snapshot_dry_run_outbox a.user_id w.db) refl
      ∙ (bind_at _ _ w (record w { db = db }) (record (blank_report true) { enqueued = 0 + n })
            (undrained (pass_for g a clock) (blank_report true) w db n h)
          ∙ bind_at _ _ (record w { db = db })
              (record w { db = record db { operations = w.db.operations } }) ps
              (on_db_at _ (record w { db = db }) _ ps k))

  -- A dry run of a paused user whose diff returns also returns, with a preview and the number of
  -- operations that the diff enqueued; afterwards outbox_operations is as it was, row by row, and
  -- the service was not called. The rows that were there are found by their ids and by their keys,
  -- are keyed by their projections, have payloads that load, and belong to the users of their
  -- projections, whose ids are distinct.
  pub dry_run_of_paused_user :
      (a : Arguments) (w : World g) (db : Db) (n : ℕ)
      → pause_mode a.user_id w.db ≡ some user_pause
      → a.dry_run ≡ true
      → diff_and_enqueue_for_user (pass_for g a clock) w.db ≡ (ok n, db)
      → All (IsSound w.db.operations) w.db.operations
      → has_distinct_ids w.db.projections ≡ true
      → All (λ o. is_of_owner w.db o ≡ true) w.db.operations
      → (ps : List Preview) × (reconcile_user g setup context ingest clock a w ≡ (
        ok (record (blank_report true) { enqueued = 0 + n; preview_operations = some ps }),
        record w { db = record db { operations = w.db.operations } },
      ))
  unfolding reconcile_user pass_for
  dry_run_of_paused_user a w db n paused dry did sound distinct owners =
      let (ps, back) = discard_restores_outbox (pass_for g a clock) w.db sound distinct owners in
      (ps, rw (paused, dry) (dry_run_at a w db n ps did (rw did at back)))

  -- Under the global pause a pass returns at once, with the database and the service as they were.
  frozen :
      (a : Arguments) (w : World g)
      → w.db.sync_paused ≡ true
      → reconcile_user g setup context ingest clock a w ≡ (ok (blank_report true), w)
  unfolding reconcile_user pause_mode
  frozen a w h = rw h refl
