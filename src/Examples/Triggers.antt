-- ===== src/Examples/Triggers.antt =====
-- app/ledger/triggers.py: its theorems at concrete rows.
use busybridge.Prelude.{
  ℕ, ◌≡◌, ◌≤◌, refl, ◌⊎◌, true, false, none, some, [], ◌∷◌, arith, any, find_first, update_where,
  count_where,
}
use busybridge.Errors.{ok, ◌>>=◌}
use busybridge.Json.{arr, nil}
use busybridge.Triggers.Requests.{
  Pending, request_of, upsert_request, release_request, claim_due_request,
}
use busybridge.Triggers.Lifecycle.{trigger_survives_release, claim_due_request_exclusive}

abbrev waiting : Pending
waiting = record {
  user_id = 7;
  sources_json = none;
  enqueued_at = 10;
  scheduled_for = some 20;
  in_flight = false;
  last_run_at = none;
}

abbrev running : Pending
running = record waiting { scheduled_for = none; in_flight = true; last_run_at = some 30 }

trigger_survives_release_example :
    (r : Pending) × (request_of 7 (release_request 7 none (upsert_request 7 40 true (running ∷ [])))
      ≡ some r)
    × (r.in_flight ≡ false)
    × ((t : ℕ) × (r.scheduled_for ≡ some t)
        × (((true ≡ true) × (40 ≤ t)) ⊎ ((true ≡ false) × (t ≤ 40))))
trigger_survives_release_example = trigger_survives_release 7 40 true none (running ∷ [])

claim_due_request_exclusive_example :
    claim_due_request 31 7 (running ∷ []) ≡ (ok none, running ∷ [])
unfolding count_where claim_due_request find_first ◌>>=◌ any update_where
claim_due_request_exclusive_example =
    claim_due_request_exclusive 30 31 7 (waiting ∷ []) (running ∷ []) (arr nil) (omega arith) refl
      (omega arith)
