-- ===== src/Triggers/Requests.antt =====
-- app/ledger/triggers.py: the operations on reconcile_requests, with the table as the state. The
-- clock reads past the first fifteen minutes of 1970; a scheduled_for that is no timestamp does not
-- occur. `source_hint` is never used, and is left out.
use busybridge.Prelude.{
  ℕ, ◌+◌, ◌-◌, Bool, true, false, not, ◌&&◌, ◌||◌, Option, none, some, List, [], ◌∷◌, ◌++◌, ◌==◌,
  if◌then◌else◌, ltb, same_nullable, is_none, find_first, update_where, any, count_where, codes,
}
use busybridge.Errors.{Result, ok, raise, value_error, Action, lift, return, ◌>>=◌}
use busybridge.Json.{Json, arr, nil, JsonText, encoded, malformed}

-- A row of reconcile_requests.
pub record Pending : Type 0 where
  pub user_id : ℕ
  pub sources_json : Option JsonText
  pub enqueued_at : ℕ
  pub scheduled_for : Option ℕ
  pub in_flight : Bool
  pub last_run_at : Option ℕ

abbrev pub webhook_debounce : ℕ
webhook_debounce = 5_000_000

abbrev pub manual_settling_delay : ℕ
manual_settling_delay = 25_000_000

abbrev pub stale_claim_timeout : ℕ
stale_claim_timeout = 900_000_000

abbrev pub request_of : ℕ → List Pending → Option Pending
request_of user = find_first λ r. r.user_id == user

-- The debounce pushes the schedule out; the periodic timer keeps the earliest.
unfoldable pub reschedule : Bool → ℕ → Option ℕ → ℕ
reschedule prefer_later scheduled_for none = scheduled_for
reschedule true scheduled_for (some cur) = if ltb scheduled_for cur then cur else scheduled_for
reschedule false scheduled_for (some cur) = if ltb cur scheduled_for then cur else scheduled_for

unfoldable pub new_request : ℕ → ℕ → Pending
new_request user scheduled_for = record {
  user_id = user;
  sources_json = none;
  enqueued_at = scheduled_for;
  scheduled_for = some scheduled_for;
  in_flight = false;
  last_run_at = none;
}

unfoldable pub write_request : ℕ → ℕ → Bool → Option Pending → List Pending → List Pending
unfolding reschedule new_request
write_request user scheduled_for prefer_later none rs = rs ++ new_request user scheduled_for ∷ []
write_request user scheduled_for prefer_later (some old) rs =
    update_where (λ r. r.user_id == user)
      (λ r. record r {
        scheduled_for = some (reschedule prefer_later scheduled_for old.scheduled_for);
        enqueued_at = scheduled_for;
      })
      rs

unfoldable pub upsert_request : ℕ → ℕ → Bool → List Pending → List Pending
unfolding write_request
upsert_request user scheduled_for prefer_later rs =
    write_request user scheduled_for prefer_later (request_of user rs) rs

unfoldable pub enqueue_webhook : ℕ → ℕ → List Pending → List Pending
unfolding upsert_request
enqueue_webhook now user = upsert_request user (now + webhook_debounce) true

unfoldable pub enqueue_periodic : ℕ → ℕ → List Pending → List Pending
unfolding upsert_request
enqueue_periodic now user = upsert_request user now false

unfoldable pub enqueue_manual : ℕ → ℕ → List Pending → List Pending
unfolding upsert_request
enqueue_manual now user = upsert_request user (now + manual_settling_delay) true

-- last_run_at IS NULL OR last_run_at < cutoff
abbrev pub before : ℕ → Option ℕ → Bool
before cutoff none = true
before cutoff (some t) = ltb t cutoff

abbrev pub is_later : Option ℕ → ℕ → Bool
is_later none now = false
is_later (some t) now = ltb now t

unfoldable pub is_abandoned : ℕ → Pending → Bool
is_abandoned now r = r.in_flight && before (now - stale_claim_timeout) r.last_run_at

-- The early returns: idle and not abandoned, or scheduled for later.
unfoldable pub is_not_due : ℕ → Pending → Bool
unfolding is_abandoned
is_not_due now r =
    (is_none r.scheduled_for && not (is_abandoned now r)) || is_later r.scheduled_for now

-- json.loads(sources_json), or [] for none.
abbrev pub sources_of : Option JsonText → Result Json
sources_of none = ok (arr nil)
sources_of (some (encoded j)) = ok j
sources_of (some malformed) = raise (value_error (codes "JSONDecodeError"))

-- The WHERE clause of the claim, for the schedule that was read.
unfoldable pub is_claimable : ℕ → ℕ → Option ℕ → Pending → Bool
is_claimable now user sched r =
    r.user_id == user
    && ((not r.in_flight || before (now - stale_claim_timeout) r.last_run_at)
        && same_nullable r.scheduled_for sched)

unfoldable pub claimed : ℕ → Pending → Pending
claimed now r = record r { in_flight = true; last_run_at = some now; scheduled_for = none }

-- The conditional UPDATE; its row count decides whether the claim was won.
unfoldable pub take_request : ℕ → ℕ → Option ℕ → Json → Action (List Pending) (Option Json)
unfolding is_claimable claimed
take_request now user sched sources rs =
    let won = any (is_claimable now user sched) rs in
    (
      ok (if won then some sources else none),
      update_where (is_claimable now user sched) (claimed now) rs,
    )

unfoldable pub claim_row : ℕ → ℕ → Pending → Action (List Pending) (Option Json)
unfolding take_request is_not_due
claim_row now user r = if is_not_due now r then return none else do
  sources ← lift (sources_of r.sources_json)
  take_request now user r.scheduled_for sources

unfoldable pub claim_due_request : ℕ → ℕ → Action (List Pending) (Option Json)
unfolding claim_row
claim_due_request now user rs = elim (request_of user rs) [
  | none ↦ (ok none, rs)
  | some r ↦ claim_row now user r rs
]

-- COALESCE(t, u)
abbrev pub or_at : Option ℕ → ℕ → Option ℕ
or_at none u = some u
or_at (some t) u = some t

unfoldable pub released : Option ℕ → Pending → Pending
released none r = record r { in_flight = false }
released (some retry) r = record r {
  in_flight = false;
  scheduled_for = or_at r.scheduled_for retry;
  enqueued_at = if is_none r.scheduled_for then retry else r.enqueued_at;
}

unfoldable pub release_request : ℕ → Option ℕ → List Pending → List Pending
unfolding released
release_request user retry_at = update_where (λ r. r.user_id == user) (released retry_at)

unfoldable pub reclaimed : ℕ → Pending → Pending
reclaimed now r = record r { in_flight = false; scheduled_for = or_at r.scheduled_for now }

-- The UPDATE, with the number of rows that it changed.
unfoldable pub reclaim_stale_requests : ℕ → List Pending → ℕ × List Pending
unfolding is_abandoned reclaimed
reclaim_stale_requests now rs =
    (count_where (is_abandoned now) rs, update_where (is_abandoned now) (reclaimed now) rs)
