-- ===== src/Outbox/Retry.antt =====
-- app/ledger/outbox.py: `_is_rate_limited`, `_is_deterministic_local_failure` and
-- `_classify_and_retry`, which decide what becomes of an op whose call raised. `lower` is that of
-- ASCII: the tokens that are looked for are ASCII.
use busybridge.Prelude.{
  ℕ, ◌+◌, Bool, false, ◌&&◌, ◌||◌, Option, none, some, List, [], ◌∷◌, ◌++◌, map, ◌==◌, leb,
  if◌then◌else◌, is_none, any, Text, codes, starts_with,
}
use busybridge.Errors.{Exn}
use busybridge.Ledger.{Op, Db}
use busybridge.Outbox.Record.{mark_retry, mark_permanent_failure}

-- The outcomes that a handler can record, by which the drain counts.
pub data Outcome : Type 0 where
  succeeded retried failed_permanent superseded_by : Outcome

-- s.lower()
unfoldable pub lower : Text → Text
lower = map λ c. if leb b'A' c && leb c b'Z' then c + 32 else c

-- token in s
unfoldable pub contains : Text → Text → Bool
contains token [] = starts_with token []
contains token (c ∷ s) = starts_with token (c ∷ s) || contains token s

abbrev pub rate_limit_tokens : List Text
rate_limit_tokens =
    codes "ratelimitexceeded"
    ∷ codes "userratelimitexceeded"
    ∷ codes "quotaexceeded"
    ∷ codes "dailylimitexceeded"
    ∷ []

abbrev pub is_status : ℕ → Option ℕ → Bool
is_status n none = false
is_status n (some m) = m == n

unfoldable pub is_rate_limited : Exn → Bool
unfolding lower contains
is_rate_limited e =
    is_status 429 e.status
    || any (λ token. contains token (lower (e.message ++ 32 ∷ e.reason))) rate_limit_tokens

abbrev pub poison_pill_threshold : ℕ
poison_pill_threshold = 5

-- status in PERMANENT_FAILURE_STATUSES
unfoldable pub is_permanent_status : Option ℕ → Bool
is_permanent_status s = is_status 400 s || (is_status 401 s || (is_status 403 s || is_status 404 s))

-- A 4xx of the permanent ones, or a ValueError with no status.
unfoldable pub is_deterministic : Exn → Bool
unfolding is_permanent_status
is_deterministic e = is_permanent_status e.status || (is_none e.status && e.is_value_error)

unfoldable pub classify : Op → Exn → Outcome
classify op e =
    if is_rate_limited e
    then retried
    else if is_deterministic e && leb poison_pill_threshold op.attempts
    then failed_permanent
    else retried

unfoldable pub record_verdict : Outcome → ℕ → Op → Exn → Db → Outcome × Db
record_verdict failed_permanent now op e db =
    (failed_permanent, mark_permanent_failure now op e.message e.status db)
record_verdict _ now op e db = (retried, mark_retry now op e.message e.status db)

unfoldable pub classify_and_retry : ℕ → Op → Exn → Db → Outcome × Db
unfolding classify record_verdict
classify_and_retry now op e db = record_verdict (classify op e) now op e db
