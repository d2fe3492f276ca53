-- ===== src/Outbox/Claim.antt =====
-- app/ledger/outbox.py: `_reclaim_stale_operations` and `_claim_next`. The clock reads past the first
-- fifteen minutes of 1970, where the cutoff's subtraction would stop at 0.
use busybridge.Prelude.{
  ℕ, suc, ◌-◌, Bool, true, false, ◌&&◌, Option, none, some, List, [], ◌∷◌, ◌==◌, leb, ltb,
  if◌then◌else◌, update_where, any,
}
use busybridge.Ledger.{pending, in_flight, Op, Db, is_pending, is_in_flight}

-- _STALE_OP_TIMEOUT, fifteen minutes, in microseconds.
abbrev pub stale_op_timeout : ℕ
stale_op_timeout = 900_000_000

abbrev before : Option ℕ → ℕ → Bool
before none cutoff = true
before (some t) cutoff = ltb t cutoff

-- In flight, and started before the cutoff or at no known time.
unfoldable pub is_stale : ℕ → ℕ → Op → Bool
is_stale now user o =
    o.user_id == user && (is_in_flight o.status && before o.started_at (now - stale_op_timeout))

unfoldable pub reclaim_stale_operations : ℕ → ℕ → Db → Db
unfolding is_stale
reclaim_stale_operations now user db = record db {
  operations = update_where (is_stale now user) (λ o. record o { status = pending }) db.operations;
}

abbrev reached : ℕ → Option ℕ → Bool
reached now none = true
reached now (some t) = leb t now

unfoldable pub is_due : ℕ → ℕ → Op → Bool
is_due now user o = o.user_id == user && (is_pending o.status && reached now o.next_attempt_at)

abbrev older : Op → Option Op → Op
older o none = o
older o (some p) = if leb o.id p.id then o else p

-- SELECT … WHERE p ORDER BY id LIMIT 1
unfoldable pub oldest : (Op → Bool) → List Op → Option Op
oldest p [] = none
oldest p (o ∷ os) = let rest = oldest p os in if p o then some (older o rest) else rest

-- The conditional UPDATE of the claim, with whether it changed a row.
unfoldable pub is_claimable : Op → Op → Bool
is_claimable row o = o.id == row.id && is_pending o.status

unfoldable pub claimed : ℕ → Op → Op
claimed now o = record o { status = in_flight; started_at = some now; attempts = suc o.attempts }

unfoldable pub try_claim : ℕ → Op → Db → Bool × Db
unfolding is_claimable claimed
try_claim now row db = (
  any (is_claimable row) db.operations,
  record db { operations = update_where (is_claimable row) (claimed now) db.operations },
)

abbrev pub won : Op → Bool × Db → Option Op × Db
won row (true, db) = (some row, db)
won row (false, db) = (none, db)

-- The row that was selected is returned as it was before the claim.
unfoldable pub claim_next : ℕ → ℕ → Db → Option Op × Db
unfolding is_due oldest try_claim
claim_next now user db = elim (oldest (is_due now user) db.operations) [
  | none ↦ (none, db)
  | some row ↦ won row (try_claim now row db)
]
