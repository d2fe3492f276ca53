-- ===== src/Outbox/Policy.antt =====
-- app/ledger/outbox.py: how long a failed op waits, when it is given up, and how a drain counts.
use busybridge.Prelude.{
  ℕ, zero, suc, ◌+◌, ◌-◌, ◌*◌, ◌≤◌, ◌<◌, min, ◌≡◌, refl, ap, ◌⊎◌, inl, inr, Bool, true, false, some,
  ◌==◌, arith, Option-cases, if◌then◌else◌, All, All-of-update_where, get_elem?, All-get_elem?,
}
use busybridge.Errors.{Exn}
use busybridge.Ledger.{pending, Op, Db}
use busybridge.Google.{GoogleClient, World}
use busybridge.Outbox.Record.{backoff, backoff_table, or_zero, second, mark_retry}
use busybridge.Outbox.Retry.{
  Outcome, succeeded, retried, failed_permanent, superseded_by, is_rate_limited, is_deterministic,
  poison_pill_threshold, classify, record_verdict, classify_and_retry,
}
use busybridge.Outbox.Claim.{reclaim_stale_operations, claim_next}
use busybridge.Outbox.Create.{Setup}
use busybridge.Outbox.Drain.{Counters, no_work, count_outcome, execute_op, drain_loop, drain_user}

backoff-late : (n : ℕ) → backoff (suc (suc (suc (suc (suc (suc n)))))) ≡ 60
unfolding backoff
backoff-late n =
    let last : min (suc (suc (suc (suc (suc (suc (suc n)))))) - 1) 6 ≡ 6 = omega arith in
    ap (λ i. or_zero (get_elem? backoff_table i)) last

backoff-bounds : (n : ℕ) → (1 ≤ backoff n) × (backoff n ≤ 60)
unfolding backoff
backoff-bounds zero = (omega arith, omega arith)
backoff-bounds (suc zero) = (omega arith, omega arith)
backoff-bounds (suc (suc zero)) = (omega arith, omega arith)
backoff-bounds (suc (suc (suc zero))) = (omega arith, omega arith)
backoff-bounds (suc (suc (suc (suc zero)))) = (omega arith, omega arith)
backoff-bounds (suc (suc (suc (suc (suc zero))))) = (omega arith, omega arith)
backoff-bounds (suc (suc (suc (suc (suc (suc n)))))) =
    let late = backoff-late n in (omega (arith, late), omega (arith, late))

-- The row waits for its next attempt, at least a second and at most a minute.
pub record IsWaiting (now : ℕ) (o : Op) : Type 0 where
  pub still : o.status ≡ pending
  pub delay : ℕ
  pub due : o.next_attempt_at ≡ some (now + delay * second)
  pub at_least : 1 ≤ delay
  pub at_most : delay ≤ 60

mark_retry-waits :
    (now : ℕ) (op : Op) (e : Exn) (db : Db)
    → All
        (λ x. (x.id == op.id) ≡ true → IsWaiting now x)
        (mark_retry now op e.message e.status db).operations
unfolding mark_retry
mark_retry-waits now op e db =
    All-of-update_where (λ x. (x.id == op.id) ≡ true → IsWaiting now x) (λ x. x.id == op.id) _
      db.operations
      (λ x hit same. record {
        still = refl;
        delay = backoff op.attempts;
        due = refl;
        at_least = (backoff-bounds op.attempts).0;
        at_most = (backoff-bounds op.attempts).1;
      })
      λ x miss same. ground arith

classify-transient :
    (op : Op) (e : Exn)
    → ((is_rate_limited e ≡ true) ⊎ (op.attempts < poison_pill_threshold))
      ⊎ (is_deterministic e ≡ false)
    → classify op e ≡ retried
unfolding classify
classify-transient op e (inl (inl h)) = ground arith
classify-transient op e (inl (inr h)) = ground arith
classify-transient op e (inr h) = ground arith

-- An op whose call was refused by a rate limit, or failed for less than five attempts before this
-- one, or failed in a way that another attempt may mend, is never given up: the outcome is a retry
-- and its row is pending, due in one to sixty seconds.
pub transient_failures_wait :
    (now j : ℕ) (op row : Op) (e : Exn) (db : Db)
    → ((is_rate_limited e ≡ true) ⊎ (op.attempts < poison_pill_threshold))
      ⊎ (is_deterministic e ≡ false)
    → get_elem? (classify_and_retry now op e db).1.operations j ≡ some row
    → row.id ≡ op.id
    → ((classify_and_retry now op e db).0 ≡ retried) × IsWaiting now row
unfolding classify_and_retry record_verdict
transient_failures_wait now j op row e db transient at same =
    let verdict = classify-transient op e transient in
    (
      rw verdict refl,
      All-get_elem? (λ x. (x.id == op.id) ≡ true → IsWaiting now x) _ j row
          (mark_retry-waits now op e db) (rw verdict at at) (ground arith),
    )

-- The sum of the four outcome counters.
abbrev pub accounted : Counters → ℕ
accounted c =
    c.succeeded_count + (c.retried_count + (c.failed_permanent_count + c.superseded_count))

-- The counters add up, to no more than n.
record IsAccounted (n : ℕ) (c : Counters) : Type 0 where
  sum : c.processed ≡ accounted c
  bound : c.processed ≤ n

count_outcome-counts :
    (o : Outcome) (c : Counters)
    → ((count_outcome o c).processed ≡ suc c.processed)
      × (accounted (count_outcome o c) ≡ suc (accounted c))
unfolding count_outcome
count_outcome-counts succeeded c = (refl, ground arith)
count_outcome-counts retried c = (refl, ground arith)
count_outcome-counts failed_permanent c = (refl, ground arith)
count_outcome-counts superseded_by c = (refl, ground arith)

module _ (g : GoogleClient) (setup : Setup) (now user : ℕ) where
  drain_loop-counts :
      (left : ℕ) (c : Counters) (w : World g)
      → c.processed ≡ accounted c
      → IsAccounted (c.processed + left) (drain_loop g setup now user left c w).0
  unfolding drain_loop
  drain_loop-counts zero c w h = record { sum = h; bound = omega arith }
  drain_loop-counts (suc left) c w h = elim (Option-cases (claim_next now user w.db).0) [
    | inl e ↦ rw (e, drain_loop) (record { sum = h; bound = omega arith })
    | inr (op, e) ↦
        let w₁ = record w { db = (claim_next now user w.db).1 } in
        let done = execute_op g setup now op w₁ in
        let counted = count_outcome-counts done.0 c in
        let rest = drain_loop-counts left (count_outcome done.0 c) done.1 (ground arith) in
        rw (e, drain_loop) (record { sum = rest.sum; bound = ground (arith, rest.bound) })
  ]

  if-IsAccounted :
      (b : Bool) (n : ℕ) (x y : Counters × World g)
      → IsAccounted n x.0
      → IsAccounted n y.0
      → IsAccounted n (if b then x else y).0
  if-IsAccounted true n x y hx hy = hx
  if-IsAccounted false n x y hx hy = hy

  if_paused : (b : Bool) (x y : Counters × World g) → (b ≡ false) ⊎ ((if b then x else y) ≡ x)
  if_paused true x y = inr refl
  if_paused false x y = inl refl

  -- A drain counts every op that it processed under exactly one of the four outcomes and processes
  -- no more than it was allowed to; and either the sync is not paused, or it processes none and
  -- leaves the database and the service as they are.
  pub drain_user-counts :
      (max_ops : ℕ) (w : World g)
      → ((drain_user g setup now user max_ops w).0.processed
          ≡ accounted (drain_user g setup now user max_ops w).0)
        × ((drain_user g setup now user max_ops w).0.processed ≤ max_ops)
        × ((w.db.sync_paused ≡ false) ⊎ (drain_user g setup now user max_ops w ≡ (no_work, w)))
  unfolding drain_user
  drain_user-counts max_ops w =
      let counts =
        if-IsAccounted w.db.sync_paused (0 + max_ops) (no_work, w) _
          (record { sum = refl; bound = omega arith })
          (drain_loop-counts max_ops no_work
            (record w { db = reclaim_stale_operations now user w.db }) refl) in
      (counts.sum, omega (arith, counts.bound), if_paused w.db.sync_paused _ _)
