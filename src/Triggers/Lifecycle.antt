-- ===== src/Triggers/Lifecycle.antt =====
-- app/ledger/triggers.py: a request's life from its trigger through claim and release.
use busybridge.Prelude.{
  ℕ, ◌+◌, ◌≤◌, ◌≡◌, refl, ◌∙◌, ◌⊎◌, inl, inr, Bool, true, false, Option, none, some, List, [], ◌∷◌,
  ◌==◌, ==-refl, arith, Bool-cases, Option-cases, and_then, find_first, find_first-update_where,
  find_first-update_where_self, find_first-append, count_where, update_where, any,
  All-of-update_where, get_elem?, All-get_elem?,
}
use busybridge.Errors.{ok, Result-cases, ◌>>=◌}
use busybridge.Json.{Json}
use busybridge.Triggers.Requests.{
  Pending, stale_claim_timeout, request_of, reschedule, new_request, write_request, upsert_request,
  is_abandoned, is_not_due, sources_of, is_claimable, claimed, take_request, claim_row,
  claim_due_request, released, release_request, reclaimed, reclaim_stale_requests,
}

-- The user's row after an update of the user's rows.
request-update :
    (user : ℕ) (f : Pending → Pending) (rs : List Pending) (r : Pending)
    → ((x : Pending) → (f x).user_id ≡ x.user_id)
    → request_of user rs ≡ some r
    → request_of user (update_where (λ x. x.user_id == user) f rs) ≡ some (f r)
request-update user f rs r keep found =
    find_first-update_where_self (λ x. x.user_id == user) f rs (λ x hit. ground (arith, keep x)) r
      found

request-upsert :
    (user at : ℕ) (later : Bool) (rs : List Pending)
    → (r : Pending) × (request_of user (upsert_request user at later rs) ≡ some r)
      × (r.scheduled_for
          ≡ some (reschedule later at (and_then (request_of user rs) λ x. x.scheduled_for)))
unfolding upsert_request write_request reschedule
request-upsert user at later rs = elim (Option-cases (request_of user rs)) [
  | inl e ↦ (
    new_request user at,
    rw (e, write_request)
        (find_first-append (λ x. x.user_id == user) rs (new_request user at)
          ∙ rw e (ground (arith, ==-refl user))),
    rw e refl,
  )
  | inr (r, e) ↦
      let f : Pending → Pending = λ x. record x {
        scheduled_for = some (reschedule later at r.scheduled_for);
        enqueued_at = at;
      } in
      (f r, rw (e, write_request) (request-update user f rs r (λ x. refl) e), rw e refl)
]

reschedule-bounds :
    (at : ℕ) (old : Option ℕ) → (at ≤ reschedule true at old) × (reschedule false at old ≤ at)
unfolding reschedule
reschedule-bounds at none = (omega arith, omega arith)
reschedule-bounds at (some cur) = (ground arith, ground arith)

-- A trigger that comes while the user's reconcile runs is not lost: whenever it comes and however
-- the run is released, the request is then not in flight and is scheduled, no earlier than the
-- trigger's time after a debounced trigger, and no later after a periodic one.
pub trigger_survives_release :
    (user at : ℕ) (later : Bool) (retry_at : Option ℕ) (rs : List Pending)
    → (r : Pending) × (request_of user
          (release_request user retry_at (upsert_request user at later rs))
        ≡ some r)
      × (r.in_flight ≡ false)
      × ((t : ℕ) × (r.scheduled_for ≡ some t)
          × (((later ≡ true) × (at ≤ t)) ⊎ ((later ≡ false) × (t ≤ at))))
unfolding release_request
trigger_survives_release user at later retry_at rs =
    let (r, found, scheduled) = request-upsert user at later rs in
    (
      released retry_at r,
      request-update user (released retry_at) (upsert_request user at later rs) r
          (released-user_id retry_at) found,
      released-in_flight retry_at r,
      (
        reschedule later at (and_then (request_of user rs) λ x. x.scheduled_for),
        kept retry_at r _ scheduled,
        timed later at (and_then (request_of user rs) λ x. x.scheduled_for),
      ),
    )
  where
    released-user_id : (retry : Option ℕ) (x : Pending) → (released retry x).user_id ≡ x.user_id
    released-user_id none x = unfold released in refl
    released-user_id (some t) x = unfold released in refl

    released-in_flight : (retry : Option ℕ) (x : Pending) → (released retry x).in_flight ≡ false
    released-in_flight none x = unfold released in refl
    released-in_flight (some t) x = unfold released in refl

    kept :
        (retry : Option ℕ) (x : Pending) (t : ℕ)
        → x.scheduled_for ≡ some t
        → (released retry x).scheduled_for ≡ some t
    kept none x t h = unfold released in h
    kept (some u) x t h = unfold released in rw h refl

    timed :
        (later : Bool) (at : ℕ) (old : Option ℕ)
        → ((later ≡ true) × (at ≤ reschedule later at old))
          ⊎ ((later ≡ false) × (reschedule later at old ≤ at))
    timed true at old = inl (refl, (reschedule-bounds at old).0)
    timed false at old = inr (refl, (reschedule-bounds at old).1)

none_counted :
    (p q : Pending → Bool) (rs : List Pending)
    → ((x : Pending) → q x ≡ true → p x ≡ true)
    → count_where p rs ≤ 0
    → any q rs ≡ false
unfolding count_where any
none_counted p q [] sub few = refl
none_counted p q (x ∷ rs) sub few = ground (arith, sub x, none_counted p q rs sub)

-- Where one row at most passes p, a row that passes the narrower q is the first that passes p.
only_row :
    (p q : Pending → Bool) (rs : List Pending) (r : Pending)
    → ((x : Pending) → q x ≡ true → p x ≡ true)
    → count_where p rs ≤ 1
    → find_first p rs ≡ some r
    → any q rs ≡ true
    → q r ≡ true
unfolding count_where any find_first
only_row p q [] r sub few found some_row = ground arith
only_row p q (x ∷ rs) r sub few found some_row = elim (Bool-cases (p x)) [
  | inl e ↦ ground (arith, none_counted p q rs sub)
  | inr e ↦ ground (arith, sub x, only_row p q rs r sub)
]

-- A claim that was won: it read the user's row, found it due, and took it.
record Won (now user : ℕ) (rs rs' : List Pending) : Type 0 where
  row : Pending
  read_row : request_of user rs ≡ some row
  taken : any (is_claimable now user row.scheduled_for) rs ≡ true
  left : rs' ≡ update_where (is_claimable now user row.scheduled_for) (claimed now) rs

claim_due_request-Won :
    (now user : ℕ) (rs rs' : List Pending) (s : Json)
    → claim_due_request now user rs ≡ (ok (some s), rs')
    → Won now user rs rs'
unfolding claim_due_request claim_row take_request ◌>>=◌
claim_due_request-Won now user rs rs' s h = elim (Option-cases (request_of user rs)) [
  | inl e ↦ absurd (ground arith)
  | inr (r, e) ↦ elim (Bool-cases (is_not_due now r)) [
    | inl early ↦ absurd (ground arith)
    | inr due ↦ elim (Result-cases (sources_of r.sources_json)) [
      | inr (x, bad) ↦ absurd (ground arith)
      | inl (j, good) ↦ record { row = r; read_row = e; taken = ground arith; left = ground arith }
    ]
  ]
]

claimable-user :
    (now user : ℕ) (sched : Option ℕ) (x : Pending)
    → is_claimable now user sched x ≡ true
    → (x.user_id == user) ≡ true
unfolding is_claimable
claimable-user now user sched x h = ground arith

held :
    (now user : ℕ) (r : Pending) (rs rs' : List Pending)
    → request_of user rs ≡ some r
    → rs' ≡ update_where (is_claimable now user r.scheduled_for) (claimed now) rs
    → is_claimable now user r.scheduled_for r ≡ true
    → request_of user rs' ≡ some (claimed now r)
held now user r rs rs' found left hit = rw left (
    find_first-update_where (λ x. x.user_id == user) (is_claimable now user r.scheduled_for)
      (claimed now) rs (λ x. unfold claimed in refl)
    ∙ rw found (rw hit refl))

-- A row that was just claimed is neither due nor abandoned.
claimed_waits :
    (now later user : ℕ) (r : Pending) (rs : List Pending)
    → later ≤ now + stale_claim_timeout
    → claim_row later user (claimed now r) rs ≡ (ok none, rs)
unfolding claim_row is_not_due is_abandoned claimed
claimed_waits now later user r rs soon = ground arith

-- A claim of the user's request that was won stands alone for fifteen minutes: until then, and with
-- no other operation between, no other claim wins or changes the table, in which the user has one
-- row at most.
pub claim_due_request_exclusive :
    (now later user : ℕ) (rs rs' : List Pending) (s : Json)
    → count_where (λ r. r.user_id == user) rs ≤ 1
    → claim_due_request now user rs ≡ (ok (some s), rs')
    → later ≤ now + stale_claim_timeout
    → claim_due_request later user rs' ≡ (ok none, rs')
unfolding claim_due_request
claim_due_request_exclusive now later user rs rs' s one h soon =
    let won = claim_due_request-Won now user rs rs' s h in
    let hit =
      only_row (λ r. r.user_id == user) (is_claimable now user won.row.scheduled_for) rs won.row
        (claimable-user now user won.row.scheduled_for) one won.read_row won.taken in
    rw (held now user won.row rs rs' won.read_row won.left hit, claim_due_request)
      (claimed_waits now later user won.row rs' soon)

-- After the sweep of stale requests no request is abandoned.
pub reclaim_stale_requests-none :
    (now j : ℕ) (rs : List Pending) (r : Pending)
    → get_elem? (reclaim_stale_requests now rs).1 j ≡ some r
    → is_abandoned now r ≡ false
unfolding reclaim_stale_requests
reclaim_stale_requests-none now j rs r at =
    All-get_elem? (λ x. is_abandoned now x ≡ false) _ j r
      (All-of-update_where (λ x. is_abandoned now x ≡ false) (is_abandoned now) (reclaimed now) rs
        (λ x hit. unfold is_abandoned reclaimed in refl) (λ x miss. miss))
      at
