-- ===== src/Outbox/Queue.antt =====
-- app/ledger/outbox.py: what `enqueue` leaves in outbox_operations.
use busybridge.Prelude.{
  ℕ, ◌≡◌, refl, ap, inl, inr, true, false, Option, none, some, List, [], ◌∷◌, ==-refl, arith,
  if◌then◌else◌, Option-cases, and_then, text_eq_refl, text_eq_iff, update_where, All, All-append,
  All-of-update_where, All-update_where, find_first-holds, find_first-update_where,
  find_first-append, get_elem?, All-get_elem?,
}
use busybridge.Errors.{ok}
use busybridge.Ledger.{OpKind, create, unknown_op, pending, IdemKey, Op, Db}
use busybridge.Outbox.Enqueue.{
  Request, same_kind, same_idem, idem_of, find_key, is_older, supersede, supersede_older, dumps,
  new_op, resurrect, insert_or_resurrect, queue_op, live_op, enqueue,
}

same_kind_refl : (k : OpKind) → same_kind k k ≡ true
same_kind_refl (unknown_op s) = text_eq_refl s
same_kind_refl k = refl

pub same_idem_refl : (k : IdemKey) → same_idem k k ≡ true
unfolding same_idem
same_idem_refl k =
    ground (arith, same_kind_refl k.operation, ==-refl k.projection, ==-refl k.version)

-- What a row looks like that the request has just put in the queue.
pub record IsQueued (now : ℕ) (q : Request) (o : Op) : Type 0 where
  pub keyed : o.idempotency_key ≡ idem_of q
  pub waiting : o.status ≡ pending
  pub untried : o.attempts ≡ 0
  pub due : o.next_attempt_at ≡ some now
  pub body : o.payload_json ≡ dumps q.payload
  pub hash : o.desired_payload_hash ≡ q.desired_payload_hash
  pub version : o.ledger_version_at_enqueue ≡ q.ledger_version

same_kind_sound : (a b : OpKind) → same_kind a b ≡ true → a ≡ b
same_kind_sound (unknown_op s) (unknown_op t) h = ap unknown_op ((text_eq_iff s t).0 h)
same_kind_sound create b h = ground arith
same_kind_sound a b h = ground arith

pub same_idem_sound : (a b : IdemKey) → same_idem a b ≡ true → a ≡ b
unfolding same_idem
same_idem_sound a b h = ground (arith, same_kind_sound a.operation b.operation)

pub supersede-key :
    (now : ℕ) (key : IdemKey) (o : Op)
    → same_idem (supersede now o).idempotency_key key ≡ same_idem o.idempotency_key key
unfolding supersede
supersede-key now key o = refl

pub older-ne :
    (q : Request) (o : Op) → same_idem o.idempotency_key (idem_of q) ≡ true → is_older q o ≡ false
unfolding is_older
older-ne q o h = ground arith

-- Superseding touches no row with the request's own key.
pub find_key-supersede_older :
    (now : ℕ) (q : Request) (ops : List Op)
    → find_key (idem_of q) (supersede_older now q ops) ≡ find_key (idem_of q) ops
unfolding supersede_older
find_key-supersede_older now q ops = elim (Option-cases (find_key (idem_of q) ops)) [
  | inl e ↦ ground (arith, written)
  | inr (o, e) ↦ ground (
    arith,
    written,
    older-ne q o (find_first-holds (λ x. same_idem x.idempotency_key (idem_of q)) ops o e),
  )
]
  where
    written :
        find_key (idem_of q) (update_where (is_older q) (supersede now) ops)
        ≡ and_then
            (find_key (idem_of q) ops)
            (λ x. some (if is_older q x then supersede now x else x))
    written =
        find_first-update_where (λ x. same_idem x.idempotency_key (idem_of q)) (is_older q)
          (supersede now) ops (supersede-key now (idem_of q))

new_op-IsQueued : (now : ℕ) (q : Request) (ops : List Op) → IsQueued now q (new_op now q ops)
unfolding new_op
new_op-IsQueued now q ops = ground arith

resurrect-IsQueued :
    (now : ℕ) (q : Request) (o : Op)
    → same_idem o.idempotency_key (idem_of q) ≡ true
    → IsQueued now q (resurrect now q o)
unfolding resurrect
resurrect-IsQueued now q o h = ground (arith, same_idem_sound o.idempotency_key (idem_of q))

new_op-key :
    (now : ℕ) (q : Request) (ops : List Op)
    → same_idem (new_op now q ops).idempotency_key (idem_of q) ≡ true
unfolding new_op
new_op-key now q ops = same_idem_refl (idem_of q)

find_key-insert_or_resurrect :
    (now : ℕ) (q : Request) (ops : List Op)
    → (o : Op) × (find_key (idem_of q) (insert_or_resurrect now q (find_key (idem_of q) ops) ops).1
        ≡ some o)
      × (o.id ≡ (insert_or_resurrect now q (find_key (idem_of q) ops) ops).0)
      × IsQueued now q o
unfolding insert_or_resurrect
find_key-insert_or_resurrect now q ops = elim (Option-cases (find_key (idem_of q) ops)) [
  | inl e ↦ (
    new_op now q ops,
    rw (e, insert_or_resurrect)
        (ground (
          arith,
          find_first-append (λ (x : Op). same_idem x.idempotency_key (idem_of q)) ops
              (new_op now q ops),
          new_op-key now q ops,
        )),
    rw (e, insert_or_resurrect) (unfold new_op in refl),
    new_op-IsQueued now q ops,
  )
  | inr (o, e) ↦ (
    resurrect now q o,
    rw (e, insert_or_resurrect)
        (ground (
          arith,
          find_first-update_where (λ (x : Op). same_idem x.idempotency_key (idem_of q))
              (λ (x : Op). same_idem x.idempotency_key (idem_of q)) (resurrect now q) ops
              (λ x. unfold resurrect in refl),
          find_first-holds (λ (x : Op). same_idem x.idempotency_key (idem_of q)) ops o e,
        )),
    rw (e, insert_or_resurrect) (unfold resurrect in refl),
    resurrect-IsQueued now q o
        (find_first-holds (λ x. same_idem x.idempotency_key (idem_of q)) ops o e),
  )
]

-- Queueing puts the request's op among the pending ones, reset and with the request's payload, and
-- returns its id, unless an op with the same key is pending or in flight already.
pub enqueue-IsQueued :
    (now i : ℕ) (q : Request) (db db' : Db)
    → enqueue now q db ≡ (ok i, db')
    → live_op q db.operations ≡ none
    → (o : Op) × (find_key (idem_of q) db'.operations ≡ some o) × (o.id ≡ i) × IsQueued now q o
unfolding enqueue queue_op
enqueue-IsQueued now i q db db' h idle =
    let (o, found, same, fresh) =
      find_key-insert_or_resurrect now q (supersede_older now q db.operations) in
    (o, ground arith, ground arith, fresh)

live_op_of :
    (q : Request) (ops : List Op) (o : Op)
    → find_key (idem_of q) ops ≡ some o
    → o.status ≡ pending
    → live_op q ops ≡ some o
unfolding live_op
live_op_of q ops o found waiting = rw (found, live_op) (ground arith)

-- Asking again for work that was queued changes nothing, and returns the same id.
pub enqueue_idem :
    (now later i : ℕ) (q : Request) (db db' : Db)
    → enqueue now q db ≡ (ok i, db')
    → enqueue later q db' ≡ (ok i, db')
enqueue_idem now later i q db db' h = elim (Option-cases (live_op q db.operations)) [
  | inl idle ↦
      let (o, found, same, fresh) = enqueue-IsQueued now i q db db' h idle in
      unfold enqueue in ground (arith, live_op_of q db'.operations o found fresh.waiting)
  | inr (o, live) ↦ unfold enqueue in ground arith
]

insert_or_resurrect-All :
    (now : ℕ) (q : Request) (found : Option Op) (ops : List Op) (P : Op → Type 0)
    → ((o : Op) → same_idem o.idempotency_key (idem_of q) ≡ true → P o)
    → All P ops
    → All P (insert_or_resurrect now q found ops).1
unfolding insert_or_resurrect
insert_or_resurrect-All now q none ops P own h =
    All-append P ops (new_op now q ops ∷ []) h (own _ (new_op-key now q ops), tt)
insert_or_resurrect-All now q (some old) ops P own h =
    All-update_where P (λ o. same_idem o.idempotency_key (idem_of q)) (resurrect now q) ops
      (λ o e _. own (resurrect now q o) (unfold resurrect in e)) h

-- A pending op of the request's projection has the request's key.
abbrev IsOwn : Request → Op → Type 0
IsOwn q o =
    o.projection_id ≡ q.projection_id
    → o.status ≡ pending
    → same_idem o.idempotency_key (idem_of q) ≡ true

supersede_older-IsOwn :
    (now : ℕ) (q : Request) (ops : List Op) → All (IsOwn q) (supersede_older now q ops)
unfolding supersede_older
supersede_older-IsOwn now q ops =
    All-of-update_where (IsOwn q) (is_older q) (supersede now) ops
      (λ o hit mine waiting. unfold supersede in ground arith)
      (λ o miss mine waiting. unfold is_older in ground (arith, ==-refl q.projection_id))

enqueue-operations :
    (now i : ℕ) (q : Request) (db db' : Db)
    → enqueue now q db ≡ (ok i, db')
    → live_op q db.operations ≡ none
    → let ops = supersede_older now q db.operations in
      db'.operations ≡ (insert_or_resurrect now q (find_key (idem_of q) ops) ops).1
unfolding enqueue queue_op
enqueue-operations now i q db db' h idle = ground arith

-- After a request was queued, the only pending op of its projection is the request's own.
pub enqueue_supersedes :
    (now i j : ℕ) (q : Request) (db db' : Db) (o : Op)
    → enqueue now q db ≡ (ok i, db')
    → live_op q db.operations ≡ none
    → get_elem? db'.operations j ≡ some o
    → o.projection_id ≡ q.projection_id
    → o.status ≡ pending
    → o.idempotency_key ≡ idem_of q
enqueue_supersedes now i j q db db' o h idle at mine waiting =
    let ops = supersede_older now q db.operations in
    let own =
      insert_or_resurrect-All now q (find_key (idem_of q) ops) ops (IsOwn q) (λ x e _ _. e)
        (supersede_older-IsOwn now q db.operations) in
    same_idem_sound o.idempotency_key (idem_of q) (
      All-get_elem? (IsOwn q) _ j o own (rw (enqueue-operations now i q db db' h idle) at at) mine
        waiting)
