-- ===== src/Outbox/Generations.antt =====
-- app/ledger/outbox.py: what the recording of a create does to the columns that count ids.
use busybridge.Prelude.{
  ℕ, ◌+◌, ◌≤◌, ◌≡◌, Bool, true, false, Option, none, some, List, ◌==◌, arith, if◌then◌else◌,
  Bool-cases, inl, inr, All, All-map, All-update_where_map, ◌⊎◌, Text,
}
use busybridge.Errors.{Exn, Result, ok, raise, Action, resume, ◌>>=◌}
use busybridge.Ledger.{Hash, Projection, Op, Db, Alert}
use busybridge.Outbox.Record.{
  set_projection, applied, applied_hash_for, get_projection, record_success, mark_permanent_failure,
  alert_once, give_up_burned_ids,
}

-- The rows of the op's projection have this floor, and are within the ceiling above it.
abbrev pub StartsWithin : ℕ → ℕ → Projection → Type 0
StartsWithin i floor p =
    (p.id == i) ≡ true
    → (p.google_id_generation_floor ≡ floor) × (p.google_id_generation ≤ floor + 50)

-- Within the ceiling above the row's own floor.
abbrev pub IsWithin : ℕ → Projection → Type 0
IsWithin i p = (p.id == i) ≡ true → p.google_id_generation ≤ p.google_id_generation_floor + 50

pub start-IsWithin : (i floor : ℕ) (p : Projection) → StartsWithin i floor p → IsWithin i p
start-IsWithin i floor p h same = let (e, le) = h same in ground arith

-- A state with a table of projections.
module _ {S : Type 0} (rows : S → List Projection) where
  -- Whatever the action returns or raises, it leads from rows in R to rows in R'.
  abbrev pub Leads : {A : Type 0} → (R R' : Projection → Type 0) → Action S A → Type 0
  Leads R R' m = (s : S) → All R (rows s) → All R' (rows (m s).1)

  pub Leads-bind :
      {A B : Type 0} (R R' R'' : Projection → Type 0) (m : Action S A) (k : A → Action S B)
      → ((p : Projection) → R' p → R'' p)
      → Leads R R' m
      → ((a : A) → Leads R' R'' (k a))
      → Leads R R'' (m >>= k)
  unfolding ◌>>=◌
  Leads-bind {A} {B} R R' R'' m k weaken hm hk s h = resumed (m s).0 (m s).1 (hm s h)
    where
      resumed : (r : Result A) (t : S) → All R' (rows t) → All R'' (rows (resume r k t).1)
      resumed (ok a) t held = hk a t held
      resumed (raise e) t held = All-map R' R'' (rows t) weaken held

  module _ (R R' : Projection → Type 0) where
    pub Leads-if :
        {A : Type 0} (b : Bool) (m n : Action S A)
        → Leads R R' m
        → Leads R R' n
        → Leads R R' (if b then m else n)
    Leads-if true m n hm hn = hm
    Leads-if false m n hm hn = hn

    pub Leads-Result :
        {A B : Type 0} (x : Result A) (k : A → Action S B) (f : Exn → Action S B)
        → ((a : A) → Leads R R' (k a))
        → ((e : Exn) → Leads R R' (f e))
        → Leads R R' (elim x [ ok a ↦ k a | raise e ↦ f e ])
    Leads-Result (ok a) k f hk hf = hk a
    Leads-Result (raise e) k f hk hf = hf e

abbrev pub table : Db → List Projection
table db = db.projections

pub same_rows : (R : Projection → Type 0) (p : Projection) → R p → R p
same_rows R p h = h

pub set_projection-All :
    (R R' : Projection → Type 0) (i : ℕ) (f : Projection → Projection) (db : Db)
    → ((p : Projection) → (p.id == i) ≡ true → R p → R' (f p))
    → ((p : Projection) → (p.id == i) ≡ false → R p → R' p)
    → All R (table db)
    → All R' (table (set_projection i f db))
set_projection-All R R' i f db hit miss h =
    All-update_where_map R' (λ p. p.id == i) f db.projections
      (All-map R _ db.projections (λ p r. chosen p (Bool-cases (p.id == i)) r) h)
  where
    chosen :
        (p : Projection)
        → ((p.id == i) ≡ true) ⊎ ((p.id == i) ≡ false)
        → R p
        → R' (if p.id == i then f p else p)
    chosen p (inl e) r = simp e (hit p e r)
    chosen p (inr e) r = simp e (miss p e r)

applied_hash_for-Leads : (R : Projection → Type 0) (op : Op) → Leads table R R (applied_hash_for op)
unfolding applied_hash_for get_projection
applied_hash_for-Leads R op = of op.desired_payload_hash
  where
    of :
        (h : Option Hash)
        → Leads table R R (applied_hash_for (record op { desired_payload_hash = h }))
    of none = Leads-bind table R R R _ _ (same_rows R) (λ db h. h) λ p db h. h
    of (some stamped) = λ db h. h

-- Recording a success leaves both generation columns alone.
pub record_success-Leads :
    (i now : ℕ) (op : Op) (gid etag : Text)
    → Leads table (IsWithin i) (IsWithin i) (record_success now op gid etag)
unfolding record_success applied
record_success-Leads i now op gid etag =
    Leads-bind table R R R _ _ (same_rows R) (applied_hash_for-Leads R op) λ hash.
      Leads-bind table R R R _ _ (same_rows R)
        (λ db h. set_projection-All R R op.projection_id _ db (λ p hit r. r) (λ p miss r. r) h)
        λ _ db h. h
  where
    R : Projection → Type 0
    R = IsWithin i

alert_once-All :
    (R : Projection → Type 0) (already : Bool) (a : Alert) (db : Db)
    → All R (table db)
    → All R (table (alert_once already a db))
unfolding alert_once
alert_once-All R true a db h = h
alert_once-All R false a db h = h

-- Giving up writes a generation within the ceiling.
pub give_up_burned_ids-IsWithin :
    (now : ℕ) (op : Op) (floor generation : ℕ) (db : Db)
    → generation ≤ floor + 50
    → All (StartsWithin op.projection_id floor) (table db)
    → All (IsWithin op.projection_id) (table (give_up_burned_ids now op generation db))
unfolding give_up_burned_ids mark_permanent_failure
give_up_burned_ids-IsWithin now op floor generation db low h = alert_once-All R _ _ _ (
    set_projection-All R R op.projection_id _
      (set_projection op.projection_id (λ p. record p { google_id_generation = generation }) db)
      (λ p hit r. r) (λ p miss r. r)
      (set_projection-All (StartsWithin op.projection_id floor) R op.projection_id _ db
        (λ p hit r same. let (e, le) = r same in ground arith)
        (λ p miss r. start-IsWithin op.projection_id floor p r) h))
  where
    R : Projection → Type 0
    R = IsWithin op.projection_id
