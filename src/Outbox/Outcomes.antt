-- ===== src/Outbox/Outcomes.antt =====
-- app/ledger/outbox.py: the outcome that an op's execution returns is the one that its row records.
use busybridge.Prelude.{
  ℕ, ◌≡◌, refl, ap, subst, Bool, true, false, Option, none, some, ◌==◌, arith, if◌then◌else◌, All,
  All-of-update_where, Text,
}
use busybridge.Errors.{Exn, Result, ok, raise, Action, ◌>>=◌, ◌>>◌, return, throw, >>=-eq-ok}
use busybridge.Ledger.{OpStatus, pending, done, superseded, permanent_failure, Alert, Op, Db}
use busybridge.Google.{GoogleClient, World, on_db, write}
use busybridge.Outbox.Retry.{
  Outcome, succeeded, retried, failed_permanent, superseded_by, classify, record_verdict,
  classify_and_retry,
}
use busybridge.Outbox.Record.{
  set_op, mark_retry, mark_permanent_failure, mark_superseded, record_absent, finish_op,
  applied_hash_for, record_success, record_origin_writeback_applied, request_projection_replan,
  alert_once, give_up_burned_ids,
}

-- The status by which outbox_operations records an outcome.
abbrev pub recorded : Outcome → OpStatus
recorded succeeded = done
recorded retried = pending
recorded failed_permanent = permanent_failure
recorded superseded_by = superseded

-- Every row with the op's id has the outcome's status.
pub record IsRecorded (op : Op) (o : Outcome) (db : Db) : Type 0 where
  pub rows : All (λ x. (x.id == op.id) ≡ true → x.status ≡ recorded o) db.operations

set_op-IsRecorded :
    (op : Op) (o : Outcome) (f : Op → Op) (db : Db)
    → ((x : Op) → (f x).status ≡ recorded o)
    → IsRecorded op o (set_op op.id f db)
set_op-IsRecorded op o f db status = record {
  rows =
      All-of-update_where (λ x. (x.id == op.id) ≡ true → x.status ≡ recorded o) (λ x. x.id == op.id)
        f db.operations (λ x hit same. status x) (λ x miss same. ground arith);
}

module _ (g : GoogleClient) {A : Type 0} (Q : A → Db → Type 0) where
  -- If the action returns a value, the database then stands in Q to it.
  pub record Yields (m : Action (World g) A) : Type 0 where
    pub at : (w w' : World g) (a : A) → m w ≡ (ok a, w') → Q a w'.db

  pub Yields-throw : (e : Exn) → Yields (throw e)
  Yields-throw e = record { at = λ w w' a h. absurd (ground arith) }

  pub Yields-bind :
      {B : Type 0} (m : Action (World g) B) (k : B → Action (World g) A)
      → ((b : B) → Yields (k b))
      → Yields (m >>= k)
  Yields-bind m k rest = record {
    at = λ w w' a h. let (b, t, did, next) = >>=-eq-ok m k w w' a h in (rest b).at t w' a next;
  }

  pub Yields-if :
      (b : Bool) (m n : Action (World g) A) → Yields m → Yields n → Yields (if b then m else n)
  Yields-if true m n hm hn = hm
  Yields-if false m n hm hn = hn

  pub Yields-Result :
      {B : Type 0} (x : Result B) (k : B → Action (World g) A) (h : Exn → Action (World g) A)
      → ((b : B) → Yields (k b))
      → ((e : Exn) → Yields (h e))
      → Yields (elim x [ ok b ↦ k b | raise e ↦ h e ])
  Yields-Result (ok b) k h hk hh = hk b
  Yields-Result (raise e) k h hk hh = hh e

  pub Yields-Option :
      {B : Type 0} (x : Option B) (m : Action (World g) A) (k : B → Action (World g) A)
      → Yields m
      → ((b : B) → Yields (k b))
      → Yields (elim x [ none ↦ m | some b ↦ k b ])
  Yields-Option none m k hm hk = hm
  Yields-Option (some b) m k hm hk = hk b

  -- An action that looks at the world first.
  pub Yields-read :
      (m : World g → Action (World g) A) → ((w : World g) → Yields (m w)) → Yields (λ w. m w w)
  Yields-read m h = record { at = λ w w' a e. (h w).at w w' a e }

  same_end :
      (a b : A) (w w' : World g)
      → ◌≡◌ {A = Result A × World g} (ok a, w) (ok b, w')
      → Q a w.db
      → Q b w'.db
  same_end a b w w' e h =
      let p : a ≡ b = ground arith in
      let q : w ≡ w' = ground arith in
      subst (λ v. Q v w'.db) p (subst (λ (v : World g). Q a v.db) q h)

  pub Yields-return : (a : A) → ((db : Db) → Q a db) → Yields (return a)
  Yields-return a h = record { at = λ w w' b e. same_end a b w w' e (h w.db) }

  -- A return keeps what holds of the database at hand.
  pub return-end : (a b : A) (w w' : World g) → Q a w.db → return a w ≡ (ok b, w') → Q b w'.db
  return-end a b w w' h e = same_end a b w w' e h

  pub Yields-write :
      (f : Db → Db) (a : A) → ((db : Db) → Q a (f db)) → Yields (write g f >> return a)
  unfolding write ◌>>=◌
  Yields-write f a h = record {
    at = λ w w' b e. same_end a b (record w { db = f w.db }) w' e (h w.db);
  }

  pub Yields-write_twice :
      (f f' : Db → Db) (a : A)
      → ((db : Db) → Q a (f' (f db)))
      → Yields (write g f >> (write g f' >> return a))
  unfolding write ◌>>=◌
  Yields-write_twice f f' a h = record {
    at = λ w w' b e. same_end a b (record w { db = f' (f w.db) }) w' e (h w.db);
  }

  pub Yields-on_db :
      (m : Action Db (Unit {0})) (a : A)
      → ((db db' : Db) → m db ≡ (ok tt, db') → Q a db')
      → Yields (on_db g m >> return a)
  unfolding on_db ◌>>=◌
  Yields-on_db m a h = record {
    at = λ w w' b e.
        let (u, t, did, next) = >>=-eq-ok (on_db g m) (λ _. return a) w w' b e in
        same_end a b t w' next (
          h w.db t.db (
            ap {B = Result (Unit {0}) × Db} (λ (p : Result (Unit {0}) × World g). (p.0, p.1.db))
              did));
  }

-- If the handler returns an outcome, the op's row records it.
abbrev pub Ends : (g : GoogleClient) → Op → Action (World g) Outcome → Type 0
Ends g op m = Yields g (IsRecorded op) m

-- The helpers that record an outcome.
module _ (now : ℕ) (op : Op) where
  end_of : {db db' : Db} → ◌≡◌ {A = Result (Unit {0}) × Db} (ok tt, db) (ok tt, db') → db ≡ db'
  end_of e = ap (λ (p : Result (Unit {0}) × Db). p.1) e

  finish_op-IsRecorded : (db : Db) → IsRecorded op succeeded (set_op op.id (finish_op now) db)
  finish_op-IsRecorded db =
      set_op-IsRecorded op succeeded (finish_op now) db (λ x. unfold finish_op in refl)

  pub record_success-IsRecorded :
      (gid etag : Text) (db db' : Db)
      → record_success now op gid etag db ≡ (ok tt, db')
      → IsRecorded op succeeded db'
  unfolding record_success ◌>>=◌
  record_success-IsRecorded gid etag db db' h =
      let (hash, mid, did, rest) = >>=-eq-ok (applied_hash_for op) _ db db' tt h in
      subst (IsRecorded op succeeded) (end_of rest) (finish_op-IsRecorded _)

  pub record_origin_writeback_applied-IsRecorded :
      (db db' : Db)
      → record_origin_writeback_applied now op db ≡ (ok tt, db')
      → IsRecorded op succeeded db'
  unfolding record_origin_writeback_applied ◌>>=◌
  record_origin_writeback_applied-IsRecorded db db' h =
      let (hash, mid, did, rest) = >>=-eq-ok (applied_hash_for op) _ db db' tt h in
      subst (IsRecorded op succeeded) (end_of rest) (finish_op-IsRecorded _)

  pub record_absent-IsRecorded : (db : Db) → IsRecorded op succeeded (record_absent now op db)
  unfolding record_absent
  record_absent-IsRecorded db = finish_op-IsRecorded _

  pub mark_superseded-IsRecorded :
      (error : Text) (status : ℕ) (db : Db)
      → IsRecorded op superseded_by (mark_superseded now op error status db)
  unfolding mark_superseded
  mark_superseded-IsRecorded error status db = set_op-IsRecorded op superseded_by _ db (λ x. refl)

  mark_retry-IsRecorded :
      (error : Text) (status : Option ℕ) (db : Db)
      → IsRecorded op retried (mark_retry now op error status db)
  unfolding mark_retry
  mark_retry-IsRecorded error status db = set_op-IsRecorded op retried _ db (λ x. refl)

  mark_permanent_failure-IsRecorded :
      (error : Text) (status : Option ℕ) (db : Db)
      → IsRecorded op failed_permanent (mark_permanent_failure now op error status db)
  unfolding mark_permanent_failure
  mark_permanent_failure-IsRecorded error status db = record {
    rows = (set_op-IsRecorded op failed_permanent _ db (λ x. refl)).rows;
  }

  alert_once-IsRecorded :
      (already : Bool) (a : Alert) (o : Outcome) (db : Db)
      → IsRecorded op o db
      → IsRecorded op o (alert_once already a db)
  unfolding alert_once
  alert_once-IsRecorded true a o db h = h
  alert_once-IsRecorded false a o db h = record { rows = h.rows }

  pub give_up_burned_ids-IsRecorded :
      (generation : ℕ) (db : Db)
      → IsRecorded op failed_permanent (give_up_burned_ids now op generation db)
  unfolding give_up_burned_ids
  give_up_burned_ids-IsRecorded generation db =
      search (alert_once-IsRecorded, mark_permanent_failure-IsRecorded)

  pub request_projection_replan-IsRecorded :
      (i : ℕ) (o : Outcome) (db : Db)
      → IsRecorded op o db
      → IsRecorded op o (request_projection_replan i db)
  unfolding request_projection_replan
  request_projection_replan-IsRecorded i o db h = record { rows = h.rows }

  record_verdict-IsRecorded :
      (v : Outcome) (e : Exn) (db : Db)
      → IsRecorded op (record_verdict v now op e db).0 (record_verdict v now op e db).1
  unfolding record_verdict
  record_verdict-IsRecorded failed_permanent e db =
      mark_permanent_failure-IsRecorded e.message e.status db
  record_verdict-IsRecorded v e db = mark_retry-IsRecorded e.message e.status db

  pub classify_and_retry-IsRecorded :
      (e : Exn) (db : Db)
      → IsRecorded op (classify_and_retry now op e db).0 (classify_and_retry now op e db).1
  unfolding classify_and_retry
  classify_and_retry-IsRecorded e db = record_verdict-IsRecorded (classify op e) e db
