-- ===== src/Planner/Keeps.antt =====
-- app/ledger/planner.py: planning writes ledger_projections and nothing else.
use busybridge.Prelude.{
  ℕ, zero, suc, ◌≡◌, refl, ◌∙◌, Bool, true, false, List, [], ◌∷◌, if◌then◌else◌,
}
use busybridge.Errors.{Result, ok, raise, Action, modify, resume, ◌>>=◌, return}
use busybridge.Ledger.{Event, Projection, Db}
use busybridge.Planner.Row.{Row, get_ledger_row}
use busybridge.Planner.Targets.{TargetState}
use busybridge.Planner.Persist.{Hasher, upsert_projection, upsert_all, mark_implicit_absent}
use busybridge.Planner.Plan.{
  Context, targets_for, plan_row, children_of, plan_each, replan_instance_children,
  plan_for_ledger_event,
}

-- What is observed of the database does not depend on the projections.
module _ {X : Type 0} (observe : Db → X)
    (blind : (db : Db) (ps : List Projection)
      → observe (record db { projections = ps }) ≡ observe db) where
  -- An action that leaves what is observed as it was.
  pub record Keeps {A : Type 0} (m : Action Db A) : Type 0 where
    pub at : (db : Db) → observe (m db).1 ≡ observe db

  Keeps-bind :
      {A B : Type 0} (m : Action Db A) (k : A → Action Db B)
      → Keeps m
      → ((a : A) → Keeps (k a))
      → Keeps (m >>= k)
  unfolding ◌>>=◌
  Keeps-bind {A} {B} m k hm hk = record { at = λ db. resumed (m db).0 (m db).1 ∙ hm.at db }
    where
      resumed : (r : Result A) (s : Db) → observe (resume r k s).1 ≡ observe s
      resumed (ok a) s = (hk a).at s
      resumed (raise e) s = refl

  Keeps-if :
      {A : Type 0} (b : Bool) (m n : Action Db A) → Keeps m → Keeps n → Keeps (if b then m else n)
  Keeps-if true m n hm hn = hm
  Keeps-if false m n hm hn = hn

  Keeps-read : {A : Type 0} (m : Db → Action Db A) → ((s : Db) → Keeps (m s)) → Keeps (λ s. m s s)
  Keeps-read m h = record { at = λ db. (h db).at db }

  pure-Keeps : {A : Type 0} (f : Db → Result A) → Keeps (λ db. (f db, db))
  pure-Keeps f = record { at = λ db. refl }

  write-Keeps : (f : Db → List Projection) → Keeps (modify λ db. record db { projections = f db })
  write-Keeps f = record { at = λ db. blind db (f db) }

  return-Keeps : (n : ℕ) → Keeps (return n)
  return-Keeps n = pure-Keeps λ db. ok n

  upsert_all-Keeps :
      (hasher : Hasher) (now : ℕ) (r : Row) (ts : List TargetState)
      → Keeps (upsert_all hasher now r ts)
  unfolding upsert_all upsert_projection
  upsert_all-Keeps hasher now r [] = return-Keeps 0
  upsert_all-Keeps hasher now r (t ∷ ts) =
      Keeps-bind (upsert_projection hasher now r t) _
        (Keeps-bind _ _ (pure-Keeps λ db. hasher t.state r t.kind) λ hash. write-Keeps _)
        λ _. Keeps-bind _ _ (upsert_all-Keeps hasher now r ts) λ n. return-Keeps _

  pub plan_row-Keeps : (c : Context) (r : Row) → Keeps (plan_row c r)
  unfolding plan_row
  plan_row-Keeps c r = Keeps-bind _ _ (pure-Keeps λ db. targets_for c db r) λ ts.
      Keeps-bind _ _ (upsert_all-Keeps c.hasher c.now r ts) λ n.
        Keeps-bind _ _
          (write-Keeps λ db. mark_implicit_absent c.now r.id r.version ts db.projections)
          λ _. return-Keeps n

  plan_each-Keeps :
      (plan : ℕ → Action Db ℕ) (es : List Event)
      → ((i : ℕ) → Keeps (plan i))
      → Keeps (plan_each plan es)
  unfolding plan_each
  plan_each-Keeps plan [] h = return-Keeps 0
  plan_each-Keeps plan (e ∷ es) h =
      Keeps-bind _ _ (h e.id) λ n. Keeps-bind _ _ (plan_each-Keeps plan es h) λ m. return-Keeps _

  pub plan-Keeps : (c : Context) (depth i : ℕ) → Keeps (plan_for_ledger_event c depth i)
  unfolding plan_for_ledger_event replan_instance_children
  plan-Keeps c zero i = pure-Keeps λ db. raise _
  plan-Keeps c (suc depth) i = Keeps-bind _ _ (pure-Keeps λ db. get_ledger_row db i) λ r.
      Keeps-if _ _ _ (return-Keeps 0) (
        Keeps-bind _ _ (plan_row-Keeps c r) λ n.
          Keeps-bind _ _
            (Keeps-if _ _ _ (return-Keeps 0)
              (Keeps-read _ λ db. plan_each-Keeps _ (children_of db r) (plan-Keeps c depth)))
            λ m. return-Keeps _)
