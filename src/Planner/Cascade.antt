-- ===== src/Planner/Cascade.antt =====
-- app/ledger/planner.py: the cascade from a series to its instance rows ends after one level.
use busybridge.Prelude.{
  ℕ, suc, ◌+◌, ◌≡◌, refl, ap, sym, subst, ◌∙◌, inl, inr, Bool, true, false, not, ◌&&◌, ◌||◌, some,
  List, [], ◌∷◌, ◌==◌, arith, if◌then◌else◌, Bool-cases, is_some, find_first, select, All,
}
use busybridge.Errors.{Result, ok, raise, Action, resume, ◌>>=◌, return, bind_at}
use busybridge.Ledger.{Event, released, Db}
use busybridge.Planner.Row.{Row, join_row, get_ledger_row}
use busybridge.Planner.Keeps.{plan_row-Keeps, plan-Keeps}
use busybridge.Planner.Plan.{
  Context, plan_row, is_uid, children_of, plan_each, replan_instance_children,
  plan_for_ledger_event,
}

-- The primary key of ledger_events: a row is the one that a search for its id finds.
abbrev pub IsEventKey : List Event → Type 0
IsEventKey es = All (λ e. find_first (λ x. x.id == e.id) es ≡ some e) es

-- An event that is an instance, as the table has it.
abbrev IsInstanceAt : List Event → Event → Type 0
IsInstanceAt es e =
    (find_first (λ x. x.id == e.id) es ≡ some e) × (is_some e.parent_canonical_uid ≡ true)

-- The rest of a plan, after the row was read.
abbrev planned : Context → Row → Action Db ℕ → Action Db ℕ
planned c r cascade =
    if elim r.status [ released ↦ true | _ ↦ false ]
    then return 0
    else (plan_row c r >>= λ written. cascade >>= λ more. return (written + more))

parent_of_join :
    (db : Db) (e : Event)
    → is_some e.parent_canonical_uid ≡ true
    → is_some (join_row db e).parent_canonical_uid ≡ true
unfolding join_row
parent_of_join db e h = h

if_true : {A : Type 0} (b : Bool) (x y : A) → b ≡ true → (if b then x else y) ≡ x
if_true true x y h = refl
if_true false x y h = absurd (ground arith)

no_cascade :
    (plan : ℕ → Action Db ℕ) (r : Row)
    → is_some r.parent_canonical_uid ≡ true
    → replan_instance_children plan r ≡ return 0
unfolding replan_instance_children
no_cascade plan r h =
    if_true (is_some r.parent_canonical_uid || not r.is_recurring) _ _ (ground arith)

row_found :
    (db : Db) (i : ℕ) (e : Event)
    → find_first (λ x. x.id == i) db.events ≡ some e
    → get_ledger_row db i ≡ ok (join_row db e)
unfolding get_ledger_row
row_found db i e found = rw found refl

-- An instance has no cascade, so its plan does not depend on the fuel that is left.
instance_plan :
    (c : Context) (depth : ℕ) (e : Event) (db : Db)
    → IsInstanceAt db.events e
    → plan_for_ledger_event c (suc depth) e.id db ≡ plan_for_ledger_event c 1 e.id db
unfolding plan_for_ledger_event
instance_plan c depth e db (found, instance) =
    let r = join_row db e in
    let got : ◌≡◌ {A = Result Row × Db} (get_ledger_row db e.id, db) (ok r, db) =
      ap (λ x. (x, db)) (row_found db e.id e found) in
    let same =
      no_cascade (plan_for_ledger_event c depth) r (parent_of_join db e instance)
      ∙ sym (no_cascade (plan_for_ledger_event c 0) r (parent_of_join db e instance)) in
    bind_at (λ (d : Db). (get_ledger_row d e.id, d)) _ db db r got
    ∙ ap (λ cascade. planned c r cascade db) same
    ∙ sym (bind_at (λ (d : Db). (get_ledger_row d e.id, d)) _ db db r got)

bind_cong :
    {A B : Type 0} (m m' : Action Db A) (k k' : A → Action Db B) (s : Db)
    → m s ≡ m' s
    → ((a : A) → k a (m' s).1 ≡ k' a (m' s).1)
    → (m >>= k) s ≡ (m' >>= k') s
unfolding ◌>>=◌
bind_cong {A} {B} m m' k k' s same next =
    ap (λ (x : Result A × Db). resume x.0 k x.1) same ∙ resumed (m' s).0
  where
    resumed : (r : Result A) → resume r k (m' s).1 ≡ resume r k' (m' s).1
    resumed (ok a) = next a
    resumed (raise e) = refl

plan_each-instances :
    (c : Context) (depth : ℕ) (es : List Event) (db : Db)
    → All (IsInstanceAt db.events) es
    → plan_each (plan_for_ledger_event c (suc depth)) es db
      ≡ plan_each (plan_for_ledger_event c 1) es db
unfolding plan_each
plan_each-instances c depth [] db h = refl
plan_each-instances c depth (e ∷ es) db h =
    bind_cong (plan_for_ledger_event c (suc depth) e.id) (plan_for_ledger_event c 1 e.id) _ _ db
      (instance_plan c depth e db h.0)
      λ n.
        bind_cong (plan_each (plan_for_ledger_event c (suc depth)) es)
          (plan_each (plan_for_ledger_event c 1) es) _ _ _
          (plan_each-instances c depth es _ (
            subst (λ (evs : List Event). All (IsInstanceAt evs) es)
              (sym ((plan-Keeps (λ d. d.events) (λ d ps. refl) c 1 e.id).at db)) h.1))
          λ m. refl

-- The children of a series are instances, under the primary key.
children-IsInstanceAt :
    (db : Db) (r : Row) → IsEventKey db.events → All (IsInstanceAt db.events) (children_of db r)
unfolding children_of select
children-IsInstanceAt db r keyed = chosen db.events keyed
  where
    q : Event → Bool
    q = λ e. e.user_id == r.user_id && is_uid e.parent_canonical_uid r.canonical_uid

    chosen :
        (es : List Event)
        → All (λ e. find_first (λ x. x.id == e.id) db.events ≡ some e) es
        → All (IsInstanceAt db.events) (select q es)
    chosen [] h = tt
    chosen (e ∷ es) h = elim (Bool-cases (q e)) [
      | inl hit ↦ simp hit ((h.0, ground arith), chosen es h.1)
      | inr miss ↦ simp miss (chosen es h.1)
    ]

if_cong :
    {A : Type 0} (b : Bool) (x y y' : Action Db A) (db : Db)
    → y db ≡ y' db
    → (if b then x else y) db ≡ (if b then x else y') db
if_cong true x y y' db h = refl
if_cong false x y y' db h = h

planned_cong :
    (c : Context) (r : Row) (cascade cascade' : Action Db ℕ) (db : Db)
    → ((after : Db) → after.events ≡ db.events → cascade after ≡ cascade' after)
    → planned c r cascade db ≡ planned c r cascade' db
planned_cong c r cascade cascade' db same =
    if_cong (elim r.status [ released ↦ true | _ ↦ false ]) _ _ _ db
      (bind_cong (plan_row c r) (plan_row c r) _ _ db refl λ written.
        bind_cong cascade cascade' _ _ _
          (same _ ((plan_row-Keeps (λ d. d.events) (λ d ps. refl) c r).at db)) λ more. refl)

cascade_cong :
    (c : Context) (depth : ℕ) (r : Row) (db : Db)
    → IsEventKey db.events
    → replan_instance_children (plan_for_ledger_event c (suc depth)) r db
      ≡ replan_instance_children (plan_for_ledger_event c 1) r db
unfolding replan_instance_children
cascade_cong c depth r db keyed =
    if_cong (is_some r.parent_canonical_uid || not r.is_recurring) _ _ _ db
      (plan_each-instances c depth (children_of db r) db (children-IsInstanceAt db r keyed))

-- Where ids are a key of ledger_events, the cascade ends after one level: planning an event with
-- more fuel than two gives what fuel two gives, the result and the database alike.
pub cascade_depth :
    (c : Context) (depth i : ℕ) (db : Db)
    → IsEventKey db.events
    → plan_for_ledger_event c (suc (suc depth)) i db ≡ plan_for_ledger_event c 2 i db
unfolding plan_for_ledger_event
cascade_depth c depth i db keyed =
    bind_cong (λ (d : Db). (get_ledger_row d i, d)) (λ (d : Db). (get_ledger_row d i, d)) _ _ db
      refl
      λ r.
        planned_cong c r (replan_instance_children (plan_for_ledger_event c (suc depth)) r)
          (replan_instance_children (plan_for_ledger_event c 1) r) db
          λ after kept. cascade_cong c depth r after (subst IsEventKey (sym kept) keyed)
