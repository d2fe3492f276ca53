-- ===== src/Planner/Replan.antt =====
-- app/ledger/planner.py: after a plan, ledger_projections holds what the plan computed.
use busybridge.Prelude.{
  ℕ, zero, suc, ◌≡◌, refl, ap, subst, ◌∙◌, inl, inr, Bool, true, false, ◌&&◌, some, List, [], ◌∷◌,
  ==-refl, arith, if◌then◌else◌, Option-cases, same_nullable, find_first, update_where, All,
  and_then, get_elem?, find_first-holds, find_first-update_where, All-of-update_where,
  All-get_elem?, any-get_elem?,
}
use busybridge.Errors.{ok, return, Result-cases, >>=-eq-ok, ◌>>=◌}
use busybridge.Ledger.{absent, Hash, absent_hash, Projection, Db, same_target}
use busybridge.Planner.Row.{Row}
use busybridge.Planner.Targets.{TargetState}
use busybridge.Planner.Persist.{
  Hasher, is_projection_of, upsert_rows, upsert_projection, upsert_all, is_settled_absent, is_kept,
  is_implicit_absent, make_absent, mark_implicit_absent,
}
use busybridge.Planner.Upsert.{
  IsKeyed, find_target, same_key, find-upsert_rows, find-upsert_rows_ne,
}
use busybridge.Planner.Keyed.{upsert_rows-IsKeyed}
use busybridge.Planner.Plan.{Context, targets_for, plan_row}

-- No two targets of the list have the same kind and calendar.
abbrev pub DistinctKeys : List TargetState → Type 0
DistinctKeys [] = Unit
DistinctKeys (t ∷ ts) = All (λ u. same_key u t ≡ false) ts × DistinctKeys ts

module _ (hasher : Hasher) (now : ℕ) (r : Row) where
  abbrev upserted : TargetState → Hash → Db → Db
  upserted t hash db = record db { projections = upsert_rows now r t hash db.projections }

  -- A loop that returned wrote its first target and went on.
  upsert_all-step :
      (t : TargetState) (ts : List TargetState) (db db' : Db) (n : ℕ)
      → upsert_all hasher now r (t ∷ ts) db ≡ (ok n, db')
      → (hash : Hash) × (m : ℕ) × (upsert_all hasher now r ts (upserted t hash db) ≡ (ok m, db'))
  unfolding upsert_all upsert_projection ◌>>=◌
  upsert_all-step t ts db db' n h = elim (Result-cases (hasher t.state r t.kind)) [
    | inl (hash, e) ↦
        let (m, db'', rest, done) =
          >>=-eq-ok (upsert_all hasher now r ts) (λ w. return (suc w)) (upserted t hash db) db' n
            (rw e at h) in
        (hash, m, ground arith)
    | inr (x, e) ↦ absurd (ground arith)
  ]

  pub upsert_all-IsKeyed :
      (ts : List TargetState) (db db' : Db) (n : ℕ)
      → IsKeyed db.projections
      → upsert_all hasher now r ts db ≡ (ok n, db')
      → IsKeyed db'.projections
  upsert_all-IsKeyed [] db db' n keyed h =
      let e : db ≡ db' = unfold upsert_all ◌>>=◌ in ground arith in
      subst (λ (d : Db). IsKeyed d.projections) e keyed
  upsert_all-IsKeyed (t ∷ ts) db db' n keyed h =
      let (hash, m, rest) = upsert_all-step t ts db db' n h in
      upsert_all-IsKeyed ts (upserted t hash db) db' m
        (upsert_rows-IsKeyed now r t hash db.projections keyed) rest

  upsert_all-ne :
      (ts : List TargetState) (u : TargetState) (db db' : Db) (n : ℕ)
      → IsKeyed db.projections
      → All (λ t. same_key t u ≡ false) ts
      → upsert_all hasher now r ts db ≡ (ok n, db')
      → find_target r u db'.projections ≡ find_target r u db.projections
  upsert_all-ne [] u db db' n keyed ne h = unfold upsert_all ◌>>=◌ in ground arith
  upsert_all-ne (t ∷ ts) u db db' n keyed ne h =
      let (hash, m, rest) = upsert_all-step t ts db db' n h in
      upsert_all-ne ts u (upserted t hash db) db' m
        (upsert_rows-IsKeyed now r t hash db.projections keyed) ne.1 rest
      ∙ find-upsert_rows_ne now r t u hash db.projections keyed ne.0

  upsert_all-realises :
      (ts : List TargetState) (db db' : Db) (n i : ℕ) (t : TargetState)
      → IsKeyed db.projections
      → DistinctKeys ts
      → upsert_all hasher now r ts db ≡ (ok n, db')
      → get_elem? ts i ≡ some t
      → (p : Projection) × (find_target r t db'.projections ≡ some p) × (p.desired_state ≡ t.state)
  upsert_all-realises [] db db' n i t keyed distinct h at = absurd (ground arith)
  upsert_all-realises (u ∷ ts) db db' n zero t keyed distinct h at =
      let (hash, m, rest) = upsert_all-step u ts db db' n h in
      let (p, found, state, _) = find-upsert_rows now r u hash db.projections in
      let kept =
        upsert_all-ne ts u (upserted u hash db) db' m
          (upsert_rows-IsKeyed now r u hash db.projections keyed) distinct.0 rest in
      (p, ground arith, ground arith)
  upsert_all-realises (u ∷ ts) db db' n (suc i) t keyed distinct h at =
      let (hash, m, rest) = upsert_all-step u ts db db' n h in
      upsert_all-realises ts (upserted u hash db) db' m i t
        (upsert_rows-IsKeyed now r u hash db.projections keyed) distinct.1 rest at

-- Rows that the plan keeps are found as before the implicit absences are marked.
find-mark_implicit_absent :
    (now version : ℕ) (r : Row) (ts : List TargetState) (i : ℕ) (t : TargetState)
    (ps : List Projection)
    → get_elem? ts i ≡ some t
    → find_target r t (mark_implicit_absent now r.id version ts ps) ≡ find_target r t ps
unfolding mark_implicit_absent
find-mark_implicit_absent now version r ts i t ps at = elim (Option-cases (find_target r t ps)) [
  | inl e ↦ ground (arith, written)
  | inr (p, e) ↦ ground (arith, written, kept p (find_first-holds q ps p e))
]
  where
    q : Projection → Bool
    q = is_projection_of r.id t.kind t.calendar_id

    written :
        find_first q (update_where (is_implicit_absent r.id ts) (make_absent now version) ps)
        ≡ and_then
            (find_first q ps)
            (λ x. some (if is_implicit_absent r.id ts x then make_absent now version x else x))
    written =
        find_first-update_where q (is_implicit_absent r.id ts) (make_absent now version) ps
          (λ x. unfold make_absent is_projection_of in refl)

    kept : (p : Projection) → q p ≡ true → is_implicit_absent r.id ts p ≡ false
    kept p h =
        unfold is_implicit_absent is_kept is_projection_of in
        ground (
          arith,
          any-get_elem?
              (λ (u : TargetState).
                same_target p.target_kind u.kind
                && same_nullable p.target_calendar_id u.calendar_id)
              ts i t at,
        )

-- What `plan_row` did, if it returned.
plan_row-steps :
    (c : Context) (r : Row) (ts : List TargetState) (db db' : Db) (n : ℕ)
    → targets_for c db r ≡ ok ts
    → plan_row c r db ≡ (ok n, db')
    → (mid : Db) × (upsert_all c.hasher c.now r ts db ≡ (ok n, mid))
      × (db'.projections ≡ mark_implicit_absent c.now r.id r.version ts mid.projections)
unfolding plan_row ◌>>=◌
plan_row-steps c r ts db db' n planned h =
    let (m, mid, did, e) =
      >>=-eq-ok (upsert_all c.hasher c.now r ts) _ db db' n (rw planned at h) in
    (mid, ground arith, ground arith)

-- When ids are a key of ledger_projections and no two targets agree, a plan that returns leaves, for
-- each target that it computed, a projection row that the target's lookup finds, with the computed
-- state as its desired state.
pub plan_row-realises :
    (c : Context) (r : Row) (ts : List TargetState) (db db' : Db) (n i : ℕ) (t : TargetState)
    → IsKeyed db.projections
    → DistinctKeys ts
    → targets_for c db r ≡ ok ts
    → plan_row c r db ≡ (ok n, db')
    → get_elem? ts i ≡ some t
    → (p : Projection) × (find_target r t db'.projections ≡ some p) × (p.desired_state ≡ t.state)
plan_row-realises c r ts db db' n i t keyed distinct planned h at =
    let (mid, did, e) = plan_row-steps c r ts db db' n planned h in
    let (p, found, state) =
      upsert_all-realises c.hasher c.now r ts db mid n i t keyed distinct did at in
    (
      p,
      ap (find_target r t) e
          ∙ find-mark_implicit_absent c.now r.version r ts i t mid.projections at
          ∙ found,
      state,
    )

settled-absent :
    (p : Projection)
    → is_settled_absent p ≡ true
    → (p.desired_state ≡ absent) × (p.desired_payload_hash ≡ absent_hash)
unfolding is_settled_absent
settled-absent p h = ground arith

mark_implicit_absent-All :
    (now version event : ℕ) (ts : List TargetState) (ps : List Projection)
    → All
        (λ p.
          p.ledger_event_id ≡ event
          → is_kept ts p ≡ false
          → (p.desired_state ≡ absent) × (p.desired_payload_hash ≡ absent_hash))
        (mark_implicit_absent now event version ts ps)
unfolding mark_implicit_absent
mark_implicit_absent-All now version event ts ps =
    All-of-update_where _ (is_implicit_absent event ts) (make_absent now version) ps
      (λ x hit mine dropped. unfold make_absent in (refl, refl))
      (λ x miss mine dropped.
        settled-absent x (unfold is_implicit_absent in ground (arith, ==-refl event)))

-- After a plan that returns, every projection of the event that is none of the computed targets is
-- desired absent, with the absent hash.
pub plan_row-absent :
    (c : Context) (r : Row) (ts : List TargetState) (db db' : Db) (n j : ℕ) (p : Projection)
    → targets_for c db r ≡ ok ts
    → plan_row c r db ≡ (ok n, db')
    → get_elem? db'.projections j ≡ some p
    → p.ledger_event_id ≡ r.id
    → is_kept ts p ≡ false
    → (p.desired_state ≡ absent) × (p.desired_payload_hash ≡ absent_hash)
plan_row-absent c r ts db db' n j p planned h at mine dropped =
    let (mid, did, e) = plan_row-steps c r ts db db' n planned h in
    All-get_elem? _ (mark_implicit_absent c.now r.id r.version ts mid.projections) j p
      (mark_implicit_absent-All c.now r.version r.id ts mid.projections) (rw e at at) mine dropped
