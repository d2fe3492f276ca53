-- ===== src/Reconciler/Restore.antt =====
-- app/ledger/reconciler.py: `_discard_dry_run_outbox` returns, and leaves the outbox that the
-- snapshot was taken of.
use busybridge.Prelude.{
  ℕ, max, ◌≤◌, ◌≡◌, refl, ap, subst, ◌∙◌, inl, inr, arith, Bool-cases, Bool, true, false, ◌==◌,
  Option, none, some, List, [], ◌∷◌, select, find_first, find_first-holds, All, All-map,
  All-find_first, Option-cases,
}
use busybridge.Errors.{Result, ok, raise, is_ok, bind_at, Result-cases}
use busybridge.Ledger.{Op, Projection, Event, Db}
use busybridge.Outbox.Drain.{loads}
use busybridge.Reconciler.DryRun.{
  watermark, changed_rows, is_old, is_new, Preview, joined, joined_event, both, preview_rows, undo,
  previewed, discard_dry_run_outbox,
}
use busybridge.Reconciler.Undoable.{IsUndoable}
use busybridge.Reconciler.Staging.{IsSound}
use busybridge.Reconciler.Staged.{IsBefore, All-both}
use busybridge.Reconciler.Discard.{
  All-select, find_first-select, All-of-select, IsSeen, IsKnown, changed_rows-IsListed,
  old_rows_found, undo_undoable,
}

-- The user's rows are not above the watermark.
below_watermark :
    (user mark : ℕ) (os : List Op)
    → watermark (select (λ o. o.user_id == user) os) ≤ mark
    → All (λ o. is_new user mark o ≡ false) os
unfolding watermark select is_new
below_watermark user mark [] h = tt
below_watermark user mark (o ∷ os) h = elim (Bool-cases (o.user_id == user)) [
  | inl e ↦
      let h' : max o.id (watermark (select (λ x. x.user_id == user) os)) ≤ mark = rw e at h in
      (ground (arith, h'), below_watermark user mark os (omega (arith, h')))
  | inr e ↦ (ground (arith, e), below_watermark user mark os (rw e at h))
]

-- A row of the snapshot is the user's, and found by its id.
snapshot_rows :
    (user : ℕ) (os xs : List Op)
    → All (IsSound os) xs
    → All
        (λ s. (find_first (λ x. x.id == s.id) os ≡ some s) × ((s.user_id == user) ≡ true))
        (select (λ o. o.user_id == user) xs)
snapshot_rows user os xs h =
    All-select _ (λ o. o.user_id == user) xs (All-map _ _ xs (λ o s e. (s.found_by_id, e)) h)

IsSeen-of :
    (user : ℕ) (os : List Op) (o : Op)
    → All (IsSound os) os
    → IsSound os o
    → IsSeen user (select (λ x. x.user_id == user) os) o
IsSeen-of user os o sound s = elim (Bool-cases (o.user_id == user)) [
  | inl e ↦
      inl (find_first-select (λ x. x.id == o.id) (λ x. x.user_id == user) os o s.found_by_id e)
  | inr e ↦
      elim (Option-cases (find_first (λ x. x.id == o.id) (select (λ x. x.user_id == user) os))) [
        | inl missing ↦ inr (missing, e)
        | inr (t, found) ↦
            let (by_id, mine) =
              All-find_first _ (λ x. x.id == o.id) _ t (snapshot_rows user os os sound) found in
            let hit = find_first-holds (λ x. x.id == o.id) _ t found in
            let same : t.id ≡ o.id = ground arith in
            absurd (
              ground (
                arith,
                mine,
                e,
                subst (λ i. find_first (λ x. x.id == i) os ≡ some t) same by_id,
                s.found_by_id,
              ))
      ]
]

pub known :
    (user mark : ℕ) (os : List Op)
    → IsBefore user mark os
    → All (IsKnown user mark (select (λ x. x.user_id == user) os)) os
known user mark os before =
    All-map _ _ os (λ o f. record { below = f.0; seen = IsSeen-of user os o before.sound f.1 })
      (All-both _ _ os (below_watermark user mark os (ground (arith, before.marked))) before.sound)

-- Every row of an undoable outbox has a payload that loads.
readable :
    (user mark : ℕ) (ts : List ℕ) (os os' : List Op)
    → All (λ o. is_ok (loads o.payload_json) ≡ true) os
    → IsUndoable user mark ts os os'
    → All (λ o. is_ok (loads o.payload_json) ≡ true) os'
readable user mark ts [] news h u = All-map _ _ news (λ n f. f.can_load) u
readable user mark ts (o ∷ os) [] h u = absurd u
readable user mark ts (o ∷ os) (o' ∷ os') h (inl e, u) =
    (rw e h.0, readable user mark ts os os' h.1 u)
readable user mark ts (o ∷ os) (o' ∷ os') h (inr c, u) =
    (c.readable, readable user mark ts os os' h.1 u)

joined_event_ok :
    (o : Op) (p : Projection) (e : Option Event)
    → is_ok (loads o.payload_json) ≡ true
    → is_ok (joined_event o p e) ≡ true
joined_event_ok o p none h = refl
joined_event_ok o p (some e) h = elim (Result-cases (loads o.payload_json)) [
  | inl (d, f) ↦ rw f refl
  | inr (x, f) ↦ absurd (ground (arith, h, f))
]

joined_ok :
    (db : Db) (o : Op) (p : Option Projection)
    → is_ok (loads o.payload_json) ≡ true
    → is_ok (joined db o p) ≡ true
joined_ok db o none h = refl
joined_ok db o (some p) h = joined_event_ok o p _ h

both_ok : (r s : Result (List Preview)) → is_ok r ≡ true → is_ok s ≡ true → is_ok (both r s) ≡ true
both_ok (ok ps) (ok qs) h k = refl
both_ok (ok ps) (raise e) h k = k
both_ok (raise e) s h k = h

preview_rows_ok :
    (db : Db) (rows : List Op)
    → All (λ o. is_ok (loads o.payload_json) ≡ true) rows
    → is_ok (preview_rows db rows) ≡ true
unfolding preview_rows
preview_rows_ok db [] h = refl
preview_rows_ok db (o ∷ os) h = both_ok _ _ (joined_ok db o _ h.0) (preview_rows_ok db os h.1)

preview_returns :
    (db : Db) (rows : List Op)
    → All (λ o. is_ok (loads o.payload_json) ≡ true) rows
    → (ps : List Preview) × (preview_rows db rows ≡ ok ps)
preview_returns db rows h = elim (Result-cases (preview_rows db rows)) [
  | inl found ↦ found
  | inr (x, e) ↦ absurd (ground (arith, preview_rows_ok db rows h, e))
]

All-of-All {κ} :
    {A : Type 0} (P : A → Type κ) (q : A → Bool) (xs : List A) → All P xs → All P (select q xs)
All-of-All P q xs h = All-select P q xs (All-map _ _ xs (λ x p _. p) h)

discard_run :
    (user : ℕ) (snapshot cs os : List Op) (ps : List Preview) (db : Db)
    → changed_rows snapshot (select (is_old user (watermark snapshot)) db.operations) ≡ ok cs
    → preview_rows db (previewed user snapshot cs db.operations) ≡ ok ps
    → undo user snapshot cs db.operations ≡ os
    → discard_dry_run_outbox user snapshot db ≡ (ok ps, record db { operations = os })
unfolding discard_dry_run_outbox
discard_run user snapshot cs os ps db changed shown back =
    bind_at _ _ db db cs (ap (λ r. (r, db)) changed)
    ∙ (bind_at _ _ db db ps (ap (λ r. (r, db)) shown)
        ∙ (bind_at _ _ db (record db { operations = undo user snapshot cs db.operations }) tt refl
            ∙ ap (λ o. (ok ps, record db { operations = o })) back))

readable_preview :
    (user : ℕ) (snapshot cs ops : List Op)
    → All (λ o. is_ok (loads o.payload_json) ≡ true) ops
    → All (λ o. is_ok (loads o.payload_json) ≡ true) (previewed user snapshot cs ops)
unfolding previewed
readable_preview user snapshot cs ops h = All-of-All _ _ ops h

module _ (user : ℕ) (os : List Op) where
  abbrev snap : List Op
  snap = select (λ x. x.user_id == user) os

  -- The discard of an undoable outbox returns a preview, and puts the earlier outbox back.
  pub discard_undoes :
      (ts : List ℕ) (db : Db)
      → All (IsSound os) os
      → IsUndoable user (watermark snap) ts os db.operations
      → (ps : List Preview) × (discard_dry_run_outbox user snap db
          ≡ (ok ps, record db { operations = os }))
  unfolding undo
  discard_undoes ts db sound u =
      let before : IsBefore user (watermark snap) os = record { sound = sound; marked = refl } in
      let facts = known user (watermark snap) os before in
      let (cs, changed, listed) =
        changed_rows-IsListed snap (select (is_old user (watermark snap)) db.operations) (
          All-select _ _ db.operations
            (old_rows_found user (watermark snap) ts snap os db.operations facts u)) in
      let (ps, shown) = preview_returns db (previewed user snap cs db.operations) (
        readable_preview user snap cs db.operations (
          readable user (watermark snap) ts os db.operations
            (All-map _ _ os (λ o f. f.can_load) sound) u)) in
      let back =
        undo_undoable user (watermark snap) ts snap cs os db.operations facts u
          (All-of-select _ (is_old user (watermark snap)) db.operations listed) in
      (ps, discard_run user snap cs os ps db changed shown back)
