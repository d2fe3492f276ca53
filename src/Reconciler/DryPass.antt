-- ===== src/Reconciler/DryPass.antt =====
-- app/ledger/reconciler.py: a dry run of a paused user, from the snapshot to the discard.
use busybridge.Prelude.{
  ℕ, ◌+◌, ◌≡◌, refl, ap, ◌∙◌, inl, inr, arith, Bool-cases, Bool, true, false, not, ◌&&◌, ◌||◌, ◌==◌,
  Option, none, some, List, [], ◌∷◌, ◌++◌, select, any, All, All-map, All-append, Option-cases,
}
use busybridge.Errors.{Result, ok, raise, resume, ◌>>=◌, return}
use busybridge.Ledger.{Op, Projection, Event, Db}
use busybridge.Diff.Select.{Diverged, diverged_projections, select_diverged, event_at, is_diverged}
use busybridge.Diff.Decide.{Pass}
use busybridge.Diff.Pass.{
  diff_projection, diff_each, parents_first, is_instance, diff_and_enqueue_for_user,
}
use busybridge.Reconciler.DryRun.{Preview, snapshot_dry_run_outbox, discard_dry_run_outbox}
use busybridge.Reconciler.Undoable.{has_touched, IsUndoable, IsUndoable-refl}
use busybridge.Reconciler.Staging.{IsOwned, IsSound}
use busybridge.Reconciler.Staged.{IsBefore, All-both}
use busybridge.Reconciler.Discard.{All-select}
use busybridge.Reconciler.DryDiff.{diff_projection-Undoing}
use busybridge.Reconciler.Restore.{discard_undoes}

-- No id is there twice.
unfoldable pub has_distinct_ids : List Projection → Bool
has_distinct_ids [] = true
has_distinct_ids (p ∷ ps) = not (any (λ q. q.id == p.id) ps) && has_distinct_ids ps

unfoldable are_apart : List Diverged → Bool
are_apart [] = true
are_apart (d ∷ ds) = not (any (λ e. e.proj.id == d.proj.id) ds) && are_apart ds

-- The rows are of projections that were not written for, each of another one.
abbrev IsApart : List ℕ → List Diverged → Type 0
IsApart ts [] = Unit {0}
IsApart ts (d ∷ ds) = (has_touched ts d.proj.id ≡ false) × IsApart (d.proj.id ∷ ts) ds

module _ (user mark : ℕ) (os : List Op) (before : IsBefore user mark os) (c : Pass)
    (mine : c.user ≡ user) where
  diff_each-IsUndoable :
      (ts : List ℕ) (ds : List Diverged) (db : Db)
      → IsApart ts ds
      → All (λ d. All (IsOwned user d.proj.id) os) ds
      → IsUndoable user mark ts os db.operations
      → (ts' : List ℕ) × IsUndoable user mark ts' os (diff_each c ds db).1.operations
  unfolding diff_each ◌>>=◌
  diff_each-IsUndoable ts [] db apart owned u = (ts, u)
  diff_each-IsUndoable ts (d ∷ ds) db (new, apart) (own, owned) u =
      resumed (diff_projection c d db).0 (diff_projection c d db).1
        ((diff_projection-Undoing user mark os before c mine ts d.proj.id new own d refl).at db u)
        λ s v. diff_each-IsUndoable (d.proj.id ∷ ts) ds s apart owned v
    where
      counted :
          (n : ℕ) (r : Result ℕ) (s : Db) (ts' : List ℕ)
          → IsUndoable user mark ts' os s.operations
          → (ts'' : List ℕ) × IsUndoable user mark ts'' os
              (resume r (λ rest. return (n + rest)) s).1.operations
      counted n (ok m) s ts' v = (ts', v)
      counted n (raise e) s ts' v = (ts', v)

      resumed :
          (r : Result ℕ) (s : Db)
          → IsUndoable user mark (d.proj.id ∷ ts) os s.operations
          → ((t : Db)
              → IsUndoable user mark (d.proj.id ∷ ts) os t.operations
              → (ts' : List ℕ) × IsUndoable user mark ts' os (diff_each c ds t).1.operations)
          → (ts' : List ℕ) × IsUndoable user mark ts' os
              (resume r (λ n. diff_each c ds >>= λ rest. return (n + rest)) s).1.operations
      resumed (ok n) s v rest =
          let (ts', w) = rest s v in counted n (diff_each c ds s).0 (diff_each c ds s).1 ts' w
      resumed (raise e) s v rest = (d.proj.id ∷ ts, v)

-- Being apart does not depend on where a row stands.
any-insert :
    (p : Diverged → Bool) (d : Diverged) (xs ys : List Diverged)
    → any p (xs ++ d ∷ ys) ≡ (p d || any p (xs ++ ys))
unfolding any
any-insert p d [] ys = refl
any-insert p d (x ∷ xs) ys = ground (arith, any-insert p d xs ys)

==_sym : (a b : ℕ) → (a == b) ≡ (b == a)
==_sym a b = ground arith

apart_insert :
    (d : Diverged) (xs ys : List Diverged)
    → are_apart (d ∷ xs ++ ys) ≡ true
    → are_apart (xs ++ d ∷ ys) ≡ true
unfolding are_apart any
apart_insert d [] ys h = h
apart_insert d (x ∷ xs) ys h = ground (
  arith,
  any-insert (λ e. e.proj.id == x.proj.id) d xs ys,
  apart_insert d xs ys,
  ==_sym x.proj.id d.proj.id,
)

any-parents_first :
    (p : Diverged → Bool) (rows : List Diverged) → any p (parents_first rows) ≡ any p rows
unfolding parents_first select any
any-parents_first p [] = refl
any-parents_first p (d ∷ ds) = elim (Bool-cases (is_instance d)) [
  | inl e ↦ rw e (
      any-insert p d (select (λ x. not (is_instance x)) ds) (select is_instance ds)
      ∙ ap (λ b. p d || b) (any-parents_first p ds))
  | inr e ↦ rw e (ap (λ b. p d || b) (any-parents_first p ds))
]

apart-parents_first :
    (rows : List Diverged) → are_apart rows ≡ true → are_apart (parents_first rows) ≡ true
unfolding parents_first select are_apart
apart-parents_first [] h = refl
apart-parents_first (d ∷ ds) h =
    let rest = apart-parents_first ds (ground (arith, h)) in
    let same = any-parents_first (λ e. e.proj.id == d.proj.id) ds in
    let first : are_apart (d ∷ parents_first ds) ≡ true = ground (arith, h, rest, same) in
    elim (Bool-cases (is_instance d)) [
      | inl e ↦
          rw e (apart_insert d (select (λ x. not (is_instance x)) ds) (select is_instance ds) first)
      | inr e ↦ rw e first
    ]

All-of-any :
    {A : Type 0} (p : A → Bool) (xs : List A) → any p xs ≡ false → All (λ x. p x ≡ false) xs
unfolding any
All-of-any p [] h = tt
All-of-any p (x ∷ xs) h = (ground arith, All-of-any p xs (ground arith))

IsApart-of :
    (ts : List ℕ) (rows : List Diverged)
    → are_apart rows ≡ true
    → All (λ d. has_touched ts d.proj.id ≡ false) rows
    → IsApart ts rows
unfolding are_apart any
IsApart-of ts [] h k = tt
IsApart-of ts (d ∷ ds) h k = (
  k.0,
  IsApart-of (d.proj.id ∷ ts) ds (ground (arith, h)) (
      All-map _ _ ds (λ e f. ground (arith, f.0, f.1, ==_sym d.proj.id e.proj.id))
        (All-both _ _ ds (All-of-any (λ e. e.proj.id == d.proj.id) ds (ground (arith, h))) k.1)),
)

any-select_diverged :
    (user i : ℕ) (db : Db) (ps : List Projection)
    → any (λ q. q.id == i) ps ≡ false
    → any (λ e. e.proj.id == i) (select_diverged user db ps) ≡ false
unfolding select_diverged any
any-select_diverged user i db [] h = refl
any-select_diverged user i db (p ∷ ps) h = elim (Option-cases (event_at db p)) [
  | inl e ↦ ground (arith, any-select_diverged user i db ps)
  | inr (row, e) ↦ ground (arith, any-select_diverged user i db ps)
]

apart-select_diverged :
    (user : ℕ) (db : Db) (ps : List Projection)
    → has_distinct_ids ps ≡ true
    → are_apart (select_diverged user db ps) ≡ true
unfolding select_diverged has_distinct_ids are_apart
apart-select_diverged user db [] h = refl
apart-select_diverged user db (p ∷ ps) h =
    let rest = apart-select_diverged user db ps (ground (arith, h)) in
    let other = any-select_diverged user p.id db ps (ground (arith, h)) in
    elim (Option-cases (event_at db p)) [
      | inl e ↦ ground (arith, rest)
      | inr (row, e) ↦ ground (arith, rest, other)
    ]

abbrev is_of : Option Event → ℕ → Bool
is_of none user = false
is_of (some e) user = e.user_id == user

-- The projection of an operation is of an event of the operation's user.
unfoldable pub is_of_owner : Db → Op → Bool
is_of_owner db o =
    not (any (λ p. p.id == o.projection_id && not (is_of (event_at db p) o.user_id)) db.projections)

IsOwned-by :
    (user : ℕ) (db : Db) (p : Projection) (e : Event) (o : Op)
    → event_at db p ≡ some e
    → (e.user_id == user) ≡ true
    → (p.id == o.projection_id && not (is_of (event_at db p) o.user_id)) ≡ false
    → IsOwned user p.id o
IsOwned-by user db p e o found mine h =
    let h' : (p.id == o.projection_id && not (e.user_id == o.user_id)) ≡ false = rw found at h in
    ground arith

IsOwned-select :
    (user : ℕ) (db : Db) (os : List Op) (ps : List Projection)
    → All
        (λ o.
          any (λ p. p.id == o.projection_id && not (is_of (event_at db p) o.user_id)) ps ≡ false)
        os
    → All (λ d. All (IsOwned user d.proj.id) os) (select_diverged user db ps)
unfolding select_diverged any
IsOwned-select user db os [] h = tt
IsOwned-select user db os (p ∷ ps) h =
    let rest = IsOwned-select user db os ps (All-map _ _ os (λ o f. ground (arith, f)) h) in
    elim (Option-cases (event_at db p)) [
      | inl e ↦ rw e rest
      | inr (e, found) ↦ elim (Bool-cases (e.user_id == user && is_diverged p)) [
        | inl hit ↦
            rw (found, hit)
              (
                All-map _ _ os
                    (λ o f.
                      IsOwned-by user db p e o found (ground (arith, hit)) (ground (arith, f)))
                    h,
                rest,
              )
        | inr miss ↦ rw (found, miss) rest
      ]
    ]

All-parents_first {κ} :
    (P : Diverged → Type κ) (rows : List Diverged) → All P rows → All P (parents_first rows)
unfolding parents_first
All-parents_first P rows h =
    All-append P _ _ (All-select P _ rows (All-map _ _ rows (λ d p _. p) h))
      (All-select P _ rows (All-map _ _ rows (λ d p _. p) h))

none_touched : (rows : List Diverged) → All (λ d. has_touched [] d.proj.id ≡ false) rows
unfolding any
none_touched [] = tt
none_touched (d ∷ ds) = (refl, none_touched ds)

-- Whatever the diff of a pass does, and if it raises, the discard of a dry run returns a preview and
-- leaves outbox_operations exactly as it was when the snapshot was taken, where the rows that were
-- there are found by their ids and by their keys, are keyed by their projections, have payloads that
-- load, and belong to the users of their projections, whose ids are distinct.
pub discard_restores_outbox :
    (c : Pass) (db : Db)
    → All (IsSound db.operations) db.operations
    → has_distinct_ids db.projections ≡ true
    → All (λ o. is_of_owner db o ≡ true) db.operations
    → let staged = (diff_and_enqueue_for_user c db).1 in
      (ps : List Preview) × (discard_dry_run_outbox c.user
          (snapshot_dry_run_outbox c.user db)
          staged
        ≡ (ok ps, record staged { operations = db.operations }))
unfolding diff_and_enqueue_for_user diverged_projections snapshot_dry_run_outbox is_of_owner
discard_restores_outbox c db sound distinct owners =
    let os = db.operations in
    let rows = select_diverged c.user db db.projections in
    let apart =
      IsApart-of [] (parents_first rows)
        (apart-parents_first rows (apart-select_diverged c.user db db.projections distinct))
        (none_touched (parents_first rows)) in
    let owned = All-parents_first _ rows (
      IsOwned-select c.user db os db.projections
        (All-map _ _ os (λ o f. ground (arith, f)) owners)) in
    let (ts, u) =
      diff_each-IsUndoable c.user _ os (record { sound = sound; marked = refl }) c refl []
        (parents_first rows) db apart owned (IsUndoable-refl c.user _ [] os) in
    discard_undoes c.user os ts _ sound u
