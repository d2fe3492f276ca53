-- ===== src/Diff/Convergence.antt =====
-- app/ledger/diff.py: what a pass leaves alone, and that it makes progress.
use busybridge.Prelude.{
  ℕ, ◌≡◌, refl, inl, inr, true, false, some, List, [], ◌∷◌, arith, ◌==◌, ==-refl, Option-cases,
  select, All-of-update_where, get_elem?, any, All-get_elem?,
}
use busybridge.Errors.{ok}
use busybridge.Ledger.{Projection, Hash, Db, sha, absent_hash, same_hash}
use busybridge.Diff.Select.{Diverged, is_diverged, event_at, select_diverged, diverged_projections}
use busybridge.Diff.Decide.{Pass}
use busybridge.Diff.Pass.{
  snapped, snap_applied, converge, diff_each, parents_first, diff_and_enqueue_for_user,
  clear_converged_writeback_flag,
}
use busybridge.Diff.Safety.{converge-operations}

same_hash_refl : (h : Hash) → same_hash h h ≡ true
same_hash_refl absent_hash = refl
same_hash_refl (sha n) = ==-refl n

snapped-converged :
    (wall : ℕ) (p : Projection) → is_diverged (snapped wall p.desired_ledger_version p) ≡ false
unfolding is_diverged snapped
snapped-converged wall p =
    ground (arith, ==-refl p.desired_ledger_version, same_hash_refl p.desired_payload_hash)

-- After a projection is snapped, a row with its id that wants the same version is not diverged.
pub snap_applied-converges :
    (wall j : ℕ) (p q : Projection) (db : Db)
    → get_elem? (snap_applied wall p db).projections j ≡ some q
    → q.id ≡ p.id
    → q.desired_ledger_version ≡ p.desired_ledger_version
    → is_diverged q ≡ false
unfolding snap_applied snapped is_diverged
snap_applied-converges wall j p q db at same version =
    All-get_elem?
      (λ x.
        (x.id == p.id) ≡ true
        → x.desired_ledger_version ≡ p.desired_ledger_version
        → is_diverged x ≡ false)
      _ j q
      (All-of-update_where _ (λ x. x.id == p.id) (snapped wall p.desired_ledger_version)
        db.projections
        (λ x hit same_id wants.
          ground (arith, ==-refl p.desired_ledger_version, same_hash_refl x.desired_payload_hash))
        (λ x miss same_id. ground arith))
      at (ground arith) version

no_row_selected :
    (user : ℕ) (db : Db) (ps : List Projection)
    → any is_diverged ps ≡ false
    → select_diverged user db ps ≡ []
unfolding select_diverged any
no_row_selected user db [] h = refl
no_row_selected user db (p ∷ ps) h = elim (Option-cases (event_at db p)) [
  | inl e ↦ ground (arith, no_row_selected user db ps)
  | inr (row, e) ↦ ground (arith, no_row_selected user db ps)
]

-- When no projection is diverged, a pass of the diff enqueues nothing and changes nothing.
pub diff_when_converged :
    (c : Pass) (db : Db)
    → any is_diverged db.projections ≡ false
    → diff_and_enqueue_for_user c db ≡ (ok 0, db)
unfolding diff_and_enqueue_for_user diverged_projections parents_first select diff_each
diff_when_converged c db h = rw (no_row_selected c.user db db.projections h) refl

-- A projection that is settled without an operation leaves the queue alone, and afterwards no row
-- with its id that wants the same version is diverged.
pub converge-settles :
    (c : Pass) (d : Diverged) (db : Db) (j : ℕ) (q : Projection)
    → get_elem? (converge c d db).projections j ≡ some q
    → q.id ≡ d.proj.id
    → q.desired_ledger_version ≡ d.proj.desired_ledger_version
    → (is_diverged q ≡ false) × ((converge c d db).operations ≡ db.operations)
unfolding converge
converge-settles c d db j q at same version = (
  snap_applied-converges c.wall_clock j d.proj q (clear_converged_writeback_flag d db) at same
      version,
  converge-operations c d db,
)
