-- ===== src/Maintenance.antt =====
-- app/maintenance.py: the gate that a restore of the database closes, and its callers in
-- app/ledger/runtime.py. The interpreter runs one of these functions at a time.
use busybridge.Prelude.{
  ℕ, zero, suc, ◌+◌, ◌-◌, ◌≤◌, ◌≡◌, refl, arith, Bool, true, false, not, ◌&&◌, Option, none, some,
  ltb, leb, ◌==◌, if◌then◌else◌, codes,
}
use busybridge.Errors.{Result, ok, raise, other_error}
pub mod Quiescence

-- The module's two globals.
pub record Gate : Type 0 where
  -- _maintenance_depth
  pub depth : ℕ
  -- _active_reconciles
  pub running : ℕ

unfoldable pub enter_maintenance : Gate → Gate
enter_maintenance s = record s { depth = suc s.depth }

unfoldable pub exit_maintenance : Gate → Gate
exit_maintenance s = if s.depth == 0 then s else record s { depth = s.depth - 1 }

unfoldable pub in_maintenance : Gate → Bool
in_maintenance s = ltb 0 s.depth

-- track_reconcile, before and after the pass.
unfoldable pub begin_reconcile : Gate → Gate
begin_reconcile s = record s { running = suc s.running }

unfoldable pub end_reconcile : Gate → Gate
end_reconcile s = record s { running = s.running - 1 }

-- How a pass begins in reconcile_user_by_id: the test and the count have no await between them.
unfoldable pub start_pass : Bool → Gate → Option Gate
unfolding in_maintenance begin_reconcile
start_pass allow_in_maintenance s =
    if in_maintenance s && not allow_in_maintenance then none else some (begin_reconcile s)

-- wait_for_reconcile_quiescence: at each poll the clock and the gate are read; on fuel, and none
-- where it is used up. It returns the poll at which it ended.
unfoldable pub wait_for_reconcile_quiescence : ℕ → ℕ → (ℕ → ℕ) → (ℕ → Gate) → ℕ → Option (Result ℕ)
wait_for_reconcile_quiescence zero deadline clock gate_at poll = none
wait_for_reconcile_quiescence (suc fuel) deadline clock gate_at poll =
    let rest = wait_for_reconcile_quiescence fuel deadline clock gate_at (suc poll) in
    if (gate_at poll).running == 0
    then some (ok poll)
    else if leb deadline (clock poll)
    then some (raise (other_error (codes "TimeoutError")))
    else rest
