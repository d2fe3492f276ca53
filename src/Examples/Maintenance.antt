-- ===== src/Examples/Maintenance.antt =====
-- app/maintenance.py: its theorems at a gate that is held.
use busybridge.Prelude.{ℕ, zero, suc, ◌⊎◌, arith}
use busybridge.Maintenance.{Gate, wait_for_reconcile_quiescence}
use busybridge.Maintenance.Quiescence.{Quiet, TimedOut, wait_ends}

abbrev held : Gate
held = record { depth = 1; running = 2 }

-- One pass ends before each poll.
abbrev draining : ℕ → Gate
draining zero = held
draining (suc zero) = record held { running = 1 }
draining (suc (suc i)) = record held { running = 0 }

wait_ends_example :
    Quiet 5 (λ t. t) draining 0 5 (wait_for_reconcile_quiescence 6 5 (λ t. t) draining 0)
    ⊎ TimedOut 5 (λ t. t) draining 0 5 (wait_for_reconcile_quiescence 6 5 (λ t. t) draining 0)
wait_ends_example = wait_ends 5 (λ t. t) draining 5 0 (omega arith)
