-- ===== src/Reconciler/Pause.antt =====
-- app/ledger/reconciler.py: the two pause flags, and the counters of a failed ingest.
use busybridge.Prelude.{
  ℕ, suc, Bool, Option, none, some, ◌==◌, any, if◌then◌else◌, Text, take, update_where, is_some,
}
use busybridge.Ledger.{SyncState, Db}

pub data PauseMode : Type 0 where
  global_pause user_pause : PauseMode

-- The global flag outranks the user's. The settings table is there.
unfoldable pub pause_mode : ℕ → Db → Option PauseMode
pause_mode user db =
    if db.sync_paused
    then some global_pause
    else if any (λ u. u == user) db.paused_users
    then some user_pause
    else none

unfoldable pub sync_is_paused : ℕ → Db → Bool
unfolding pause_mode
sync_is_paused user db = is_some (pause_mode user db)

unfoldable pub failed : ℕ → Text → SyncState → SyncState
failed now error s = record s {
  consecutive_failures = suc s.consecutive_failures;
  last_error = some (take 1000 error);
  last_incremental_sync = some now;
}

-- _bump_failure(client_calendar_id=…)
unfoldable pub bump_calendar_failure : ℕ → ℕ → Text → Db → Db
unfolding failed
bump_calendar_failure now calendar error db = record db {
  calendar_sync_states =
      update_where (λ s. s.owner == calendar) (failed now error) db.calendar_sync_states;
}

-- _bump_failure(user_id=…)
unfoldable pub bump_main_failure : ℕ → ℕ → Text → Db → Db
unfolding failed
bump_main_failure now user error db = record db {
  main_sync_states = update_where (λ s. s.owner == user) (failed now error) db.main_sync_states;
}
