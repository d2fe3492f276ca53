-- ===== src/Ingest/MainPass.antt =====
-- app/ledger/ingest/main.py: `ingest_main_calendar` and its `_get_or_create_sync_state`. The pages and
-- the scan of the recurring series are those of a client calendar, over another event handler and
-- another table of sync states.
use busybridge.Prelude.{
  ℕ, Bool, Option, none, some, [], ◌∷◌, ◌++◌, ◌==◌, Text, codes, find_first, update_where,
}
use busybridge.Errors.{Action, ◌>>=◌, ◌>>◌, return, modify}
use busybridge.Json.{Fields}
use busybridge.Ledger.{Db, SyncState}
use busybridge.Google.{GoogleClient, World, on_db}
use busybridge.Reconciler.Audit.{record_affected}
use busybridge.Ingest.Instance.{Outcome}
use busybridge.Ingest.MainEdits.{MainReader}
use busybridge.Ingest.Main.{ingest_one_main_event}
use busybridge.Ingest.Gather.{Tally}
use busybridge.Ingest.Pass.{advanced, blank_state, list_pages, no_counts, on_rows, scanned, start}

abbrev created_main_state : ℕ → Option SyncState → Db → SyncState × Db
created_main_state user (some s) db = (s, db)
created_main_state user none db = (
  blank_state user,
  record db { main_sync_states = db.main_sync_states ++ blank_state user ∷ [] },
)

unfoldable pub get_or_create_main_state : ℕ → Db → SyncState × Db
get_or_create_main_state user db =
    created_main_state user (find_first (λ s. s.owner == user) db.main_sync_states) db

-- The UPDATE that ends a pass.
unfoldable pub advance_main : ℕ → ℕ → Bool → Option Text → Db → Db
unfolding advanced
advance_main now user full token db = record db {
  main_sync_states =
      update_where (λ s. s.owner == user) (advanced now full token) db.main_sync_states;
}

abbrev main_counters : Tally
main_counters = no_counts (
    codes "seen"
    ∷ codes "native_created"
    ∷ codes "native_updated"
    ∷ codes "user_deletes"
    ∷ codes "our_writes_skipped"
    ∷ codes "skipped"
    ∷ codes "cancelled_native"
    ∷ codes "failed"
    ∷ [])

module _ (g : GoogleClient) (c : MainReader)
    (managed_instance : Fields → Text → Action Db Outcome) where
  abbrev one : Fields → Action Db Outcome
  one = ingest_one_main_event c managed_instance

  unfoldable pub ingest_main_calendar : ℕ → ℕ → Text → Action (World g) Tally
  unfolding get_or_create_main_state list_pages scanned record_affected advance_main on_db
      ingest_one_main_event
  ingest_main_calendar fuel last google_main_calendar_id = do
    state ← on_rows g (get_or_create_main_state c.reader.user_id)
    listed ←
        list_pages g one google_main_calendar_id fuel state.sync_token none
          (start g one google_main_calendar_id state main_counters)
    out ← scanned g one google_main_calendar_id fuel listed
    on_db g (modify (record_affected last c.reader.user_id out.0.affected))
    on_db g (modify (advance_main c.reader.now c.reader.user_id out.0.full_sync out.1))
    return out.0.counters
