-- ===== src/Ingest/Pass.antt =====
-- app/ledger/ingest/client.py: `ingest_client_calendar`, `scan_full_sync_recurring_cancellations` and
-- `_get_or_create_sync_state`; app/ledger/ingest/personal.py: `ingest_personal_calendar`, whose pass
-- is the same over another `ingest_one`. Pages are asked for with fuel; using it up raises.
use busybridge.Prelude.{
  ℕ, zero, suc, Bool, true, false, Option, none, some, List, [], ◌∷◌, ◌++◌, ◌==◌, if◌then◌else◌,
  Text, codes, truthy, is_none, find_first, update_where,
}
use busybridge.Errors.{Exn, Result, ok, raise, other_error, Action, ◌>>=◌, ◌>>◌, return, modify}
use busybridge.Json.{Fields}
use busybridge.Ledger.{Db, SyncState}
use busybridge.Google.{GoogleClient, World, Listing, Page, on_google, on_db}
use busybridge.Reconciler.Audit.{record_affected}
use busybridge.Ingest.Rows.{Reader}
use busybridge.Ingest.Instance.{Outcome}
use busybridge.Ingest.Client.{ingest_one_event}
use busybridge.Ingest.Personal.{ingest_one}
use busybridge.Ingest.Gather.{Tally, Gathered, ingest_events, ingest_tombstones}

abbrev pub blank_state : ℕ → SyncState
blank_state calendar = record {
  owner = calendar;
  sync_token = none;
  last_full_sync = none;
  last_incremental_sync = none;
  consecutive_failures = 0;
  last_error = none;
}

abbrev pub created_state : ℕ → Option SyncState → Db → SyncState × Db
created_state calendar (some s) db = (s, db)
created_state calendar none db = (
  blank_state calendar,
  record db { calendar_sync_states = db.calendar_sync_states ++ blank_state calendar ∷ [] },
)

unfoldable pub get_or_create_sync_state : ℕ → Db → SyncState × Db
get_or_create_sync_state calendar db =
    created_state calendar (find_first (λ s. s.owner == calendar) db.calendar_sync_states) db

-- The UPDATE that ends a pass.
unfoldable pub advanced : ℕ → Bool → Option Text → SyncState → SyncState
advanced now full token s = record s {
  sync_token = token;
  last_full_sync = if full then some now else s.last_full_sync;
  last_incremental_sync = some now;
  consecutive_failures = 0;
  last_error = none;
}

unfoldable pub advance : ℕ → ℕ → Bool → Option Text → Db → Db
unfolding advanced
advance now calendar full token db = record db {
  calendar_sync_states =
      update_where (λ s. s.owner == calendar) (advanced now full token) db.calendar_sync_states;
}

abbrev pub is_expired : Exn → Bool
is_expired e = elim e.status [ none ↦ false | some n ↦ n == 410 ]

abbrev pub no_counts : List Text → Tally
no_counts [] = []
no_counts (w ∷ ws) = (w, 0) ∷ no_counts ws

abbrev pub client_counters : Tally
client_counters = no_counts (
    codes "seen"
    ∷ codes "created"
    ∷ codes "updated"
    ∷ codes "skipped"
    ∷ codes "cancelled"
    ∷ codes "failed"
    ∷ [])

abbrev pub personal_counters : Tally
personal_counters = no_counts (
    codes "seen"
    ∷ codes "created"
    ∷ codes "updated"
    ∷ codes "rekeyed"
    ∷ codes "cancelled"
    ∷ codes "skipped"
    ∷ codes "failed"
    ∷ [])

module _ (g : GoogleClient) where
  abbrev pub on_rows : {A : Type 0} → (Db → A × Db) → Action (World g) A
  on_rows f w = let (a, d) = f w.db in (ok a, record w { db = d })

  abbrev pub listing : ℕ → Option Text → Option Text → Listing
  listing max_results sync_token page_token = record {
    sync_token = sync_token;
    time_min = none;
    time_max = none;
    max_results = max_results;
    single_events = false;
    page_token = page_token;
    show_deleted = true;
  }

  module _ (one : Fields → Action Db Outcome) (google_calendar_id : Text) where
    -- A page of a series, with what follows another page.
    unfoldable pub scan_page :
        (Option Text → Gathered → Action (World g) (Gathered × Bool))
        → Result Page
        → Gathered
        → Action (World g) (Gathered × Bool)
    unfolding ingest_tombstones
    scan_page more (raise e) s w = (ok (s, true), w)
    scan_page more (ok page) s w =
        let (s', db) = ingest_tombstones one page.items s w.db in
        let after = record w { db = db } in
        if truthy page.next_page_token
        then more page.next_page_token s' after
        else (ok (s', false), after)

    -- The pages of one series, and whether a listing failed.
    unfoldable pub scan_parent :
        ℕ → Text → Option Text → Gathered → Action (World g) (Gathered × Bool)
    unfolding scan_page on_google
    scan_parent zero parent token s w = (raise (other_error (codes "too many pages")), w)
    scan_parent (suc fuel) parent token s w =
        let (r, w') =
          on_google g (g.list_instances google_calendar_id parent (listing 2500 none token)) w in
        scan_page (scan_parent fuel parent) r s w'

    -- The number of series whose scan failed.
    unfoldable pub scan_parents : ℕ → List Text → Gathered → Action (World g) (Gathered × ℕ)
    unfolding scan_parent
    scan_parents fuel [] s = return (s, 0)
    scan_parents fuel (p ∷ ps) s = do
      first ← scan_parent fuel p none s
      rest ← scan_parents fuel ps first.0
      return (rest.0, if first.1 then suc rest.1 else rest.1)

    abbrev pub next_page :
        (Option Text → Gathered → Action (World g) (Gathered × Option Text))
        → Option Text
        → Option Text
        → Gathered
        → Action (World g) (Gathered × Option Text)
    next_page more (some t) sync s w = more (some t) s w
    next_page more none sync s w = (ok (s, sync), w)

    -- A page, with what follows another page, and what an expired token leads to.
    unfoldable pub take_page :
        (Option Text → Option Text → Gathered → Action (World g) (Gathered × Option Text))
        → Option Text
        → Result Page
        → Gathered
        → Action (World g) (Gathered × Option Text)
    unfolding ingest_events
    take_page more sync_token (raise e) s w =
        if is_expired e
        then more none none (record s { full_sync = true; parents = [] }) w
        else (raise e, w)
    take_page more sync_token (ok page) s w =
        let (s', db) = ingest_events one page.items s w.db in
        next_page (more sync_token) page.next_page_token page.next_sync_token s'
          (record w { db = db })

    -- The loop over the pages. An expired token starts again with a full sync, without one.
    unfoldable pub list_pages :
        ℕ → Option Text → Option Text → Gathered → Action (World g) (Gathered × Option Text)
    unfolding take_page on_google
    list_pages zero sync_token token s w = (raise (other_error (codes "too many pages")), w)
    list_pages (suc fuel) sync_token token s w =
        let (r, w') =
          on_google g (g.list_events google_calendar_id (listing 250 sync_token token)) w in
        take_page (list_pages fuel) sync_token r s w'

    abbrev pub held_back : Option Text → Gathered × ℕ → Gathered × Option Text
    held_back token (s, failed) = (s, if failed == 0 then token else none)

    abbrev pub scanned_if :
        Bool → ℕ → Gathered → Option Text → Action (World g) (Gathered × Option Text)
    scanned_if true fuel s token =
        scan_parents fuel s.parents s >>= (λ out. return (held_back token out))
    scanned_if false fuel s token = return (s, token)

    -- After a full sync the series are scanned. A failed scan holds the token back.
    unfoldable pub scanned : ℕ → Gathered × Option Text → Action (World g) (Gathered × Option Text)
    unfolding scan_parents
    scanned fuel (s, token) = scanned_if s.full_sync fuel s token

    abbrev pub start : SyncState → Tally → Gathered
    start state counters = record {
      counters = counters;
      affected = [];
      parents = [];
      full_sync = is_none state.sync_token;
    }

    unfoldable pub ingest_calendar : ℕ → ℕ → ℕ → ℕ → ℕ → Tally → Action (World g) Tally
    unfolding get_or_create_sync_state list_pages scanned record_affected advance on_db
    ingest_calendar fuel last now user calendar counters = do
      state ← on_rows (get_or_create_sync_state calendar)
      listed ← list_pages fuel state.sync_token none (start state counters)
      out ← scanned fuel listed
      on_db g (modify (record_affected last user out.0.affected))
      on_db g (modify (advance now calendar out.0.full_sync out.1))
      return out.0.counters

  unfoldable pub ingest_client_calendar : ℕ → ℕ → Reader → ℕ → Text → Action (World g) Tally
  unfolding ingest_calendar ingest_one_event
  ingest_client_calendar fuel last c calendar google_calendar_id =
      ingest_calendar (ingest_one_event c calendar) google_calendar_id fuel last c.now c.user_id
        calendar client_counters

  unfoldable pub ingest_personal_calendar : ℕ → ℕ → Reader → ℕ → Text → Action (World g) Tally
  unfolding ingest_calendar ingest_one
  ingest_personal_calendar fuel last c calendar google_calendar_id =
      ingest_calendar (ingest_one c calendar) google_calendar_id fuel last c.now c.user_id calendar
        personal_counters
