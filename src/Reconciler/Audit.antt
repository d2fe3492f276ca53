-- ===== src/Reconciler/Audit.antt =====
-- app/ledger/reconciler.py: `audit_user` and `_audit_client_calendar`, and `_stamp_ical_uid` and
-- `_record_affected` of app/ledger/ingest/client.py. The ingest of one event is an
-- argument.
use busybridge.Prelude.{
  ℕ, zero, suc, Bool, true, false, ◌||◌, Option, none, some, List, [], ◌∷◌, ◌++◌, if◌then◌else◌,
  Text, text_eq, codes, truthy, or_text,
}
use busybridge.Errors.{Result, ok, raise, other_error, Action, ◌>>=◌, ◌>>◌, return, throw, modify}
use busybridge.Json.{Fields, get, is_text, as_text}
use busybridge.Ledger.{Event, Db}
use busybridge.Google.{GoogleClient, World, Listing, Page, on_db}
use busybridge.Planner.Plan.{Context}
use busybridge.Outbox.Create.{Setup}
use busybridge.Outbox.Record.{set_event}
use busybridge.Diff.Decide.{Pass}
use busybridge.Triggers.Recorded.{record_affected_events}
use busybridge.Reconciler.Pause.{PauseMode, global_pause, pause_mode}
use busybridge.Reconciler.Affected.{plan_affected}
use busybridge.Reconciler.Reconcile.{
  Connected, Arguments, Report, blank_report, pass_for, diff_drain_until_quiescent,
}

-- A pass of the audit: the world, and the two counters, which keep what was counted before a raise.
pub record Audit (g : GoogleClient) : Type 0 where
  pub world : World g
  pub audited : ℕ
  pub reingested : ℕ

-- UPDATE ledger_events SET ical_uid = ? WHERE id = ? AND COALESCE(ical_uid, '') != ?
abbrev pub stamped_uid : Text → Event → Event
stamped_uid uid e =
    if text_eq (or_text e.ical_uid []) uid then e else record e { ical_uid = some uid }

abbrev pub stamp_uid : ℕ → Option Text → Db → Db
stamp_uid i none db = db
stamp_uid i (some []) db = db
stamp_uid i (some (c ∷ uid)) db = set_event i (stamped_uid (c ∷ uid)) db

unfoldable pub stamp_ical_uid : ℕ → Fields → Db → Db
stamp_ical_uid i event db = stamp_uid i (as_text (get event (codes "iCalUID"))) db

unfoldable pub record_affected : ℕ → ℕ → List ℕ → Db → Db
unfolding record_affected_events
record_affected last user [] db = db
record_affected last user (i ∷ is) db = record_affected_events last user (i ∷ is) db

-- outcome in ("updated", "created", "rekeyed", "cancelled")
unfoldable pub has_changed : Text → Bool
has_changed outcome =
    text_eq outcome (codes "updated")
    || (text_eq outcome (codes "created")
        || (text_eq outcome (codes "rekeyed") || text_eq outcome (codes "cancelled")))

module _ (g : GoogleClient) (list_events : Text → Option Text → Action g.State Page)
    (ingest_one_event : ℕ → Fields → Action (World g) (Text × Option ℕ))
    (last user time_min time_max : ℕ) where
  abbrev in_world : {A : Type 0} → Action (World g) A → Action (Audit g) A
  in_world m s = let (r, w) = m s.world in (r, record s { world = w })

  abbrev window : Option Text → Listing
  window token = record {
    sync_token = none;
    time_min = some time_min;
    time_max = some time_max;
    max_results = 250;
    single_events = false;
    page_token = token;
    show_deleted = false;
  }

  abbrev listed : Text → Option Text → Action (Audit g) Page
  listed cal token s =
      let (r, t) = g.list_events cal (window token) s.world.google in
      (r, record s { world = record s.world { google = t } })

  abbrev stamped_in : Option ℕ → Fields → Action (Audit g) (Unit {0})
  stamped_in none event = return tt
  stamped_in (some i) event = in_world (on_db g (modify (stamp_ical_uid i event)))

  abbrev queued : Option ℕ → List ℕ
  queued none = []
  queued (some i) = i ∷ []

  abbrev counted : Text → Option ℕ → Action (Audit g) (List ℕ)
  counted outcome i =
      if has_changed outcome
      then modify (λ s. record s { reingested = suc s.reingested }) >> return (queued i)
      else return []

  -- One event; the id that it queues.
  unfoldable pub audit_event : ℕ → Fields → Action (Audit g) (List ℕ)
  unfolding stamp_ical_uid has_changed
  audit_event cal event =
      if is_text (get event (codes "status")) (codes "cancelled") then return [] else do
        modify λ s. record s { audited = suc s.audited }
        found ← in_world (ingest_one_event cal event)
        stamped_in found.1 event
        counted found.0 found.1

  unfoldable pub audit_items : ℕ → List Fields → Action (Audit g) (List ℕ)
  unfolding audit_event
  audit_items cal [] = return []
  audit_items cal (event ∷ events) = do
    first ← audit_event cal event
    rest ← audit_items cal events
    return (first ++ rest)

  -- The loop over the pages, on fuel; using it up raises.
  unfoldable pub audit_pages : ℕ → Connected → Option Text → Action (Audit g) (Unit {0})
  unfolding audit_items record_affected
  audit_pages zero cal token = throw (other_error (codes "too many pages"))
  audit_pages (suc fuel) cal token = do
    page ← listed cal.google_calendar_id token
    affected ← audit_items cal.id page.items
    in_world (on_db g (modify (record_affected last user affected)))
    if truthy page.next_page_token then audit_pages fuel cal page.next_page_token else return tt

  -- The loop over the calendars, where a raise ends only its own calendar.
  unfoldable pub audit_calendars : ℕ → List Connected → Audit g → Audit g
  unfolding audit_pages
  audit_calendars fuel [] s = s
  audit_calendars fuel (c ∷ cs) s = audit_calendars fuel cs (audit_pages fuel c none s).1

  module _ (setup : Setup) (context : Context) (clock : Pass) where
    -- The planning of the queue and the convergence loop that follow. There are no personal calendars
    -- among the arguments of an audit.
    unfoldable pub settle_audit : Arguments → Action (World g) Report
    settle_audit a = do
      planned ← on_db g (plan_affected context a.user_id)
      diff_drain_until_quiescent g setup context
          (pass_for g (record a { personal_calendars = [] }) clock) a.drain
          (record (blank_report false) { planned = planned })

    abbrev audited_report : ℕ → Arguments → Audit g → Result (Audit g × Report) × World g
    audited_report fuel a s =
        let (r, w) = settle_audit a s.world in
        elim r [ ok out ↦ (ok (record s { world = w }, out), w) | raise e ↦ (raise e, w) ]

    abbrev nothing_audited : World g → Audit g
    nothing_audited w = record { world = w; audited = 0; reingested = 0 }

    abbrev in_mode : ℕ → Arguments → Option PauseMode → Action (World g) (Audit g × Report)
    in_mode fuel a (some global_pause) w = (ok (nothing_audited w, blank_report true), w)
    in_mode fuel a mode w =
        audited_report fuel a (audit_calendars fuel a.client_calendars (nothing_audited w))

    unfoldable pub audit_user : ℕ → Arguments → Action (World g) (Audit g × Report)
    unfolding audit_calendars settle_audit pause_mode
    audit_user fuel a w = in_mode fuel a (pause_mode a.user_id w.db) w
