-- ===== src/Ingest/PassRows.antt =====
-- app/ledger/ingest/client.py: a whole pass keeps the rows of ledger_events, whatever Google answers.
use busybridge.Prelude.{
  ℕ, zero, suc, ◌≡◌, ◌≤◌, ◌⊎◌, Bool, true, false, inl, inr, Bool-cases, Option, none, some, List,
  ◌∷◌, [], ◌==◌, Text, truthy, get_elem?, find_first,
}
use busybridge.Ledger.{Event, Db, SyncState}
use busybridge.Errors.{Result, ok, raise, Action, ◌>>=◌, modify, resume}
use busybridge.Json.{Fields}
use busybridge.Google.{GoogleClient, World, Page, on_google, on_db}
use busybridge.Reconciler.Audit.{record_affected}
use busybridge.Triggers.Recorded.{record_affected_events}
use busybridge.Ingest.Instance.{Outcome, is_released}
use busybridge.Ingest.Rows.{Reader}
use busybridge.Ingest.Client.{ingest_one_event}
use busybridge.Ingest.Evolution.{Evolves, EventsKeyed, Grows, Grows-refl, Grows-trans, GrowsAt}
use busybridge.Ingest.OneEvent.{ingest_one_event-GrowsAt}
use busybridge.Ingest.Gather.{Gathered, Tally, ingest_events, ingest_tombstones}
use busybridge.Ingest.Pass.{
  is_expired, get_or_create_sync_state, advance, scan_parent, scan_parents, list_pages, listing,
  client_counters, scanned_if, scan_page, take_page, next_page, start, on_rows, created_state,
  scanned, ingest_calendar, ingest_client_calendar,
}
use busybridge.Ingest.PassSteps.{ingest_events-Grows, ingest_tombstones-Grows}

module _ (one : Fields → Action Db Outcome)
    (grows : (event : Fields) (db : Db) → GrowsAt (one event) db) where
  module _ (g : GoogleClient) (google_calendar_id : Text) where
    abbrev GrowsFrom : {A : Type 0} → Action (World g) A → World g → Type 0
    GrowsFrom m w = Grows w.db.events (m w).1.db.events

    scan_page-Grows :
        (more : Option Text → Gathered → Action (World g) (Gathered × Bool))
        → ((t : Option Text) (s : Gathered) (w : World g) → GrowsFrom (more t s) w)
        → (r : Result Page) (s : Gathered) (w : World g)
        → GrowsFrom (scan_page g one google_calendar_id more r s) w
    unfolding scan_page
    scan_page-Grows more later (raise e) s w = Grows-refl w.db.events
    scan_page-Grows more later (ok page) s w =
        let out = ingest_tombstones one page.items s w.db in
        let here = ingest_tombstones-Grows one grows page.items s w.db in
        elim (Bool-cases (truthy page.next_page_token)) [
          | inr t ↦ rw t here
          | inl t ↦ rw t (
              let after : World g = record w { db = out.1 } in
              Grows-trans w.db.events out.1.events
                (more page.next_page_token out.0 after).1.db.events here
                (later page.next_page_token out.0 after))
        ]

    scan_parent-Grows :
        (fuel : ℕ) (parent : Text) (token : Option Text) (s : Gathered) (w : World g)
        → GrowsFrom (scan_parent g one google_calendar_id fuel parent token s) w
    unfolding scan_parent on_google
    scan_parent-Grows zero parent token s w = Grows-refl w.db.events
    scan_parent-Grows (suc fuel) parent token s w =
        let (r, t) =
          g.list_instances google_calendar_id parent (listing g 2500 none token) w.google in
        scan_page-Grows (scan_parent g one google_calendar_id fuel parent)
          (scan_parent-Grows fuel parent) r s (record w { google = t })

    resume-GrowsFrom :
        {A B : Type 0} (k : A → Action (World g) B)
        → ((a : A) (t : World g) → GrowsFrom (k a) t)
        → (r : Result A) (w : World g) → Grows w.db.events (resume r k w).1.db.events
    resume-GrowsFrom k rest (ok a) w = rest a w
    resume-GrowsFrom k rest (raise e) w = Grows-refl w.db.events

    bind-GrowsFrom :
        {A B : Type 0} (m : Action (World g) A) (k : A → Action (World g) B) (w : World g)
        → GrowsFrom m w
        → ((a : A) (t : World g) → GrowsFrom (k a) t)
        → GrowsFrom (m >>= k) w
    unfolding ◌>>=◌
    bind-GrowsFrom m k w first rest =
        Grows-trans w.db.events (m w).1.db.events (resume (m w).0 k (m w).1).1.db.events first
          (resume-GrowsFrom k rest (m w).0 (m w).1)

    scan_parents-Grows :
        (fuel : ℕ) (parents : List Text) (s : Gathered) (w : World g)
        → GrowsFrom (scan_parents g one google_calendar_id fuel parents s) w
    unfolding scan_parents
    scan_parents-Grows fuel [] s w = Grows-refl w.db.events
    scan_parents-Grows fuel (p ∷ ps) s w =
        bind-GrowsFrom (scan_parent g one google_calendar_id fuel p none s) _ w
          (scan_parent-Grows fuel p none s w)
          (λ first t.
            bind-GrowsFrom (scan_parents g one google_calendar_id fuel ps first.0) _ t
              (scan_parents-Grows fuel ps first.0 t) (λ rest t'. Grows-refl t'.db.events))

    next_page-Grows :
        (more : Option Text → Gathered → Action (World g) (Gathered × Option Text))
        → ((t : Option Text) (s : Gathered) (w : World g) → GrowsFrom (more t s) w)
        → (token sync : Option Text) (s : Gathered) (w : World g)
        → GrowsFrom (next_page g one google_calendar_id more token sync s) w
    next_page-Grows more later none sync s w = Grows-refl w.db.events
    next_page-Grows more later (some t) sync s w = later (some t) s w

    take_page-Grows :
        (more : Option Text → Option Text → Gathered → Action (World g) (Gathered × Option Text))
        → ((u t : Option Text) (s : Gathered) (w : World g) → GrowsFrom (more u t s) w)
        → (sync_token : Option Text) (r : Result Page) (s : Gathered) (w : World g)
        → GrowsFrom (take_page g one google_calendar_id more sync_token r s) w
    unfolding take_page
    take_page-Grows more later sync_token (raise e) s w = elim (Bool-cases (is_expired e)) [
      | inl t ↦ rw t (later none none (record s { full_sync = true; parents = [] }) w)
      | inr t ↦ rw t (Grows-refl w.db.events)
    ]
    take_page-Grows more later sync_token (ok page) s w =
        let out = ingest_events one page.items s w.db in
        let after : World g = record w { db = out.1 } in
        Grows-trans w.db.events out.1.events
          (next_page g one google_calendar_id (more sync_token) page.next_page_token
            page.next_sync_token out.0 after).1.db.events
          (ingest_events-Grows one grows page.items s w.db)
          (next_page-Grows (more sync_token) (later sync_token) page.next_page_token
            page.next_sync_token out.0 after)

    list_pages-Grows :
        (fuel : ℕ) (sync_token token : Option Text) (s : Gathered) (w : World g)
        → GrowsFrom (list_pages g one google_calendar_id fuel sync_token token s) w
    unfolding list_pages on_google
    list_pages-Grows zero sync_token token s w = Grows-refl w.db.events
    list_pages-Grows (suc fuel) sync_token token s w =
        let (r, t) = g.list_events google_calendar_id (listing g 250 sync_token token) w.google in
        take_page-Grows (list_pages g one google_calendar_id fuel) (list_pages-Grows fuel)
          sync_token r s (record w { google = t })

    scanned_if-Grows :
        (full : Bool) (fuel : ℕ) (s : Gathered) (token : Option Text) (w : World g)
        → GrowsFrom (scanned_if g one google_calendar_id full fuel s token) w
    scanned_if-Grows false fuel s token w = Grows-refl w.db.events
    scanned_if-Grows true fuel s token w =
        bind-GrowsFrom (scan_parents g one google_calendar_id fuel s.parents s) _ w
          (scan_parents-Grows fuel s.parents s w) (λ out t'. Grows-refl t'.db.events)

    scanned-Grows :
        (fuel : ℕ) (out : Gathered × Option Text) (w : World g)
        → GrowsFrom (scanned g one google_calendar_id fuel out) w
    unfolding scanned
    scanned-Grows fuel (s, token) w = scanned_if-Grows s.full_sync fuel s token w

    record_affected-Grows :
        (last user : ℕ) (ids : List ℕ) (w : World g)
        → GrowsFrom (on_db g (modify (record_affected last user ids))) w
    unfolding record_affected record_affected_events on_db
    record_affected-Grows last user [] w = Grows-refl w.db.events
    record_affected-Grows last user (i ∷ ids) w = Grows-refl w.db.events

    advance-Grows :
        (now calendar : ℕ) (full : Bool) (token : Option Text) (w : World g)
        → GrowsFrom (on_db g (modify (advance now calendar full token))) w
    unfolding advance on_db
    advance-Grows now calendar full token w = Grows-refl w.db.events

    created_state-Grows :
        (calendar : ℕ) (found : Option SyncState) (db : Db)
        → Grows db.events (created_state calendar found db).1.events
    created_state-Grows calendar none db = Grows-refl db.events
    created_state-Grows calendar (some s) db = Grows-refl db.events

    on_rows-Grows :
        (calendar : ℕ) (w : World g) → GrowsFrom (on_rows g (get_or_create_sync_state calendar)) w
    unfolding get_or_create_sync_state
    on_rows-Grows calendar w =
        created_state-Grows calendar
          (find_first (λ s. s.owner == calendar) w.db.calendar_sync_states) w.db

    ingest_calendar-Grows :
        (fuel last now user calendar : ℕ) (counters : Tally) (w : World g)
        → GrowsFrom
            (ingest_calendar g one google_calendar_id fuel last now user calendar counters)
            w
    unfolding ingest_calendar
    ingest_calendar-Grows fuel last now user calendar counters w =
        bind-GrowsFrom (on_rows g (get_or_create_sync_state calendar)) _ w
          (on_rows-Grows calendar w)
          (λ state t.
            bind-GrowsFrom
              (list_pages g one google_calendar_id fuel state.sync_token none
                (start g one google_calendar_id state counters))
              _ t (list_pages-Grows fuel state.sync_token none _ t)
              (λ listed t'.
                bind-GrowsFrom (scanned g one google_calendar_id fuel listed) _ t'
                  (scanned-Grows fuel listed t')
                  (λ out u.
                    bind-GrowsFrom (on_db g (modify (record_affected last user out.0.affected))) _ u
                      (record_affected-Grows last user out.0.affected u)
                      (λ done u'.
                        bind-GrowsFrom
                          (on_db g (modify (advance now calendar out.0.full_sync out.1))) _ u'
                          (advance-Grows now calendar out.0.full_sync out.1 u')
                          (λ done' v. Grows-refl v.db.events)))))

-- The same event, and how far it may have changed.
abbrev pub Successor : Event → Event → Type 0
Successor x y =
    (y.id ≡ x.id)
    × (y.user_id ≡ x.user_id)
    × (y.canonical_uid ≡ x.canonical_uid)
    × (x.version ≤ y.version)
    × ((is_released x.status ≡ false) ⊎ (y ≡ record x { ical_uid = y.ical_uid }))
    × ((x.origin_writeback_pending ≡ false)
        ⊎ ((y.origin_writeback_pending ≡ true) × (y.user_rsvp_status ≡ x.user_rsvp_status)))

successor : {x y : Event} → Evolves x y → Successor x y
successor {x} {y} e = (
  e.id_kept,
  e.user_kept,
  e.uid_kept,
  e.version_grows,
  elim (Bool-cases (is_released x.status)) [ inl t ↦ inr (e.released_kept t) | inr t ↦ inl t ],
  elim (Bool-cases x.origin_writeback_pending) [ inl t ↦ inr (e.answer_kept t) | inr t ↦ inl t ],
)

-- A pass over a client calendar keeps every row of ledger_events in its place, whatever Google
-- answers and also where the pass raises: the row has the same id, user and canonical uid and no
-- smaller version; a released row is as it was, but for its iCalUID; and an answer that waits for its
-- delivery is the same and still waits. The ids are a key of the table.
pub pass_keeps_rows :
    (g : GoogleClient) (fuel last : ℕ) (c : Reader) (calendar : ℕ) (google_calendar_id : Text)
    (w : World g) (k : ℕ) (x : Event)
    → EventsKeyed w.db.events
    → get_elem? w.db.events k ≡ some x
    → (y : Event) × (get_elem?
          (ingest_client_calendar g fuel last c calendar google_calendar_id w).1.db.events
          k
        ≡ some y)
      × Successor x y
unfolding ingest_client_calendar
pass_keeps_rows g fuel last c calendar google_calendar_id w k x keyed at =
    let (y, at', evolved) =
      (ingest_calendar-Grows (ingest_one_event c calendar) (ingest_one_event-GrowsAt c calendar) g
          google_calendar_id fuel last c.now c.user_id calendar client_counters w keyed).1
        k x at in
    (y, at', successor evolved)
