-- ===== src/Ingest/PassSteps.antt =====
-- app/ledger/ingest/client.py: the events of a page, read one after the other, keep the rows of
-- ledger_events.
use busybridge.Prelude.{
  ℕ, refl, arith, inl, inr, Bool-cases, Option, none, some, List, ◌∷◌, [], Text, text_eq, codes,
  if◌then◌else◌, or_text,
}
use busybridge.Ledger.{Event, Db}
use busybridge.Errors.{Result, ok, raise, Action}
use busybridge.Json.{Fields, get, as_text}
use busybridge.Reconciler.Audit.{stamp_uid, stamped_uid, stamp_ical_uid}
use busybridge.Ingest.Instance.{Outcome}
use busybridge.Ingest.Evolution.{Evolves, Grows, Grows-refl, Grows-trans, GrowsAt, update-Grows}
use busybridge.Ingest.Gather.{
  Gathered, stamped, counted, noted, is_tombstone, ingest_guarded, ingest_events, ingest_tombstones,
  after_event,
}

stamped_uid-Evolves : (uid : Text) (e : Event) → Evolves e (stamped_uid uid e)
stamped_uid-Evolves uid e = elim (Bool-cases (text_eq (or_text e.ical_uid []) uid)) [
  | inl t ↦ rw t (record {
    id_kept = refl;
    user_kept = refl;
    uid_kept = refl;
    version_grows = omega arith;
    released_kept = λ h. refl;
    answer_kept = λ h. (h, refl);
  })
  | inr t ↦ rw t (record {
    id_kept = refl;
    user_kept = refl;
    uid_kept = refl;
    version_grows = omega arith;
    released_kept = λ h. refl;
    answer_kept = λ h. (h, refl);
  })
]

stamp_uid-Grows :
    (i : ℕ) (uid : Option Text) (db : Db) → Grows db.events (stamp_uid i uid db).events
stamp_uid-Grows i none db = Grows-refl db.events
stamp_uid-Grows i (some []) db = Grows-refl db.events
stamp_uid-Grows i (some (c ∷ uid)) db =
    update-Grows i (stamped_uid (c ∷ uid)) db.events
      (λ x. (stamped_uid-Evolves (c ∷ uid) x).id_kept)
      (λ x keyed found. stamped_uid-Evolves (c ∷ uid) x)

stamped-Grows :
    (i : Option ℕ) (event : Fields) (db : Db) → Grows db.events (stamped i event db).events
unfolding stamp_ical_uid
stamped-Grows none event db = Grows-refl db.events
stamped-Grows (some i) event db = stamp_uid-Grows i (as_text (get event (codes "iCalUID"))) db

-- Where ingesting one event keeps the rows.
module _ (one : Fields → Action Db Outcome)
    (grows : (event : Fields) (db : Db) → GrowsAt (one event) db) where
  after_event-Grows :
      (r : Result Outcome) (event : Fields) (s : Gathered) (db : Db)
      → Grows db.events (after_event r event s db).1.events
  unfolding after_event
  after_event-Grows (raise e) event s db = Grows-refl db.events
  after_event-Grows (ok (word, i)) event s db = stamped-Grows i event db

  ingest_guarded-Grows :
      (event : Fields) (s : Gathered) (db : Db)
      → Grows db.events (ingest_guarded one event s db).1.events
  unfolding ingest_guarded
  ingest_guarded-Grows event s db =
      let (r, db') = one event db in
      Grows-trans db.events db'.events (after_event r event s db').1.events (grows event db)
        (after_event-Grows r event s db')

  pub ingest_events-Grows :
      (events : List Fields) (s : Gathered) (db : Db)
      → Grows db.events (ingest_events one events s db).1.events
  unfolding ingest_events
  ingest_events-Grows [] s db = Grows-refl db.events
  ingest_events-Grows (event ∷ events) s db =
      let out = ingest_guarded one event (noted event s) db in
      Grows-trans db.events out.1.events (ingest_events one events out.0 out.1).1.events
        (ingest_guarded-Grows event (noted event s) db) (ingest_events-Grows events out.0 out.1)

  abbrev tombstone_or : Fields → Gathered → Db → Gathered × Db
  tombstone_or event s db =
      if is_tombstone event then ingest_guarded one event (counted (codes "seen") s) db else (s, db)

  tombstone_or-Grows :
      (event : Fields) (s : Gathered) (db : Db) → Grows db.events (tombstone_or event s db).1.events
  tombstone_or-Grows event s db = elim (Bool-cases (is_tombstone event)) [
    | inl t ↦ rw t (ingest_guarded-Grows event (counted (codes "seen") s) db)
    | inr t ↦ rw t (Grows-refl db.events)
  ]

  pub ingest_tombstones-Grows :
      (events : List Fields) (s : Gathered) (db : Db)
      → Grows db.events (ingest_tombstones one events s db).1.events
  unfolding ingest_tombstones
  ingest_tombstones-Grows [] s db = Grows-refl db.events
  ingest_tombstones-Grows (event ∷ events) s db =
      let out = tombstone_or event s db in
      Grows-trans db.events out.1.events (ingest_tombstones one events out.0 out.1).1.events
        (tombstone_or-Grows event s db) (ingest_tombstones-Grows events out.0 out.1)
