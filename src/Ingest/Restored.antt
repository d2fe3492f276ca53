-- ===== src/Ingest/Restored.antt =====
-- app/ledger/ingest/personal.py against app/ledger/ingest/client.py: an event that its owner restored
-- after it was cancelled.
use busybridge.Prelude.{
  ℕ, ◌≡◌, refl, ap, ◌∙◌, false, some, ◌==◌, ==-refl, Text, find_first, find_first-update_where_self,
}
use busybridge.Ledger.{Event, Db, cancelled}
use busybridge.Errors.{ok, ◌>>=◌}
use busybridge.Outbox.Record.{set_event}
use busybridge.Json.{Fields}
use busybridge.Ingest.Fields.{Content, content_of_row}
use busybridge.Ingest.Rows.{Reader, extract, hash_of, seen}
use busybridge.Ingest.Instance.{is_released, skipped_row, status_is_cancelled}
use busybridge.Ingest.Personal

unchanged_is_seen :
    (c : Reader) (calendar : ℕ) (event : Fields) (f : Content) (e : Event) (db : Db)
    → extract c event ≡ ok f
    → hash_of c f ≡ hash_of c (content_of_row e)
    → Personal.update_personal c calendar event e db
      ≡ (ok (skipped_row e), set_event e.id (seen c.now) db)
unfolding Personal.update_personal ◌>>=◌
unchanged_is_seen c calendar event f e db given same =
    rw (given, same, ==-refl (hash_of c (content_of_row e))) refl

live_is_updated :
    (c : Reader) (calendar : ℕ) (i : Text) (event : Fields) (e : Event) (db : Db)
    → status_is_cancelled event ≡ false
    → is_released e.status ≡ false
    → Personal.ingest_top_level c calendar i event (some e) db
      ≡ Personal.update_personal c calendar event e db
unfolding Personal.ingest_top_level
live_is_updated c calendar i event e db live kept = rw (kept, live) refl

-- A cancelled row of a personal calendar stays cancelled when the event comes back live with the
-- content that the row holds: the ingest skips it and only notes that it was seen.
pub personal_restored_stays_cancelled :
    (c : Reader) (calendar : ℕ) (i : Text) (event : Fields) (f : Content) (e : Event) (db : Db)
    → status_is_cancelled event ≡ false
    → extract c event ≡ ok f
    → hash_of c f ≡ hash_of c (content_of_row e)
    → e.status ≡ cancelled
    → find_first (λ x. x.id == e.id) db.events ≡ some e
    → let out = Personal.ingest_top_level c calendar i event (some e) db in
      (out.0 ≡ ok (skipped_row e))
      × ((y : Event) × (find_first (λ x. x.id == e.id) out.1.events ≡ some y)
          × (y.status ≡ cancelled))
unfolding seen
personal_restored_stays_cancelled c calendar i event f e db live given same gone found =
    let to =
      live_is_updated c calendar i event e db live (ap is_released gone)
      ∙ unchanged_is_seen c calendar event f e db given same in
    rw to (
      refl,
      (
        seen c.now e,
        find_first-update_where_self (λ x. x.id == e.id) (seen c.now) db.events (λ x h. h) e found,
        gone,
      ),
    )
