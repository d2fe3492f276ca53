-- ===== src/Ingest/OneEvent.antt =====
-- app/ledger/ingest/client.py: `_ingest_one_event` keeps the rows of ledger_events, whatever the event.
use busybridge.Prelude.{
  ℕ, ◌≡◌, refl, arith, Bool, inl, inr, Bool-cases, Option, none, some, ◌∷◌, [], ◌==◌, ◌&&◌, text_eq,
  Text, get_or, find_first, codes,
}
use busybridge.Ledger.{Event, Db, Source, Projection, is_cancelled, client}
use busybridge.Errors.{Action, ◌>>=◌, return, lift}
use busybridge.Json.{Fields, get, as_text, truthy_json}
use busybridge.Identity.EventId.{is_managed_google_event_id}
use busybridge.Identity.Canonical.{canonical_uid_client}
use busybridge.Ingest.Fields.{Content}
use busybridge.Ingest.Instant.{instance_original_start, split_instance_shaped_id}
use busybridge.Ingest.Rows.{
  Reader, extract, event_by_uid, insert_ledger_row, insert_event_row, new_row, blank_row,
  apply_event_to_ledger,
}
use busybridge.Ingest.Instance.{
  Occurrence, is_released, is_live_parent, cancelled_instance, cancel_occurrence, new_override,
  override_occurrence, ingest_found_instance, ingest_instance, status_is_cancelled, instance_uid,
  content_for, with_slot, display_is_all_day, detached_occurrence,
  maybe_ingest_detached_cancellation, ingest_detached, if_shaped,
}
use busybridge.Ingest.Client.{
  projection_match, drifted, maybe_revert_client_drift, managed_series_instance_base,
  ingest_top_level, by_series, unless_tampered, unless_ours, ingest_one_event, or_key_error,
  or_skipped, changed_word, series_occurrence,
}
use busybridge.Ingest.Evolution.{Grows-refl, GrowsAt, >>=-GrowsAt}
use busybridge.Ingest.Growth.{
  content_for-GrowsAt, insert_event_row-GrowsAt, cancel_occurrence-GrowsAt, override_found-GrowsAt,
  mark_cancelled-GrowsAt, apply_event_to_ledger-GrowsAt,
}

-- A block that ends by returning a value of what it did.
then_return-GrowsAt :
    {A B : Type 0} (m : Action Db A) (f : A → B) (db : Db)
    → GrowsAt m db
    → GrowsAt (m >>= λ a. return (f a)) db
then_return-GrowsAt m f db h = >>=-GrowsAt m _ db h (λ a t e. Grows-refl t.events)

module _ (c : Reader) (o : Occurrence) where
  abbrev slot_of : Fields → Text × Bool
  slot_of event = instance_original_start c.readers.in_zone event

  cancel_new-GrowsAt :
      (event : Fields) (uid : Text) (slot : Text × Bool) (db : Db)
      → GrowsAt (cancel_occurrence c o event uid slot none) db
  unfolding cancel_occurrence cancelled_instance
  cancel_new-GrowsAt event uid (start, all_day) db =
      let row = cancelled_instance c o uid start (get_or (display_is_all_day event) all_day) in
      then_return-GrowsAt (insert_event_row row) (λ i. (codes "cancelled", some i)) db
        (insert_event_row-GrowsAt row db (λ i. refl))

  override_new-GrowsAt :
      (event : Fields) (given : Option Content) (uid start : Text) (db : Db)
      → GrowsAt (override_occurrence c o event given uid start none) db
  unfolding override_occurrence new_override
  override_new-GrowsAt event given uid start db =
      >>=-GrowsAt (content_for c o event given) _ db (content_for-GrowsAt c o event given db)
        (λ f t e.
          then_return-GrowsAt (insert_event_row (new_override c o event f uid start))
            (λ i. (codes "created", some i)) t
            (insert_event_row-GrowsAt (new_override c o event f uid start) t (λ i. refl)))

  ingest_found_instance-GrowsAt :
      (event : Fields) (given : Option Content) (q : Event → Bool) (found : Option Event) (db : Db)
      → find_first q db.events ≡ found
      → GrowsAt (ingest_found_instance c o event given found) db
  unfolding ingest_found_instance
  ingest_found_instance-GrowsAt event given q none db h =
      elim (Bool-cases (status_is_cancelled event)) [
        | inl t ↦ rw t (cancel_new-GrowsAt event (instance_uid c o event) (slot_of event) db)
        | inr t ↦
            rw t (override_new-GrowsAt event given (instance_uid c o event) (slot_of event).0 db)
      ]
  ingest_found_instance-GrowsAt event given q (some e) db h =
      elim (Bool-cases (is_released e.status)) [
        | inl r ↦ rw r (Grows-refl db.events)
        | inr live ↦ rw live (elim (Bool-cases (status_is_cancelled event)) [
          | inl t ↦ rw t (
              cancel_occurrence-GrowsAt q e db h live c o event (instance_uid c o event)
                (slot_of event))
          | inr t ↦ rw t (
              override_found-GrowsAt q e db h live c o event given (instance_uid c o event)
                (slot_of event).0)
        ])
      ]

  pub ingest_instance-GrowsAt :
      (event : Fields) (given : Option Content) (db : Db)
      → GrowsAt (ingest_instance c o event given) db
  unfolding ingest_instance event_by_uid
  ingest_instance-GrowsAt event given db =
      ingest_found_instance-GrowsAt event given
        (λ e. e.user_id == c.user_id && text_eq e.canonical_uid (instance_uid c o event)) _ db refl

module _ (c : Reader) (make_parent : Text → Text) (kind : Source) (calendar : Option ℕ) where
  ingest_detached-GrowsAt :
      (event : Fields) (split : Text × Text) (db : Db)
      → GrowsAt (ingest_detached c make_parent kind calendar event split) db
  ingest_detached-GrowsAt event (base, stamp) db =
      elim (Bool-cases (is_live_parent (event_by_uid c.user_id (make_parent base) db))) [
        | inl t ↦ rw t (
            let o = detached_occurrence make_parent kind calendar event base in
            then_return-GrowsAt (ingest_instance c o (with_slot stamp event) none) (λ r. some r) db
              (ingest_instance-GrowsAt c o (with_slot stamp event) none db))
        | inr t ↦ rw t (Grows-refl db.events)
      ]

  if_shaped-GrowsAt :
      (event : Fields) (split : Option (Text × Text)) (db : Db)
      → GrowsAt (if_shaped c make_parent kind calendar event split) db
  if_shaped-GrowsAt event none db = Grows-refl db.events
  if_shaped-GrowsAt event (some split) db = ingest_detached-GrowsAt event split db

  pub maybe_ingest_detached_cancellation-GrowsAt :
      (event : Fields) (db : Db)
      → GrowsAt (maybe_ingest_detached_cancellation c make_parent kind calendar event) db
  unfolding maybe_ingest_detached_cancellation
  maybe_ingest_detached_cancellation-GrowsAt event db =
      elim (Bool-cases (truthy_json (get event (codes "recurringEventId")))) [
        | inl t ↦ rw t (Grows-refl db.events)
        | inr t ↦ rw t (
            if_shaped-GrowsAt event (split_instance_shaped_id (as_text (get event (codes "id"))))
              db)
      ]

insert_ledger_row-GrowsAt :
    (c : Reader) (kind : Source) (uid : Text) (calendar : ℕ) (event : Fields) (i : Text) (db : Db)
    → GrowsAt (insert_ledger_row c kind uid calendar event i) db
unfolding insert_ledger_row new_row blank_row
insert_ledger_row-GrowsAt c kind uid calendar event i db =
    >>=-GrowsAt (lift (extract c event)) _ db (Grows-refl db.events) (λ f t e.
      insert_event_row-GrowsAt
        (λ n. new_row c.now event f (blank_row n c.user_id uid none kind (some calendar) (some i)))
        t (λ n. refl))

drifted-events :
    (p : Projection) (etag stored : Option Text) (db : Db)
    → (drifted p etag stored db).events ≡ db.events
drifted-events p none stored db = refl
drifted-events p (some []) stored db = refl
drifted-events p (some (a ∷ s)) none db = refl
drifted-events p (some (a ∷ s)) (some []) db = refl
drifted-events p (some (a ∷ s)) (some (b ∷ t)) db = ground arith

pub maybe_revert_client_drift-events :
    (p : Projection) (event : Fields) (db : Db)
    → (maybe_revert_client_drift p event db).events ≡ db.events
unfolding maybe_revert_client_drift
maybe_revert_client_drift-events p event db =
    ground (arith, drifted-events p (as_text (get event (codes "etag"))) p.google_etag db)

module _ (c : Reader) (calendar : ℕ) where
  ingest_top_level-GrowsAt :
      (i : Text) (event : Fields) (q : Event → Bool) (found : Option Event) (db : Db)
      → find_first q db.events ≡ found
      → GrowsAt (ingest_top_level c calendar i event found) db
  unfolding ingest_top_level
  ingest_top_level-GrowsAt i event q none db h = elim (Bool-cases (status_is_cancelled event)) [
    | inl t ↦ rw t (
        then_return-GrowsAt
          (maybe_ingest_detached_cancellation c (canonical_uid_client calendar) client
            (some calendar) event)
          or_skipped db
          (maybe_ingest_detached_cancellation-GrowsAt c (canonical_uid_client calendar) client
            (some calendar) event db))
    | inr t ↦ rw t (
        then_return-GrowsAt
          (insert_ledger_row c client (canonical_uid_client calendar i) calendar event i)
          (λ n. (codes "created", some n)) db
          (insert_ledger_row-GrowsAt c client (canonical_uid_client calendar i) calendar event i
            db))
  ]
  ingest_top_level-GrowsAt i event q (some e) db h = elim (Bool-cases (is_released e.status)) [
    | inl r ↦ rw r (Grows-refl db.events)
    | inr live ↦ rw live (elim (Bool-cases (status_is_cancelled event)) [
      | inl t ↦ rw t (elim (Bool-cases (is_cancelled e.status)) [
        | inl d ↦ rw d (Grows-refl db.events)
        | inr d ↦ rw d (unfold ◌>>=◌ in mark_cancelled-GrowsAt q e db h live c.now)
      ])
      | inr t ↦ rw t (
          then_return-GrowsAt (apply_event_to_ledger c e.id event)
            (λ changed. (changed_word changed, some e.id)) db
            (apply_event_to_ledger-GrowsAt q e db h live c event))
    ])
  ]

  top_level-GrowsAt :
      (i : Text) (event : Fields) (db : Db)
      → GrowsAt
          (ingest_top_level c calendar i event
            (event_by_uid c.user_id (canonical_uid_client calendar i) db))
          db
  unfolding event_by_uid
  top_level-GrowsAt i event db =
      ingest_top_level-GrowsAt i event
        (λ e. e.user_id == c.user_id && text_eq e.canonical_uid (canonical_uid_client calendar i))
        (event_by_uid c.user_id (canonical_uid_client calendar i) db) db refl

  by_series-GrowsAt :
      (i : Text) (event : Fields) (series : Option Text) (db : Db)
      → GrowsAt (by_series c calendar i event series) db
  by_series-GrowsAt i event (some (s ∷ series)) db =
      ingest_instance-GrowsAt c (series_occurrence calendar i (s ∷ series)) event none db
  by_series-GrowsAt i event none db = top_level-GrowsAt i event db
  by_series-GrowsAt i event (some []) db = top_level-GrowsAt i event db

  unless_tampered-GrowsAt :
      (i : Text) (event : Fields) (base : Option Text) (db : Db)
      → GrowsAt (unless_tampered c calendar i event base) db
  unless_tampered-GrowsAt i event (some base) db = Grows-refl db.events
  unless_tampered-GrowsAt i event none db =
      by_series-GrowsAt i event (as_text (get event (codes "recurringEventId"))) db

  unless_ours-GrowsAt :
      (i : Text) (event : Fields) (p : Option Projection) (db : Db)
      → GrowsAt (unless_ours c calendar i event p) db
  unless_ours-GrowsAt i event (some p) db =
      rw (maybe_revert_client_drift-events p event db) (Grows-refl db.events)
  unless_ours-GrowsAt i event none db = elim (Bool-cases (is_managed_google_event_id (some i))) [
    | inl t ↦ rw t (Grows-refl db.events)
    | inr t ↦ rw t (unless_tampered-GrowsAt i event (managed_series_instance_base event db) db)
  ]

  pub ingest_one_event-GrowsAt :
      (event : Fields) (db : Db) → GrowsAt (ingest_one_event c calendar event) db
  unfolding ingest_one_event
  ingest_one_event-GrowsAt event db =
      >>=-GrowsAt (lift (or_key_error (as_text (get event (codes "id"))))) _ db
        (Grows-refl db.events) (λ i t e. unless_ours-GrowsAt i event (projection_match i t) t)
