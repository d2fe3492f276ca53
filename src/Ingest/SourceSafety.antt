-- ===== src/Ingest/SourceSafety.antt =====
-- app/ledger/ingest/main.py: the copies of events from a personal calendar or a webcal feed, on the
-- main calendar.
use busybridge.Prelude.{
  codes, ℕ, ◌≡◌, refl, ap, arith, ◌⊎◌, inl, inr, true, false, ◌||◌, Bool-cases, Option, some, ◌==◌,
  update_where, Text,
}
use mathlib.Core.Path.{fun_ext}
use busybridge.Ledger.{Event, Source, Db, is_client_source, is_personal, is_webcal}
use busybridge.Errors.{Result, ok, raise, Action, ◌>>=◌, return, lift, resume}
use busybridge.Json.{Fields}
use busybridge.Ingest.Instance.{Outcome, is_released, status_is_cancelled}
use busybridge.Ingest.MainEdits.{
  MainReader, touched, managed_instance_orphaned_by_split, mark_main_drift_reverted,
}
use busybridge.Ingest.EditBack.{
  Edit, is_any, applicable, edited_row, carry_edit, settle_edit, changes, canonical_of, main_of,
  new_answer, maybe_apply_main_edit_back,
}
use busybridge.Ingest.MatchedCopy.{ingest_one-copy}
use busybridge.Json.{get, as_text}
use busybridge.Ingest.Main.{
  matched_event, ingest_one_main_event, reported, ingest_copy, copy_deleted, copy_edited,
}

abbrev pub IsReadOnly : Event → Type 0
IsReadOnly e = (is_personal e.source_type || is_webcal e.source_type) ≡ true

not_client : (s : Source) → (is_personal s || is_webcal s) ≡ true → is_client_source s ≡ false
not_client s h = ground (arith, h)

abbrev no_edit : Edit
no_edit = record { rsvp = false; time = false; detail = false }

applicable-read_only :
    (e : Event) (x : Edit) → is_client_source e.source_type ≡ false → applicable e x ≡ no_edit
unfolding applicable
applicable-read_only e x h = ground (arith, h)

edited-nothing :
    (c : MainReader) (event : Fields) (answer : Option Text)
    → edited_row c event no_edit answer ≡ touched c.reader.now
unfolding edited_row
edited-nothing c event answer = fun_ext (λ e. refl)

-- The rows are as they were, or the event's own has a new version.
abbrev pub OnlyBumped : ℕ → Event → Db → Db → Type 0
OnlyBumped now e before after =
    (after.events ≡ before.events)
    ⊎ (after.events ≡ update_where (λ x. x.id == e.id) (touched now) before.events)

module _ (c : MainReader) where
  settle_edit-OnlyBumped :
      (event : Fields) (x : Edit) (answer : Option Text) (e : Event) (db : Db)
      → is_client_source e.source_type ≡ false
      → OnlyBumped c.reader.now e db (settle_edit c event x answer e db).1
  unfolding settle_edit ◌>>=◌ carry_edit
  settle_edit-OnlyBumped event x answer e db h =
      rw (applicable-read_only e x h) (elim (Bool-cases (is_any x)) [
        | inl t ↦ rw t (
            inr (
              ap (λ f. update_where (λ y. y.id == e.id) f db.events)
                (edited-nothing c event answer)))
        | inr t ↦ rw t (inl refl)
      ])

  settled-OnlyBumped :
      (event : Fields) (e : Event) (db : Db) (canonical : Result Fields)
      (answer : Result (Option Text))
      → is_client_source e.source_type ≡ false
      → OnlyBumped c.reader.now e db
          ((lift canonical >>= λ d.
              lift answer >>= λ a. settle_edit c event (changes c event a d e) a e)
            db).1
  unfolding ◌>>=◌
  settled-OnlyBumped event e db (raise x) answer h = inl refl
  settled-OnlyBumped event e db (ok d) (raise x) h = inl refl
  settled-OnlyBumped event e db (ok d) (ok a) h =
      settle_edit-OnlyBumped event (changes c event a d e) a e db h

  edit_back-OnlyBumped :
      (event : Fields) (e : Event) (db : Db)
      → is_client_source e.source_type ≡ false
      → OnlyBumped c.reader.now e db (maybe_apply_main_edit_back c event e db).1
  unfolding maybe_apply_main_edit_back ◌>>=◌
  edit_back-OnlyBumped event e db h =
      settled-OnlyBumped event e db (canonical_of c event e db (main_of c event e.id db))
        (new_answer c event) h

  then_return-OnlyBumped :
      (m : Action Db Text) (f : Text → Outcome) (e : Event) (db : Db)
      → OnlyBumped c.reader.now e db (m db).1
      → OnlyBumped c.reader.now e db ((m >>= λ w. return (f w)) db).1
  unfolding ◌>>=◌
  then_return-OnlyBumped m f e db h = by_result (m db).0 (m db).1 h
    where
      by_result :
          (r : Result Text) (t : Db)
          → OnlyBumped c.reader.now e db t
          → OnlyBumped c.reader.now e db (resume r (λ w. return (f w)) t).1
      by_result (ok w) t k = k
      by_result (raise x) t k = k

  not_orphaned :
      (e : Event) (db : Db)
      → is_client_source e.source_type ≡ false
      → managed_instance_orphaned_by_split c e db ≡ false
  unfolding managed_instance_orphaned_by_split
  not_orphaned e db h = rw h refl

  copy_edited-OnlyBumped :
      (event : Fields) (e : Event) (db : Db)
      → is_client_source e.source_type ≡ false
      → OnlyBumped c.reader.now e db (copy_edited c event e db).1
  unfolding copy_edited
  copy_edited-OnlyBumped event e db h = rw (not_orphaned e db h) (
      then_return-OnlyBumped (maybe_apply_main_edit_back c event e) (λ w. reported w e) e db
        (edit_back-OnlyBumped event e db h))

  copy_deleted-OnlyBumped :
      (e : Event) (db : Db) → IsReadOnly e → OnlyBumped c.reader.now e db (copy_deleted c e db).1
  unfolding copy_deleted mark_main_drift_reverted
  copy_deleted-OnlyBumped e db h = rw h (inr refl)

  ingest_copy-OnlyBumped :
      (event : Fields) (e : Event) (db : Db)
      → IsReadOnly e
      → OnlyBumped c.reader.now e db (ingest_copy c event (some e) db).1
  unfolding ingest_copy
  ingest_copy-OnlyBumped event e db h = elim (Bool-cases (is_released e.status)) [
    | inl r ↦ rw r (inl refl)
    | inr r ↦ rw r (elim (Bool-cases (status_is_cancelled event)) [
      | inl t ↦ rw t (copy_deleted-OnlyBumped e db h)
      | inr t ↦ rw t (copy_edited-OnlyBumped event e db (not_client e.source_type h))
    ])
  ]

  -- When the ingest of the main calendar reads an event whose id a projection holds, and the
  -- projection's event comes from a personal calendar or a webcal feed, then, whether the copy was
  -- edited or deleted, and also where the ingest raises, ledger_events is as it was, or the row of the
  -- projection's event has a new version and update time and is otherwise as it was. An occurrence of a
  -- copied series under an id that no projection holds is not spoken of.
  pub read_only_source_is_safe :
      (managed_instance : Fields → Text → Action Db Outcome) (event : Fields) (i : Text) (e : Event)
      (db : Db)
      → as_text (get event (codes "id")) ≡ some i
      → matched_event c.reader.user_id i db ≡ some e
      → IsReadOnly e
      → OnlyBumped c.reader.now e db (ingest_one_main_event c managed_instance event db).1
  read_only_source_is_safe managed_instance event i e db named matched h =
      rw (ingest_one-copy c managed_instance event i e db named matched)
        (ingest_copy-OnlyBumped event e db h)
