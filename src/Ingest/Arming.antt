-- ===== src/Ingest/Arming.antt =====
-- app/ledger/ingest/main.py: when the deletion of a managed copy on the main calendar is to delete the
-- event at its source.
use busybridge.Prelude.{
  truthy, Text, codes, ◌≡◌, refl, ◌∙◌, arith, ◌⊎◌, inl, inr, Bool, true, false, Bool-cases, Option,
  some, List, [], ◌∷◌, map, ◌==◌, update_where, Text,
}
use busybridge.Ledger.{Event, Db, is_client_source}
use busybridge.Errors.{Action, Result, ok, raise, ◌>>=◌, return, lift, resume}
use busybridge.Json.{Fields}
use busybridge.Ingest.Rows.{mark_cancelled}
use busybridge.Ingest.Instance.{Outcome, is_released, status_is_cancelled}
use busybridge.Ingest.MainEdits.{
  MainReader, managed_instance_orphaned_by_split, mark_main_drift_reverted,
  mark_user_intentionally_deleted, may_arm, maybe_arm_organizer_source_delete,
  live_instance_delete_covered_by_series,
}
use busybridge.Ingest.EditBack.{
  Edit, is_any, applicable, edited_row, carry_edit, settle_edit, changes, canonical_of, main_of,
  new_answer, maybe_apply_main_edit_back,
}
use busybridge.Ingest.MatchedCopy.{ingest_one-copy}
use busybridge.Json.{get, as_text}
use busybridge.Ingest.Main.{
  matched_event, ingest_one_main_event, reported, ingest_copy, copy_deleted, copy_edited,
  occurrence_deleted,
}

-- The flags by which the diff deletes at a source.
abbrev pub deletes : Db → List Bool
deletes db = map (λ e. e.source_delete_pending) db.events

update_where-deletes :
    (p : Event → Bool) (f : Event → Event) (es : List Event)
    → ((e : Event) → (f e).source_delete_pending ≡ e.source_delete_pending)
    → map (λ e. e.source_delete_pending) (update_where p f es)
      ≡ map (λ e. e.source_delete_pending) es
unfolding update_where
update_where-deletes p f [] same = refl
update_where-deletes p f (e ∷ es) same = ground (arith, same e, update_where-deletes p f es same)

module _ (c : MainReader) where
  settle_edit-deletes :
      (event : Fields) (x : Edit) (answer : Option Text) (e : Event) (db : Db)
      → deletes (settle_edit c event x answer e db).1 ≡ deletes db
  unfolding settle_edit ◌>>=◌ carry_edit edited_row
  settle_edit-deletes event x answer e db = elim (Bool-cases (is_any x)) [
    | inl t ↦ rw t (
        update_where-deletes (λ y. y.id == e.id) (edited_row c event (applicable e x) answer)
          db.events (λ y. refl))
    | inr t ↦ rw t refl
  ]

  settled-deletes :
      (event : Fields) (e : Event) (db : Db) (canonical : Result Fields)
      (answer : Result (Option Text))
      → deletes
          ((lift canonical >>= λ d.
              lift answer >>= λ a. settle_edit c event (changes c event a d e) a e)
            db).1
        ≡ deletes db
  unfolding ◌>>=◌
  settled-deletes event e db (raise x) answer = refl
  settled-deletes event e db (ok d) (raise x) = refl
  settled-deletes event e db (ok d) (ok a) =
      settle_edit-deletes event (changes c event a d e) a e db

  edit_back-deletes :
      (event : Fields) (e : Event) (db : Db)
      → deletes (maybe_apply_main_edit_back c event e db).1 ≡ deletes db
  unfolding maybe_apply_main_edit_back ◌>>=◌
  edit_back-deletes event e db =
      settled-deletes event e db (canonical_of c event e db (main_of c event e.id db))
        (new_answer c event)

  resumed-deletes :
      (r : Result Text) (f : Text → Outcome) (db : Db)
      → deletes (resume r (λ w. return (f w)) db).1 ≡ deletes db
  resumed-deletes (ok w) f db = refl
  resumed-deletes (raise x) f db = refl

  reverted-deletes :
      (e : Event) (db : Db) → deletes (mark_main_drift_reverted c.reader.now e.id db) ≡ deletes db
  unfolding mark_main_drift_reverted
  reverted-deletes e db = update_where-deletes (λ y. y.id == e.id) _ db.events (λ y. refl)

  cancelled-deletes :
      (e : Event) (db : Db) → deletes (mark_cancelled c.reader.now e.id db) ≡ deletes db
  unfolding mark_cancelled
  cancelled-deletes e db = update_where-deletes (λ y. y.id == e.id) _ db.events (λ y. refl)

  -- One of the four conditions for a deletion at the source fails.
  abbrev IsUnarmed : Event → Type 0
  IsUnarmed e =
      (c.propagates_deletes ≡ false)
      ⊎ (is_client_source e.source_type ≡ false)
      ⊎ (e.user_can_edit ≡ false)
      ⊎ (e.is_recurring ≡ true)

  -- Or the event is an occurrence of a series.
  abbrev pub MayNotDelete : Event → Type 0
  MayNotDelete e = (truthy e.parent_canonical_uid ≡ true) ⊎ IsUnarmed e

  not_armed : (e : Event) → IsUnarmed e → may_arm c.propagates_deletes e ≡ false
  unfolding may_arm
  not_armed e h = ground (arith, h)

  user_deleted-deletes :
      (e : Event) (db : Db)
      → IsUnarmed e
      → deletes (
          maybe_arm_organizer_source_delete c.propagates_deletes e
            (mark_user_intentionally_deleted c.reader.now e.id db))
        ≡ deletes db
  unfolding maybe_arm_organizer_source_delete mark_user_intentionally_deleted
  user_deleted-deletes e db h =
      rw (not_armed e h) (update_where-deletes (λ y. y.id == e.id) _ db.events (λ y. refl))

  occurrence_deleted-deletes :
      (e : Event) (covers : Option Bool) (db : Db)
      → deletes (occurrence_deleted c e covers db).1 ≡ deletes db
  unfolding occurrence_deleted
  occurrence_deleted-deletes e covers db =
      ground (arith, reverted-deletes e db, cancelled-deletes e db)

  copy_edited-deletes :
      (event : Fields) (e : Event) (db : Db) → deletes (copy_edited c event e db).1 ≡ deletes db
  unfolding copy_edited ◌>>=◌
  copy_edited-deletes event e db = elim (Bool-cases (managed_instance_orphaned_by_split c e db)) [
    | inl t ↦ rw t (cancelled-deletes e db)
    | inr t ↦ rw t (
        let out = maybe_apply_main_edit_back c event e db in
        resumed-deletes out.0 (λ w. reported w e) out.1 ∙ edit_back-deletes event e db)
  ]

  copy_deleted-deletes :
      (e : Event) (db : Db) → MayNotDelete e → deletes (copy_deleted c e db).1 ≡ deletes db
  unfolding copy_deleted
  copy_deleted-deletes e db (inl occurrence) = ground (
    arith,
    occurrence,
    reverted-deletes e db,
    occurrence_deleted-deletes e (live_instance_delete_covered_by_series c e db) db,
  )
  copy_deleted-deletes e db (inr unarmed) = ground (
    arith,
    reverted-deletes e db,
    occurrence_deleted-deletes e (live_instance_delete_covered_by_series c e db) db,
    user_deleted-deletes e db unarmed,
  )

  ingest_copy-deletes :
      (event : Fields) (e : Event) (db : Db)
      → MayNotDelete e
      → deletes (ingest_copy c event (some e) db).1 ≡ deletes db
  unfolding ingest_copy
  ingest_copy-deletes event e db h = elim (Bool-cases (is_released e.status)) [
    | inl r ↦ rw r refl
    | inr r ↦ rw r (elim (Bool-cases (status_is_cancelled event)) [
      | inl t ↦ rw t (copy_deleted-deletes e db h)
      | inr t ↦ rw t (copy_edited-deletes event e db)
    ])
  ]

  -- When the ingest of the main calendar reads an event whose id a projection holds, whether the copy
  -- was edited or deleted, no row of ledger_events is newly flagged for a deletion at its source, if the
  -- setting is off, or the projection's event is an occurrence of a series, is no client's, cannot be
  -- edited by the user, or recurs.
  pub no_delete_at_source :
      (managed_instance : Fields → Text → Action Db Outcome) (event : Fields) (i : Text) (e : Event)
      (db : Db)
      → as_text (get event (codes "id")) ≡ some i
      → matched_event c.reader.user_id i db ≡ some e
      → MayNotDelete e
      → deletes (ingest_one_main_event c managed_instance event db).1 ≡ deletes db
  no_delete_at_source managed_instance event i e db named matched h =
      rw (ingest_one-copy c managed_instance event i e db named matched)
        (ingest_copy-deletes event e db h)
