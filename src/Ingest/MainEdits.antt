-- ===== src/Ingest/MainEdits.antt =====
-- app/ledger/ingest/main.py: what the deletion of a managed copy on the main calendar leads to, and
-- whether a copy of an occurrence is a leftover of a split. The coverage of a slot by a series
-- (app/ledger/recurrence.py, on dateutil) and the renderer are parameters.
use busybridge.Prelude.{
  ℕ, suc, Bool, true, false, not, ◌&&◌, Option, none, some, [], ◌∷◌, ◌==◌, if◌then◌else◌, any,
  update_where, is_some, Text, text_eq, or_text, truthy,
}
use busybridge.Errors.{Result}
use busybridge.Json.{Fields}
use busybridge.Ledger.{Event, Projection, Desired, Db, is_active, is_client_source, to_a_client}
use busybridge.Outbox.Record.{set_event}
use busybridge.Planner.Row.{Row}
use busybridge.Payload.Blocks.{Style}
use busybridge.Ingest.Rows.{Reader, event_by_uid}

-- What the ingest of the main calendar reads besides its rows.
pub record MainReader : Type 0 where
  pub reader : Reader
  pub style : Style
  -- render_payload(…, target_kind="main")
  pub render : Desired → Row → Result (Option Fields)
  -- _series_covers, none where it cannot tell
  pub covers : Event → Text → Bool → Option Bool
  -- looks_finite_recurrence of the row's rule, and strip_r_suffix
  pub is_finite : Event → Bool
  pub strip_r_suffix : Text → Text
  -- get_settings().delete_propagation_mode == "on"
  pub propagates_deletes : Bool

unfoldable pub main_projection_of : ℕ → Projection → Bool
main_projection_of i p = p.ledger_event_id == i && not (to_a_client p.target_kind)

abbrev pub unconverge : ℕ → Projection → Projection
unconverge now p = record p { applied_ledger_version = none; updated_at = some now }

unfoldable pub touched : ℕ → Event → Event
touched now e = record e { version = suc e.version; updated_at = some now }

unfoldable pub deleted_row : ℕ → Event → Event
unfolding touched
deleted_row now e = record (touched now e) { user_intentionally_deleted = true }

unfoldable pub mark_user_intentionally_deleted : ℕ → ℕ → Db → Db
unfolding deleted_row
mark_user_intentionally_deleted now i = set_event i (deleted_row now)

unfoldable pub armed : Event → Event
armed e = record e { source_delete_pending = true }

-- Whether the deletion of the copy is to reach the source event.
unfoldable pub may_arm : Bool → Event → Bool
may_arm on e = on && (is_client_source e.source_type && (e.user_can_edit && not e.is_recurring))

unfoldable pub maybe_arm_organizer_source_delete : Bool → Event → Db → Db
unfolding may_arm armed
maybe_arm_organizer_source_delete on e db = if may_arm on e then set_event e.id armed db else db

unfoldable pub mark_main_drift_reverted : ℕ → ℕ → Db → Db
unfolding main_projection_of touched
mark_main_drift_reverted now i db = record (set_event i (touched now) db) {
  projections = update_where (main_projection_of i) (unconverge now) db.projections;
}

abbrev pub is_true : Option Bool → Bool
is_true (some true) = true
is_true _ = false

abbrev is_false : Option Bool → Bool
is_false (some false) = true
is_false _ = false

module _ (c : MainReader) where
  abbrev live_series : Option Event → Option Event
  live_series none = none
  live_series (some p) = if p.is_recurring && is_active p.status then some p else none

  -- The parent series of an instance row, by the row's columns.
  abbrev series_of : Option Text → Db → Option Event
  series_of (some (u ∷ uid)) db = live_series (event_by_uid c.reader.user_id (u ∷ uid) db)
  series_of _ db = none

  abbrev covered_by : Option Event → Option Text → Bool → Option Bool
  covered_by (some p) (some (s ∷ start)) all_day = c.covers p (s ∷ start) all_day
  covered_by _ _ all_day = none

  unfoldable pub live_instance_delete_covered_by_series : Event → Db → Option Bool
  unfolding event_by_uid
  live_instance_delete_covered_by_series e db =
      covered_by (series_of e.parent_canonical_uid db) e.recurrence_instance_original_start
        e.is_all_day

  abbrev is_segment : Event → Event → Bool
  is_segment p s =
      s.user_id == c.reader.user_id
      && (is_client_source s.source_type
          && (s.is_recurring
              && (not (is_some s.parent_canonical_uid)
                  && (is_active s.status && not (s.id == p.id)))))

  abbrev same_family : Text → Option Text → Bool
  same_family base (some (i ∷ event)) = text_eq (c.strip_r_suffix (i ∷ event)) base
  same_family base _ = false

  -- Another live segment of the family covers the slot.
  unfoldable pub covered_by_sibling : Event → Text → Text → Db → Bool
  covered_by_sibling p base start db =
      any
        (λ s.
          is_segment p s
          && (same_family base s.source_event_id && is_true (c.covers s start s.is_all_day)))
        db.events

  abbrev is_orphan_of : Event → Option Event → Option Text → Db → Bool
  is_orphan_of e (some p) (some (s ∷ start)) db =
      truthy p.source_event_id
      && (c.is_finite p
          && (is_false (c.covers p (s ∷ start) e.is_all_day)
              && covered_by_sibling p (c.strip_r_suffix (or_text p.source_event_id [])) (s ∷ start)
                  db))
  is_orphan_of e _ _ db = false

  unfoldable pub managed_instance_orphaned_by_split : Event → Db → Bool
  unfolding event_by_uid covered_by_sibling
  managed_instance_orphaned_by_split e db =
      is_client_source e.source_type
      && is_orphan_of e (series_of e.parent_canonical_uid db) e.recurrence_instance_original_start
          db
