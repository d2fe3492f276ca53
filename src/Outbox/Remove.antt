-- ===== src/Outbox/Remove.antt =====
-- app/ledger/outbox.py: `_do_delete`, `_do_delete_source` and `_do_patch`.
use busybridge.Prelude.{
  ℕ, Bool, true, false, Option, none, some, ◌==◌, if◌then◌else◌, Text, codes, find_first,
}
use busybridge.Errors.{ok, raise, value_error, Action, ◌>>=◌, ◌>>◌, return, throw}
use busybridge.Json.{Fields}
use busybridge.Ledger.{Event, Projection, Op, Db, is_personal}
use busybridge.Google.{GoogleClient, World, on_db, write}
use busybridge.Outbox.Record.{
  get_projection, set_event, record_absent, record_origin_writeback_applied,
}
use busybridge.Outbox.Retry.{Outcome, succeeded}
use busybridge.Outbox.Create.{attempt, is_gone_status}
use busybridge.Outbox.Update.{or_null}

unfoldable pub clear_source_delete : Event → Db → Db
clear_source_delete e = set_event e.id (λ x. record x { source_delete_pending = false })

module _ (g : GoogleClient) where
  -- A delete, to which 404 and 410 are the answer that is wanted.
  unfoldable pub delete_or_gone : Text → Text → Action (World g) (Unit {0})
  delete_or_gone cal gid = do
    answer ← attempt g (g.delete_event cal gid)
    elim answer [
      | ok done ↦ return tt
      | raise e ↦ if is_gone_status e.status then return tt else throw e
    ]

  unfoldable pub now_absent : ℕ → Op → Action (World g) Outcome
  now_absent now op = do write g (record_absent now op); return succeeded

  unfoldable pub delete_copy : ℕ → Op → Projection → Action (World g) Outcome
  unfolding delete_or_gone now_absent
  delete_copy now op proj = elim (or_null proj.google_event_id) [
    | none ↦ now_absent now op
    | some gid ↦ do delete_or_gone op.target_google_calendar_id gid; now_absent now op
  ]

  unfoldable pub do_delete : ℕ → Op → Action (World g) Outcome
  unfolding delete_copy
  do_delete now op = do proj ← on_db g (get_projection op.projection_id); delete_copy now op proj

  -- The ledger row of the op's projection may be missing.
  unfoldable pub delete_at_source : ℕ → Op → Option Event → Action (World g) Outcome
  unfolding delete_or_gone now_absent clear_source_delete
  delete_at_source now op none = now_absent now op
  delete_at_source now op (some led) =
      if is_personal led.source_type
      then (do write g (clear_source_delete led); now_absent now op)
      else do
        elim (or_null led.source_event_id) [
          | none ↦ return tt
          | some gid ↦ delete_or_gone op.target_google_calendar_id gid
        ]
        write g (clear_source_delete led)
        now_absent now op

  abbrev pub ledger_of : Projection → Db → Option Event
  ledger_of proj db = find_first (λ e. e.id == proj.ledger_event_id) db.events

  unfoldable pub do_delete_source : ℕ → Op → Action (World g) Outcome
  unfolding delete_at_source
  do_delete_source now op = do
    proj ← on_db g (get_projection op.projection_id)
    λ w. delete_at_source now op (ledger_of proj w.db) w

  unfoldable pub written_back : ℕ → Op → Action (World g) Outcome
  written_back now op = do on_db g (record_origin_writeback_applied now op); return succeeded

  abbrev send_updates : Bool → Option Text
  send_updates true = some (codes "all")
  send_updates false = none

  unfoldable pub patch_source : Bool → ℕ → Op → Fields → Option Text → Action (World g) Outcome
  unfolding written_back
  patch_source notify now op payload none = written_back now op
  patch_source notify now op payload (some gid) = do
    answer ←
        attempt g (g.patch_event op.target_google_calendar_id gid payload (send_updates notify))
    elim answer [
      | ok result ↦ written_back now op
      | raise e ↦ if is_gone_status e.status then written_back now op else throw e
    ]

  -- The source event to patch: none for a missing ledger row, a read-only source, or no id.
  abbrev pub patch_target : Option Event → Option Text
  patch_target none = none
  patch_target (some led) =
      if is_personal led.source_type then none else or_null led.source_event_id

  unfoldable pub do_patch : Bool → ℕ → Op → Option Fields → Action (World g) Outcome
  unfolding patch_source
  do_patch notify now op none = throw (value_error (codes "patch op has no payload"))
  do_patch notify now op (some payload) = do
    proj ← on_db g (get_projection op.projection_id)
    λ w. patch_source notify now op payload (patch_target (ledger_of proj w.db)) w
