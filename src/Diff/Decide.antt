-- ===== src/Diff/Decide.antt =====
-- app/ledger/diff.py: `_decide`. The rendering of a payload (app/ledger/payload.py) and the map from
-- calendar ids to Google's are parameters. The warning that it logs is left out.
use busybridge.Prelude.{
  ℕ, Bool, not, ◌&&◌, ◌||◌, Option, none, some, if◌then◌else◌, Text, truthy, or_text, is_some,
  codes,
}
use busybridge.Errors.{Result, ok, raise, other_error}
use busybridge.Json.{Fields}
use busybridge.Ledger.{
  Desired, Target, to_main, to_client, OpKind, create, update, delete, patch, delete_source,
  is_absent, is_rsvp_only, is_gone, is_unknown,
}
use busybridge.Planner.Row.{Row}
use busybridge.Diff.LedgerDict.{proj_row_to_ledger_dict}
use busybridge.Diff.Select.{
  Diverged, same_applied, is_origin_writeback, is_legacy_personal_source_target,
}

-- render_payload's arguments: state, ledger row, projection id, version, target kind, main address.
abbrev pub Renderer : Type 0
Renderer = Desired → Row → ℕ → ℕ → Target → Text → Result (Option Fields)

-- The arguments that a pass of the diff shares.
pub record Pass : Type 0 where
  pub user : ℕ
  pub main_calendar_id : Text
  pub google_calendar_id_for : ℕ → Option Text
  pub render_payload : Renderer
  -- parent id, original start, is_all_day
  pub derive_instance_id : Text → Text → Bool → Result Text
  -- the simulated clock that `enqueue` gets, and the wall clock that `_snap_applied` reads
  pub now : ℕ
  pub wall_clock : ℕ

-- The triple (op, payload, target calendar).
pub record Decision : Type 0 where
  pub op : Option OpKind
  pub payload : Option Fields
  pub target_cal : Text

abbrev pub no_op : Text → Decision
no_op cal = record { op = none; payload = none; target_cal = cal }

abbrev pub do_op : OpKind → Option Fields → Text → Decision
do_op k payload cal = record { op = some k; payload = payload; target_cal = cal }

-- google_calendar_id_for.get(int(target_calendar_id)), where int(None) raises.
abbrev pub mapped : Pass → Option ℕ → Result (Option Text)
mapped c none = raise (other_error (codes "int() argument must not be None"))
mapped c (some cal) = ok (c.google_calendar_id_for cal)

unfoldable pub target_calendar : Pass → Target → Option ℕ → Result (Option Text)
target_calendar c to_main cal = ok (some c.main_calendar_id)
target_calendar c to_client cal = mapped c cal

-- A whole event that recurs: a series master.
unfoldable pub is_series_master : Diverged → Bool
is_series_master d = not (truthy d.row.parent_canonical_uid) && is_some d.row.recurrence_rule_json

unfoldable pub decide_writeback : Diverged → Option Fields → Text → Decision
unfolding is_series_master
decide_writeback d payload cal =
    if is_absent d.proj.desired_state && (d.row.source_delete_pending && not (is_series_master d))
    then do_op delete_source none cal
    else if not (is_rsvp_only d.proj.desired_state)
    then no_op cal
    else if not d.row.origin_writeback_pending
    then no_op cal
    else if same_applied d.proj.applied_payload_hash d.proj.desired_payload_hash
    then no_op cal
    else do_op patch payload cal

unfoldable pub decide_absent : Diverged → Text → Decision
decide_absent d cal =
    if not (truthy d.proj.google_event_id)
    then no_op cal
    else if is_gone d.proj.current_state && not (truthy d.row.parent_canonical_uid)
    then no_op cal
    else do_op delete none cal

unfoldable pub decide_present : Diverged → Option Fields → Text → Decision
decide_present d payload cal =
    if is_gone d.proj.current_state
      || (is_unknown d.proj.current_state || not (truthy d.proj.google_event_id))
    then do_op create payload cal
    else do_op update payload cal

unfoldable pub decide_rendered : Diverged → Option Fields → Text → Decision
unfolding decide_writeback decide_absent decide_present
decide_rendered d payload cal =
    if is_origin_writeback d
    then decide_writeback d payload cal
    else if is_absent d.proj.desired_state
    then decide_absent d cal
    else decide_present d payload cal

abbrev rendered : Diverged → Text → Result (Option Fields) → Result Decision
rendered d cal (ok payload) = ok (decide_rendered d payload cal)
rendered d cal (raise e) = raise e

unfoldable pub render : Pass → Diverged → Result (Option Fields)
unfolding proj_row_to_ledger_dict
render c d =
    c.render_payload d.proj.desired_state (proj_row_to_ledger_dict d.row) d.proj.id
      d.proj.desired_ledger_version d.proj.target_kind c.main_calendar_id

unfoldable pub decide_for : Pass → Diverged → Option Text → Result Decision
unfolding decide_rendered render
decide_for c d cal =
    if is_legacy_personal_source_target d
    then ok (no_op (or_text cal (codes "")))
    else elim cal [ none ↦ ok (no_op (codes "")) | some google ↦ rendered d google (render c d) ]

abbrev at_calendar : Pass → Diverged → Result (Option Text) → Result Decision
at_calendar c d (ok cal) = decide_for c d cal
at_calendar c d (raise e) = raise e

unfoldable pub decide : Pass → Diverged → Result Decision
unfolding decide_for target_calendar
decide c d = at_calendar c d (target_calendar c d.proj.target_kind d.proj.target_calendar_id)
