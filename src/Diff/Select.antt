-- ===== src/Diff/Select.antt =====
-- app/ledger/diff.py: `_PROJECTION_SELECT`, `_diverged_projections`, the two tests on its rows and
-- the lookup of an instance's parent.
use busybridge.Prelude.{
  ℕ, Bool, false, not, ◌&&◌, Option, none, some, List, [], ◌∷◌, ◌==◌, if◌then◌else◌, is_some,
  same_nullable, find_first, Text, text_eq,
}
use busybridge.Ledger.{
  Event, Projection, Target, Hash, Db, to_a_client, same_target, same_hash, is_client_source,
  is_personal,
}
use busybridge.Planner.Row.{Row, join_row}

-- A row of the select: a projection beside its event and the event's joined columns.
pub record Diverged : Type 0 where
  pub proj : Projection
  pub row : Row

abbrev pub same_version : Option ℕ → ℕ → Bool
same_version none v = false
same_version (some a) v = a == v

abbrev pub same_applied : Option Hash → Hash → Bool
same_applied none h = false
same_applied (some a) h = same_hash a h

-- The WHERE clause on the projection's own columns.
unfoldable pub is_diverged : Projection → Bool
is_diverged p =
    not (
      same_version p.applied_ledger_version p.desired_ledger_version
      && same_applied p.applied_payload_hash p.desired_payload_hash)
    && not p.permanently_failed

-- JOIN ledger_events e ON e.id = p.ledger_event_id
abbrev pub event_at : Db → Projection → Option Event
event_at db p = find_first (λ e. e.id == p.ledger_event_id) db.events

abbrev pub join_projection : Db → Projection → Event → Diverged
join_projection db p e = record { proj = p; row = join_row db e }

abbrev pub selected : ℕ → Db → Projection → Option Event → List Diverged → List Diverged
selected user db p none rest = rest
selected user db p (some e) rest =
    if e.user_id == user && is_diverged p then join_projection db p e ∷ rest else rest

unfoldable pub select_diverged : ℕ → Db → List Projection → List Diverged
unfolding is_diverged
select_diverged user db [] = []
select_diverged user db (p ∷ ps) = selected user db p (event_at db p) (select_diverged user db ps)

unfoldable pub diverged_projections : ℕ → Db → List Diverged
unfolding select_diverged
diverged_projections user db = select_diverged user db db.projections

abbrev aims_at_source : Diverged → Bool
aims_at_source d =
    is_some d.row.source_calendar_id
    && same_nullable d.row.source_calendar_id d.proj.target_calendar_id

-- The projection that writes the user's edits back to the calendar that sourced the event.
unfoldable pub is_origin_writeback : Diverged → Bool
is_origin_writeback d =
    to_a_client d.proj.target_kind && (is_client_source d.row.source_type && aims_at_source d)

-- A projection of an older build that aims at a personal calendar.
unfoldable pub is_legacy_personal_source_target : Diverged → Bool
is_legacy_personal_source_target d =
    to_a_client d.proj.target_kind && (is_personal d.row.source_type && aims_at_source d)

abbrev belongs_to : ℕ → Text → Option Event → Bool
belongs_to user uid none = false
belongs_to user uid (some e) = e.user_id == user && text_eq e.canonical_uid uid

-- The parent's projection on the same target.
unfoldable pub parent_projection_for_instance :
    ℕ → Text → Target → Option ℕ → Db → Option Projection
parent_projection_for_instance user uid kind cal db =
    find_first
      (λ p.
        belongs_to user uid (event_at db p)
        && (same_target p.target_kind kind && same_nullable p.target_calendar_id cal))
      db.projections
