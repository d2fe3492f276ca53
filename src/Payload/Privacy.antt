-- ===== src/Payload/Privacy.antt =====
-- What app/ledger/payload.py's busy blocks tell of the event they stand for.
use busybridge.Prelude.{ℕ, ◌≡◌, refl, Option, Text}
use busybridge.Ledger.{Target, present_busy, present_personal_busy}
use busybridge.Planner.Row.{Row}
use busybridge.Payload.Blocks.{
  Style, busy_title, personal_busy_title, start_dict, end_dict, placeholder, render_busy_block,
  render_personal_busy,
}
use busybridge.Payload.Render.{render_payload}

-- The columns of when an event is.
pub record SameTimes (r q : Row) : Type 0 where
  pub same_start : r.start_at ≡ q.start_at
  pub same_end : r.end_at ≡ q.end_at
  pub same_start_timezone : r.start_timezone ≡ q.start_timezone
  pub same_end_timezone : r.end_timezone ≡ q.end_timezone
  pub same_all_day : r.is_all_day ≡ q.is_all_day
  pub same_recurrence : r.recurrence_rule_json ≡ q.recurrence_rule_json

placeholder_cong :
    (st : Style) (title : Text) (r q : Row)
    → SameTimes r q
    → placeholder st title r ≡ placeholder st title q
unfolding placeholder start_dict end_dict
placeholder_cong st title r q h =
    rw
      (
        h.same_start, h.same_end, h.same_start_timezone, h.same_end_timezone, h.same_all_day,
        h.same_recurrence,
      )
      refl

-- Two events at the same times, with the same recurrence, have the same busy blocks of both kinds,
-- whatever else their rows hold: no title, description, place, guest or link reaches them.
pub busy_blocks_hide_details :
    (capitalize : Text → Text) (st : Style) (r q : Row) (i : Option ℕ) (kind : Option Target)
    (email : Option Text)
    → SameTimes r q
    → (render_payload capitalize st present_busy r i kind email
        ≡ render_payload capitalize st present_busy q i kind email)
      × (render_payload capitalize st present_personal_busy r i kind email
          ≡ render_payload capitalize st present_personal_busy q i kind email)
unfolding render_payload render_busy_block render_personal_busy
busy_blocks_hide_details capitalize st r q i kind email h = (
  rw (placeholder_cong st (busy_title st) r q h) refl,
  rw (placeholder_cong st (personal_busy_title st) r q h) refl,
)
