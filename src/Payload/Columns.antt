-- ===== src/Payload/Columns.antt =====
-- app/ledger/payload.py: no renderer reads a column that the diff's dictionary lacks.
use busybridge.Prelude.{◌≡◌, refl, ℕ, Option, Text, ap}
use busybridge.Ledger.{
  Target, Desired, present_full, present_busy, present_personal_busy, present_full_rsvp_only,
  absent,
}
use busybridge.Planner.Row.{Row}
use busybridge.Payload.Blocks.{
  Style, start_dict, end_dict, placeholder, render_busy_block, render_personal_busy,
}
use busybridge.Payload.FullCopy.{
  trailer, copy_summary, is_transparent, full_copy_metadata, full_copy_description,
  render_full_copy,
}
use busybridge.Payload.Writeback.{rsvp_attendees, add_rsvp, render_origin_writeback}
use busybridge.Payload.Render.{stamp_body, unstamped, render_payload}
use busybridge.Diff.LedgerDict.{proj_row_to_ledger_dict}

module _ (capitalize : Text → Text) (st : Style) (r : Row) where
  busy-narrowed : render_busy_block st (proj_row_to_ledger_dict r) ≡ render_busy_block st r
  unfolding render_busy_block placeholder start_dict end_dict proj_row_to_ledger_dict
  busy-narrowed = refl

  personal-narrowed :
      render_personal_busy st (proj_row_to_ledger_dict r) ≡ render_personal_busy st r
  unfolding render_personal_busy placeholder start_dict end_dict proj_row_to_ledger_dict
  personal-narrowed = refl

  writeback-narrowed :
      render_origin_writeback (proj_row_to_ledger_dict r) ≡ render_origin_writeback r
  unfolding render_origin_writeback add_rsvp rsvp_attendees start_dict end_dict
      proj_row_to_ledger_dict
  writeback-narrowed = refl

  full-narrowed :
      (kind : Option Target) (main : Option Text)
      → render_full_copy capitalize st (proj_row_to_ledger_dict r) kind main
        ≡ render_full_copy capitalize st r kind main
  unfolding render_full_copy full_copy_description full_copy_metadata is_transparent copy_summary
      trailer start_dict end_dict proj_row_to_ledger_dict
  full-narrowed kind main = refl

  -- A body rendered from the diff's dictionary is the body rendered from the whole row.
  pub render_payload-narrowed :
      (state : Desired) (i : Option ℕ) (kind : Option Target) (main : Option Text)
      → render_payload capitalize st state (proj_row_to_ledger_dict r) i kind main
        ≡ render_payload capitalize st state r i kind main
  unfolding render_payload
  render_payload-narrowed absent i kind main = refl
  render_payload-narrowed present_full_rsvp_only i kind main = ap unstamped writeback-narrowed
  render_payload-narrowed present_full i kind main =
      ap (stamp_body i kind) (full-narrowed kind main)
  render_payload-narrowed present_busy i kind main = ap (stamp_body i kind) busy-narrowed
  render_payload-narrowed present_personal_busy i kind main =
      ap (stamp_body i kind) personal-narrowed
