-- ===== src/Examples/Payload.antt =====
-- app/ledger/payload.py: its theorems at concrete rows.
use busybridge.Prelude.{
  ◌≡◌, refl, true, false, none, some, List, [], ◌∷◌, any, Text, codes, strip, is_space, starts_with,
  lstrip, rstrip, text_eq,
}
use busybridge.Errors.{ok}
use busybridge.Json.{str, bool, obj, arr, cons, nil, Fields, end, field, encoded, truthy_json, get}
use busybridge.Ledger.{present_busy, present_personal_busy, present_full_rsvp_only, to_client}
use busybridge.Planner.Row.{Row}
use busybridge.Payload.Blocks.{Style, managed_tag, tag_description}
use busybridge.Payload.Guests.{load_guests}
use busybridge.Payload.FullCopy.{copy_summary}
use busybridge.Payload.Writeback.{items_of}
use busybridge.Payload.Render.{render_payload, renderer}
use busybridge.Payload.Strip.{strip_managed_tag, strip_copy_summary_prefixes}
use busybridge.Payload.Privacy.{busy_blocks_hide_details}
use busybridge.Payload.Answers.{has_answered, KeepsGuest, writeback_changes_only_the_answer}
use busybridge.Payload.RoundTrip.{untag_tagged}
use busybridge.Payload.Prefixes.{is_bare, stripped_summary_is_bare, strip-copy_summary}
use busybridge.Diff.Decide.{Pass}
use busybridge.Diff.Select.{Diverged}
use busybridge.Examples.Data.{main_copy, meeting, row_of}

abbrev style : Style
style = record {
  managed_event_prefix = codes "[BB]";
  busy_block_title = codes "Busy";
  personal_busy_block_title = [];
  declined_events_free_slot = true;
}

abbrev same_text : Text → Text
same_text s = s

abbrev meeting_row : Row
meeting_row = row_of meeting

-- Another event at the same times.
abbrev secret_row : Row
secret_row =
    row_of
      (record meeting { id = 2; summary = some (codes "Secret"); location = some (codes "HQ") })

busy_blocks_hide_details_example :
    (render_payload same_text style present_busy meeting_row none (some to_client) none
      ≡ render_payload same_text style present_busy secret_row none (some to_client) none)
    × (render_payload same_text style present_personal_busy meeting_row none (some to_client) none
        ≡ render_payload same_text style present_personal_busy secret_row none
            (some to_client)
            none)
busy_blocks_hide_details_example =
    busy_blocks_hide_details same_text style meeting_row secret_row none (some to_client) none
      (record {
        same_start = refl;
        same_end = refl;
        same_start_timezone = refl;
        same_end_timezone = refl;
        same_all_day = refl;
        same_recurrence = refl;
      })

-- The copy of a moved occurrence.
abbrev moved : Diverged
moved = record {
  proj = main_copy;
  row = row_of (record meeting { parent_canonical_uid = some (codes "client:3:series") });
}

abbrev pass : Pass
pass = record {
  user = 7;
  main_calendar_id = codes "main@x";
  google_calendar_id_for = λ cal. none;
  render_payload = renderer same_text style;
  derive_instance_id = λ parent start all_day. ok parent;
  now = 100;
  wall_clock = 101;
}

abbrev guest : Fields
guest = field (codes "email") (str (codes "ann@x")) end

abbrev own_guest : Fields
own_guest = field (codes "self") (bool true) end

-- A meeting of two guests that the user cannot edit and accepted.
abbrev invitation : Row
invitation = row_of (record meeting {
  user_can_edit = false;
  user_rsvp_status = some (codes "accepted");
  attendees_json = some (encoded (arr (cons (obj guest) (cons (obj own_guest) nil))));
})

writeback_changes_only_the_answer_example :
    (gs : List Fields) × (render_payload same_text style present_full_rsvp_only invitation none none
        none
      ≡ ok (some (field (codes "attendees") (arr (items_of gs)) end)))
    × KeepsGuest (guest ∷ own_guest ∷ []) gs 0
    × (any (has_answered (codes "accepted")) gs ≡ true)
unfolding load_guests truthy_json get text_eq
writeback_changes_only_the_answer_example =
    writeback_changes_only_the_answer same_text style invitation none none none b'a'
      (codes "ccepted") (guest ∷ own_guest ∷ []) 0 refl refl refl

untag_tagged_example :
    strip_managed_tag style (tag_description style (some (codes "Agenda "))) ≡ some (codes "Agenda")
unfolding managed_tag strip rstrip lstrip is_space
untag_tagged_example = untag_tagged style (some (codes "Agenda ")) refl

stripped_summary_is_bare_example :
    (out : Text) × (strip_copy_summary_prefixes style (some (codes "[BB] [BB] Standup")) ≡ some out)
    × (is_bare (managed_tag style) out ≡ true)
stripped_summary_is_bare_example = stripped_summary_is_bare style (codes "[BB] [BB] Standup")

strip-copy_summary_example :
    strip_copy_summary_prefixes style (some (copy_summary invitation)) ≡ some (codes "Meeting")
unfolding is_bare starts_with managed_tag strip rstrip lstrip is_space
strip-copy_summary_example =
    strip-copy_summary style invitation b'M' (codes "eeting") refl refl refl
