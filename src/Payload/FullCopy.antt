-- ===== src/Payload/FullCopy.antt =====
-- app/ledger/payload.py: the full-detail copy, its footer and its description.
use busybridge.Prelude.{
  Bool, true, false, ◌&&◌, ◌||◌, Option, none, some, List, [], ◌∷◌, ◌++◌, ltb, if◌then◌else◌, Text,
  text_eq, codes, truthy, or_text, strip, rstrip, length, take, join,
}
use busybridge.Errors.{Result, ok, raise}
use busybridge.Json.{
  str, bool, obj, arr, cons, nil, Fields, end, field, put, JsonText, encoded, malformed,
}
use busybridge.Ledger.{Target, to_main, is_webcal}
use busybridge.Planner.Row.{Row}
use busybridge.Payload.Blocks.{
  Style, tag_description, json_of, start_dict, end_dict, put_text, add_recurrence,
}
use busybridge.Payload.Guests.{load_guests, format_attendee_block}

abbrev pub footer_delim : Text
footer_delim = 10 ∷ 10 ∷ codes "---" ++ (10 ∷ [])

-- A label of more than 80 characters is cut.
abbrev cut : Text → Text
cut label = if ltb 80 (length label) then take 77 label ++ codes "..." else label

abbrev labelled : Text → Text → List Text
labelled name [] = []
labelled name (c ∷ s) = (name ++ cut (c ∷ s)) ∷ []

abbrev link_line : Text → List Text
link_line [] = []
link_line (c ∷ s) = (codes "Original event: " ++ (c ∷ s)) ∷ []

unfoldable pub trailer : Row → List Text
trailer r =
    labelled (codes "Source: ") (strip (or_text r.source_label []))
    ++ (labelled (codes "Placement: ") (strip (or_text r.placement_label []))
        ++ link_line (strip (or_text r.source_html_link [])))

abbrev trailer_section : List Text → List Text
trailer_section [] = []
trailer_section (l ∷ ls) = join (10 ∷ []) (l ∷ ls) ∷ []

abbrev guest_section : Option Text → List Text
guest_section none = []
guest_section (some block) = block ∷ []

abbrev footed : Text → Text → Option Text
footed [] [] = none
footed [] (m ∷ meta) = some (m ∷ meta)
footed (c ∷ base) [] = some (c ∷ base)
footed (c ∷ base) (m ∷ meta) = some (c ∷ base ++ (footer_delim ++ (m ∷ meta)))

abbrev pub lock_prefix : Text
lock_prefix = 0x1f512 ∷ 32 ∷ []

abbrev prefixed : Text → Text → Text
prefixed [] summary = summary
prefixed (c ∷ prefix) summary = c ∷ prefix ++ (32 ∷ summary)

-- The summary, after a webcal feed's prefix and behind a lock where the user cannot edit.
unfoldable pub copy_summary : Row → Text
copy_summary r =
    let title = or_text r.summary (codes "(no title)") in
    let named =
      if is_webcal r.source_type
      then prefixed (strip (or_text r.source_label [])) title
      else title in
    if r.user_can_edit then named else lock_prefix ++ named

abbrev either : Option Text → Option Text → Option Text
either a b = if truthy a then a else b

abbrev is_value : Option Text → Text → Bool
is_value none s = false
is_value (some t) s = text_eq t s

unfoldable pub is_transparent : Style → Row → Bool
is_transparent st r =
    is_value r.show_as (codes "free")
    || (st.declined_events_free_slot && is_value r.user_rsvp_status (codes "declined"))

-- Malformed conference data is left out.
abbrev add_conference : Option JsonText → Fields → Fields
add_conference none body = body
add_conference (some malformed) body = body
add_conference (some (encoded j)) body = put body (codes "conferenceData") j

abbrev put_email : Option Text → Fields → Fields
put_email email d = put_text (codes "email") email d

abbrev is_main : Option Target → Bool
is_main (some to_main) = true
is_main _ = false

-- The user's own entry, on the main copy of an event with an RSVP.
abbrev pub add_self : Option Target → Option Text → Option Text → Fields → Fields
add_self kind rsvp email body =
    if is_main kind && truthy rsvp
    then put body (codes "attendees") (
        arr (
          cons
            (obj (
              put_email email (
                field (codes "self") (bool true)
                  (field (codes "responseStatus") (json_of rsvp) end))))
            nil))
    else body

abbrev pub after_recurrence : Row → Option Target → Option Text → Result Fields → Result Fields
after_recurrence r kind email (ok body) =
    ok (add_self kind r.user_rsvp_status email (add_conference r.conference_data_json body))
after_recurrence r kind email (raise e) = raise e

module _ (capitalize : Text → Text) where
  abbrev metadata_of : Row → Result (List Fields) → Result Text
  metadata_of r (ok guests) = ok (
      join (10 ∷ 10 ∷ [])
        (guest_section (format_attendee_block capitalize guests) ++ trailer_section (trailer r)))
  metadata_of r (raise e) = raise e

  -- The footer that is appended to the description.
  unfoldable pub full_copy_metadata : Row → Result Text
  unfolding trailer
  full_copy_metadata r = metadata_of r (load_guests r.attendees_json)

  abbrev described : Style → Row → Result Text → Result (Option Text)
  described st r (ok meta) =
      ok (tag_description st (footed (rstrip (or_text r.description [])) meta))
  described st r (raise e) = raise e

  unfoldable pub full_copy_description : Style → Row → Result (Option Text)
  unfolding full_copy_metadata
  full_copy_description st r = described st r (full_copy_metadata r)

  -- The body up to the recurrence.
  abbrev plain_copy : Style → Row → Option Text → Fields
  plain_copy st r desc =
      let coloured = put_text (codes "colorId") (either r.calendar_color_id r.color_id) (
        put
          (put
            (put_text (codes "location") r.location (
              put_text (codes "description") desc
                (field (codes "summary") (str (copy_summary r)) end)))
            (codes "start") (start_dict r))
          (codes "end") (end_dict r)) in
      if is_transparent st r
      then put coloured (codes "transparency") (str (codes "transparent"))
      else coloured

  abbrev pub from_description :
      Style → Row → Option Target → Option Text → Result (Option Text) → Result Fields
  from_description st r kind email (ok desc) =
      after_recurrence r kind email (add_recurrence r.recurrence_rule_json (plain_copy st r desc))
  from_description st r kind email (raise e) = raise e

  unfoldable pub render_full_copy : Style → Row → Option Target → Option Text → Result Fields
  unfolding full_copy_description copy_summary is_transparent
  render_full_copy st r kind email = from_description st r kind email (full_copy_description st r)
