-- ===== src/Payload/Writeback.antt =====
-- app/ledger/payload.py: the patch that writes the user's edits back to the source event.
use busybridge.Prelude.{
  Bool, true, List, [], ◌∷◌, ◌++◌, map, any, if◌then◌else◌, Text, codes, truthy, or_text,
}
use busybridge.Errors.{Result, ok, raise}
use busybridge.Json.{
  Json, str, bool, obj, arr, cons, nil, Items, Fields, end, field, get, put, truthy_json,
}
use busybridge.Ledger.{is_client_source}
use busybridge.Planner.Row.{Row}
use busybridge.Payload.Blocks.{json_of, start_dict, end_dict}
use busybridge.Payload.Guests.{load_guests, needs_action}

abbrev pub is_self : Fields → Bool
is_self d = truthy_json (get d (codes "self"))

-- The user's own entries take the stored RSVP.
unfoldable pub answer : Text → Fields → Fields
answer rsvp d = if is_self d then put d (codes "responseStatus") (str rsvp) else d

abbrev pub own_entry : Text → Fields
own_entry rsvp = field (codes "self") (bool true) (field (codes "responseStatus") (str rsvp) end)

-- The complete list of guests, with the user's answer, and with the user if they were not on it.
unfoldable pub answered : Text → List Fields → List Fields
unfolding answer
answered rsvp guests =
    map (answer rsvp) guests ++ (if any is_self guests then [] else own_entry rsvp ∷ [])

abbrev pub items_of : List Fields → Items
items_of [] = nil
items_of (d ∷ ds) = cons (obj d) (items_of ds)

abbrev answered_in : Text → Result (List Fields) → Result Json
answered_in rsvp (ok guests) = ok (arr (items_of (answered rsvp guests)))
answered_in rsvp (raise e) = raise e

unfoldable pub rsvp_attendees : Row → Result Json
unfolding answered
rsvp_attendees r =
    answered_in (or_text r.user_rsvp_status needs_action) (load_guests r.attendees_json)

abbrev with_attendees : Fields → Result Json → Result Fields
with_attendees body (ok guests) = ok (put body (codes "attendees") guests)
with_attendees body (raise e) = raise e

unfoldable pub add_rsvp : Row → Fields → Result Fields
unfolding rsvp_attendees
add_rsvp r body =
    if truthy r.user_rsvp_status then with_attendees body (rsvp_attendees r) else ok body

-- The editable details, where a missing one is sent as null and clears the field.
abbrev with_details : Row → Result Fields → Result Fields
with_details r (ok body) = ok (
    if is_client_source r.source_type
    then put
        (put (put body (codes "summary") (json_of r.summary)) (codes "description")
          (json_of r.description))
        (codes "location") (json_of r.location)
    else body)
with_details r (raise e) = raise e

unfoldable pub render_origin_writeback : Row → Result Fields
unfolding add_rsvp
render_origin_writeback r =
    if r.user_can_edit
    then with_details r
        (add_rsvp r (field (codes "start") (start_dict r) (field (codes "end") (end_dict r) end)))
    else add_rsvp r end
