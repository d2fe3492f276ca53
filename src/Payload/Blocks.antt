-- ===== src/Payload/Blocks.antt =====
-- app/ledger/payload.py: the settings that rendering reads, the managed tag, times, and the two busy
-- blocks.
use busybridge.Prelude.{
  Bool, true, false, Option, none, some, [], ◌∷◌, ◌++◌, if◌then◌else◌, Text, codes, truthy, or_text,
  strip, rstrip,
}
use busybridge.Errors.{Result, ok, raise, value_error}
use busybridge.Json.{Json, null, str, obj, Fields, end, field, put, JsonText, encoded, malformed}
use busybridge.Planner.Row.{Row}

-- The fields of app/config.py's Settings that are read at render time.
pub record Style : Type 0 where
  pub managed_event_prefix : Text
  pub busy_block_title : Text
  pub personal_busy_block_title : Text
  pub declined_events_free_slot : Bool

unfoldable pub managed_tag : Style → Text
managed_tag st = strip st.managed_event_prefix

unfoldable pub busy_title : Style → Text
busy_title st = or_text (some st.busy_block_title) (codes "Busy")

unfoldable pub personal_busy_title : Style → Text
personal_busy_title st = or_text (some st.personal_busy_block_title) (codes "Busy (personal)")

abbrev pub gap : Text
gap = 10 ∷ 10 ∷ []

abbrev pub tagged : Text → Text → Text
tagged tag [] = tag
tagged tag (c ∷ s) = c ∷ s ++ (gap ++ tag)

abbrev pub tag_with : Text → Option Text → Option Text
tag_with [] description = description
tag_with (c ∷ tag) description = some (tagged (c ∷ tag) (rstrip (or_text description [])))

-- The description with the managed tag on a line of its own at the end.
unfoldable pub tag_description : Style → Option Text → Option Text
unfolding managed_tag
tag_description st description = tag_with (managed_tag st) description

-- A column as a JSON value.
abbrev pub json_of : Option Text → Json
json_of none = null
json_of (some s) = str s

abbrev time_dict : Bool → Option Text → Option Text → Json
time_dict true t tz = obj (field (codes "date") (json_of t) end)
time_dict false t tz = obj (
    field (codes "dateTime") (json_of t)
      (field (codes "timeZone") (str (or_text tz (codes "UTC"))) end))

unfoldable pub start_dict : Row → Json
start_dict r = time_dict r.is_all_day r.start_at r.start_timezone

unfoldable pub end_dict : Row → Json
end_dict r = time_dict r.is_all_day r.end_at r.end_timezone

-- if text: body[key] = text
abbrev pub put_text : Text → Option Text → Fields → Fields
put_text key t body = if truthy t then put body key (json_of t) else body

-- json.loads
abbrev pub decode : JsonText → Result Json
decode (encoded j) = ok j
decode malformed = raise (value_error (codes "JSONDecodeError"))

abbrev with_recurrence : Fields → Result Json → Result Fields
with_recurrence body (ok j) = ok (put body (codes "recurrence") j)
with_recurrence body (raise e) = raise e

-- if row["recurrence_rule_json"]: body["recurrence"] = json.loads(…)
unfoldable pub add_recurrence : Option JsonText → Fields → Result Fields
add_recurrence none body = ok body
add_recurrence (some t) body = with_recurrence body (decode t)

-- A placeholder with this title.
unfoldable pub placeholder : Style → Text → Row → Result Fields
unfolding start_dict end_dict tag_description add_recurrence
placeholder st title r = add_recurrence r.recurrence_rule_json (
    put_text (codes "description") (tag_description st none) (
      field (codes "summary") (str title) (
        field (codes "start") (start_dict r) (
          field (codes "end") (end_dict r) (
            field (codes "transparency") (str (codes "opaque"))
              (field (codes "visibility") (str (codes "private")) end))))))

unfoldable pub render_busy_block : Style → Row → Result Fields
unfolding placeholder busy_title
render_busy_block st r = placeholder st (busy_title st) r

unfoldable pub render_personal_busy : Style → Row → Result Fields
unfolding placeholder personal_busy_title
render_personal_busy st r = placeholder st (personal_busy_title st) r
