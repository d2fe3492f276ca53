-- ===== src/Ingest/Fields.antt =====
-- app/ledger/ingest/client.py: the columns that an event's content gives, and what of them the change
-- detection reads. str.lower, the conversion of a time to UTC, and json.dumps with SHA-256 are
-- parameters. What Google documents as a text is read as missing where it is no text.
use busybridge.Prelude.{
  Bool, false, not, ◌||◌, Option, none, some, List, [], ◌∷◌, if◌then◌else◌, any, ℕ, Text, text_eq,
  codes, or_text, take, is_some,
}
use busybridge.Errors.{Result, ok, raise, other_error}
use busybridge.Json.{
  Json, arr, obj, Items, nil, cons, Fields, get, object_at, as_text, is_text, truthy_json, JsonText,
  encoded,
}
use busybridge.Ledger.{Event}
use busybridge.Identity.Canonical.{with_offset}

-- The dictionary that _extract_event_fields returns.
pub record Content : Type 0 where
  pub summary : Option Text
  pub description : Option Text
  pub location : Option Text
  pub start_at : Option Text
  pub end_at : Option Text
  pub start_timezone : Option Text
  pub end_timezone : Option Text
  pub is_all_day : Bool
  pub show_as : Option Text
  pub visibility : Option Text
  pub color_id : Option Text
  pub organizer_email : Option Text
  pub user_can_edit : Bool
  pub user_rsvp_status : Option Text
  pub attendees_json : Option JsonText
  pub recurrence_rule_json : Option JsonText
  pub is_recurring : Bool
  pub conference_data_json : Option JsonText
  pub source_html_link : Option Text

-- What the content hash is taken of.
pub record Hashable : Type 0 where
  pub summary : Option Text
  pub description : Option Text
  pub location : Option Text
  pub start_timezone : Option Text
  pub end_timezone : Option Text
  pub is_all_day : Bool
  pub show_as : Option Text
  pub visibility : Option Text
  pub color_id : Option Text
  pub organizer_email : Option Text
  pub user_can_edit : Bool
  pub user_rsvp_status : Option Text
  pub attendees_json : Option JsonText
  pub recurrence_rule_json : Option JsonText
  pub is_recurring : Bool
  pub start_instant : Option Text
  pub end_instant : Option Text

abbrev pub is_owned : List Text → Text → Bool
is_owned owned email = any (text_eq email) owned

-- json.dumps(event[k]) if event.get(k) else None
abbrev dumped : Option Json → Option JsonText
dumped none = none
dumped (some j) = if truthy_json (some j) then some (encoded j) else none

-- json.dumps(event.get("attendees", []))
abbrev attendees_text : Option Json → Option JsonText
attendees_text none = some (encoded (arr nil))
attendees_text (some j) = some (encoded j)

module _ (lower : Text → Text) where
  -- A frozenset; nothing reads its order.
  abbrev lowered : List Text → List Text
  lowered [] = []
  lowered ([] ∷ es) = lowered es
  lowered ((c ∷ e) ∷ es) = lower (c ∷ e) ∷ lowered es

  unfoldable pub normalise_owned_emails : Text → List Text → List Text
  normalise_owned_emails user_email owned = lowered (user_email ∷ owned)

  abbrev organizer_of : Fields → Option Text
  organizer_of event = as_text (get (object_at event (codes "organizer")) (codes "email"))

  abbrev owns_organizer : List Text → Text → Bool
  owns_organizer owned [] = false
  owns_organizer owned (c ∷ email) = is_owned (normalise_owned_emails [] owned) (c ∷ email)

  unfoldable pub user_is_organizer : List Text → Fields → Bool
  unfolding normalise_owned_emails object_at
  user_is_organizer owned event = owns_organizer owned (lower (or_text (organizer_of event) []))

  unfoldable pub is_own_entry : List Text → Fields → Bool
  is_own_entry owned d =
      truthy_json (get d (codes "self"))
      || is_owned owned (lower (or_text (as_text (get d (codes "email"))) []))

  -- The loop over the guests, up to the user's own entry.
  unfoldable pub own_answer : List Text → Items → Result (Option Text)
  unfolding is_own_entry
  own_answer owned nil = ok none
  own_answer owned (cons (obj d) rest) =
      let later = own_answer owned rest in
      if is_own_entry owned d then ok (as_text (get d (codes "responseStatus"))) else later
  own_answer owned (cons j rest) = raise (other_error (codes "a guest is no object"))

  abbrev pub answer_in : List Text → Option Json → Result (Option Text)
  answer_in owned (some (arr items)) = own_answer owned items
  answer_in owned j =
      if truthy_json j then raise (other_error (codes "guests are no list")) else ok none

  abbrev time_in : Fields → Bool → Option Text
  time_in d all_day =
      if all_day then as_text (get d (codes "date")) else as_text (get d (codes "dateTime"))

  abbrev content : List Text → Fields → Option Text → Content
  content owned event answer =
      let start = object_at event (codes "start") in
      let finish = object_at event (codes "end") in
      let all_day = is_some (get start (codes "date")) in
      record {
        summary = as_text (get event (codes "summary"));
        description = as_text (get event (codes "description"));
        location = as_text (get event (codes "location"));
        start_at = time_in start all_day;
        end_at = time_in finish all_day;
        start_timezone = as_text (get start (codes "timeZone"));
        end_timezone = as_text (get finish (codes "timeZone"));
        is_all_day = all_day;
        show_as =
            if is_text (get event (codes "transparency")) (codes "transparent")
            then some (codes "free")
            else some (codes "busy");
        visibility = as_text (get event (codes "visibility"));
        color_id = as_text (get event (codes "colorId"));
        organizer_email = organizer_of event;
        user_can_edit =
            user_is_organizer owned event
            || (truthy_json (get event (codes "guestsCanModify"))
                || not (truthy_json (get event (codes "attendees"))));
        user_rsvp_status = answer;
        attendees_json = attendees_text (get event (codes "attendees"));
        recurrence_rule_json = dumped (get event (codes "recurrence"));
        is_recurring = truthy_json (get event (codes "recurrence"));
        conference_data_json = dumped (get event (codes "conferenceData"));
        source_html_link = as_text (get event (codes "htmlLink"));
      }

  abbrev content_or : List Text → Fields → Result (Option Text) → Result Content
  content_or owned event (raise e) = raise e
  content_or owned event (ok answer) = ok (content owned event answer)

  unfoldable pub extract_event_fields : Text → List Text → Fields → Result Content
  unfolding normalise_owned_emails user_is_organizer own_answer object_at
  extract_event_fields user_email owned_emails event =
      let owned = normalise_owned_emails user_email owned_emails in
      content_or owned event (answer_in owned (get event (codes "attendees")))

module _ (utc_instant : Text → Option Text) where
  abbrev or_raw : Text → Option Text → Option Text
  or_raw s none = some s
  or_raw s (some instant) = some instant

  unfoldable pub canonical_instant : Option Text → Bool → Option Text
  canonical_instant none all_day = none
  canonical_instant (some []) all_day = none
  canonical_instant (some (c ∷ s)) all_day =
      if all_day then some (take 10 (c ∷ s)) else or_raw (c ∷ s) (utc_instant (with_offset (c ∷ s)))

  -- The link of the call and the page's are left out, and the times are instants.
  unfoldable pub hashable_of : Content → Hashable
  unfolding canonical_instant
  hashable_of f = record {
    summary = f.summary;
    description = f.description;
    location = f.location;
    start_timezone = f.start_timezone;
    end_timezone = f.end_timezone;
    is_all_day = f.is_all_day;
    show_as = f.show_as;
    visibility = f.visibility;
    color_id = f.color_id;
    organizer_email = f.organizer_email;
    user_can_edit = f.user_can_edit;
    user_rsvp_status = f.user_rsvp_status;
    attendees_json = f.attendees_json;
    recurrence_rule_json = f.recurrence_rule_json;
    is_recurring = f.is_recurring;
    start_instant = canonical_instant f.start_at f.is_all_day;
    end_instant = canonical_instant f.end_at f.is_all_day;
  }

  unfoldable pub content_hash : (Hashable → ℕ) → Content → ℕ
  unfolding hashable_of
  content_hash digest f = digest (hashable_of f)

unfoldable pub content_of_row : Event → Content
content_of_row e = record {
  summary = e.summary;
  description = e.description;
  location = e.location;
  start_at = e.start_at;
  end_at = e.end_at;
  start_timezone = e.start_timezone;
  end_timezone = e.end_timezone;
  is_all_day = e.is_all_day;
  show_as = e.show_as;
  visibility = e.visibility;
  color_id = e.color_id;
  organizer_email = e.organizer_email;
  user_can_edit = e.user_can_edit;
  user_rsvp_status = e.user_rsvp_status;
  attendees_json = e.attendees_json;
  recurrence_rule_json = e.recurrence_rule_json;
  is_recurring = e.is_recurring;
  conference_data_json = e.conference_data_json;
  source_html_link = e.source_html_link;
}
