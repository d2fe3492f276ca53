-- ===== src/Payload/Guests.antt =====
-- app/ledger/payload.py: the guest list of a full copy's footer. What a guest's entry holds under a
-- key that Google documents as a text is read as missing where it is no text; a list of guests is
-- what ingest stores, and another JSON value raises here.
use busybridge.Prelude.{
  ℕ, zero, suc, ◌-◌, Bool, true, false, not, ◌&&◌, ◌||◌, Option, none, some, List, [], ◌∷◌, ◌++◌,
  map, if◌then◌else◌, Text, text_eq, codes, truthy, or_text, strip, length, take, join, replace,
  before_char, decimal, select, count_where, is_space,
}
use busybridge.Errors.{Result, ok, raise, other_error}
use busybridge.Json.{
  Json, arr, obj, Items, nil, cons, Fields, get, as_text, truthy_json, JsonText, encoded, malformed,
}

-- The entries of a list of objects.
unfoldable pub entries : Items → Result (List Fields)
entries nil = ok []
entries (cons (obj d) rest) = elim (entries rest) [ ok ds ↦ ok (d ∷ ds) | raise e ↦ raise e ]
entries (cons j rest) = raise (other_error (codes "a guest is no object"))

abbrev guests_in : Json → Result (List Fields)
guests_in (arr items) = entries items
guests_in j = raise (other_error (codes "guests are no list"))

-- json.loads(raw) if raw else [], where a text that is no JSON is read as [].
unfoldable pub load_guests : Option JsonText → Result (List Fields)
unfolding entries
load_guests none = ok []
load_guests (some malformed) = ok []
load_guests (some (encoded j)) = guests_in j

-- (att.get(key) or "").strip()
unfoldable pub text_at : Fields → Text → Text
text_at d key = strip (or_text (as_text (get d key)) [])

abbrev pub needs_action : Text
needs_action = codes "needsAction"

-- The status, with any that is not one of the four read as needsAction.
unfoldable pub status_of : Fields → Text
status_of d =
    let s = or_text (as_text (get d (codes "responseStatus"))) needs_action in
    if text_eq s (codes "accepted")
      || (text_eq s (codes "declined") || text_eq s (codes "tentative"))
    then s
    else needs_action

-- Not the user, no room, and with an address or a name.
unfoldable pub is_listed : Fields → Bool
unfolding text_at
is_listed d =
    not (truthy_json (get d (codes "self")) || truthy_json (get d (codes "resource")))
    && (truthy (some (text_at d (codes "email")))
        || truthy (some (text_at d (codes "displayName"))))

unfoldable pub count_status : Text → List Fields → ℕ
unfolding status_of
count_status s ds = count_where (λ d. text_eq (status_of d) s) ds

-- p.split(): the words between runs of whitespace, by accumulating one in reverse.
abbrev flush : Text → List Text → List Text
flush [] ps = ps
flush (c ∷ w) ps = (c ∷ w) ∷ ps

unfoldable pub words_from : Text → Text → List Text
words_from word [] = flush word []
words_from word (c ∷ s) = elim (is_space c) [
  | true ↦ flush word (words_from [] s)
  | false ↦ words_from (word ++ c ∷ []) s
]

-- str.capitalize is Python's, by Unicode's tables: a parameter.
module _ (capitalize : Text → Text) where
  abbrev titled : Text → List Text → Text
  titled email [] = email
  titled email (p ∷ ps) = join (32 ∷ []) (map capitalize (p ∷ ps))

  abbrev name_of : Text → Text → Text
  name_of [] [] = []
  name_of [] (c ∷ email) =
      let local = before_char b'@' (c ∷ email) in
      titled (c ∷ email) (words_from [] (replace b'.' 32 (replace b'_' 32 (replace b'-' 32 local))))
  name_of (c ∷ name) email = c ∷ name

  unfoldable pub attendee_display_name : Fields → Text
  unfolding text_at words_from
  attendee_display_name d = name_of (text_at d (codes "displayName")) (text_at d (codes "email"))

  abbrev icon : Text → Text
  icon s =
      if text_eq s (codes "accepted")
      then 0x2705 ∷ []
      else if text_eq s (codes "declined")
      then 0x274c ∷ []
      else if text_eq s (codes "tentative")
      then 0x2753 ∷ []
      else 0x23f3 ∷ []

  -- " — word", where the status has a word.
  abbrev dashed : Text → Text
  dashed s =
      let dash = 32 ∷ 0x2014 ∷ 32 ∷ [] in
      if text_eq s (codes "declined") || text_eq s (codes "tentative")
      then dash ++ s
      else if text_eq s needs_action
      then dash ++ codes "no response"
      else []

  unfoldable pub guest_line : Fields → Text
  unfolding attendee_display_name status_of text_at
  guest_line d =
      icon (status_of d)
      ++ (32 ∷ or_text (some (attendee_display_name d)) (text_at d (codes "email"))
          ++ ((if truthy_json (get d (codes "organizer")) then codes " (organizer)" else [])
              ++ (dashed (status_of d)
                  ++ (if truthy_json (get d (codes "optional")) then codes " (optional)" else []))))

  abbrev pub attendee_list_limit : ℕ
  attendee_list_limit = 15

  abbrev overflow_line : ℕ → List Text
  overflow_line zero = []
  overflow_line (suc n) =
      (0x2026 ∷ codes " and " ++ (decimal (suc n) ++ codes " more on the original event")) ∷ []

  unfoldable pub summary_line : List Fields → Text
  unfolding count_status
  summary_line ds =
      codes "Attendees ("
      ++ (decimal (length ds)
          ++ (codes "): "
              ++ (decimal (count_status (codes "accepted") ds)
                  ++ (codes " yes, "
                      ++ (decimal (count_status (codes "declined") ds)
                          ++ (codes " no, "
                              ++ (decimal (count_status (codes "tentative") ds)
                                  ++ (codes " maybe, "
                                      ++ (decimal (count_status needs_action ds)
                                          ++ codes " pending")))))))))

  abbrev emails_block : List Text → List Text
  emails_block [] = []
  emails_block (e ∷ es) = [] ∷ (codes "Emails: " ++ join (codes ", ") (e ∷ es)) ∷ []

  abbrev block_of : List Fields → Option Text
  block_of [] = none
  block_of (d ∷ ds) =
      let shown = take attendee_list_limit (d ∷ ds) in
      let emails = select (λ e. truthy (some e)) (map (λ a. text_at a (codes "email")) (d ∷ ds)) in
      some (
        join (10 ∷ []) (
          summary_line (d ∷ ds)
          ∷ []
          ∷ (map guest_line shown
              ++ (overflow_line (length (d ∷ ds) - length shown) ++ emails_block emails))))

  unfoldable pub format_attendee_block : List Fields → Option Text
  unfolding is_listed guest_line summary_line text_at
  format_attendee_block ds = block_of (select is_listed ds)
