-- ===== src/Ingest/Conference.antt =====
-- app/ledger/ingest/client.py: `_conference_id` and `_resolve_conference`, the change detection of the
-- link to a video call. The columns' keys are there, as the schema has them.
use busybridge.Prelude.{
  Bool, true, false, Option, none, some, [], if◌then◌else◌, Text, text_eq, codes,
}
use busybridge.Json.{get, as_object, as_text, JsonText, encoded, malformed}

unfoldable pub conference_id : Option JsonText → Option Text
unfolding as_object
conference_id none = none
conference_id (some malformed) = none
conference_id (some (encoded j)) = as_text (get (as_object (some j)) (codes "conferenceId"))

-- The conferenceData to store, the candidate to store, and whether the link changed.
pub record Resolution : Type 0 where
  pub stored : Option JsonText
  pub pending : Option Text
  pub changed : Bool

abbrev pub same_id : Option Text → Option Text → Bool
same_id none none = true
same_id (some a) (some b) = text_eq a b
same_id _ _ = false

-- A removal is the candidate ''.
abbrev pub candidate_for : Option Text → Text
candidate_for none = []
candidate_for (some cid) = cid

unfoldable pub resolve_conference : Option JsonText → Option Text → Option JsonText → Resolution
unfolding conference_id
resolve_conference stored_json pending new_json =
    let new_cid = conference_id new_json in
    if same_id new_cid (conference_id stored_json)
    then record { stored = stored_json; pending = none; changed = false }
    else if same_id (some (candidate_for new_cid)) pending
    then record { stored = new_json; pending = none; changed = true }
    else record { stored = stored_json; pending = some (candidate_for new_cid); changed = false }
