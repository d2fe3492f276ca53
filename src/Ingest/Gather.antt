-- ===== src/Ingest/Gather.antt =====
-- app/ledger/ingest/client.py: the events of one page in `ingest_client_calendar`, and those of a page
-- of a series in `scan_full_sync_recurring_cancellations`, with what they add to the counters.
use busybridge.Prelude.{
  ℕ, suc, Bool, ◌&&◌, Option, none, some, List, [], ◌∷◌, ◌++◌, if◌then◌else◌, any, Text, text_eq,
  codes,
}
use busybridge.Errors.{Result, ok, raise, Action}
use busybridge.Json.{Fields, get, as_text, truthy_json}
use busybridge.Ledger.{Db}
use busybridge.Reconciler.Audit.{stamp_ical_uid}
use busybridge.Ingest.Instance.{Outcome, status_is_cancelled}
use busybridge.Ingest.Client.{is_recurring_parent}

-- The dictionary of counters, by the words that ingest reports; a word that is not there counts 0.
abbrev pub Tally : Type 0
Tally = List (Text × ℕ)

unfoldable pub count : Text → Tally → Tally
count word [] = (word, 1) ∷ []
count word ((w, n) ∷ rest) = if text_eq w word then (w, suc n) ∷ rest else (w, n) ∷ count word rest

-- What a pass has gathered, besides what it wrote.
pub record Gathered : Type 0 where
  pub counters : Tally
  pub affected : List ℕ
  pub parents : List Text
  pub full_sync : Bool

abbrev pub counted : Text → Gathered → Gathered
counted word s = record s { counters = count word s.counters }

abbrev pub add_id : Option ℕ → List ℕ → List ℕ
add_id none ids = ids
add_id (some i) ids = ids ++ i ∷ []

abbrev pub stamped : Option ℕ → Fields → Db → Db
stamped none event db = db
stamped (some i) event db = stamp_ical_uid i event db

-- recurring_parent_ids.add(event["id"]): an item has an id, and the set is read in the order of
-- the additions.
abbrev add_parent : Option Text → List Text → List Text
add_parent none ids = ids
add_parent (some i) ids = if any (text_eq i) ids then ids else ids ++ i ∷ []

unfoldable pub noted : Fields → Gathered → Gathered
unfolding is_recurring_parent count
noted event s =
    if is_recurring_parent event
    then record (counted (codes "seen") s) {
      parents = add_parent (as_text (get event (codes "id"))) s.parents;
    }
    else counted (codes "seen") s

unfoldable pub after_event : Result Outcome → Fields → Gathered → Db → Gathered × Db
unfolding count stamp_ical_uid
after_event (raise e) event s db = (counted (codes "failed") s, db)
after_event (ok (word, i)) event s db =
    (record (counted word s) { affected = add_id i s.affected }, stamped i event db)

-- One event by `one`, whose exception is counted and ends there.
unfoldable pub ingest_guarded :
    (Fields → Action Db Outcome) → Fields → Gathered → Db → Gathered × Db
unfolding after_event
ingest_guarded one event s db = let (r, db') = one event db in after_event r event s db'

unfoldable pub ingest_events :
    (Fields → Action Db Outcome) → List Fields → Gathered → Db → Gathered × Db
unfolding ingest_guarded noted
ingest_events one [] s db = (s, db)
ingest_events one (event ∷ events) s db =
    let (s', after) = ingest_guarded one event (noted event s) db in
    ingest_events one events s' after

-- A cancelled instance of the page of a series.
abbrev pub is_tombstone : Fields → Bool
is_tombstone event = status_is_cancelled event && truthy_json (get event (codes "recurringEventId"))

unfoldable pub ingest_tombstones :
    (Fields → Action Db Outcome) → List Fields → Gathered → Db → Gathered × Db
unfolding ingest_guarded count
ingest_tombstones one [] s db = (s, db)
ingest_tombstones one (event ∷ events) s db =
    let (s', after) =
      if is_tombstone event
      then ingest_guarded one event (counted (codes "seen") s) db
      else (s, db) in
    ingest_tombstones one events s' after
