-- ===== src/Ingest/MatchedCopy.antt =====
-- app/ledger/ingest/main.py: an event of the main calendar whose id a projection holds.
use busybridge.Prelude.{◌≡◌, refl, some, Text, codes}
use busybridge.Ledger.{Event, Db}
use busybridge.Errors.{Action, ◌>>=◌}
use busybridge.Json.{Fields, get, as_text}
use busybridge.Ingest.Instance.{Outcome}
use busybridge.Ingest.MainEdits.{MainReader}
use busybridge.Ingest.Main.{matched_event, ingest_copy, ingest_by_id, ingest_one_main_event}

-- It is a copy of the projection's event.
pub ingest_one-copy :
    (c : MainReader) (managed_instance : Fields → Text → Action Db Outcome) (event : Fields)
    (i : Text) (e : Event) (db : Db)
    → as_text (get event (codes "id")) ≡ some i
    → matched_event c.reader.user_id i db ≡ some e
    → ingest_one_main_event c managed_instance event db ≡ ingest_copy c event (some e) db
unfolding ingest_one_main_event ingest_by_id ◌>>=◌
ingest_one-copy c managed_instance event i e db named matched = rw (named, matched) refl
