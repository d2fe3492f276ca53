-- ===== src/Examples/Identity.antt =====
-- app/ledger/identity.py: its theorems at a projection's id.
use busybridge.Prelude.{ℕ, ◌≡◌, true, some, Text, arith}
use busybridge.Errors.{ok}
use busybridge.Identity.EventId.{derive_google_event_id, is_managed_google_event_id}
use busybridge.Identity.Encoding.{projection_in, derived_id_is_managed, projection_in_derived}

abbrev some_hash : Text → ℕ
some_hash s = 77

derived_id_is_managed_example :
    (s : Text) × (derive_google_event_id some_hash 11 2 ≡ ok s)
    × (is_managed_google_event_id (some s) ≡ true)
derived_id_is_managed_example = derived_id_is_managed some_hash 11 2 (omega arith) (omega arith)

projection_in_derived_example :
    (s : Text) × (derive_google_event_id some_hash 11 0 ≡ ok s) × (projection_in s ≡ 11)
projection_in_derived_example = projection_in_derived some_hash 11 (omega arith) (omega arith)
