-- ===== src/Payload/TwoViews.antt =====
-- app/ledger/payload.py, rendered twice: the planner hashes a body, and the diff sends another.
use busybridge.Prelude.{Bool, ◌||◌, Option, none, some, Text, text_eq, codes, if◌then◌else◌}
use busybridge.Errors.{Result, ok, raise}
use busybridge.Json.{Json, Fields, end, field}
use busybridge.Ledger.{OpKind}
use busybridge.Planner.Row.{Row}
use busybridge.Diff.Select.{Diverged}
use busybridge.Diff.Decide.{Pass}
use busybridge.Diff.Pass.{request_for}
use busybridge.Payload.Blocks.{Style}
use busybridge.Payload.Render.{render_payload, renderer}

-- The keys that depend on the projection's id, on the main calendar's address and on the operation.
abbrev is_local : Text → Bool
is_local k =
    text_eq k (codes "extendedProperties")
    || (text_eq k (codes "attendees") || text_eq k (codes "status"))

-- A body without them.
unfoldable pub common : Fields → Fields
common end = end
common (field k v d) = if is_local k then common d else field k v (common d)

abbrev pub common_of : Result (Option Fields) → Result (Option Fields)
common_of (ok none) = ok none
common_of (ok (some d)) = ok (some (common d))
common_of (raise e) = raise e

-- The payload of the operation that the diff enqueues for a projection.
abbrev pub enqueued :
    Pass → Diverged → OpKind → Text → Result (Option Fields) → Result (Option Fields)
enqueued c d op cal (ok body) = ok (request_for c d op body cal).payload
enqueued c d op cal (raise e) = raise e

-- The pass with the renderer of app/ledger/payload.py.
abbrev pub rendering : (Text → Text) → Style → Pass → Pass
rendering capitalize st c = record c { render_payload = renderer capitalize st }
