-- ===== src/Ledger.antt =====
-- app/ledger/schema.py: the rows of the ledger's tables, and the database as the tables.
-- TEXT columns with a fixed set of values are enumerations, timestamps are numbers (microseconds
-- since the epoch, which order as the ISO texts of one zone do), row ids are numbers.
use busybridge.Prelude.{ℕ, Bool, true, false, Option, List, ◌==◌, Text}
use busybridge.Json.{Fields, JsonText}

-- ledger_events.source_type; `other` is any text that the planner does not know.
pub data Source : Type 0 where
  main_native client personal webcal : Source
  other : Text → Source

-- ledger_events.status
pub data EventStatus : Type 0 where
  active cancelled released : EventStatus

-- The state constants of payload.py.
pub data Desired : Type 0 where
  present_full present_busy present_personal_busy present_full_rsvp_only absent : Desired

-- ledger_projections.current_state
pub data Current : Type 0 where
  unknown present gone errored : Current

-- ledger_projections.target_kind
pub data Target : Type 0 where
  to_main to_client : Target

-- A payload hash: the hex digest of a SHA-256 (the number it spells), or the text 'absent'.
pub data Hash : Type 0 where
  absent_hash : Hash
  sha : ℕ → Hash

-- outbox_operations.operation; `unknown_op` is any other text.
pub data OpKind : Type 0 where
  create update delete patch delete_source : OpKind
  unknown_op : Text → OpKind

-- outbox_operations.status
pub data OpStatus : Type 0 where
  pending in_flight done permanent_failure superseded : OpStatus

-- A row of ledger_events.
pub record Event : Type 0 where
  pub id : ℕ
  pub user_id : ℕ
  pub canonical_uid : Text
  pub parent_canonical_uid : Option Text
  pub source_type : Source
  pub source_calendar_id : Option ℕ
  pub source_event_id : Option Text
  pub source_etag : Option Text
  pub source_updated_at : Option Text
  pub ical_uid : Option Text
  pub summary : Option Text
  pub description : Option Text
  pub location : Option Text
  pub start_at : Option Text
  pub end_at : Option Text
  pub start_timezone : Option Text
  pub end_timezone : Option Text
  pub is_all_day : Bool
  pub show_as : Option Text
  pub visibility : Option Text
  pub color_id : Option Text
  pub organizer_email : Option Text
  pub user_can_edit : Bool
  pub user_rsvp_status : Option Text
  pub attendees_json : Option JsonText
  pub conference_data_json : Option JsonText
  pub pending_conference_id : Option Text
  pub source_html_link : Option Text
  pub recurrence_rule_json : Option JsonText
  pub recurrence_instance_original_start : Option Text
  pub status : EventStatus
  pub user_intentionally_deleted : Bool
  pub is_recurring : Bool
  pub origin_writeback_pending : Bool
  pub source_delete_pending : Bool
  pub version : ℕ
  pub created_at : Option ℕ
  pub updated_at : Option ℕ
  pub cancelled_at : Option ℕ
  pub last_seen_at : Option ℕ

-- A row of ledger_projections.
pub record Projection : Type 0 where
  pub id : ℕ
  pub ledger_event_id : ℕ
  pub target_kind : Target
  pub target_calendar_id : Option ℕ
  pub desired_state : Desired
  pub desired_payload_hash : Hash
  pub desired_ledger_version : ℕ
  pub current_state : Current
  pub google_event_id : Option Text
  pub google_etag : Option Text
  pub applied_payload_hash : Option Hash
  pub applied_ledger_version : Option ℕ
  pub last_attempt_at : Option ℕ
  pub next_attempt_at : Option ℕ
  pub attempts : ℕ
  pub last_error : Option Text
  pub permanently_failed : Bool
  pub google_id_generation : ℕ
  pub google_id_generation_floor : ℕ
  pub updated_at : Option ℕ

-- The UNIQUE idempotency key `proj:{projection}:v{version}:{operation}`.
pub record IdemKey : Type 0 where
  pub projection : ℕ
  pub version : ℕ
  pub operation : OpKind

-- A payload_json text: the dictionary that `enqueue` wrote, or a text that json.loads refuses.
pub data BodyText : Type 0 where
  body : Fields → BodyText
  broken : BodyText

-- A row of outbox_operations.
pub record Op : Type 0 where
  pub id : ℕ
  pub user_id : ℕ
  pub projection_id : ℕ
  pub operation : OpKind
  pub idempotency_key : IdemKey
  pub ledger_version_at_enqueue : ℕ
  pub desired_payload_hash : Option Hash
  pub target_google_calendar_id : Text
  pub payload_json : Option BodyText
  pub status : OpStatus
  pub attempts : ℕ
  pub next_attempt_at : Option ℕ
  pub last_error : Option Text
  pub last_http_status : Option ℕ
  pub created_at : ℕ
  pub started_at : Option ℕ
  pub completed_at : Option ℕ

-- A row of client_calendars, and whether its calendar_type is 'client'.
pub record Calendar : Type 0 where
  pub id : ℕ
  pub user_id : ℕ
  pub is_active : Bool
  pub is_client : Bool
  pub display_name : Option Text
  pub color_id : Option Text

-- A row of webcal_subscriptions.
pub record Subscription : Type 0 where
  pub id : ℕ
  pub display_prefix : Option Text
  pub placed_on_client : Bool
  pub placement_client_calendar_id : Option ℕ

-- A row of affected_ledger_events.
pub record Affected : Type 0 where
  pub id : ℕ
  pub user_id : ℕ
  pub ledger_event_id : ℕ

-- A row of calendar_sync_state or of main_calendar_sync_state, by the calendar or the user that it is
-- kept for.
pub record SyncState : Type 0 where
  pub owner : ℕ
  pub sync_token : Option Text
  pub last_full_sync : Option ℕ
  pub last_incremental_sync : Option ℕ
  pub consecutive_failures : ℕ
  pub last_error : Option Text

-- A call of alerts.email.queue_alert with type 'event_unmirrorable'.
pub record Alert : Type 0 where
  pub user_id : ℕ
  pub projection_id : ℕ
  pub generation : ℕ

pub record Db : Type 0 where
  pub events : List Event
  pub projections : List Projection
  pub operations : List Op
  pub affected : List Affected
  pub calendars : List Calendar
  pub subscriptions : List Subscription
  pub alerts : List Alert
  pub calendar_sync_states : List SyncState
  pub main_sync_states : List SyncState
  -- The users whose sync_paused is set.
  pub paused_users : List ℕ
  -- The settings row keyed sync_paused holds 'true'.
  pub sync_paused : Bool

abbrev pub is_active : EventStatus → Bool
is_active active = true
is_active _ = false

abbrev pub is_cancelled : EventStatus → Bool
is_cancelled cancelled = true
is_cancelled _ = false

abbrev pub is_main_native : Source → Bool
is_main_native main_native = true
is_main_native _ = false

abbrev pub is_client_source : Source → Bool
is_client_source client = true
is_client_source _ = false

abbrev pub is_personal : Source → Bool
is_personal personal = true
is_personal _ = false

abbrev pub is_webcal : Source → Bool
is_webcal webcal = true
is_webcal _ = false

abbrev pub is_absent : Desired → Bool
is_absent absent = true
is_absent _ = false

abbrev pub is_rsvp_only : Desired → Bool
is_rsvp_only present_full_rsvp_only = true
is_rsvp_only _ = false

abbrev pub same_state : Desired → Desired → Bool
same_state present_full present_full = true
same_state present_busy present_busy = true
same_state present_personal_busy present_personal_busy = true
same_state present_full_rsvp_only present_full_rsvp_only = true
same_state absent absent = true
same_state _ _ = false

abbrev pub is_gone : Current → Bool
is_gone gone = true
is_gone _ = false

abbrev pub is_unknown : Current → Bool
is_unknown unknown = true
is_unknown _ = false

abbrev pub to_a_client : Target → Bool
to_a_client to_client = true
to_a_client to_main = false

abbrev pub same_target : Target → Target → Bool
same_target to_main to_main = true
same_target to_client to_client = true
same_target _ _ = false

abbrev pub same_hash : Hash → Hash → Bool
same_hash absent_hash absent_hash = true
same_hash (sha a) (sha b) = a == b
same_hash _ _ = false

abbrev pub is_pending : OpStatus → Bool
is_pending pending = true
is_pending _ = false

abbrev pub is_in_flight : OpStatus → Bool
is_in_flight in_flight = true
is_in_flight _ = false
