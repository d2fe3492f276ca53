-- ===== src/Lib.antt =====
-- BusyBridge copies events between a user's calendars. Its engine (app/ledger) keeps a ledger of
-- events with a projection row for each calendar that should hold a copy. A pass runs from the
-- triggers through the planner, which computes what each projection should hold, and the diff,
-- which turns projections whose desired and applied columns differ into operations, to the outbox,
-- which drains the operations into Google Calendar and records on both rows what became of them.
-- The parts share nothing but the database, so the state of the model is the database as its
-- tables, and the calendar service beside it.
--
-- Prelude: the library's names, Boolean tests, tables as lists (SELECT, UPDATE ... WHERE), texts.
-- Json: JSON values and Python's dictionary operations.
-- Errors: exceptions as values, and code that reads and writes a state and may raise. What was
--   written before a raise stays written.
-- Ledger (app/ledger/schema.py, app/database.py): the rows, and Db, all tables together.
--   Timestamps are numbers of microseconds, row ids are numbers, texts with fixed values are
--   enumerations.
-- Google (app/ledger/google_client.py): the service is a parameter, over a state of its own; each
--   call returns or raises. The model assumes nothing of its answers.
-- Planner (app/ledger/planner.py): Row is _get_ledger_row and _active_client_calendars, Desired is
--   _compute_desired_projections, Targets is _resolve_targets, Persist is _upsert_projection and
--   _mark_implicit_absent, Plan is plan_for_ledger_event with its lookups. Privacy, Fanout,
--   Upsert, Keyed, Replan, Keeps and Cascade hold the proofs. Parameters: the hash of the rendered
--   payload, which Payload instantiates, and the occurrences of a series
--   (app/ledger/recurrence.py, which stands on dateutil).
-- Diff (app/ledger/diff.py): Select is the SELECT and the tests on its rows, LedgerDict is
--   _proj_row_to_ledger_dict, Decide is _decide, Pass is diff_and_enqueue_for_user. Safety,
--   Convergence and Bounds hold the proofs. Parameters: the renderer, which Payload instantiates,
--   the derivation of instance ids (app/ledger/identity.py, Identity) and the map to Google's
--   calendar ids.
-- Outbox (app/ledger/outbox.py): Enqueue is enqueue, Claim is _reclaim_stale_operations and
--   _claim_next, Create, Update and Remove are the handlers, Record is the UPDATEs that they end
--   with, Retry is _classify_and_retry, Drain is _execute_op and drain_user. Queue, Claims,
--   Outcomes, Handlers, Execute, Policy, ReadOnly, Generations and Ceiling hold the proofs.
--   Parameter: the derivation of event ids.
-- Triggers (app/ledger/triggers.py): Requests is the operations on reconcile_requests, Lifecycle
--   the proofs, Recorded record_affected_events with its proofs.
-- Identity (app/ledger/identity.py): EventId is the derivation and the recognition of event ids,
--   Canonical the canonical uids; Encoding holds the proofs. Parameters: SHA-256, datetime's
--   parsing and formatting, str.lower. The outbox and the diff take the derivations as their
--   parameters.
-- Maintenance (app/maintenance.py, app/ledger/runtime.py): the gate, its holds and the passes that
--   run; Quiescence holds the proofs, over the steps of the other callers.
-- Payload (app/ledger/payload.py): Blocks is the tag, the times and the busy blocks, Guests the
--   guest list, FullCopy _render_full_copy, Writeback _render_origin_writeback, Render
--   render_payload, hash_payload and their calls by the planner and the diff, Strip what reads a
--   copy back. Privacy, TwoViews, Answers, RoundTrip and Prefixes hold the proofs. Parameters:
--   str.capitalize, and json.dumps with SHA-256.
-- Reconciler (app/ledger/reconciler.py): Pause is _pause_mode and _bump_failure, Affected the
--   queue of rows to plan again, DryRun the snapshot and the discard, Reconcile reconcile_user,
--   Audit audit_user. Queue, Undoable, Staging, Staged, Discard, Restore, DryDiff, DryPass and
--   Frozen hold the proofs. Arguments: the entry points of ingest and discovery, each an action
--   over database and service.
-- Ingest (app/ledger/ingest/client.py, personal.py and main.py there): Fields is
--   _extract_event_fields and _content_hash, Conference _resolve_conference, Instant the ids and
--   slots of occurrences, Rows what is written to a row, Instance _ingest_instance and
--   _maybe_ingest_detached_cancellation, Client _ingest_one_event, Personal _ingest_one, Gather
--   the events of a page, Pass the passes over a calendar, Main _ingest_one_main_event, MainEdits
--   what it does on a deleted managed copy, EditBack _maybe_apply_main_edit_back, MainPass
--   ingest_main_calendar. Evolution, Growth, OneEvent, PassSteps, PassRows, Quiet, Settling,
--   OwnCopies, Scans, Stamps, Restored, MatchedCopy, SourceSafety and Arming hold the proofs.
--   Parameters, in Readers: str.lower, json.dumps with SHA-256, and the parsing of times; in
--   MainReader: whether a series covers a slot, the renderer of payloads, strip_r_suffix and the
--   settings. _ingest_managed_recurring_instance is an argument. The reconciler's arguments stand
--   for these passes.
-- Examples: the theorems at concrete rows.
--
-- Bounds: a create runs at most 8 rounds, as the source's loop does, and the drain at most
-- max_ops, so neither needs fuel of its own. The cascade of the planner to instance rows takes
-- fuel, and fuel 2 stands for the source's unbounded recursion: an instance has no cascade of its
-- own. The loop that strips prefixes off a title takes the title's length, of which each round
-- uses one or more, the chunked delete takes the number of ids, and the wait for quiescence takes
-- the polls up to its deadline. The loops over the pages of a listing, in the audit and in the
-- ingest, take fuel, and using it up raises.
--
-- Not modelled: the expansion of recurrences (a parameter, see above),
-- _ingest_managed_recurring_instance in the ingest of the main calendar, the ingest of webcal
-- feeds, the discovery of orphans, verification and admin operations, the web interface,
-- authentication, jobs and mail, logging, and commits: a connection reads its own writes, and the
-- interleavings that matter are claims, which are modelled as separate steps.
pub mod Prelude
pub mod Json
pub mod Errors
pub mod Ledger
pub mod Google
pub mod Planner
pub mod Diff
pub mod Outbox
pub mod Triggers
pub mod Identity
pub mod Maintenance
pub mod Payload
pub mod Reconciler
pub mod Ingest
mod Examples
