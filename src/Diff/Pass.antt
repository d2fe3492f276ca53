-- ===== src/Diff/Pass.antt =====
-- app/ledger/diff.py: `diff_and_enqueue_for_user`, with `_clear_converged_writeback_flag` and
-- `_snap_applied`. The rows are read once, before the loop, as the cursor's fetchall does.
use busybridge.Prelude.{
  ℕ, ◌+◌, Bool, false, not, ◌&&◌, Option, none, some, List, [], ◌∷◌, ◌++◌, ◌==◌, if◌then◌else◌,
  find_first, select, Text, truthy, or_text, codes,
}
use busybridge.Errors.{Result, ok, raise, other_error, Action, ◌>>=◌, ◌>>◌, return, lift, modify}
use busybridge.Json.{Fields, str, put}
use busybridge.Ledger.{
  Projection, Event, Db, OpKind, create, update, gone, is_absent, is_rsvp_only, is_gone,
}
use busybridge.Outbox.Record.{set_projection, set_event}
use busybridge.Outbox.Enqueue.{Request, enqueue}
use busybridge.Diff.Select.{
  Diverged, diverged_projections, is_origin_writeback, same_applied, event_at, join_projection,
  parent_projection_for_instance,
}
use busybridge.Diff.Decide.{Pass, Decision, decide}

-- The UPDATE of a projection that converges without an operation.
unfoldable pub snapped : ℕ → ℕ → Projection → Projection
snapped wall version p = record p {
  applied_ledger_version = some version;
  applied_payload_hash = some p.desired_payload_hash;
  current_state = gone;
  last_attempt_at = some wall;
  updated_at = some wall;
}

unfoldable pub snap_applied : ℕ → Projection → Db → Db
unfolding snapped
snap_applied wall p = set_projection p.id (snapped wall p.desired_ledger_version)

-- The source already holds what the pending flag was set to deliver.
unfoldable pub is_converged_writeback : Diverged → Bool
is_converged_writeback d =
    is_origin_writeback d
    && (is_rsvp_only d.proj.desired_state
        && (d.row.origin_writeback_pending
            && same_applied d.proj.applied_payload_hash d.proj.desired_payload_hash))

unfoldable pub clear_converged_writeback_flag : Diverged → Db → Db
unfolding is_converged_writeback
clear_converged_writeback_flag d db =
    if is_converged_writeback d
    then set_event d.proj.ledger_event_id (λ e. record e { origin_writeback_pending = false }) db
    else db

-- Instances are applied by an update, also the first time.
abbrev pub for_instance : OpKind → OpKind
for_instance create = update
for_instance k = k

abbrev pub confirmed : OpKind → Option Fields → Option Fields
confirmed update (some payload) = some (put payload (codes "status") (str (codes "confirmed")))
confirmed k payload = payload

unfoldable pub is_instance : Diverged → Bool
is_instance d = truthy d.row.parent_canonical_uid

-- The arguments of the call of `enqueue`.
unfoldable pub request_for : Pass → Diverged → OpKind → Option Fields → Text → Request
unfolding is_instance
request_for c d kind payload cal =
    let kind' = if is_instance d then for_instance kind else kind in
    record {
      user_id = c.user;
      projection_id = d.proj.id;
      operation = kind';
      ledger_version = d.proj.desired_ledger_version;
      target_google_calendar_id = cal;
      payload = if is_instance d then confirmed kind' payload else payload;
      desired_payload_hash = some d.proj.desired_payload_hash;
    }

unfoldable pub converge : Pass → Diverged → Db → Db
unfolding snap_applied clear_converged_writeback_flag
converge c d db = snap_applied c.wall_clock d.proj (clear_converged_writeback_flag d db)

-- What follows the decision; the number of operations that were enqueued.
unfoldable pub carry_out : Pass → Diverged → Decision → Action Db ℕ
unfolding converge request_for
carry_out c d decision = elim decision.op [
  | none ↦ do modify (converge c d); return 0
  | some kind ↦ do
    enqueue c.now (request_for c d kind decision.payload decision.target_cal)
    return 1
]

unfoldable pub settle_projection : Pass → Diverged → Action Db ℕ
unfolding carry_out
settle_projection c d = do decision ← lift (decide c d); carry_out c d decision

abbrev pub re_read_event : Db → Projection → Option Event → Result Diverged
re_read_event db p none = raise (other_error (codes "projection vanished"))
re_read_event db p (some e) = ok (join_projection db p e)

abbrev pub re_read_row : Db → Option Projection → Result Diverged
re_read_row db none = raise (other_error (codes "projection vanished"))
re_read_row db (some p) = re_read_event db p (event_at db p)

-- The select again, by the projection's id.
unfoldable pub re_read : ℕ → Action Db Diverged
re_read i db = (re_read_row db (find_first (λ p. p.id == i) db.projections), db)

-- An instance without a Google id takes the derived one before it is decided on.
unfoldable pub assign_derived : Diverged → Text → Action Db Diverged
unfolding re_read
assign_derived d derived = if truthy d.proj.google_event_id then return d else do
  modify (set_projection d.proj.id (λ p. record p { google_event_id = some derived }))
  re_read d.proj.id

unfoldable pub settle_with_parent : Pass → Diverged → Text → Action Db ℕ
unfolding assign_derived settle_projection
settle_with_parent c d parent_gid = do
  derived ← lift (
      c.derive_instance_id parent_gid (or_text d.row.recurrence_instance_original_start (codes ""))
        d.row.is_all_day)
  d' ← assign_derived d derived
  settle_projection c d'

-- No parent id to derive from yet: an absent instance converges, another waits for the next pass.
unfoldable pub settle_orphan : Pass → Diverged → Action Db ℕ
unfolding snap_applied
settle_orphan c d =
    if is_absent d.proj.desired_state && is_gone d.proj.current_state
    then modify (snap_applied c.wall_clock d.proj) >> return 0
    else return 0

abbrev parent_gid_of : Option Projection → Text
parent_gid_of none = codes ""
parent_gid_of (some p) = or_text p.google_event_id (codes "")

abbrev parent_is_absent : Option Projection → Bool
parent_is_absent none = false
parent_is_absent (some p) = is_absent p.desired_state

unfoldable pub settle_instance : Pass → Diverged → Option Projection → Action Db ℕ
unfolding snap_applied settle_with_parent settle_orphan
settle_instance c d parent =
    if parent_is_absent parent && is_absent d.proj.desired_state
    then modify (snap_applied c.wall_clock d.proj) >> return 0
    else if not (truthy (some (parent_gid_of parent)))
    then settle_orphan c d
    else settle_with_parent c d (parent_gid_of parent)

-- The body of the loop.
unfoldable pub diff_projection : Pass → Diverged → Action Db ℕ
unfolding settle_projection settle_instance is_instance
diff_projection c d =
    if is_instance d && not (is_origin_writeback d)
    then (λ db.
        settle_instance c d
          (parent_projection_for_instance c.user (or_text d.row.parent_canonical_uid (codes ""))
            d.proj.target_kind d.proj.target_calendar_id db)
          db)
    else settle_projection c d

unfoldable pub diff_each : Pass → List Diverged → Action Db ℕ
unfolding diff_projection
diff_each c [] = return 0
diff_each c (d ∷ ds) = do n ← diff_projection c d; rest ← diff_each c ds; return (n + rest)

-- sorted by bool(parent_canonical_uid): parents, then instances.
unfoldable pub parents_first : List Diverged → List Diverged
unfolding is_instance
parents_first rows = select (λ d. not (is_instance d)) rows ++ select is_instance rows

unfoldable pub diff_and_enqueue_for_user : Pass → Action Db ℕ
unfolding diff_each parents_first
diff_and_enqueue_for_user c db = diff_each c (parents_first (diverged_projections c.user db)) db
