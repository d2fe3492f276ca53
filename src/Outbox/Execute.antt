-- ===== src/Outbox/Execute.antt =====
-- app/ledger/outbox.py: the outcome of `_execute_op`, whatever the op and whatever Google answers.
use busybridge.Prelude.{
  ℕ, ◌≡◌, refl, Bool, true, false, Option, none, some, arith, ◌==◌, if◌then◌else◌, Text, get_elem?,
  All-get_elem?,
}
use busybridge.Errors.{Exn, Result, ok, raise, ◌>>=◌, return, throw, >>=-eq-ok}
use busybridge.Json.{Fields}
use busybridge.Ledger.{
  Op, Db, Event, Projection, OpKind, create, update, delete, patch, delete_source, unknown_op,
}
use busybridge.Google.{GoogleClient, World}
use busybridge.Outbox.Retry.{Outcome, succeeded, superseded_by}
use busybridge.Outbox.Create.{Setup}
use busybridge.Outbox.Update.{
  or_null, retire_orphaned_instance_tombstone, retire_if_tombstone, retire, etag_mismatch,
  target_gone, bad_request, update_failed, updated, update_event, event_of_projection, do_update,
}
use busybridge.Outbox.Remove.{
  now_absent, delete_copy, do_delete, delete_at_source, do_delete_source, written_back,
  patch_source, patch_target, ledger_of, do_patch,
}
use busybridge.Outbox.Drain.{run_op, try_op, settle, execute_op}
use busybridge.Outbox.Outcomes.{
  recorded, IsRecorded, Ends, Yields, Yields-throw, Yields-return, return-end, Yields-read,
  Yields-bind, Yields-if, Yields-Result, Yields-Option, Yields-write, Yields-on_db,
  record_success-IsRecorded, record_origin_writeback_applied-IsRecorded, record_absent-IsRecorded,
  mark_superseded-IsRecorded, classify_and_retry-IsRecorded,
}
use busybridge.Outbox.Handlers.{superseded-Ends, do_create-Ends}

module _ (g : GoogleClient) (now : ℕ) (op : Op) where
  updated-Ends : (result : Fields) → Ends g op (updated g now op result)
  unfolding updated
  updated-Ends result =
      Yields-bind g _ _ _ λ gid.
        Yields-on_db g _ _ succeeded λ db db' h. record_success-IsRecorded now op _ _ db db' h

  etag_mismatch-Ends : (p : Projection) (gid : Text) → Ends g op (etag_mismatch g now op p gid)
  unfolding etag_mismatch
  etag_mismatch-Ends p gid =
      Yields-bind g _ _ _ λ fresh. Yields-bind g _ _ _ λ _. superseded-Ends g now op _ _

  target_gone-Ends : (p : Projection) (status : ℕ) → Ends g op (target_gone g now op p status)
  unfolding target_gone
  target_gone-Ends p status = Yields-bind g _ _ _ λ _. superseded-Ends g now op _ _

  now_absent-Ends : Ends g op (now_absent g now op)
  unfolding now_absent
  now_absent-Ends = Yields-write g _ _ succeeded λ db. record_absent-IsRecorded now op db

  do_delete-Ends : Ends g op (do_delete g now op)
  unfolding do_delete delete_copy
  do_delete-Ends = Yields-bind g _ _ _ λ proj.
      Yields-Option g _ (or_null proj.google_event_id) _ _ now_absent-Ends
        λ gid. Yields-bind g _ _ _ λ _. now_absent-Ends

  delete_at_source-Ends : (led : Option Event) → Ends g op (delete_at_source g now op led)
  unfolding delete_at_source
  delete_at_source-Ends none = now_absent-Ends
  delete_at_source-Ends (some led) =
      Yields-if g _ _ _ _ (Yields-bind g _ _ _ λ _. now_absent-Ends)
        (Yields-bind g _ _ _ λ _. Yields-bind g _ _ _ λ _. now_absent-Ends)

  do_delete_source-Ends : Ends g op (do_delete_source g now op)
  unfolding do_delete_source
  do_delete_source-Ends = Yields-bind g _ _ _ λ proj.
      Yields-read g _ (λ w. delete_at_source g now op (ledger_of g proj w.db))
        λ w. delete_at_source-Ends _

  written_back-Ends : Ends g op (written_back g now op)
  unfolding written_back
  written_back-Ends =
      Yields-on_db g _ _ succeeded
        λ db db' h. record_origin_writeback_applied-IsRecorded now op db db' h

  patch_source-Ends :
      (notify : Bool) (payload : Fields) (gid : Option Text)
      → Ends g op (patch_source g notify now op payload gid)
  unfolding patch_source
  patch_source-Ends notify payload none = written_back-Ends
  patch_source-Ends notify payload (some gid) = Yields-bind g _ _ _ λ answer.
      Yields-Result g _ answer _ _ (λ result. written_back-Ends)
        λ e. Yields-if g _ _ _ _ written_back-Ends (Yields-throw g _ e)

  do_patch-Ends :
      (notify : Bool) (payload : Option Fields) → Ends g op (do_patch g notify now op payload)
  unfolding do_patch
  do_patch-Ends notify none = Yields-throw g _ _
  do_patch-Ends notify (some payload) = Yields-bind g _ _ _ λ proj.
      Yields-read g _
        (λ w. patch_source g notify now op payload (patch_target g (ledger_of g proj w.db)))
        λ w. patch_source-Ends notify payload _

  -- If the tombstone is retired, the op is recorded as superseded.
  abbrev IfRetired : Bool → Db → Type 0
  IfRetired true db = IsRecorded op superseded_by db
  IfRetired false db = Unit

  retire-Yields : (p : Projection) (e : Event) → Yields g IfRetired (retire g now op p e)
  unfolding retire
  retire-Yields p e = Yields-bind g _ _ _ λ _.
      Yields-bind g _ _ _
        λ _. Yields-write g _ _ true λ db. mark_superseded-IsRecorded now op _ _ db

  not_retired : Yields g IfRetired (return false)
  not_retired = Yields-return g _ false λ db. tt

  retire_orphaned-Yields :
      (p : Projection) → Yields g IfRetired (retire_orphaned_instance_tombstone g now op p)
  unfolding retire_orphaned_instance_tombstone
  retire_orphaned-Yields p = Yields-Option g _ (or_null p.google_event_id) _ _ not_retired λ gid.
      Yields-read g _ (λ w. retire_if_tombstone g now op p gid (event_of_projection w.db p.id))
        λ w. tombstone gid (event_of_projection w.db p.id)
    where
      tombstone :
          (gid : Text) (e : Option Event)
          → Yields g IfRetired (retire_if_tombstone g now op p gid e)
      tombstone gid none = unfold retire_if_tombstone in not_retired
      tombstone gid (some e) =
          unfold retire_if_tombstone in
          Yields-if g _ _ _ _
            (Yields-bind g _ _ _ λ target.
              Yields-Result g _ target _ _
                (λ event. Yields-if g _ _ _ _ (retire-Yields p e) not_retired) λ x. not_retired)
            not_retired

  bad_request-Ends : (p : Projection) (e : Exn) → Ends g op (bad_request g now op p e)
  unfolding bad_request
  bad_request-Ends p e = record { at = ends }
    where
      closing :
          (done : Bool) (t w' : World g) (o : Outcome)
          → IfRetired done t.db
          → (if done then return superseded_by else throw e) t ≡ (ok o, w')
          → IsRecorded op o w'.db
      closing true t w' o kept h = return-end g (IsRecorded op) superseded_by o t w' kept h
      closing false t w' o kept h = absurd (ground arith)

      ends :
          (w w' : World g) (o : Outcome)
          → (retire_orphaned_instance_tombstone g now op p >>= λ done.
                if done then return superseded_by else throw e)
              w
            ≡ (ok o, w')
          → IsRecorded op o w'.db
      ends w w' o h =
          let (done, t, did, next) =
            >>=-eq-ok (retire_orphaned_instance_tombstone g now op p)
              (λ done. if done then return superseded_by else throw e) w w' o h in
          closing done t w' o ((retire_orphaned-Yields p).at w t done did) next

  update_failed-Ends :
      (p : Projection) (gid : Text) (e : Exn) → Ends g op (update_failed g now op p gid e)
  unfolding update_failed
  update_failed-Ends p gid e = Yields-if g _ _ _ _ (etag_mismatch-Ends p gid) (
      Yields-if g _ _ _ _ (target_gone-Ends p _)
        (Yields-if g _ _ _ _ (bad_request-Ends p e) (Yields-throw g _ e)))

  do_update-Ends : (payload : Option Fields) → Ends g op (do_update g now op payload)
  unfolding do_update update_event
  do_update-Ends none = Yields-throw g _ _
  do_update-Ends (some payload) = Yields-bind g _ _ _ λ p.
      Yields-Option g _ (or_null p.google_event_id) _ _ (Yields-throw g _ _) λ gid.
        Yields-bind g _ _ _ λ answer.
          Yields-Result g _ answer _ _ (λ result. updated-Ends result)
            λ e. update_failed-Ends p gid e

  run_op-Ends :
      (setup : Setup) (kind : OpKind) (payload : Option Fields)
      → Ends g op (run_op g setup now op kind payload)
  unfolding run_op
  run_op-Ends setup create payload = do_create-Ends g now op setup payload
  run_op-Ends setup update payload = do_update-Ends payload
  run_op-Ends setup delete payload = do_delete-Ends
  run_op-Ends setup patch payload = do_patch-Ends setup.writeback_notifications payload
  run_op-Ends setup delete_source payload = do_delete_source-Ends
  run_op-Ends setup (unknown_op s) payload = Yields-throw g _ _

  try_op-Ends : (setup : Setup) → Ends g op (try_op g setup now op)
  unfolding try_op
  try_op-Ends setup = Yields-bind g _ _ _ λ payload. run_op-Ends setup op.operation payload

  settle-IsRecorded :
      (setup : Setup) (r : Result Outcome) (w w' : World g)
      → try_op g setup now op w ≡ (r, w')
      → IsRecorded op (settle g setup now op r w').0 (settle g setup now op r w').1.db
  settle-IsRecorded setup (ok o) w w' h = (try_op-Ends setup).at w w' o h
  settle-IsRecorded setup (raise e) w w' h = classify_and_retry-IsRecorded now op e w'.db

-- Whatever the op and whatever Google answers, executing the op ends, without an exception, with an
-- outcome, and the op's row is then done after a success, pending again after a retry, failed for
-- good after a permanent failure, and superseded after a supersession.
pub execute_op-recorded :
    (g : GoogleClient) (setup : Setup) (now j : ℕ) (op row : Op) (w : World g)
    → get_elem? (execute_op g setup now op w).1.db.operations j ≡ some row
    → row.id ≡ op.id
    → row.status ≡ recorded (execute_op g setup now op w).0
unfolding execute_op
execute_op-recorded g setup now j op row w at same =
    let r = try_op g setup now op w in
    All-get_elem?
      (λ x. (x.id == op.id) ≡ true → x.status ≡ recorded (settle g setup now op r.0 r.1).0) _ j row
      (settle-IsRecorded g now op setup r.0 w r.1 refl).rows at (ground arith)
