-- ===== src/Diff/Safety.antt =====
-- app/ledger/diff.py: what the diff may send to a calendar that the engine does not own.
use busybridge.Prelude.{
  ℕ, ◌≡◌, refl, ◌⊎◌, inl, inr, true, false, Option, none, some, arith, Option-cases, Text, truthy,
  codes,
}
use busybridge.Errors.{ok, ◌>>=◌, Result-cases}
use busybridge.Json.{Fields, str, get, put, get-put_self}
use busybridge.Ledger.{
  OpKind, create, update, delete, patch, delete_source, absent, present_full_rsvp_only, to_client,
  Db, is_absent,
}
use busybridge.Diff.Select.{
  Diverged, same_applied, is_origin_writeback, is_legacy_personal_source_target,
}
use busybridge.Diff.Decide.{
  Pass, Decision, no_op, target_calendar, is_series_master, render, decide_writeback, decide_absent,
  decide_present, decide_rendered, decide_for, decide,
}
use busybridge.Diff.Pass.{
  converge, snap_applied, clear_converged_writeback_flag, carry_out, settle_projection, is_instance,
  request_for,
}

-- A decision with an operation was taken on a rendered payload, for a calendar with a mapping.
pub decide-cases :
    (c : Pass) (d : Diverged) (x : Decision) (k : OpKind)
    → decide c d ≡ ok x
    → x.op ≡ some k
    → (payload : Option Fields) × (cal : Text) × (target_calendar c d.proj.target_kind
          d.proj.target_calendar_id
        ≡ ok (some cal))
      × (is_legacy_personal_source_target d ≡ false)
      × (x ≡ decide_rendered d payload cal)
unfolding decide decide_for
decide-cases c d x k h op =
    elim (Result-cases (target_calendar c d.proj.target_kind d.proj.target_calendar_id)) [
      | inr (e, raised) ↦ absurd (ground arith)
      | inl (none, at) ↦ absurd (ground arith)
      | inl (some cal, at) ↦ elim (Result-cases (render c d)) [
        | inl (payload, r) ↦ (payload, cal, ground arith, ground arith, ground arith)
        | inr (e, r) ↦ absurd (ground arith)
      ]
    ]

-- The only operations on a writeback projection, which stands for the user's real event in the
-- calendar that sourced it, are a patch, when an edit is pending that the source does not hold yet,
-- and a source delete, when one is pending, the projection is to be absent, and the event is not a
-- series master.
pub writeback_is_gentle :
    (c : Pass) (d : Diverged) (x : Decision) (k : OpKind)
    → is_origin_writeback d ≡ true
    → decide c d ≡ ok x
    → x.op ≡ some k
    → ((k ≡ patch)
        × (d.proj.desired_state ≡ present_full_rsvp_only)
        × (d.row.origin_writeback_pending ≡ true)
        × (same_applied d.proj.applied_payload_hash d.proj.desired_payload_hash ≡ false))
      ⊎ ((k ≡ delete_source)
          × (d.proj.desired_state ≡ absent)
          × (d.row.source_delete_pending ≡ true)
          × (is_series_master d ≡ false))
unfolding decide_rendered decide_writeback
writeback_is_gentle c d x k writeback h op =
    let (payload, cal, _, _, e) = decide-cases c d x k h op in ground arith

-- On a projection that is no writeback, a create or an update is only decided when the projection is
-- to be present and a delete only when it is to be absent; an update and a delete have a Google id
-- to act on; and neither a patch nor a source delete is decided.
pub copy_ops_fit :
    (c : Pass) (d : Diverged) (x : Decision) (k : OpKind)
    → is_origin_writeback d ≡ false
    → decide c d ≡ ok x
    → x.op ≡ some k
    → ((k ≡ create) × (is_absent d.proj.desired_state ≡ false))
      ⊎ (((k ≡ update)
            × (is_absent d.proj.desired_state ≡ false)
            × (truthy d.proj.google_event_id ≡ true))
          ⊎ ((k ≡ delete)
              × (is_absent d.proj.desired_state ≡ true)
              × (truthy d.proj.google_event_id ≡ true)))
unfolding decide_rendered decide_absent decide_present
copy_ops_fit c d x k copy h op =
    let (payload, cal, _, _, e) = decide-cases c d x k h op in ground arith

pub converge-operations :
    (c : Pass) (d : Diverged) (db : Db) → (converge c d db).operations ≡ db.operations
unfolding converge snap_applied clear_converged_writeback_flag
converge-operations c d db = ground arith

-- A projection that aims at the personal calendar its event came from is settled without any
-- operation: outbox_operations stays as it is, whether the payload renders or not.
pub personal_source_untouched :
    (c : Pass) (d : Diverged) (db : Db)
    → is_legacy_personal_source_target d ≡ true
    → (settle_projection c d db).1.operations ≡ db.operations
unfolding settle_projection carry_out ◌>>=◌
personal_source_untouched c d db legacy = elim (Result-cases (decide c d)) [
  | inr (e, h) ↦ rw h refl
  | inl (x, h) ↦ rw h (settled x h (Option-cases x.op))
]
  where
    settled :
        (x : Decision)
        → decide c d ≡ ok x
        → (x.op ≡ none) ⊎ ((k : OpKind) × (x.op ≡ some k))
        → (carry_out c d x db).1.operations ≡ db.operations
    settled x h (inl e) = rw e (converge-operations c d db)
    settled x h (inr (k, e)) =
        let (payload, cal, _, other, _) = decide-cases c d x k h e in absurd (ground arith)

-- A projection on a client calendar without a Google id mapping converges: no operation is decided
-- and no exception raised, whatever the renderer does.
pub unmapped_converges :
    (c : Pass) (d : Diverged) (cal : ℕ)
    → d.proj.target_kind ≡ to_client
    → d.proj.target_calendar_id ≡ some cal
    → c.google_calendar_id_for cal ≡ none
    → decide c d ≡ ok (no_op (codes ""))
unfolding decide decide_for target_calendar
unmapped_converges c d cal kind at missing = ground arith

confirmed_body :
    (o : Option Fields) (payload : Fields)
    → o ≡ some (put payload (codes "status") (str (codes "confirmed")))
    → (body : Fields) × (o ≡ some body)
      × (get body (codes "status") ≡ some (str (codes "confirmed")))
confirmed_body o payload e = (put payload (codes "status") _, e, get-put_self payload _ _)

-- An instance is never inserted, and its update carries status "confirmed", which brings back an
-- occurrence that Google holds as a cancelled exception.
pub instance_is_updated :
    (c : Pass) (d : Diverged) (kind : OpKind) (payload : Fields) (cal : Text)
    → is_instance d ≡ true
    → (kind ≡ create) ⊎ (kind ≡ update)
    → ((request_for c d kind (some payload) cal).operation ≡ update)
      × ((body : Fields) × ((request_for c d kind (some payload) cal).payload ≡ some body)
          × (get body (codes "status") ≡ some (str (codes "confirmed"))))
unfolding request_for
instance_is_updated c d kind payload cal instance (inl e) =
    (ground arith, confirmed_body _ payload (ground arith))
instance_is_updated c d kind payload cal instance (inr e) =
    (ground arith, confirmed_body _ payload (ground arith))
