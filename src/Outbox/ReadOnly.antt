-- ===== src/Outbox/ReadOnly.antt =====
-- app/ledger/outbox.py: the handlers that address the user's own event do not write to a calendar
-- that is only read.
use busybridge.Prelude.{
  ℕ, ◌≡◌, refl, ap, ◌∙◌, ◌⊎◌, inl, inr, Bool, Option, none, some, ◌==◌, find_first,
}
use busybridge.Errors.{bind_at, Result, ok, raise, Action, resume, ◌>>=◌}
use busybridge.Json.{Fields}
use busybridge.Ledger.{patch, delete_source, personal, Event, Projection, Op, Db}
use busybridge.Google.{GoogleClient, World, on_db, write}
use busybridge.Outbox.Record.{get_projection, record_absent}
use busybridge.Outbox.Retry.{Outcome}
use busybridge.Outbox.Create.{Setup}
use busybridge.Outbox.Remove.{
  now_absent, written_back, clear_source_delete, delete_at_source, do_delete_source, patch_source,
  patch_target, ledger_of, do_patch,
}
use busybridge.Outbox.Drain.{loads, run_op, try_op, settle, execute_op}

module _ (g : GoogleClient) where
  -- An action that does not call the service leaves it as it is.
  abbrev Quiet : {A : Type 0} → Action (World g) A → Type 0
  Quiet m = (w : World g) → (m w).1.google ≡ w.google

  Quiet-bind :
      {A B : Type 0} (m : Action (World g) A) (k : A → Action (World g) B)
      → Quiet m
      → ((a : A) → Quiet (k a))
      → Quiet (m >>= k)
  unfolding ◌>>=◌
  Quiet-bind {A} {B} m k hm hk w = resumed (m w).0 (m w).1 ∙ hm w
    where
      resumed : (r : Result A) (s : World g) → (resume r k s).1.google ≡ s.google
      resumed (ok a) s = hk a s
      resumed (raise e) s = refl

  write-Quiet : (f : Db → Db) → Quiet (write g f)
  unfolding write
  write-Quiet f w = refl

  now_absent-Quiet : (now : ℕ) (op : Op) → Quiet (now_absent g now op)
  unfolding now_absent
  now_absent-Quiet now op = Quiet-bind _ _ (write-Quiet (record_absent now op)) λ a w. refl

  written_back-Quiet : (now : ℕ) (op : Op) → Quiet (written_back g now op)
  unfolding written_back
  written_back-Quiet now op = Quiet-bind _ _ (λ w. unfold on_db in refl) λ a w. refl

  -- The row that the handlers start from.
  pub projection_read :
      (w : World g) (i : ℕ) (p : Projection)
      → find_first (λ x. x.id == i) w.db.projections ≡ some p
      → on_db g (get_projection i) w ≡ (ok p, w)
  unfolding on_db get_projection
  projection_read w i p found = rw found refl

  do_patch_personal :
      (notify : Bool) (now : ℕ) (op : Op) (payload : Option Fields) (w : World g) (p : Projection)
      (e : Event)
      → find_first (λ x. x.id == op.projection_id) w.db.projections ≡ some p
      → ledger_of g p w.db ≡ some e
      → e.source_type ≡ personal
      → (do_patch g notify now op payload w).1.google ≡ w.google
  unfolding do_patch patch_source
  do_patch_personal notify now op none w p e found led source = refl
  do_patch_personal notify now op (some payload) w p e found led source =
      let target : patch_target g (ledger_of g p w.db) ≡ none = rw led (rw source refl) in
      ap (λ (x : Result Outcome × World g). x.1.google)
        (bind_at (on_db g (get_projection op.projection_id)) _ w w p
            (projection_read w op.projection_id p found)
          ∙ ap (λ t. patch_source g notify now op payload t w) target)
      ∙ written_back-Quiet now op w

  do_delete_source_personal :
      (now : ℕ) (op : Op) (w : World g) (p : Projection) (e : Event)
      → find_first (λ x. x.id == op.projection_id) w.db.projections ≡ some p
      → ledger_of g p w.db ≡ some e
      → e.source_type ≡ personal
      → (do_delete_source g now op w).1.google ≡ w.google
  unfolding do_delete_source delete_at_source
  do_delete_source_personal now op w p e found led source =
      ap (λ (x : Result Outcome × World g). x.1.google)
        (bind_at (on_db g (get_projection op.projection_id)) _ w w p
            (projection_read w op.projection_id p found)
          ∙ ap (λ t. delete_at_source g now op t w) led)
      ∙ rw source
          (Quiet-bind _ _ (write-Quiet (clear_source_delete e)) (λ a. now_absent-Quiet now op) w)

  settle-google :
      (setup : Setup) (now : ℕ) (op : Op) (r : Result Outcome) (w : World g)
      → (settle g setup now op r w).1.google ≡ w.google
  settle-google setup now op (ok o) w = refl
  settle-google setup now op (raise e) w = refl

-- Executing a patch or a source delete for an event from a personal calendar, which the engine may
-- only read, leaves the calendar service as it is, when the op's projection and the projection's
-- event are in the database.
pub execute_op_personal :
    (g : GoogleClient) (setup : Setup) (now : ℕ) (op : Op) (w : World g) (p : Projection)
    (e : Event)
    → (op.operation ≡ patch) ⊎ (op.operation ≡ delete_source)
    → find_first (λ x. x.id == op.projection_id) w.db.projections ≡ some p
    → find_first (λ x. x.id == p.ledger_event_id) w.db.events ≡ some e
    → e.source_type ≡ personal
    → (execute_op g setup now op w).1.google ≡ w.google
unfolding execute_op try_op run_op ◌>>=◌
execute_op_personal g setup now op w p e kind found led source =
    settle-google g setup now op (try_op g setup now op w).0 (try_op g setup now op w).1
    ∙ tried (loads op.payload_json) kind
  where
    tried :
        (payload : Result (Option Fields))
        → (op.operation ≡ patch) ⊎ (op.operation ≡ delete_source)
        → (resume payload (λ d. run_op g setup now op op.operation d) w).1.google ≡ w.google
    tried (raise x) kind = refl
    tried (ok d) (inl h) =
        simp h (do_patch_personal g setup.writeback_notifications now op d w p e found led source)
    tried (ok d) (inr h) = simp h (do_delete_source_personal g now op w p e found led source)
