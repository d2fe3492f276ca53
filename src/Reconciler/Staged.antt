-- ===== src/Reconciler/Staged.antt =====
-- app/ledger/outbox.py: a call of `enqueue` for a projection that was not yet written for keeps the
-- outbox undoable.
use busybridge.Prelude.{
  ℕ, suc, ◌≤◌, ◌≡◌, refl, ap, sym, subst, ◌∙◌, inl, inr, Bool-cases, false, ◌==◌, Option, none,
  some, List, [], ◌∷◌, map, select, All, All-map, update_where, if◌then◌else◌,
}
use busybridge.Ledger.{Op, Db}
use busybridge.Planner.Persist.{next_id}
use busybridge.Outbox.Enqueue.{
  Request, is_live, idem_of, find_key, is_older, supersede, supersede_older, resurrect,
  insert_or_resurrect, queue_op, live_op, enqueue_ops, enqueue, is_known,
}
use busybridge.Reconciler.DryRun.{watermark}
use busybridge.Reconciler.Undoable.{has_touched, IsUndoable, touch, map_steps, append_fresh}
use busybridge.Reconciler.Staging.{
  IsSound, IsOwned, update_where-map, update_where-map_once, own, superseding, rewriting,
  rewriting-IsStep, superseding-IsStep, superseding_skips, rewriting_skips, find_key-undoable,
  next_id-undoable, new_op-IsFresh,
}

pub All-both {ℓ κ μ} :
    {A : Type ℓ} (P : A → Type κ) (Q : A → Type μ) (xs : List A)
    → All P xs
    → All Q xs
    → All (λ x. P x × Q x) xs
All-both P Q [] h k = tt
All-both P Q (x ∷ xs) h k = ((h.0, k.0), All-both P Q xs h.1 k.1)

abbrev live_found : Option Op → Option Op
live_found none = none
live_found (some o) = if is_live o then some o else none

-- What the calls of a pass have to go on: the outbox before it, of which the watermark is the
-- user's highest id.
pub record IsBefore (user mark : ℕ) (os : List Op) : Type 0 where
  pub sound : All (IsSound os) os
  pub marked : watermark (select (λ o. o.user_id == user) os) ≡ mark

module _ (user mark now : ℕ) (os : List Op) (before : IsBefore user mark os) where
  module _ (q : Request) (mine : q.user_id ≡ user)
      (owned : All (IsOwned user q.projection_id) os) where
    module _ (ts : List ℕ) (new : has_touched ts q.projection_id ≡ false) where
      superseded-IsUndoable :
          (os' : List Op)
          → IsUndoable user mark ts os os'
          → IsUndoable user mark (q.projection_id ∷ ts) os (supersede_older now q os')
      unfolding supersede_older
      superseded-IsUndoable os' h =
          subst (IsUndoable user mark (q.projection_id ∷ ts) os)
            (sym (update_where-map_once (is_older q) (supersede now) os'))
            (map_steps user mark q.projection_id ts (superseding user mark now q) os os'
              (λ x old _. superseding_skips user mark now q ts new x old)
              (All-map _ _ os (λ o s. superseding-IsStep user mark now q ts os o s.0 s.1)
                (All-both _ _ os before.sound owned))
              h)

      find_before :
          (os' : List Op)
          → IsUndoable user mark ts os os'
          → find_key (idem_of q) os' ≡ find_key (idem_of q) os
      find_before os' h =
          find_key-undoable user mark now q ts os os' new
            (All-map _ _ os (λ o s. s.keyed) before.sound) h

      idle_before :
          (os' : List Op)
          → IsUndoable user mark ts os os'
          → live_op q os' ≡ none
          → live_op q os ≡ none
      unfolding live_op
      idle_before os' h idle = ap live_found (sym (find_before os' h)) ∙ idle

      resurrected-IsUndoable :
          (os' : List Op)
          → IsUndoable user mark ts os os'
          → live_op q os ≡ none
          → IsUndoable user mark
              (q.projection_id ∷ ts)
              os
              (update_where (own user mark now q) (resurrect now q) (supersede_older now q os'))
      unfolding supersede_older
      resurrected-IsUndoable os' h idle =
          subst (IsUndoable user mark (q.projection_id ∷ ts) os)
            (sym (
              update_where-map (is_older q) (own user mark now q) (supersede now) (resurrect now q)
                os'))
            (map_steps user mark q.projection_id ts (rewriting user mark now q) os os'
              (rewriting_skips user mark now q ts new)
              (All-map _ _ os (λ o s. rewriting-IsStep user mark now q ts os o s.0 s.1 idle)
                (All-both _ _ os before.sound owned))
              h)

      marked_before :
          (ts' : List ℕ) (os' : List Op)
          → IsUndoable user mark ts' os os'
          → suc mark ≤ next_id (map (λ o. o.id) os')
      marked_before ts' os' h =
          subst (λ m. suc m ≤ next_id (map (λ o. o.id) os')) before.marked
            (next_id-undoable user mark ts' os os' h)

      queued-IsUndoable :
          (os' : List Op) (found : Option Op)
          → IsUndoable user mark ts os os'
          → live_op q os ≡ none
          → IsUndoable user mark
              (q.projection_id ∷ ts)
              os
              (insert_or_resurrect now q found (supersede_older now q os')).1
      unfolding insert_or_resurrect
      queued-IsUndoable os' none h idle =
          let rest = superseded-IsUndoable os' h in
          append_fresh user mark _ os _ _
            (new_op-IsFresh user mark now q ts _ mine (marked_before _ _ rest)) rest
      queued-IsUndoable os' (some old) h idle = resurrected-IsUndoable os' h idle

      enqueue_ops-IsUndoable :
          (os' : List Op) (live : Option Op)
          → live_op q os' ≡ live
          → IsUndoable user mark ts os os'
          → IsUndoable user mark (q.projection_id ∷ ts) os (enqueue_ops now q live os').1
      unfolding enqueue_ops queue_op
      enqueue_ops-IsUndoable os' (some o) same h = touch user mark q.projection_id ts os os' h
      enqueue_ops-IsUndoable os' none same h = queued-IsUndoable os' _ h (idle_before os' h same)

      pub enqueue-IsUndoable :
          (db : Db)
          → IsUndoable user mark ts os db.operations
          → IsUndoable user mark (q.projection_id ∷ ts) os (enqueue now q db).1.operations
      unfolding enqueue
      enqueue-IsUndoable db h = elim (Bool-cases (is_known q.operation)) [
        | inl e ↦ rw e (enqueue_ops-IsUndoable db.operations _ refl h)
        | inr e ↦ rw e (touch user mark q.projection_id ts os db.operations h)
      ]
