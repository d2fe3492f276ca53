-- ===== src/Reconciler/DryDiff.antt =====
-- app/ledger/diff.py: a pass of the diff leaves an outbox that the discard of a dry run can undo.
use busybridge.Prelude.{
  ℕ, ◌≡◌, refl, ap, sym, subst, ◌∙◌, inl, inr, arith, Bool-cases, Bool, true, false, ◌&&◌, ◌==◌,
  Option, none, some, List, ◌∷◌, find_first, find_first-holds, All, Text, truthy, if◌then◌else◌,
}
use busybridge.Errors.{Result, ok, raise, Action, modify, resume, ◌>>=◌, return, >>=-eq-ok}
use busybridge.Ledger.{Op, OpKind, Projection, Event, Db, is_absent, is_gone}
use busybridge.Outbox.Enqueue.{Request, enqueue}
use busybridge.Diff.Select.{Diverged, event_at}
use busybridge.Diff.Decide.{Pass, Decision}
use busybridge.Diff.Pass.{
  request_for, converge, is_converged_writeback, snap_applied, clear_converged_writeback_flag,
  carry_out, settle_projection, re_read_event, re_read_row, re_read, assign_derived,
  settle_with_parent, settle_orphan, settle_instance, diff_projection,
}
use busybridge.Reconciler.Undoable.{has_touched, IsUndoable, touch}
use busybridge.Reconciler.Staging.{IsOwned}
use busybridge.Reconciler.Staged.{IsBefore, enqueue-IsUndoable}

converge_keeps :
    (c : Pass) (d : Diverged) (db : Db) → (modify (converge c d) db).1.operations ≡ db.operations
unfolding converge snap_applied clear_converged_writeback_flag
converge_keeps c d db = elim (Bool-cases (is_converged_writeback d)) [
  | inl e ↦ simp e
  | inr e ↦ simp e
]

requested_projection :
    (c : Pass) (d : Diverged) (k : OpKind) (x : Decision)
    → (request_for c d k x.payload x.target_cal).projection_id ≡ d.proj.id
unfolding request_for
requested_projection c d k x = refl

assign_derived_keeps :
    (d : Diverged) (derived : Text) (db : Db)
    → (assign_derived d derived db).1.operations ≡ db.operations
unfolding assign_derived re_read ◌>>=◌
assign_derived_keeps d derived db = elim (Bool-cases (truthy d.proj.google_event_id)) [
  | inl e ↦ simp e
  | inr e ↦ simp e
]

event_read :
    (db : Db) (p : Projection) (found : Option Event) (d : Diverged)
    → re_read_event db p found ≡ ok d
    → d.proj ≡ p
event_read db p none d h = absurd (ground arith)
event_read db p (some e) d h = ground arith

row_read :
    (i : ℕ) (db : Db) (found : Option Projection) (d : Diverged)
    → find_first (λ p. p.id == i) db.projections ≡ found
    → re_read_row db found ≡ ok d
    → d.proj.id ≡ i
row_read i db none d found h = absurd (ground arith)
row_read i db (some p) d found h =
    let same = event_read db p (event_at db p) d h in
    let hit = find_first-holds (λ x. x.id == i) db.projections p found in ground arith

re_read_same : (i : ℕ) (s s' : Db) (d : Diverged) → re_read i s ≡ (ok d, s') → d.proj.id ≡ i
unfolding re_read
re_read_same i s s' d h = row_read i s _ d refl (ap (λ x. x.0) h)

assign_derived_same :
    (d : Diverged) (derived : Text) (s s' : Db) (d' : Diverged)
    → assign_derived d derived s ≡ (ok d', s')
    → d'.proj.id ≡ d.proj.id
unfolding assign_derived
assign_derived_same d derived s s' d' h = elim (Bool-cases (truthy d.proj.google_event_id)) [
  | inl e ↦
      let same : ◌≡◌ {A = Result Diverged} (ok d) (ok d') = ap (λ x. x.0) (rw e at h) in
      ground arith
  | inr e ↦
      let (a, t, did, next) = >>=-eq-ok _ (λ _. re_read d.proj.id) s s' d' (rw e at h) in
      re_read_same d.proj.id t s' d' next
]

snap_keeps :
    (wall : ℕ) (p : Projection) (db : Db)
    → (modify (snap_applied wall p) db).1.operations ≡ db.operations
unfolding snap_applied
snap_keeps wall p db = refl

return-Keeps : (n : ℕ) (db : Db) → (return {S = Db} n db).1.operations ≡ db.operations
return-Keeps n db = refl

module _ (user mark : ℕ) (os : List Op) where
  -- An action that takes an undoable outbox to an undoable one.
  pub record Undoing {A : Type 0} (ts ts' : List ℕ) (m : Action Db A) : Type 0 where
    pub at :
        (db : Db)
        → IsUndoable user mark ts os db.operations
        → IsUndoable user mark ts' os (m db).1.operations

  Undoing_keep :
      {A : Type 0} (ts : List ℕ) (m : Action Db A)
      → ((db : Db) → (m db).1.operations ≡ db.operations)
      → Undoing ts ts m
  Undoing_keep ts m keep = record {
    at = λ db h. subst (IsUndoable user mark ts os) (sym (keep db)) h;
  }

  Undoing_touch :
      {A : Type 0} (t : ℕ) (ts : List ℕ) (m : Action Db A) → Undoing ts ts m → Undoing ts (t ∷ ts) m
  Undoing_touch t ts m h = record { at = λ db u. touch user mark t ts os _ (h.at db u) }

  -- What comes before the one enqueueing, and after it.
  Undoing_before :
      {A B : Type 0} (t : ℕ) (ts : List ℕ) (m : Action Db A) (k : A → Action Db B)
      → Undoing ts ts m
      → ((a : A) → Undoing ts (t ∷ ts) (k a))
      → Undoing ts (t ∷ ts) (m >>= k)
  unfolding ◌>>=◌
  Undoing_before {A} {B} t ts m k h hk = record {
    at = λ db u. resumed (m db).0 (m db).1 (h.at db u);
  }
    where
      resumed :
          (r : Result A) (s : Db)
          → IsUndoable user mark ts os s.operations
          → IsUndoable user mark (t ∷ ts) os (resume r k s).1.operations
      resumed (ok a) s u = (hk a).at s u
      resumed (raise e) s u = touch user mark t ts os _ u

  Undoing_after :
      {A B : Type 0} (ts ts' : List ℕ) (m : Action Db A) (k : A → Action Db B)
      → Undoing ts ts' m
      → ((a : A) → Undoing ts' ts' (k a))
      → Undoing ts ts' (m >>= k)
  unfolding ◌>>=◌
  Undoing_after {A} {B} ts ts' m k h hk = record {
    at = λ db u. resumed (m db).0 (m db).1 (h.at db u);
  }
    where
      resumed :
          (r : Result A) (s : Db)
          → IsUndoable user mark ts' os s.operations
          → IsUndoable user mark ts' os (resume r k s).1.operations
      resumed (ok a) s u = (hk a).at s u
      resumed (raise e) s u = u

  Undoing_if :
      {A : Type 0} (b : Bool) (ts ts' : List ℕ) (m n : Action Db A)
      → Undoing ts ts' m
      → Undoing ts ts' n
      → Undoing ts ts' (if b then m else n)
  Undoing_if true ts ts' m n h k = h
  Undoing_if false ts ts' m n h k = k

  Undoing_read :
      {A : Type 0} (ts ts' : List ℕ) (m : Db → Action Db A)
      → ((s : Db) → Undoing ts ts' (m s))
      → Undoing ts ts' (λ s. m s s)
  Undoing_read ts ts' m h = record { at = λ db u. (h db).at db u }

  -- The enqueueing goes by what is known of what was read.
  Undoing_given :
      {A B : Type 0} (P : A → Type 0) (t : ℕ) (ts : List ℕ) (m : Action Db A) (k : A → Action Db B)
      → Undoing ts ts m
      → ((s s' : Db) (a : A) → m s ≡ (ok a, s') → P a)
      → ((a : A) → P a → Undoing ts (t ∷ ts) (k a))
      → Undoing ts (t ∷ ts) (m >>= k)
  unfolding ◌>>=◌
  Undoing_given {A} {B} P t ts m k h got hk = record {
    at = λ db u. resumed db (m db).0 (m db).1 refl (h.at db u);
  }
    where
      resumed :
          (db : Db) (r : Result A) (s : Db)
          → m db ≡ (r, s)
          → IsUndoable user mark ts os s.operations
          → IsUndoable user mark (t ∷ ts) os (resume r k s).1.operations
      resumed db (ok a) s e u = (hk a (got db s a e)).at s u
      resumed db (raise x) s e u = touch user mark t ts os _ u

  module _ (before : IsBefore user mark os) (c : Pass) (mine : c.user ≡ user) (ts : List ℕ) where
    module _ (i : ℕ) (new : has_touched ts i ≡ false) (owned : All (IsOwned user i) os) where
      staged :
          (q : Request)
          → q.user_id ≡ user
          → q.projection_id ≡ i
          → Undoing ts (i ∷ ts) (enqueue c.now q)
      staged q u p = record {
        at = λ db h.
            subst (λ j. IsUndoable user mark (j ∷ ts) os (enqueue c.now q db).1.operations) p
              (enqueue-IsUndoable user mark c.now os before q u
                (subst (λ j. All (IsOwned user j) os) (sym p) owned) ts (rw p new) db h);
      }

      idle :
          {A : Type 0} (m : Action Db A)
          → ((db : Db) → (m db).1.operations ≡ db.operations)
          → Undoing ts (i ∷ ts) m
      idle m keep = Undoing_touch i ts m (Undoing_keep ts m keep)

      done_after :
          {A : Type 0} (m : Action Db A) (n : ℕ)
          → Undoing ts (i ∷ ts) m
          → Undoing ts (i ∷ ts) (m >>= λ _. return n)
      done_after m n h = Undoing_after _ _ m _ h λ _. Undoing_keep _ _ λ db. refl

      carry_out-Undoing :
          (d : Diverged) (x : Decision) → d.proj.id ≡ i → Undoing ts (i ∷ ts) (carry_out c d x)
      unfolding carry_out request_for
      carry_out-Undoing d x same = of x.op
        where
          of : (k : Option OpKind) → Undoing ts (i ∷ ts) (carry_out c d (record x { op = k }))
          of none = done_after _ 0 (idle _ (converge_keeps c d))
          of (some k) = done_after _ 1 (staged _ mine (requested_projection c d k x ∙ same))

      settle_projection-Undoing :
          (d : Diverged) → d.proj.id ≡ i → Undoing ts (i ∷ ts) (settle_projection c d)
      unfolding settle_projection
      settle_projection-Undoing d same =
          Undoing_before i ts _ _ (Undoing_keep ts _ λ db. refl) λ x. carry_out-Undoing d x same

      settle_with_parent-Undoing :
          (d : Diverged) (gid : Text)
          → d.proj.id ≡ i
          → Undoing ts (i ∷ ts) (settle_with_parent c d gid)
      unfolding settle_with_parent
      settle_with_parent-Undoing d gid same =
          Undoing_before i ts _ _ (Undoing_keep ts _ λ db. refl) λ derived.
            Undoing_given (λ d'. d'.proj.id ≡ d.proj.id) i ts _ _
              (Undoing_keep ts _ (assign_derived_keeps d derived)) (assign_derived_same d derived)
              λ d' e. settle_projection-Undoing d' (e ∙ same)

      settle_orphan-Undoing : (d : Diverged) → Undoing ts (i ∷ ts) (settle_orphan c d)
      unfolding settle_orphan
      settle_orphan-Undoing d =
          Undoing_if (is_absent d.proj.desired_state && is_gone d.proj.current_state) _ _ _ _
            (done_after _ 0
              (idle (modify (snap_applied c.wall_clock d.proj)) (snap_keeps c.wall_clock d.proj)))
            (idle (return 0) (return-Keeps 0))

      settle_instance-Undoing :
          (d : Diverged) (parent : Option Projection)
          → d.proj.id ≡ i
          → Undoing ts (i ∷ ts) (settle_instance c d parent)
      unfolding settle_instance
      settle_instance-Undoing d parent same =
          Undoing_if _ _ _ _ _
            (done_after _ 0
              (idle (modify (snap_applied c.wall_clock d.proj)) (snap_keeps c.wall_clock d.proj)))
            (Undoing_if _ _ _ _ _ (settle_orphan-Undoing d) (settle_with_parent-Undoing d _ same))

      pub diff_projection-Undoing :
          (d : Diverged) → d.proj.id ≡ i → Undoing ts (i ∷ ts) (diff_projection c d)
      unfolding diff_projection
      diff_projection-Undoing d same =
          Undoing_if _ _ _ _ _ (Undoing_read _ _ _ λ db. settle_instance-Undoing d _ same)
            (settle_projection-Undoing d same)
