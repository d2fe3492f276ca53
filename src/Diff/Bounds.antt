-- ===== src/Diff/Bounds.antt =====
-- app/ledger/diff.py: how many operations a pass enqueues.
use busybridge.Prelude.{
  ℕ, suc, ◌≤◌, ◌≡◌, refl, ap, ◌∙◌, Bool, true, false, not, Option, none, some, List, [], ◌∷◌, ◌++◌,
  arith, if◌then◌else◌, Bool-cases, inl, inr, length, select,
}
use busybridge.Errors.{ok, Action, ◌>>=◌, return, >>=-eq-ok}
use busybridge.Ledger.{Db, OpKind, Projection}
use busybridge.Diff.Select.{Diverged, diverged_projections}
use busybridge.Diff.Decide.{Pass, Decision}
use busybridge.Diff.Pass.{
  carry_out, settle_projection, settle_with_parent, settle_orphan, settle_instance, is_instance,
  diff_projection, diff_each, parents_first, diff_and_enqueue_for_user,
}

-- If the action returns a number, it is at most k.
record AtMost (k : ℕ) (m : Action Db ℕ) : Type 0 where
  at : (s s' : Db) (n : ℕ) → m s ≡ (ok n, s') → n ≤ k

AtMost-return : (k n : ℕ) → n ≤ k → AtMost k (return n)
AtMost-return k n h = record { at = λ s s' m e. ground arith }

AtMost-bind :
    {A : Type 0} (k : ℕ) (m : Action Db A) (f : A → Action Db ℕ)
    → ((a : A) → AtMost k (f a))
    → AtMost k (m >>= f)
AtMost-bind k m f h = record {
  at = λ s s' n e. let (a, t, did, next) = >>=-eq-ok m f s s' n e in (h a).at t s' n next;
}

AtMost-if :
    (k : ℕ) (b : Bool) (m m' : Action Db ℕ)
    → AtMost k m
    → AtMost k m'
    → AtMost k (if b then m else m')
AtMost-if k true m m' h h' = h
AtMost-if k false m m' h h' = h'

AtMost-read : (k : ℕ) (m : Db → Action Db ℕ) → ((s : Db) → AtMost k (m s)) → AtMost k (λ s. m s s)
AtMost-read k m h = record { at = λ s s' n e. (h s).at s s' n e }

carry_out-AtMost : (c : Pass) (d : Diverged) (x : Decision) → AtMost 1 (carry_out c d x)
unfolding carry_out
carry_out-AtMost c d x = of x.op
  where
    of : (k : Option OpKind) → AtMost 1 (carry_out c d (record x { op = k }))
    of none = AtMost-bind 1 _ _ λ _. AtMost-return 1 0 (omega arith)
    of (some k) = AtMost-bind 1 _ _ λ _. AtMost-return 1 1 (omega arith)

settle_projection-AtMost : (c : Pass) (d : Diverged) → AtMost 1 (settle_projection c d)
unfolding settle_projection
settle_projection-AtMost c d = AtMost-bind 1 _ _ λ x. carry_out-AtMost c d x

settle_orphan-AtMost : (c : Pass) (d : Diverged) → AtMost 1 (settle_orphan c d)
unfolding settle_orphan
settle_orphan-AtMost c d =
    let none_done = AtMost-return 1 0 (omega arith) in
    AtMost-if 1 _ _ _ (AtMost-bind 1 _ _ λ _. none_done) none_done

settle_instance-AtMost :
    (c : Pass) (d : Diverged) (parent : Option Projection) → AtMost 1 (settle_instance c d parent)
unfolding settle_instance settle_with_parent
settle_instance-AtMost c d parent =
    AtMost-if 1 _ _ _ (AtMost-bind 1 _ _ λ _. AtMost-return 1 0 (omega arith)) (
      AtMost-if 1 _ _ _ (settle_orphan-AtMost c d)
        (AtMost-bind 1 _ _ λ _. AtMost-bind 1 _ _ λ d'. settle_projection-AtMost c d'))

diff_projection-AtMost : (c : Pass) (d : Diverged) → AtMost 1 (diff_projection c d)
unfolding diff_projection
diff_projection-AtMost c d =
    AtMost-if 1 _ _ _ (AtMost-read 1 _ λ db. settle_instance-AtMost c d _)
      (settle_projection-AtMost c d)

diff_each-bound :
    (c : Pass) (ds : List Diverged) (db db' : Db) (n : ℕ)
    → diff_each c ds db ≡ (ok n, db')
    → n ≤ length ds
unfolding diff_each
diff_each-bound c [] db db' n h = ground arith
diff_each-bound c (d ∷ ds) db db' n h =
    let (m, t, did, next) = >>=-eq-ok (diff_projection c d) _ db db' n h in
    let (rest, u, went, end) = >>=-eq-ok (diff_each c ds) _ t db' n next in
    let one = (diff_projection-AtMost c d).at db t m did in
    let others = diff_each-bound c ds t u rest went in ground arith

length-insert :
    {A : Type 0} (xs : List A) (y : A) (ys : List A)
    → length (xs ++ y ∷ ys) ≡ suc (length (xs ++ ys))
length-insert [] y ys = refl
length-insert (x ∷ xs) y ys = ap suc (length-insert xs y ys)

split-length :
    (p : Diverged → Bool) (ds : List Diverged)
    → length (select (λ d. not (p d)) ds ++ select p ds) ≡ length ds
unfolding select
split-length p [] = refl
split-length p (d ∷ ds) = elim (Bool-cases (p d)) [
  | inl e ↦
      rw e (length-insert (select (λ x. not (p x)) ds) d (select p ds) ∙ ap suc (split-length p ds))
  | inr e ↦ rw e (ap suc (split-length p ds))
]

-- A pass of the diff that returns has enqueued at most one operation for each diverged projection
-- that it read.
pub diff_enqueues_once_each :
    (c : Pass) (db db' : Db) (n : ℕ)
    → diff_and_enqueue_for_user c db ≡ (ok n, db')
    → n ≤ length (diverged_projections c.user db)
unfolding diff_and_enqueue_for_user parents_first
diff_enqueues_once_each c db db' n h =
    let rows = diverged_projections c.user db in
    let bound = diff_each-bound c (parents_first rows) db db' n h in
    let same = split-length is_instance rows in ground arith
