-- ===== src/Reconciler/Staging.antt =====
-- app/ledger/outbox.py: `enqueue` leaves an outbox that the discard of a dry run can undo.
use busybridge.Prelude.{
  ℕ, suc, ◌≤◌, ◌≡◌, refl, ap, sym, subst, ◌∙◌, inl, inr, arith, Bool, true, false, not, ◌||◌,
  Bool-cases, Option, none, some, List, [], ◌∷◌, map, ◌==◌, ==-refl, if◌then◌else◌, any, select,
  find_first, All, update_where,
}
use busybridge.Errors.{is_ok}
use busybridge.Json.{Fields}
use busybridge.Ledger.{OpStatus, Op, pending, superseded, is_pending}
use busybridge.Planner.Persist.{next_id}
use busybridge.Outbox.Enqueue.{
  Request, same_idem, idem_of, find_key, is_older, supersede, dumps, new_op, resurrect, live_op,
}
use busybridge.Outbox.Queue.{same_idem_sound, supersede-key, older-ne}
use busybridge.Outbox.Drain.{loads}
use busybridge.Reconciler.DryRun.{same_status, is_new, watermark, restored}
use busybridge.Reconciler.Undoable.{
  has_touched, IsChanged, IsFresh, IsStep, IsUndoable, IsStep-columns,
}

-- A row of an outbox before the pass: found by its key, keyed by its projection, with a payload that
-- loads.
pub record IsSound (ops : List Op) (o : Op) : Type 0 where
  pub found_by_id : find_first (λ x. x.id == o.id) ops ≡ some o
  pub found_by_key : find_key o.idempotency_key ops ≡ some o
  pub keyed : o.idempotency_key.projection ≡ o.projection_id
  pub can_load : is_ok (loads o.payload_json) ≡ true

-- The operations of a projection are the user's.
abbrev pub IsOwned : ℕ → ℕ → Op → Type 0
IsOwned user projection o = (not (o.projection_id == projection) || o.user_id == user) ≡ true

pub update_where-map :
    (p q : Op → Bool) (f g : Op → Op) (xs : List Op)
    → update_where q g (update_where p f xs)
      ≡ map (λ x. let y = if p x then f x else x in if q y then g y else y) xs
unfolding update_where
update_where-map p q f g [] = refl
update_where-map p q f g (x ∷ xs) =
    ap (λ ys. (let y = if p x then f x else x in if q y then g y else y) ∷ ys)
      (update_where-map p q f g xs)

pub update_where-map_once :
    (p : Op → Bool) (f : Op → Op) (xs : List Op)
    → update_where p f xs ≡ map (λ x. if p x then f x else x) xs
unfolding update_where
update_where-map_once p f [] = refl
update_where-map_once p f (x ∷ xs) =
    ap (λ ys. (if p x then f x else x) ∷ ys) (update_where-map_once p f xs)

dumps-loads : (d : Option Fields) → is_ok (loads (dumps d)) ≡ true
dumps-loads none = refl
dumps-loads (some d) = refl

touched_self : (ts : List ℕ) (i j : ℕ) → (i == j) ≡ true → has_touched (j ∷ ts) i ≡ true
unfolding any
touched_self ts i j h = ground arith

pub if_false : (b : Bool) (x y : Op) → b ≡ false → (if b then x else y) ≡ y
if_false b x y h = rw h refl

moved_from_pending : (s : OpStatus) → is_pending s ≡ true → same_status superseded s ≡ false
moved_from_pending pending h = refl
moved_from_pending s h = ground arith

moved_to_pending : (s : OpStatus) → is_pending s ≡ false → same_status pending s ≡ false
moved_to_pending pending h = ground arith
moved_to_pending s h = refl

module _ (user mark now : ℕ) (q : Request) where
  abbrev pub own : Op → Bool
  own x = same_idem x.idempotency_key (idem_of q)

  -- The two updates at a row.
  abbrev pub superseding : Op → Op
  superseding x = if is_older q x then supersede now x else x

  abbrev pub rewriting : Op → Op
  rewriting x = let y = superseding x in if own y then resurrect now q y else y

  -- Both leave other projections' rows alone.
  other_not_older : (x : Op) → (x.projection_id == q.projection_id) ≡ false → is_older q x ≡ false
  unfolding is_older
  other_not_older x h = ground arith

  supersede-IsChanged :
      (ts : List ℕ) (ops : List Op) (o : Op)
      → IsSound ops o
      → IsOwned user q.projection_id o
      → is_older q o ≡ true
      → IsChanged user (q.projection_id ∷ ts) o (supersede now o)
  unfolding is_older supersede restored
  supersede-IsChanged ts ops o s mine e = record {
    touched = touched_self ts o.projection_id q.projection_id (ground arith);
    owned = ground arith;
    moved = moved_from_pending o.status (ground arith);
    undone = refl;
    readable = s.can_load;
    still_keyed = s.keyed;
  }

  pub superseding-IsStep :
      (ts : List ℕ) (ops : List Op) (o : Op)
      → IsSound ops o
      → IsOwned user q.projection_id o
      → IsStep user (q.projection_id ∷ ts) o (superseding o)
  superseding-IsStep ts ops o s mine = elim (Bool-cases (is_older q o)) [
    | inl e ↦
        subst (λ x. IsStep user (q.projection_id ∷ ts) o x) (simp e)
          (inr (supersede-IsChanged ts ops o s mine e))
    | inr e ↦ inl (simp e)
  ]

  own_projection :
      (ops : List Op) (o : Op)
      → IsSound ops o
      → own o ≡ true
      → (o.projection_id == q.projection_id) ≡ true
  unfolding same_idem
  own_projection ops o s e = ground (arith, s.keyed)

  not_live :
      (ops : List Op) (o : Op)
      → IsSound ops o
      → own o ≡ true
      → live_op q ops ≡ none
      → is_pending o.status ≡ false
  unfolding live_op
  not_live ops o s e idle =
      let found : find_key (idem_of q) ops ≡ some o =
        subst (λ k. find_key k ops ≡ some o) (same_idem_sound o.idempotency_key (idem_of q) e)
          s.found_by_key in
      ground (arith, found, idle)

  resurrect-IsChanged :
      (ts : List ℕ) (ops : List Op) (o : Op)
      → IsSound ops o
      → IsOwned user q.projection_id o
      → own o ≡ true
      → live_op q ops ≡ none
      → IsChanged user (q.projection_id ∷ ts) o (resurrect now q o)
  unfolding resurrect restored
  resurrect-IsChanged ts ops o s mine e idle =
      let same = own_projection ops o s e in
      record {
        touched = touched_self ts o.projection_id q.projection_id same;
        owned = ground (arith, same, mine);
        moved = moved_to_pending o.status (not_live ops o s e idle);
        undone = refl;
        readable = dumps-loads q.payload;
        still_keyed = s.keyed;
      }

  own-superseding : (o : Op) → own (superseding o) ≡ own o
  own-superseding o = elim (Bool-cases (is_older q o)) [
    | inl e ↦ simp (e, supersede-key)
    | inr e ↦ simp e
  ]

  rewriting-own : (o : Op) → own o ≡ true → resurrect now q o ≡ rewriting o
  rewriting-own o e = simp (older-ne q o e, e)

  rewriting_other : (o : Op) → own o ≡ false → superseding o ≡ rewriting o
  rewriting_other o e = sym (if_false _ _ _ (own-superseding o ∙ e))

  pub rewriting-IsStep :
      (ts : List ℕ) (ops : List Op) (o : Op)
      → IsSound ops o
      → IsOwned user q.projection_id o
      → live_op q ops ≡ none
      → IsStep user (q.projection_id ∷ ts) o (rewriting o)
  rewriting-IsStep ts ops o s mine idle = elim (Bool-cases (own o)) [
    | inl e ↦
        subst (λ x. IsStep user (q.projection_id ∷ ts) o x) (rewriting-own o e)
          (inr (resurrect-IsChanged ts ops o s mine e idle))
    | inr e ↦
        subst (λ x. IsStep user (q.projection_id ∷ ts) o x) (rewriting_other o e)
          (superseding-IsStep ts ops o s mine)
  ]

  -- The touched rows are of other projections, and stay.
  other_projection :
      (ts : List ℕ) (x : Op)
      → has_touched ts q.projection_id ≡ false
      → has_touched ts x.projection_id ≡ true
      → (x.projection_id == q.projection_id) ≡ false
  other_projection ts x new old = elim (Bool-cases (x.projection_id == q.projection_id)) [
    | inl e ↦
        let same : x.projection_id ≡ q.projection_id = ground arith in
        let both = subst (λ i. has_touched ts i ≡ true) same old in
        absurd (ground (arith, both, new))
    | inr e ↦ e
  ]

  pub superseding_skips :
      (ts : List ℕ)
      → has_touched ts q.projection_id ≡ false
      → (x : Op) → has_touched ts x.projection_id ≡ true
      → superseding x ≡ x
  superseding_skips ts new x old =
      if_false _ _ _ (other_not_older x (other_projection ts x new old))

  -- The request's key is found in an undoable outbox as it was before.
  pub own_skips :
      (ts : List ℕ)
      → has_touched ts q.projection_id ≡ false
      → (x : Op) → has_touched ts x.projection_id ≡ true
      → x.idempotency_key.projection ≡ x.projection_id
      → own x ≡ false
  unfolding same_idem
  own_skips ts new x old keyed = ground (arith, other_projection ts x new old)

  pub find_key-undoable :
      (ts : List ℕ) (os os' : List Op)
      → has_touched ts q.projection_id ≡ false
      → All (λ o. o.idempotency_key.projection ≡ o.projection_id) os
      → IsUndoable user mark ts os os'
      → find_key (idem_of q) os' ≡ find_key (idem_of q) os
  unfolding find_first
  find_key-undoable ts [] [] new keyed h = refl
  find_key-undoable ts [] (n ∷ news) new keyed h =
      simp (own_skips ts new n h.0.written_for h.0.keyed, find_key-undoable ts [] news new tt h.1)
  find_key-undoable ts (o ∷ os) [] new keyed h = absurd h
  find_key-undoable ts (o ∷ os) (o' ∷ os') new keyed (inl e, h) =
      rw (e, find_key-undoable ts os os' new keyed.1 h) refl
  find_key-undoable ts (o ∷ os) (o' ∷ os') new keyed (inr c, h) =
      let miss = own_skips ts new o c.touched keyed.0 in
      simp
        ((IsStep-columns user ts o o' (inr c)).3, miss, find_key-undoable ts os os' new keyed.1 h)

  pub rewriting_skips :
      (ts : List ℕ)
      → has_touched ts q.projection_id ≡ false
      → (x : Op) → has_touched ts x.projection_id ≡ true
      → x.idempotency_key.projection ≡ x.projection_id
      → rewriting x ≡ x
  rewriting_skips ts new x old keyed =
      sym (rewriting_other x (own_skips ts new x old keyed)) ∙ superseding_skips ts new x old

next_id-positive : (ns : List ℕ) → 1 ≤ next_id ns
unfolding next_id
next_id-positive [] = omega arith
next_id-positive (n ∷ ns) = omega (arith, next_id-positive ns)

module _ (user mark : ℕ) where
  -- Every id that is given out is above the user's earlier ones.
  pub next_id-undoable :
      (ts : List ℕ) (os os' : List Op)
      → IsUndoable user mark ts os os'
      → suc (watermark (select (λ o. o.user_id == user) os)) ≤ next_id (map (λ o. o.id) os')
  unfolding watermark select next_id
  next_id-undoable ts [] news h = next_id-positive _
  next_id-undoable ts (o ∷ os) [] h = absurd h
  next_id-undoable ts (o ∷ os) (o' ∷ os') h =
      let same = (IsStep-columns user ts o o' h.0).0 in
      let rest = next_id-undoable ts os os' h.1 in
      elim (Bool-cases (o.user_id == user)) [
        | inl e ↦ rw e (omega (arith, same, rest))
        | inr e ↦ rw e (omega (arith, same, rest))
      ]

  pub new_op-IsFresh :
      (now : ℕ) (q : Request) (ts : List ℕ) (ops : List Op)
      → q.user_id ≡ user
      → suc mark ≤ next_id (map (λ o. o.id) ops)
      → IsFresh user mark (q.projection_id ∷ ts) (new_op now q ops)
  unfolding new_op is_new
  new_op-IsFresh now q ts ops mine above = record {
    new = ground (arith, mine, above);
    written_for = touched_self ts q.projection_id q.projection_id (==-refl q.projection_id);
    keyed = refl;
    can_load = dumps-loads q.payload;
  }
