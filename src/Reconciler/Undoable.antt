-- ===== src/Reconciler/Undoable.antt =====
-- app/ledger/reconciler.py and outbox.py: an outbox that differs from an earlier one by what the
-- discard of a dry run can undo, and that `enqueue` keeps it so.
use busybridge.Prelude.{
  ℕ, ◌≡◌, refl, ap, sym, subst, ◌⊎◌, inl, inr, arith, Bool, true, false, List, [], ◌∷◌, ◌++◌, map,
  ◌==◌, any, All, All-map,
}
use busybridge.Errors.{is_ok}
use busybridge.Ledger.{Op}
use busybridge.Outbox.Drain.{loads}
use busybridge.Reconciler.DryRun.{same_status, is_new, restored}

-- The projections that were written for.
abbrev pub has_touched : List ℕ → ℕ → Bool
has_touched ts i = any (λ t. t == i) ts

-- A row that `enqueue` rewrote in place.
pub record IsChanged (user : ℕ) (ts : List ℕ) (o o' : Op) : Type 0 where
  pub touched : has_touched ts o.projection_id ≡ true
  pub owned : o.user_id ≡ user
  pub moved : same_status o'.status o.status ≡ false
  pub undone : restored o o' ≡ o
  pub readable : is_ok (loads o'.payload_json) ≡ true
  pub still_keyed : o'.idempotency_key.projection ≡ o'.projection_id

-- A row that `enqueue` inserted.
pub record IsFresh (user mark : ℕ) (ts : List ℕ) (o : Op) : Type 0 where
  pub new : is_new user mark o ≡ true
  pub written_for : has_touched ts o.projection_id ≡ true
  pub keyed : o.idempotency_key.projection ≡ o.projection_id
  pub can_load : is_ok (loads o.payload_json) ≡ true

abbrev pub IsStep : ℕ → List ℕ → Op → Op → Type 0
IsStep user ts o o' = (o' ≡ o) ⊎ IsChanged user ts o o'

-- Row by row the same or changed, with fresh rows at the end.
abbrev pub IsUndoable : ℕ → ℕ → List ℕ → List Op → List Op → Type 0
IsUndoable user mark ts [] news = All (IsFresh user mark ts) news
IsUndoable user mark ts (o ∷ os) [] = ⊥
IsUndoable user mark ts (o ∷ os) (o' ∷ os') = IsStep user ts o o' × IsUndoable user mark ts os os'

pub IsUndoable-refl : (user mark : ℕ) (ts : List ℕ) (os : List Op) → IsUndoable user mark ts os os
IsUndoable-refl user mark ts [] = tt
IsUndoable-refl user mark ts (o ∷ os) = (inl refl, IsUndoable-refl user mark ts os)

-- What a row keeps in place.
pub IsStep-columns :
    (user : ℕ) (ts : List ℕ) (o o' : Op)
    → IsStep user ts o o'
    → (o'.id ≡ o.id)
      × (o'.user_id ≡ o.user_id)
      × (o'.projection_id ≡ o.projection_id)
      × (o'.idempotency_key ≡ o.idempotency_key)
unfolding restored
IsStep-columns user ts o o' (inl e) = rw e (refl, refl, refl, refl)
IsStep-columns user ts o o' (inr c) = (
  ap (λ x. x.id) c.undone,
  ap (λ x. x.user_id) c.undone,
  ap (λ x. x.projection_id) c.undone,
  ap (λ x. x.idempotency_key) c.undone,
)

pub IsStep-touch :
    (user t : ℕ) (ts : List ℕ) (o o' : Op) → IsStep user ts o o' → IsStep user (t ∷ ts) o o'
unfolding any
IsStep-touch user t ts o o' (inl e) = inl e
IsStep-touch user t ts o o' (inr c) = inr (record {
  touched = ground (arith, c.touched);
  owned = c.owned;
  moved = c.moved;
  undone = c.undone;
  readable = c.readable;
  still_keyed = c.still_keyed;
})

pub IsFresh-touch :
    (user mark t : ℕ) (ts : List ℕ) (o : Op) → IsFresh user mark ts o → IsFresh user mark (t ∷ ts) o
unfolding any
IsFresh-touch user mark t ts o f = record {
  new = f.new;
  written_for = ground (arith, f.written_for);
  keyed = f.keyed;
  can_load = f.can_load;
}

-- More projections may have been written for.
pub touch :
    (user mark t : ℕ) (ts : List ℕ) (os os' : List Op)
    → IsUndoable user mark ts os os'
    → IsUndoable user mark (t ∷ ts) os os'
touch user mark t ts [] news h = All-map _ _ news (IsFresh-touch user mark t ts) h
touch user mark t ts (o ∷ os) [] h = absurd h
touch user mark t ts (o ∷ os) (o' ∷ os') h =
    (IsStep-touch user t ts o o' h.0, touch user mark t ts os os' h.1)

-- A change of each row that leaves the touched ones alone and steps from the others.
pub map_steps :
    (user mark t : ℕ) (ts : List ℕ) (f : Op → Op) (os os' : List Op)
    → ((x : Op)
        → has_touched ts x.projection_id ≡ true
        → x.idempotency_key.projection ≡ x.projection_id
        → f x ≡ x)
    → All (λ o. IsStep user (t ∷ ts) o (f o)) os
    → IsUndoable user mark ts os os'
    → IsUndoable user mark (t ∷ ts) os (map f os')
map_steps user mark t ts f [] [] skip steps h = tt
map_steps user mark t ts f [] (n ∷ news) skip steps h = (
  subst (IsFresh user mark (t ∷ ts)) (sym (skip n h.0.written_for h.0.keyed))
      (IsFresh-touch user mark t ts n h.0),
  map_steps user mark t ts f [] news skip steps h.1,
)
map_steps user mark t ts f (o ∷ os) [] skip steps h = absurd h
map_steps user mark t ts f (o ∷ os) (o' ∷ os') skip steps (inl e, h) = (
  subst (λ x. IsStep user (t ∷ ts) o (f x)) (sym e) steps.0,
  map_steps user mark t ts f os os' skip steps.1 h,
)
map_steps user mark t ts f (o ∷ os) (o' ∷ os') skip steps (inr c, h) = (
  subst (IsStep user (t ∷ ts) o)
      (sym (skip o' (rw (IsStep-columns user ts o o' (inr c)).2 c.touched) c.still_keyed))
      (IsStep-touch user t ts o o' (inr c)),
  map_steps user mark t ts f os os' skip steps.1 h,
)

pub append_fresh :
    (user mark : ℕ) (ts : List ℕ) (os os' : List Op) (n : Op)
    → IsFresh user mark ts n
    → IsUndoable user mark ts os os'
    → IsUndoable user mark ts os (os' ++ n ∷ [])
append_fresh user mark ts [] [] n f h = (f, tt)
append_fresh user mark ts [] (x ∷ xs) n f h = (h.0, append_fresh user mark ts [] xs n f h.1)
append_fresh user mark ts (o ∷ os) [] n f h = absurd h
append_fresh user mark ts (o ∷ os) (x ∷ xs) n f h = (h.0, append_fresh user mark ts os xs n f h.1)
