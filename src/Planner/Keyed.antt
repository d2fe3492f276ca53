-- ===== src/Planner/Keyed.antt =====
-- app/ledger/planner.py: the writes of a plan keep the primary key of ledger_projections.
use busybridge.Prelude.{
  ℕ, ◌≤◌, ◌≡◌, refl, inl, inr, Bool, none, List, [], ◌∷◌, ◌++◌, map, ◌==◌, arith, Bool-cases,
  Option-cases, find_first, update_where, append-HasKey, update_where-HasKey,
}
use busybridge.Ledger.{Hash, Projection}
use busybridge.Planner.Row.{Row}
use busybridge.Planner.Targets.{TargetState}
use busybridge.Planner.Persist.{
  next_id, new_projection, redesired, is_same_plan, write_projection, upsert_rows,
}
use busybridge.Planner.Upsert.{IsKeyed, find_target}

find_first-next_id :
    (ps : List Projection) (n : ℕ)
    → next_id (map (λ p. p.id) ps) ≤ n
    → find_first (λ x. x.id == n) ps ≡ none
unfolding next_id find_first
find_first-next_id [] n h = refl
find_first-next_id (p ∷ ps) n h = ground (arith, find_first-next_id ps n)

new_projection-id :
    (now : ℕ) (r : Row) (t : TargetState) (hash : Hash) (ps : List Projection)
    → (new_projection now r t hash ps).id ≡ next_id (map (λ p. p.id) ps)
unfolding new_projection
new_projection-id now r t hash ps = refl

append-IsKeyed :
    (ps : List Projection) (n : Projection)
    → n.id ≡ next_id (map (λ p. p.id) ps)
    → IsKeyed ps
    → IsKeyed (ps ++ n ∷ [])
append-IsKeyed ps n fresh keyed =
    append-HasKey (λ p. p.id) ps n (find_first-next_id ps n.id (omega (arith, fresh))) keyed

-- An update that leaves the ids alone keeps the primary key.
pub update_where-IsKeyed :
    (p : Projection → Bool) (f : Projection → Projection) (ps : List Projection)
    → ((x : Projection) → (f x).id ≡ x.id)
    → IsKeyed ps
    → IsKeyed (update_where p f ps)
update_where-IsKeyed p f ps same keyed = update_where-HasKey (λ p. p.id) p f ps same keyed

pub upsert_rows-IsKeyed :
    (now : ℕ) (r : Row) (t : TargetState) (hash : Hash) (ps : List Projection)
    → IsKeyed ps
    → IsKeyed (upsert_rows now r t hash ps)
unfolding upsert_rows
upsert_rows-IsKeyed now r t hash ps keyed = elim (Option-cases (find_target r t ps)) [
  | inl e ↦
      rw (e, write_projection)
        (append-IsKeyed ps (new_projection now r t hash ps) (new_projection-id now r t hash ps)
          keyed)
  | inr (old, e) ↦ elim (Bool-cases (is_same_plan r t hash old)) [
    | inl same ↦ rw (e, write_projection, same) keyed
    | inr changed ↦
        rw (e, write_projection, changed)
          (update_where-IsKeyed (λ p. p.id == old.id) (redesired now r t hash) ps
            (λ x. unfold redesired in refl) keyed)
  ]
]
