-- ===== src/Planner/Upsert.antt =====
-- app/ledger/planner.py: what the writes of a plan leave in ledger_projections.
use busybridge.Prelude.{
  ℕ, ◌≡◌, refl, ap, inl, inr, Bool, true, false, ◌&&◌, Option, some, List, ◌==◌, ==_iff, arith,
  Bool-cases, Option-cases, same_nullable, same_nullable_refl, find_first, All, find_first-holds,
  All-find_first, find_first-update_where, find_first-append,
}
use busybridge.Ledger.{Target, Desired, Hash, Projection, same_target, same_state, same_hash}
use busybridge.Planner.Row.{Row}
use busybridge.Planner.Targets.{TargetState}
use busybridge.Planner.Persist.{
  is_projection_of, is_armed_origin, new_projection, redesired, is_same_plan, upsert_rows,
}

-- The primary key: a row is the one that a search for its id finds.
abbrev pub IsKeyed : List Projection → Type 0
IsKeyed ps = All (λ p. find_first (λ x. x.id == p.id) ps ≡ some p) ps

abbrev pub find_target : Row → TargetState → List Projection → Option Projection
find_target r t = find_first (is_projection_of r.id t.kind t.calendar_id)

same_target_refl : (k : Target) → same_target k k ≡ true
same_target_refl k = ground arith

same_state_sound : (a b : Desired) → same_state a b ≡ true → a ≡ b
same_state_sound a b h = ground arith

same_hash_sound : (a b : Hash) → same_hash a b ≡ true → a ≡ b
same_hash_sound a b h = ground arith

same_state_refl : (a : Desired) → same_state a a ≡ true
same_state_refl a = ground arith

same_hash_refl : (a : Hash) → same_hash a a ≡ true
same_hash_refl a = ground arith

redesired-key :
    (now : ℕ) (r : Row) (t : TargetState) (hash : Hash) (e : ℕ) (k : Target) (c : Option ℕ)
    (p : Projection)
    → is_projection_of e k c (redesired now r t hash p) ≡ is_projection_of e k c p
unfolding is_projection_of redesired
redesired-key now r t hash e k c p = refl

new_projection-key :
    (now : ℕ) (r : Row) (t : TargetState) (hash : Hash) (ps : List Projection)
    → is_projection_of r.id t.kind t.calendar_id (new_projection now r t hash ps) ≡ true
unfolding is_projection_of new_projection
new_projection-key now r t hash ps =
    ground (arith, same_target_refl t.kind, same_nullable_refl t.calendar_id)

-- After the upsert the target's row holds the desired state and hash.
pub find-upsert_rows :
    (now : ℕ) (r : Row) (t : TargetState) (hash : Hash) (ps : List Projection)
    → (p : Projection) × (find_target r t (upsert_rows now r t hash ps) ≡ some p)
      × (p.desired_state ≡ t.state)
      × (p.desired_payload_hash ≡ hash)
unfolding upsert_rows
find-upsert_rows now r t hash ps = elim (Option-cases (find_target r t ps)) [
  | inl e ↦ (
    new_projection now r t hash ps,
    ground (
      arith,
      find_first-append (is_projection_of r.id t.kind t.calendar_id) ps
          (new_projection now r t hash ps),
      new_projection-key now r t hash ps,
    ),
    unfold new_projection in refl,
    unfold new_projection in refl,
  )
  | inr (old, e) ↦ elim (Bool-cases (is_same_plan r t hash old)) [
    | inl same ↦ (
      old,
      ground arith,
      unfold is_same_plan in ground (arith, same_state_sound old.desired_state t.state),
      unfold is_same_plan in ground (arith, same_hash_sound old.desired_payload_hash hash),
    )
    | inr changed ↦ (
      redesired now r t hash old,
      ground (
        arith,
        find_first-update_where (is_projection_of r.id t.kind t.calendar_id) (λ p. p.id == old.id)
            (redesired now r t hash) ps (redesired-key now r t hash r.id t.kind t.calendar_id),
      ),
      unfold redesired in refl,
      unfold redesired in refl,
    )
  ]
]

-- Two targets of one event that a lookup tells apart.
abbrev pub same_key : TargetState → TargetState → Bool
same_key t u = same_target t.kind u.kind && same_nullable t.calendar_id u.calendar_id

is_same_plan_of :
    (r : Row) (t : TargetState) (hash : Hash) (p : Projection)
    → is_armed_origin r t ≡ false
    → p.desired_state ≡ t.state
    → p.desired_payload_hash ≡ hash
    → is_same_plan r t hash p ≡ true
unfolding is_same_plan
is_same_plan_of r t hash p unarmed state same =
    ground (arith, same_state_refl t.state, same_hash_refl hash)

-- Planning a target again with the same result, at whatever time, changes no row, unless the
-- target is the origin of a writeback that is armed.
pub upsert_rows_idem :
    (now later : ℕ) (r : Row) (t : TargetState) (hash : Hash) (ps : List Projection)
    → is_armed_origin r t ≡ false
    → upsert_rows later r t hash (upsert_rows now r t hash ps) ≡ upsert_rows now r t hash ps
upsert_rows_idem now later r t hash ps unarmed =
    let (p, found, state, same) = find-upsert_rows now r t hash ps in
    again p (upsert_rows now r t hash ps) found (is_same_plan_of r t hash p unarmed state same)
  where
    again :
        (p : Projection) (qs : List Projection)
        → find_target r t qs ≡ some p
        → is_same_plan r t hash p ≡ true
        → upsert_rows later r t hash qs ≡ qs
    again p qs found same = unfold upsert_rows in ground arith

keys_agree :
    (e : ℕ) (k k' : Target) (c c' : Option ℕ) (p : Projection)
    → is_projection_of e k c p ≡ true
    → is_projection_of e k' c' p ≡ true
    → (same_target k k' && same_nullable c c') ≡ true
unfolding is_projection_of
keys_agree e k k' c c' p h h' = ground arith

-- Under the primary key, one id is one row.
same_row :
    (ps : List Projection) (a b : Projection) (q q' : Projection → Bool)
    → IsKeyed ps
    → find_first q ps ≡ some a
    → find_first q' ps ≡ some b
    → (a.id == b.id) ≡ true
    → a ≡ b
same_row ps a b q q' keyed fa fb same = ground (
  arith,
  All-find_first (λ p. find_first (λ x. x.id == p.id) ps ≡ some p) q ps a keyed fa,
  All-find_first (λ p. find_first (λ x. x.id == p.id) ps ≡ some p) q' ps b keyed fb,
  ==_iff a.id b.id,
  ap (λ n. find_first (λ (x : Projection). x.id == n) ps) ((==_iff a.id b.id).0 same),
)

new_projection-other :
    (now : ℕ) (r : Row) (t u : TargetState) (hash : Hash) (ps : List Projection)
    → same_key t u ≡ false
    → is_projection_of r.id u.kind u.calendar_id (new_projection now r t hash ps) ≡ false
unfolding is_projection_of new_projection
new_projection-other now r t u hash ps h = ground arith

-- The upsert of one target leaves the rows of the event's other targets as they are.
pub find-upsert_rows_ne :
    (now : ℕ) (r : Row) (t u : TargetState) (hash : Hash) (ps : List Projection)
    → IsKeyed ps
    → same_key t u ≡ false
    → find_target r u (upsert_rows now r t hash ps) ≡ find_target r u ps
unfolding upsert_rows
find-upsert_rows_ne now r t u hash ps keyed ne = elim (Option-cases (find_target r t ps)) [
  | inl e ↦ ground (
    arith,
    find_first-append (is_projection_of r.id u.kind u.calendar_id) ps
        (new_projection now r t hash ps),
    new_projection-other now r t u hash ps,
  )
  | inr (old, e) ↦ elim (Bool-cases (is_same_plan r t hash old)) [
    | inl same ↦ ground arith
    | inr changed ↦
        let written =
          find_first-update_where (is_projection_of r.id u.kind u.calendar_id) (λ p. p.id == old.id)
            (redesired now r t hash) ps (redesired-key now r t hash r.id u.kind u.calendar_id) in
        elim (Option-cases (find_target r u ps)) [
          | inl miss ↦ ground (arith, written)
          | inr (a, hit) ↦ ground (
            arith,
            written,
            same_row ps a old (is_projection_of r.id u.kind u.calendar_id)
                (is_projection_of r.id t.kind t.calendar_id) keyed hit e,
            keys_agree r.id t.kind u.kind t.calendar_id u.calendar_id old
                (find_first-holds (is_projection_of r.id t.kind t.calendar_id) ps old e),
            find_first-holds (is_projection_of r.id u.kind u.calendar_id) ps a hit,
          )
        ]
  ]
]
