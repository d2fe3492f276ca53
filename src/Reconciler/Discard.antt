-- ===== src/Reconciler/Discard.antt =====
-- app/ledger/reconciler.py: the discard of a dry run brings an undoable outbox back.
use busybridge.Prelude.{
  ℕ, ◌≡◌, refl, sym, subst, ◌∙◌, ◌⊎◌, inl, inr, arith, Bool-cases, Bool, true, false, not, ◌==◌,
  ==-refl, none, some, List, [], ◌∷◌, select, any, find_first, All, All-map, if◌then◌else◌,
}
use busybridge.Errors.{Result, ok}
use busybridge.Ledger.{Op}
use busybridge.Reconciler.DryRun.{
  same_status, snapshot_of, changed_rows, is_old, is_new, has_id, restored, restored_by,
  restore_rows,
}
use busybridge.Reconciler.Undoable.{IsChanged, IsUndoable, IsStep-columns}

pub All-select {κ} :
    {A : Type 0} (P : A → Type κ) (q : A → Bool) (xs : List A)
    → All (λ x. q x ≡ true → P x) xs
    → All P (select q xs)
unfolding select
All-select P q [] h = tt
All-select P q (x ∷ xs) h = elim (Bool-cases (q x)) [
  | inl e ↦ rw e (h.0 e, All-select P q xs h.1)
  | inr e ↦ rw e (All-select P q xs h.1)
]

pub find_first-select :
    {A : Type 0} (p q : A → Bool) (xs : List A) (x : A)
    → find_first p xs ≡ some x
    → q x ≡ true
    → find_first p (select q xs) ≡ some x
unfolding find_first select
find_first-select p q [] x h k = ground arith
find_first-select p q (y ∷ ys) x h k = ground (arith, find_first-select p q ys x)

-- The snapshot's row for a row's id is that row, and there is none for another user's.
abbrev pub IsSeen : ℕ → List Op → Op → Type 0
IsSeen user snapshot o =
    (find_first (λ s. s.id == o.id) snapshot ≡ some o)
    ⊎ ((find_first (λ s. s.id == o.id) snapshot ≡ none) × ((o.user_id == user) ≡ false))

-- A row that the loop over the old rows has looked at.
pub record IsListed (snapshot cs : List Op) (r : Op) : Type 0 where
  pub old : Op
  pub looked_up : snapshot_of snapshot r.id ≡ ok old
  pub listed : (same_status r.status old.status ≡ true) ⊎ (has_id cs r ≡ true)

IsListed-more :
    (snapshot cs : List Op) (c r : Op) → IsListed snapshot cs r → IsListed snapshot (c ∷ cs) r
unfolding any
IsListed-more snapshot cs c r h = record {
  old = h.old;
  looked_up = h.looked_up;
  listed = elim h.listed [ inl e ↦ inl e | inr e ↦ inr (ground (arith, e)) ];
}

abbrev pub HasSnapshot : List Op → Op → Type 0
HasSnapshot snapshot r = (old : Op) × (snapshot_of snapshot r.id ≡ ok old)

has_id_self : (r : Op) (cs : List Op) → has_id (r ∷ cs) r ≡ true
unfolding any
has_id_self r cs = ground (arith, ==-refl r.id)

pub changed_rows-IsListed :
    (snapshot rows : List Op)
    → All (HasSnapshot snapshot) rows
    → (cs : List Op) × (changed_rows snapshot rows ≡ ok cs) × All (IsListed snapshot cs) rows
unfolding changed_rows
changed_rows-IsListed snapshot [] h = ([], refl, tt)
changed_rows-IsListed snapshot (r ∷ rows) h =
    let (old, found) = h.0 in
    let (cs, rest, all) = changed_rows-IsListed snapshot rows h.1 in
    elim (Bool-cases (same_status r.status old.status)) [
      | inl e ↦ (
        cs,
        rw (found, rest, e) refl,
        (record { old = old; looked_up = found; listed = inl e }, all),
      )
      | inr e ↦ (
        r ∷ cs,
        rw (found, rest, e) refl,
        (
          record { old = old; looked_up = found; listed = inr (has_id_self r cs) },
          All-map _ _ rows (IsListed-more snapshot cs r) all,
        ),
      )
    ]

-- What is known of a row of the earlier outbox.
pub record IsKnown (user mark : ℕ) (snapshot : List Op) (o : Op) : Type 0 where
  pub below : is_new user mark o ≡ false
  pub seen : IsSeen user snapshot o

-- Every old row has a row in the snapshot.
pub old_rows_found :
    (user mark : ℕ) (ts : List ℕ) (snapshot os os' : List Op)
    → All (IsKnown user mark snapshot) os
    → IsUndoable user mark ts os os'
    → All (λ r. is_old user mark r ≡ true → HasSnapshot snapshot r) os'
unfolding is_old is_new snapshot_of
old_rows_found user mark ts snapshot [] [] k h = tt
old_rows_found user mark ts snapshot [] (n ∷ news) k h = (
  (λ e. absurd (ground (arith, e, h.0.new))),
  old_rows_found user mark ts snapshot [] news tt h.1,
)
old_rows_found user mark ts snapshot (o ∷ os) [] k h = absurd h
old_rows_found user mark ts snapshot (o ∷ os) (o' ∷ os') k h =
    let same = IsStep-columns user ts o o' h.0 in
    (
      (λ e. elim k.0.seen [
        | inl found ↦ (o, rw (same.0, found) refl)
        | inr other ↦ absurd (ground (arith, e, other.1, same.1))
      ]),
      old_rows_found user mark ts snapshot os os' k.1 h.1,
    )

restored_self : (o : Op) → restored o o ≡ o
unfolding restored
restored_self o = refl

-- Restoring an unchanged row changes nothing.
restored_unchanged :
    (user : ℕ) (snapshot cs : List Op) (o : Op)
    → IsSeen user snapshot o
    → (if has_id cs o then restored_by o (find_first (λ s. s.id == o.id) snapshot) else o) ≡ o
restored_unchanged user snapshot cs o seen = elim (Bool-cases (has_id cs o)) [
  | inl e ↦ elim seen [
    | inl found ↦ rw (e, found) (restored_self o)
    | inr other ↦ rw (e, other.0) refl
  ]
  | inr e ↦ rw e refl
]

pub All-of-select {κ} :
    {A : Type 0} (P : A → Type κ) (q : A → Bool) (xs : List A)
    → All P (select q xs)
    → All (λ x. q x ≡ true → P x) xs
unfolding select
All-of-select P q [] h = tt
All-of-select P q (x ∷ xs) h = elim (Bool-cases (q x)) [
  | inl e ↦ let k : All P (x ∷ select q xs) = rw e at h in ((λ _. k.0), All-of-select P q xs k.1)
  | inr e ↦
      let k : All P (select q xs) = rw e at h in
      ((λ f. absurd (ground (arith, e, f))), All-of-select P q xs k)
]

-- A row of the user's up to the watermark is old.
old_if_not_new :
    (user mark : ℕ) (o : Op)
    → is_new user mark o ≡ false
    → o.user_id ≡ user
    → is_old user mark o ≡ true
unfolding is_old is_new
old_if_not_new user mark o below mine = ground (arith, ==-refl user)

is_new_same :
    (user mark : ℕ) (o o' : Op)
    → o'.id ≡ o.id
    → o'.user_id ≡ o.user_id
    → is_new user mark o' ≡ is_new user mark o
unfolding is_new
is_new_same user mark o o' i u = rw (i, u) refl

-- A changed row has left its status, so the loop has listed it.
has_id_changed :
    (user : ℕ) (ts : List ℕ) (snapshot cs : List Op) (o o' : Op)
    → find_first (λ s. s.id == o'.id) snapshot ≡ some o
    → IsChanged user ts o o'
    → IsListed snapshot cs o'
    → has_id cs o' ≡ true
unfolding snapshot_of
has_id_changed user ts snapshot cs o o' found c l =
    let looked_up : ◌≡◌ {A = Result Op} (ok o) (ok l.old) = rw found at l.looked_up in
    elim l.listed [ inl e ↦ absurd (ground (arith, e, c.moved, looked_up)) | inr e ↦ e ]

restored_changed :
    (user mark : ℕ) (ts : List ℕ) (snapshot cs : List Op) (o o' : Op)
    → IsKnown user mark snapshot o
    → IsChanged user ts o o'
    → (is_old user mark o' ≡ true → IsListed snapshot cs o')
    → (if has_id cs o' then restored_by o' (find_first (λ s. s.id == o'.id) snapshot) else o') ≡ o
restored_changed user mark ts snapshot cs o o' k c listed = elim k.seen [
  | inl found ↦
      let same = IsStep-columns user ts o o' (inr c) in
      let found' : find_first (λ s. s.id == o'.id) snapshot ≡ some o =
        subst (λ i. find_first (λ s. s.id == i) snapshot ≡ some o) (sym same.0) found in
      let old =
        old_if_not_new user mark o' (is_new_same user mark o o' same.0 same.1 ∙ k.below)
          (same.1 ∙ c.owned) in
      rw (has_id_changed user ts snapshot cs o o' found' c (listed old), found') c.undone
  | inr other ↦ absurd (ground (arith, other.1, c.owned, ==-refl user))
]

cons_cong : {A : Type 0} (x y : A) (xs ys : List A) → x ≡ y → xs ≡ ys → x ∷ xs ≡ y ∷ ys
cons_cong x y xs ys h k = rw (h, k) refl

pub undo_undoable :
    (user mark : ℕ) (ts : List ℕ) (snapshot cs os os' : List Op)
    → All (IsKnown user mark snapshot) os
    → IsUndoable user mark ts os os'
    → All (λ r. is_old user mark r ≡ true → IsListed snapshot cs r) os'
    → restore_rows snapshot cs (select (λ o. not (is_new user mark o)) os') ≡ os
unfolding restore_rows select
undo_undoable user mark ts snapshot cs [] [] k h l = refl
undo_undoable user mark ts snapshot cs [] (n ∷ news) k h l =
    rw h.0.new (undo_undoable user mark ts snapshot cs [] news tt h.1 l.1)
undo_undoable user mark ts snapshot cs (o ∷ os) [] k h l = absurd h
undo_undoable user mark ts snapshot cs (o ∷ os) (o' ∷ os') k (inl e, h) l =
    subst
      (λ x. restore_rows snapshot cs (select (λ o. not (is_new user mark o)) (x ∷ os')) ≡ o ∷ os)
      (sym e)
      (rw k.0.below (
        cons_cong _ _ _ _ (restored_unchanged user snapshot cs o k.0.seen)
          (undo_undoable user mark ts snapshot cs os os' k.1 h l.1)))
undo_undoable user mark ts snapshot cs (o ∷ os) (o' ∷ os') k (inr c, h) l =
    let same = IsStep-columns user ts o o' (inr c) in
    rw (is_new_same user mark o o' same.0 same.1 ∙ k.0.below) (
      cons_cong _ _ _ _ (restored_changed user mark ts snapshot cs o o' k.0 c l.0)
        (undo_undoable user mark ts snapshot cs os os' k.1 h l.1))
