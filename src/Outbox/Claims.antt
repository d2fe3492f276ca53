-- ===== src/Outbox/Claims.antt =====
-- app/ledger/outbox.py: the order of the queue, and that an op has one claimant.
use busybridge.Prelude.{
  ℕ, zero, suc, ◌≤◌, ◌≡◌, inl, inr, Bool, true, false, none, some, List, [], ◌∷◌, ==-refl, arith,
  Bool-cases, Option-cases, update_where, any, All, get_elem?, All-get_elem?, All-of-get_elem?,
  All-of-update_where, subst, ◌⊎◌, any-All,
}
use busybridge.Ledger.{pending, Op, Db}
use busybridge.Outbox.Claim.{
  is_stale, reclaim_stale_operations, is_due, oldest, is_claimable, claimed, won, try_claim,
  claim_next,
}

-- Of two claimants that selected the same row, with nothing but the first claim between, the second
-- changes no row.
pub claim_exclusive :
    (now later : ℕ) (row : Op) (db : Db) → (try_claim later row (try_claim now row db).1).0 ≡ false
unfolding try_claim
claim_exclusive now later row db =
    any-All (is_claimable row) (update_where (is_claimable row) (claimed now) db.operations) (
      All-of-update_where (λ o. is_claimable row o ≡ false) (is_claimable row) (claimed now)
        db.operations (λ o hit. unfold claimed is_claimable in ground arith) (λ o miss. miss))

module _ (p : Op → Bool) where
  oldest-none : (os : List Op) → oldest p os ≡ none → All (λ o. p o ≡ false) os
  unfolding oldest
  oldest-none [] h = tt
  oldest-none (o ∷ os) h = elim (Bool-cases (p o)) [
    | inl e ↦ absurd (ground arith)
    | inr e ↦ (e, oldest-none os (ground arith))
  ]

  oldest-holds : (os : List Op) (row : Op) → oldest p os ≡ some row → p row ≡ true
  unfolding oldest
  oldest-holds [] row h = ground arith
  oldest-holds (o ∷ os) row h = elim (Option-cases (oldest p os)) [
    | inl e ↦ ground arith
    | inr (best, e) ↦ ground (arith, oldest-holds os best e)
  ]

  oldest-le :
      (os : List Op) (row : Op) (j : ℕ) (o : Op)
      → oldest p os ≡ some row
      → get_elem? os j ≡ some o
      → p o ≡ true
      → row.id ≤ o.id
  unfolding oldest
  oldest-le [] row j o h at e = absurd (ground arith)
  oldest-le (x ∷ os) row zero o h at e = elim (Option-cases (oldest p os)) [
    | inl none_left ↦ ground arith
    | inr (best, found) ↦ ground arith
  ]
  oldest-le (x ∷ os) row (suc j) o h at e = elim (Option-cases (oldest p os)) [
    | inl none_left ↦
        absurd
          (ground (arith, All-get_elem? (λ y. p y ≡ false) os j o (oldest-none os none_left) at))
    | inr (best, found) ↦ ground (arith, oldest-le os best j o found at e)
  ]

  oldest-All :
      (os : List Op) (row : Op)
      → oldest p os ≡ some row
      → All (λ o. (p o ≡ false) ⊎ (row.id ≤ o.id)) os
  oldest-All os row h =
      All-of-get_elem? (λ o. (p o ≡ false) ⊎ (row.id ≤ o.id)) os
        λ j o at. elim (Bool-cases (p o)) [
          | inl e ↦ inr (oldest-le os row j o h at e)
          | inr e ↦ inl e
        ]

  -- The row that is found stands in the table.
  oldest-any :
      (q : Op → Bool) (os : List Op) (row : Op)
      → oldest p os ≡ some row
      → q row ≡ true
      → any q os ≡ true
  unfolding oldest any
  oldest-any q [] row h e = ground arith
  oldest-any q (o ∷ os) row h e = elim (Option-cases (oldest p os)) [
    | inl none_left ↦ ground arith
    | inr (best, found) ↦ ground (arith, oldest-any q os best found)
  ]

-- The op that a claim takes is a due one of the user, and no due op of the user in the table is older.
pub claim_next-oldest :
    (now user : ℕ) (db db' : Db) (row : Op)
    → claim_next now user db ≡ (some row, db')
    → (is_due now user row ≡ true)
      × All (λ o. (is_due now user o ≡ false) ⊎ (row.id ≤ o.id)) db.operations
unfolding claim_next
claim_next-oldest now user db db' row h =
    elim (Option-cases (oldest (is_due now user) db.operations)) [
      | inl e ↦ absurd (ground arith)
      | inr (best, e) ↦
          let same : best ≡ row = taken best (try_claim now best db) (by_oldest best e) in
          subst
            (λ x.
              (is_due now user x ≡ true)
              × All (λ o. (is_due now user o ≡ false) ⊎ (x.id ≤ o.id)) db.operations)
            same
            (
              oldest-holds (is_due now user) db.operations best e,
              oldest-All (is_due now user) db.operations best e,
            )
    ]
  where
    taken : (best : Op) (r : Bool × Db) → won best r ≡ (some row, db') → best ≡ row
    taken best (true, t) k = ground (arith, k)
    taken best (false, t) k = absurd (ground (arith, k))

    by_oldest :
        (best : Op)
        → oldest (is_due now user) db.operations ≡ some best
        → won best (try_claim now best db) ≡ (some row, db')
    by_oldest best e = ground (arith, e, h)

due-claimable : (now user : ℕ) (o : Op) → is_due now user o ≡ true → is_claimable o o ≡ true
unfolding is_due is_claimable
due-claimable now user o h = ground (arith, ==-refl o.id)

-- The drain's claim comes back empty only when no op of the user is due.
pub claim_next-none :
    (now user j : ℕ) (db db' : Db) (o : Op)
    → claim_next now user db ≡ (none, db')
    → get_elem? db.operations j ≡ some o
    → is_due now user o ≡ false
unfolding claim_next
claim_next-none now user j db db' o h at =
    elim (Option-cases (oldest (is_due now user) db.operations)) [
      | inl e ↦
          All-get_elem? (λ y. is_due now user y ≡ false) db.operations j o
            (oldest-none (is_due now user) db.operations e) at
      | inr (best, e) ↦
          let takes : any (is_claimable best) db.operations ≡ true =
            oldest-any (is_due now user) (is_claimable best) db.operations best e
              (due-claimable now user best (oldest-holds (is_due now user) db.operations best e)) in
          absurd (ground arith)
    ]

-- After the reclaim no op of the user is stale.
pub reclaim_stale_operations-none :
    (now user j : ℕ) (db : Db) (o : Op)
    → get_elem? (reclaim_stale_operations now user db).operations j ≡ some o
    → is_stale now user o ≡ false
unfolding reclaim_stale_operations
reclaim_stale_operations-none now user j db o at =
    All-get_elem? (λ y. is_stale now user y ≡ false) _ j o
      (All-of-update_where (λ y. is_stale now user y ≡ false) (is_stale now user)
        (λ y. record y { status = pending }) db.operations
        (λ y hit. unfold is_stale in ground arith) (λ y miss. miss))
      at
