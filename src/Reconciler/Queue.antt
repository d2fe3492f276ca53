-- ===== src/Reconciler/Queue.antt =====
-- app/ledger/reconciler.py: the queue of affected rows, read before the planning and cleared after.
use busybridge.Prelude.{
  ℕ, zero, suc, ◌≤◌, ◌≡◌, refl, ap, sym, subst, ◌∙◌, arith, Bool, true, not, ◌&&◌, ◌||◌, List, [],
  ◌∷◌, map, ◌==◌, ltb, any, select, length, take, drop, length-drop,
}
use busybridge.Errors.{ok, Action, modify, ◌>>=◌, ◌>>◌, return, >>=-eq-ok, bind_at}
use busybridge.Ledger.{Affected, Db}
use busybridge.Planner.Keeps.{plan-Keeps}
use busybridge.Planner.Plan.{Context, plan_for_ledger_event}
use busybridge.Reconciler.Affected.{
  read_affected_ledger_rows, insert_id, sorted_set, ids_to_plan, is_among, delete_rows,
  clear_chunks, clear_affected_ledger_rows, plan_ids, plan_affected,
}

-- Each id is below the next.
unfoldable pub is_ascending : List ℕ → Bool
is_ascending [] = true
is_ascending (i ∷ []) = true
is_ascending (i ∷ j ∷ js) = ltb i j && is_ascending (j ∷ js)

unfoldable pub holds_id : List ℕ → ℕ → Bool
holds_id is i = any (λ j. j == i) is

insert_id_ascending :
    (i : ℕ) (is : List ℕ) → is_ascending is ≡ true → is_ascending (insert_id i is) ≡ true
unfolding is_ascending insert_id
insert_id_ascending i [] h = refl
insert_id_ascending i (j ∷ []) h = ground arith
insert_id_ascending i (j ∷ k ∷ ks) h = ground (arith, insert_id_ascending i (k ∷ ks))

sorted_set_ascending : (is : List ℕ) → is_ascending (sorted_set is) ≡ true
unfolding sorted_set is_ascending
sorted_set_ascending [] = refl
sorted_set_ascending (i ∷ is) = insert_id_ascending i (sorted_set is) (sorted_set_ascending is)

holds_id-insert_id :
    (i j : ℕ) (is : List ℕ) → holds_id (insert_id i is) j ≡ (i == j || holds_id is j)
unfolding holds_id insert_id any
holds_id-insert_id i j [] = refl
holds_id-insert_id i j (k ∷ ks) = ground (arith, holds_id-insert_id i j ks)

holds_id-sorted_set : (is : List ℕ) (j : ℕ) → holds_id (sorted_set is) j ≡ holds_id is j
unfolding sorted_set holds_id any
holds_id-sorted_set [] j = refl
holds_id-sorted_set (i ∷ is) j =
    holds_id-insert_id i j (sorted_set is) ∙ ap (λ b. i == j || b) (holds_id-sorted_set is j)

select-select :
    {A : Type 0} (p q : A → Bool) (xs : List A)
    → select p (select q xs) ≡ select (λ x. q x && p x) xs
unfolding select
select-select p q [] = refl
select-select p q (x ∷ xs) = ground (arith, select-select p q xs)

any-take-drop :
    (p : ℕ → Bool) (n : ℕ) (is : List ℕ) → (any p (take n is) || any p (drop n is)) ≡ any p is
unfolding any
any-take-drop p n [] = refl
any-take-drop p zero (i ∷ is) = refl
any-take-drop p (suc n) (i ∷ is) = ground (arith, any-take-drop p n is)

select_cong :
    {A : Type 0} (p q : A → Bool) (xs : List A) → ((x : A) → p x ≡ q x) → select p xs ≡ select q xs
unfolding select
select_cong p q [] h = refl
select_cong p q (x ∷ xs) h = rw (h x, select_cong p q xs h) refl

delete_none : (rows : List Affected) → rows ≡ delete_rows [] rows
unfolding delete_rows is_among select any
delete_none [] = refl
delete_none (a ∷ rows) = ap (λ more. a ∷ more) (delete_none rows)

delete-delete :
    (i n : ℕ) (ids : List ℕ) (rows : List Affected)
    → delete_rows (drop n ids) (delete_rows (i ∷ take n ids) rows) ≡ delete_rows (i ∷ ids) rows
unfolding delete_rows
delete-delete i n ids rows =
    select-select (λ a. not (is_among (drop n ids) a)) (λ a. not (is_among (i ∷ take n ids) a)) rows
    ∙ select_cong (λ a. not (is_among (i ∷ take n ids) a) && not (is_among (drop n ids) a))
        (λ a. not (is_among (i ∷ ids) a)) rows
        λ a. unfold is_among any in ground (arith, any-take-drop (λ j. a.id == j) n ids)

-- The chunks together delete the rows of all the ids.
pub clear-chunked :
    (fuel : ℕ) (ids : List ℕ) (rows : List Affected)
    → length ids ≤ fuel
    → clear_chunks fuel ids rows ≡ delete_rows ids rows
unfolding clear_chunks
clear-chunked zero [] rows h = delete_none rows
clear-chunked zero (i ∷ ids) rows h = absurd (ground arith)
clear-chunked (suc fuel) [] rows h = delete_none rows
clear-chunked (suc fuel) (i ∷ ids) rows h =
    clear-chunked fuel (drop 499 ids) (delete_rows (i ∷ take 499 ids) rows)
      (omega (arith, length-drop 499 ids, h))
    ∙ delete-delete i 499 ids rows

-- The ids to plan are those of the queue's rows, each once and in ascending order.
pub ids_to_plan_sorted :
    (rows : List Affected) (i : ℕ)
    → (is_ascending (ids_to_plan rows) ≡ true)
      × (holds_id (ids_to_plan rows) i ≡ holds_id (map (λ a. a.ledger_event_id) rows) i)
unfolding ids_to_plan
ids_to_plan_sorted rows i = (
  sorted_set_ascending (map (λ a. a.ledger_event_id) rows),
  holds_id-sorted_set (map (λ a. a.ledger_event_id) rows) i,
)

-- The events of the ids were planned one after the other, and each planning returned.
pub data Planned (c : Context) : List ℕ → Db → Db → Type 0 where
  all_planned : (db : Db) → Planned c [] db db
  then_planned :
      (i : ℕ) (is : List ℕ) (s t u : Db)
      → ((a : ℕ) × (plan_for_ledger_event c 2 i s ≡ (ok a, t)))
      → Planned c is t u
      → Planned c (i ∷ is) s u

plan_ids-Planned :
    (c : Context) (is : List ℕ) (db db' : Db) (n : ℕ)
    → plan_ids c is db ≡ (ok n, db')
    → Planned c is db db' × (n ≡ length is)
unfolding plan_ids
plan_ids-Planned c [] db db' n h =
    (subst (λ t. Planned c [] db t) (ap (λ x. x.1) h) (all_planned db), ground (arith, h))
plan_ids-Planned c (i ∷ is) db db' n h =
    let (a, t, did, next) = >>=-eq-ok (plan_for_ledger_event c 2 i) _ db db' n h in
    let (m, u, rest, end) = >>=-eq-ok (plan_ids c is) _ t db' n next in
    let (planned, count) = plan_ids-Planned c is t u m rest in
    (
      subst (λ x. Planned c (i ∷ is) db x) (ap (λ x. x.1) end)
          (then_planned i is db t u (a, did) planned),
      ground (arith, end, count),
    )

Planned-affected :
    (c : Context) (is : List ℕ) (s u : Db) → Planned c is s u → u.affected ≡ s.affected
Planned-affected c _ s _ (all_planned _) = refl
Planned-affected c _ s u (then_planned i is _ t _ (a, did) rest) =
    let first : t.affected ≡ s.affected =
      subst (λ x. x.1.affected ≡ s.affected) did
        ((plan-Keeps (λ d. d.affected) (λ d ps. refl) c 2 i).at s) in
    Planned-affected c is t u rest ∙ first

-- A queued row of the user for the event.
abbrev pub is_queued : ℕ → ℕ → Affected → Bool
is_queued user i a = a.user_id == user && a.ledger_event_id == i

holds_id-queued :
    (user i : ℕ) (rows : List Affected)
    → holds_id (map (λ a. a.ledger_event_id) (select (λ a. a.user_id == user) rows)) i
      ≡ any (is_queued user i) rows
unfolding holds_id select any
holds_id-queued user i [] = refl
holds_id-queued user i (a ∷ rows) = ground (arith, holds_id-queued user i rows)

planned_ids :
    (user i : ℕ) (db : Db)
    → (is_ascending (ids_to_plan (read_affected_ledger_rows user db)) ≡ true)
      × (holds_id (ids_to_plan (read_affected_ledger_rows user db)) i
          ≡ any (is_queued user i) db.affected)
unfolding read_affected_ledger_rows
planned_ids user i db =
    let (sorted, same) = ids_to_plan_sorted (select (λ a. a.user_id == user) db.affected) i in
    (sorted, same ∙ holds_id-queued user i db.affected)

-- What follows the planning.
abbrev clear_and_count : List ℕ → ℕ → Action Db ℕ
clear_and_count ids n = modify (clear_affected_ledger_rows ids) >> return n

cleared :
    (ids : List ℕ) (db db' : Db) (m n : ℕ)
    → clear_and_count ids m db ≡ (ok n, db')
    → (n ≡ m) × (db' ≡ record db { affected = delete_rows ids db.affected })
unfolding clear_affected_ledger_rows ◌>>=◌
cleared ids db db' m n h = (
  ground arith,
  sym (ap (λ x. x.1) h)
      ∙ ap (λ rows. record db { affected = rows })
          (clear-chunked (length ids) ids db.affected (omega arith)),
)

-- When the planning of the queue returns, the events of a list of ids were planned, one after the
-- other, and their number is returned; the list is ascending without repetitions, and an id is on it
-- exactly if a row of the user for that event was queued. Beside what the planning did, the rows
-- that were read are gone from the queue, and every other row, of another user or appended since, is
-- where it was.
pub plan_affected_clears :
    (c : Context) (user i : ℕ) (db db' : Db) (n : ℕ)
    → plan_affected c user db ≡ (ok n, db')
    → let rows = read_affected_ledger_rows user db in
      let ids = ids_to_plan rows in
      (is_ascending ids ≡ true)
      × (holds_id ids i ≡ any (is_queued user i) db.affected)
      × (n ≡ length ids)
      × (t : Db) × Planned c ids db t
      × (db' ≡ record t { affected = delete_rows (map (λ a. a.id) rows) db.affected })
unfolding plan_affected
plan_affected_clears c user i db db' n h =
    let rows = read_affected_ledger_rows user db in
    let ids = map (λ a. a.id) rows in
    let (m, t, returned, end) =
      >>=-eq-ok (plan_ids c (ids_to_plan rows)) (clear_and_count ids) db db' n (
        sym (
          bind_at _
            (λ found. plan_ids c (ids_to_plan found) >>= clear_and_count (map (λ a. a.id) found)) db
            db rows refl)
        ∙ h) in
    let (planned, count) = plan_ids-Planned c (ids_to_plan rows) db t m returned in
    let (same, rest) = cleared ids t db' m n end in
    let kept = Planned-affected c (ids_to_plan rows) db t planned in
    let (sorted, queued) = planned_ids user i db in
    (
      sorted,
      queued,
      same ∙ count,
      t,
      planned,
      rest ∙ ap (λ rows'. record t { affected = delete_rows ids rows' }) kept,
    )
