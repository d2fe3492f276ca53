-- ===== src/Triggers/Recorded.antt =====
-- app/ledger/triggers.py: `record_affected_events`, and that what it appends while a pass is under way
-- survives the pass's clearing of the queue.
use busybridge.Prelude.{
  ℕ, suc, max, ◌≤◌, ◌≡◌, refl, ap, sym, ◌∙◌, arith, Bool, false, not, Bool-cases, inl, inr, List,
  [], ◌∷◌, ◌++◌, map, All, ◌==◌, any, select, if◌then◌else◌,
}
use mathlib.Core.List.{append_assoc, append-nil}
use busybridge.Ledger.{Affected, Db}
use busybridge.Planner.Persist.{next_id}
use busybridge.Reconciler.Queue.{clear-chunked}
use busybridge.Reconciler.Affected.{
  read_affected_ledger_rows, is_among, delete_rows, clear_affected_ledger_rows,
}

-- {int(x) for x in ids}: each once; nothing reads the order of the rows of one call.
unfoldable pub distinct : List ℕ → List ℕ
distinct [] = []
distinct (i ∷ is) = let rest = distinct is in if any (λ j. j == i) is then rest else i ∷ rest

-- The row of an INSERT INTO affected_ledger_events. The id is AUTOINCREMENT: above those of the rows,
-- and above `last`, the highest that was given out before the call.
abbrev inserted : ℕ → ℕ → ℕ → List Affected → Affected
inserted last user event rows = record {
  id = max (suc last) (next_id (map (λ a. a.id) rows));
  user_id = user;
  ledger_event_id = event;
}

unfoldable pub insert_affected : ℕ → ℕ → ℕ → List Affected → List Affected
insert_affected last user event rows = rows ++ inserted last user event rows ∷ []

unfoldable pub insert_each : ℕ → ℕ → List ℕ → List Affected → List Affected
unfolding insert_affected
insert_each last user [] rows = rows
insert_each last user (i ∷ is) rows = insert_each last user is (insert_affected last user i rows)

unfoldable pub record_affected_events : ℕ → ℕ → List ℕ → Db → Db
unfolding insert_each distinct
record_affected_events last user ids db = record db {
  affected = insert_each last user (distinct ids) db.affected;
}

abbrev ids_in : List Affected → List ℕ
ids_in rows = map (λ a. a.id) rows

next_id-append :
    (rows : List Affected) (a : Affected)
    → next_id (ids_in rows) ≤ next_id (ids_in (rows ++ a ∷ []))
unfolding next_id
next_id-append [] a = omega arith
next_id-append (x ∷ rows) a = omega (arith, next_id-append rows a)

-- An id from the next one on is none of the rows'.
not_among_selected :
    (p : Affected → Bool) (rows : List Affected) (a : Affected)
    → next_id (ids_in rows) ≤ a.id
    → is_among (ids_in (select p rows)) a ≡ false
unfolding is_among select any next_id
not_among_selected p [] a h = refl
not_among_selected p (x ∷ rows) a h = ground (arith, not_among_selected p rows a (omega (arith, h)))

select-append :
    {A : Type 0} (p : A → Bool) (xs ys : List A) → select p (xs ++ ys) ≡ select p xs ++ select p ys
unfolding select
select-append p [] ys = refl
select-append p (x ∷ xs) ys = elim (Bool-cases (p x)) [
  | inl e ↦ rw e (ap (λ zs. x ∷ zs) (select-append p xs ys))
  | inr e ↦ rw e (select-append p xs ys)
]

select-All :
    {A : Type 0} (p : A → Bool) (xs : List A)
    → All (λ x. p x ≡ false) xs
    → select (λ x. not (p x)) xs ≡ xs
unfolding select
select-All p [] h = refl
select-All p (x ∷ xs) h = rw h.0 (ap (λ zs. x ∷ zs) (select-All p xs h.1))

-- The rows that are inserted over a table whose next id is no smaller than n.
insert_each_fresh :
    (last user n : ℕ) (events : List ℕ) (rows : List Affected) (ids : List ℕ)
    → ((a : Affected) → n ≤ a.id → is_among ids a ≡ false)
    → n ≤ next_id (ids_in rows)
    → (news : List Affected) × (insert_each last user events rows ≡ rows ++ news)
      × (map (λ a. a.ledger_event_id) news ≡ events)
      × All (λ a. is_among ids a ≡ false) news
unfolding insert_each insert_affected
insert_each_fresh last user n [] rows ids other h = ([], sym (append-nil rows), refl, tt)
insert_each_fresh last user n (i ∷ events) rows ids other h =
    let a = inserted last user i rows in
    let more = next_id-append rows a in
    let (news, same, events', unread) =
      insert_each_fresh last user n events (rows ++ a ∷ []) ids other (omega (arith, h, more)) in
    (
      a ∷ news,
      same ∙ append_assoc rows (a ∷ []) news,
      ap (λ is. i ∷ is) events',
      (other a (omega (arith, h)), unread),
    )

-- What is recorded between the reading of the queue and its clearing survives: one new row for each
-- distinct event of the call, at the end of the queue, from which the clearing takes the rows that
-- were read and no other.
pub recorded_rows_survive :
    (last user by : ℕ) (ids : List ℕ) (db : Db)
    → let read = map (λ a. a.id) (read_affected_ledger_rows user db) in
      (news : List Affected) × (map (λ a. a.ledger_event_id) news ≡ distinct ids)
      × ((clear_affected_ledger_rows read (record_affected_events last by ids db)).affected
          ≡ delete_rows read db.affected ++ news)
unfolding clear_affected_ledger_rows record_affected_events read_affected_ledger_rows delete_rows
recorded_rows_survive last user by ids db =
    let read = ids_in (select (λ a. a.user_id == user) db.affected) in
    let (news, grown, events, unread) =
      insert_each_fresh last by (next_id (ids_in db.affected)) (distinct ids) db.affected read
        (not_among_selected (λ a. a.user_id == user) db.affected) (omega arith) in
    (
      news,
      events,
      clear-chunked _ read _ (omega arith)
          ∙ (ap (delete_rows read) grown
              ∙ (select-append (λ a. not (is_among read a)) db.affected news
                  ∙ ap (λ xs. delete_rows read db.affected ++ xs)
                      (select-All (is_among read) news unread))),
    )
