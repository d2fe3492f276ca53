-- ===== src/Reconciler/Affected.antt =====
-- app/ledger/reconciler.py: the queue of ledger rows to plan again. Rows are appended with growing
-- ids, so the table's order is the order of their ids.
use busybridge.Prelude.{
  ℕ, zero, suc, Bool, not, List, [], ◌∷◌, map, ◌==◌, ltb, any, select, length, take, drop,
  if◌then◌else◌,
}
use busybridge.Errors.{ok, Action, ◌>>=◌, ◌>>◌, return, modify}
use busybridge.Ledger.{Affected, Db}
use busybridge.Planner.Plan.{Context, plan_for_ledger_event}

-- SELECT id, ledger_event_id … WHERE user_id = ? ORDER BY id
unfoldable pub read_affected_ledger_rows : ℕ → Db → List Affected
read_affected_ledger_rows user db = select (λ a. a.user_id == user) db.affected

-- An id's place in an ascending list without repetitions.
unfoldable pub insert_id : ℕ → List ℕ → List ℕ
insert_id i [] = i ∷ []
insert_id i (j ∷ js) =
    let rest = insert_id i js in if i == j then j ∷ js else if ltb i j then i ∷ j ∷ js else j ∷ rest

-- sorted(set(ids))
unfoldable pub sorted_set : List ℕ → List ℕ
unfolding insert_id
sorted_set [] = []
sorted_set (i ∷ is) = insert_id i (sorted_set is)

-- The ids of the events to plan, each once.
unfoldable pub ids_to_plan : List Affected → List ℕ
unfolding sorted_set
ids_to_plan rows = sorted_set (map (λ a. a.ledger_event_id) rows)

unfoldable pub is_among : List ℕ → Affected → Bool
is_among ids a = any (λ i. a.id == i) ids

-- DELETE … WHERE id IN (chunk)
unfoldable pub delete_rows : List ℕ → List Affected → List Affected
unfolding is_among
delete_rows chunk rows = select (λ a. not (is_among chunk a)) rows

abbrev pub delete_chunk : ℕ
delete_chunk = 500

-- The loop over the chunks, on fuel, of which the number of ids is enough.
unfoldable pub clear_chunks : ℕ → List ℕ → List Affected → List Affected
unfolding delete_rows
clear_chunks zero ids rows = rows
clear_chunks (suc fuel) [] rows = rows
clear_chunks (suc fuel) (i ∷ ids) rows =
    clear_chunks fuel (drop delete_chunk (i ∷ ids)) (delete_rows (take delete_chunk (i ∷ ids)) rows)

unfoldable pub clear_affected_ledger_rows : List ℕ → Db → Db
unfolding clear_chunks
clear_affected_ledger_rows ids db = record db {
  affected = clear_chunks (length ids) ids db.affected;
}

-- The loop over the ids, and how many it planned. A cascade is two levels deep at most.
unfoldable pub plan_ids : Context → List ℕ → Action Db ℕ
plan_ids c [] = return 0
plan_ids c (i ∷ is) = do plan_for_ledger_event c 2 i; n ← plan_ids c is; return (suc n)

-- The queue is read first, and cleared by the rows' ids only after the planning succeeded.
unfoldable pub plan_affected : Context → ℕ → Action Db ℕ
unfolding read_affected_ledger_rows ids_to_plan plan_ids clear_affected_ledger_rows
plan_affected c user = do
  rows ← λ db. (ok (read_affected_ledger_rows user db), db)
  n ← plan_ids c (ids_to_plan rows)
  modify (clear_affected_ledger_rows (map (λ a. a.id) rows))
  return n
