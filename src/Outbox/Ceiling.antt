-- ===== src/Outbox/Ceiling.antt =====
-- app/ledger/outbox.py: `_do_create` stops burning ids at the ceiling.
use busybridge.Prelude.{
  ℕ, zero, suc, ◌+◌, ◌≤◌, ◌<◌, ◌≡◌, sym, subst, true, false, Option, none, some, List, ◌==◌, arith,
  Bool-cases, inl, inr, find_first, All, get_elem?, All-get_elem?, All-map, All-find_first,
  find_first-holds, ◌⊎◌, Text, codes,
}
use busybridge.Errors.{bind_at, Exn, Result, other_error, Action, throw}
use busybridge.Json.{Fields}
use busybridge.Ledger.{Projection, Op, Db}
use busybridge.Google.{GoogleClient, World, on_db, write}
use busybridge.Outbox.Record.{get_projection, mark_superseded, request_projection_replan}
use busybridge.Outbox.Retry.{Outcome}
use busybridge.Outbox.Create.{
  Setup, Occupant, burned, live, attempt, occupant, created, restore, give_up, next_generation,
  create_rounds, start_rounds, do_create, ceiling_reached, max_id_generations,
}
use busybridge.Planner.Upsert.{IsKeyed}
use busybridge.Outbox.ReadOnly.{projection_read}
use busybridge.Outbox.Generations.{
  StartsWithin, IsWithin, Leads, Leads-bind, Leads-if, Leads-Result, table, set_projection-All,
  give_up_burned_ids-IsWithin, record_success-Leads, start-IsWithin, same_rows,
}

module _ (g : GoogleClient) (now : ℕ) (op : Op) (floor : ℕ) where
  abbrev rows_of : World g → List Projection
  rows_of w = w.db.projections

  abbrev Starts : Projection → Type 0
  Starts = StartsWithin op.projection_id floor

  abbrev Ends : Projection → Type 0
  Ends = IsWithin op.projection_id

  ends : (p : Projection) → Starts p → Ends p
  ends p h = start-IsWithin op.projection_id floor p h

  fails : (e : Exn) → Leads rows_of Starts Ends (throw {S = World g} {A = Outcome} e)
  fails e w h = All-map Starts Ends w.db.projections ends h

  attempt-Leads :
      {A : Type 0} (R : Projection → Type 0) (m : Action g.State A)
      → Leads rows_of R R (attempt g m)
  unfolding attempt
  attempt-Leads R m w h = h

  write-Leads :
      (R R' : Projection → Type 0) (f : Db → Db)
      → ((db : Db) → All R (table db) → All R' (table (f db)))
      → Leads rows_of R R' (write g f)
  unfolding write
  write-Leads R R' f keep w h = keep w.db h

  on_db-Leads :
      {A : Type 0} (R R' : Projection → Type 0) (m : Action Db A)
      → Leads table R R' m
      → Leads rows_of R R' (on_db g m)
  unfolding on_db
  on_db-Leads R R' m keep w h = keep w.db h

  occupant-Leads : (cal gid : Text) → Leads rows_of Starts Starts (occupant g cal gid)
  unfolding occupant
  occupant-Leads cal gid =
      Leads-bind rows_of Starts Starts Starts _ _ (same_rows Starts)
        (attempt-Leads Starts (g.get_event cal gid))
        λ found.
          Leads-Result rows_of Starts Starts found _ _ (λ event w h. h)
            λ e. Leads-if rows_of Starts Starts _ _ _ (λ w h. h) λ w h. h

  created-Leads :
      (generation : ℕ) (result : Fields)
      → Leads rows_of Starts Ends (created g now op generation result)
  unfolding created
  created-Leads generation result =
      Leads-bind rows_of Starts Ends Ends _ _ (same_rows Ends)
        (write-Leads Starts Ends _ λ db h.
          set_projection-All Starts Ends op.projection_id _ db (λ p hit r same. omega arith)
            (λ p miss r. ends p r) h)
        λ _.
          Leads-bind rows_of Ends Ends Ends _ _ (same_rows Ends) (λ w h. h)
            λ gid.
              Leads-bind rows_of Ends Ends Ends _ _ (same_rows Ends)
                (on_db-Leads Ends Ends _ (record_success-Leads op.projection_id now op _ _))
                λ _ w h. h

  restore-Leads :
      (payload : Fields) (generation : ℕ) (gid : Text) (existing : Fields)
      → Leads rows_of Starts Ends (restore g now op payload generation gid existing)
  unfolding restore mark_superseded request_projection_replan
  restore-Leads payload generation gid existing =
      Leads-bind rows_of Starts Starts Ends _ _ ends (attempt-Leads Starts _) λ answer.
        Leads-Result rows_of Starts Ends answer _ _ (created-Leads generation) λ e.
          Leads-if rows_of Starts Ends _ _ _
            (Leads-bind rows_of Starts Starts Ends _ _ ends (write-Leads Starts Starts _ λ db h. h)
              λ _.
                Leads-bind rows_of Starts Ends Ends _ _ (same_rows Ends)
                  (write-Leads Starts Ends _ λ db h.
                    set_projection-All Starts Ends op.projection_id _ db (λ p hit r. ends p r)
                      (λ p miss r. ends p r) h)
                  λ _ w h. h)
            (fails e)

  give_up-Leads :
      (generation : ℕ)
      → generation ≤ floor + 50
      → Leads rows_of Starts Ends (give_up g now op generation)
  unfolding give_up
  give_up-Leads generation low =
      Leads-bind rows_of Starts Ends Ends _ _ (same_rows Ends)
        (write-Leads Starts Ends _
          λ db h. give_up_burned_ids-IsWithin now op floor generation db low h)
        λ _ w h. h

  below : (generation : ℕ) → ceiling_reached generation floor ≡ false → generation < floor + 50
  unfolding ceiling_reached
  below generation h = ground arith

  next_generation-Leads :
      (generation : ℕ) (again : Action (World g) Outcome)
      → generation < floor + 50
      → (suc generation < floor + 50 → Leads rows_of Starts Ends again)
      → Leads rows_of Starts Ends (next_generation g now op floor (suc generation) again)
  unfolding next_generation
  next_generation-Leads generation again low more w h =
      elim (Bool-cases (ceiling_reached (suc generation) floor)) [
        | inl e ↦ simp e (give_up-Leads (suc generation) (omega arith) w h)
        | inr e ↦ simp e (
            Leads-bind rows_of Starts Starts Ends _ _ ends
              (write-Leads Starts Starts _ λ db held.
                set_projection-All Starts Starts op.projection_id _ db
                  (λ p hit r same.
                    let (f, le) = r same in let lt = below (suc generation) e in (f, omega arith))
                  (λ p miss r. r) held)
              (λ _. more (below (suc generation) e)) w h)
      ]

  occupied-Leads :
      (there : Occupant) (m : Action (World g) Outcome) (k : Fields → Action (World g) Outcome)
      → Leads rows_of Starts Ends m
      → ((d : Fields) → Leads rows_of Starts Ends (k d))
      → Leads rows_of Starts Ends (elim there [ burned ↦ m | live d ↦ k d ])
  occupied-Leads burned m k hm hk = hm
  occupied-Leads (live d) m k hm hk = hk d

  create_rounds-Leads :
      (setup : Setup) (payload : Fields) (rounds generation : ℕ)
      → generation < floor + 50
      → Leads rows_of Starts Ends (create_rounds g setup now op payload floor rounds generation)
  unfolding create_rounds
  create_rounds-Leads setup payload zero generation low =
      fails (other_error (codes "exhausted id generations"))
  create_rounds-Leads setup payload (suc rounds) generation low =
      let again = create_rounds-Leads setup payload rounds (suc generation) in
      Leads-bind rows_of Starts Starts Ends _ _ ends (λ w h. h)
        λ gid. Leads-bind rows_of Starts Starts Ends _ _ ends (attempt-Leads Starts _) λ inserted.
          Leads-Result rows_of Starts Ends inserted _ _ (created-Leads generation) λ e.
            Leads-if rows_of Starts Ends _ _ _
              (Leads-bind rows_of Starts Starts Ends _ _ ends (occupant-Leads _ gid) λ there.
                occupied-Leads there _ _ (next_generation-Leads generation _ low again)
                  (restore-Leads payload generation gid))
              (fails e)

do_create-IsWithin :
    (g : GoogleClient) (setup : Setup) (now : ℕ) (op : Op) (payload : Option Fields) (w : World g)
    (p : Projection)
    → find_first (λ x. x.id == op.projection_id) w.db.projections ≡ some p
    → All (StartsWithin op.projection_id p.google_id_generation_floor) w.db.projections
    → All (IsWithin op.projection_id) (do_create g setup now op payload w).1.db.projections
unfolding do_create
do_create-IsWithin g setup now op none w p found h =
    All-map _ _ w.db.projections (start-IsWithin op.projection_id p.google_id_generation_floor) h
do_create-IsWithin g setup now op (some payload) w p found h =
    subst (λ (x : Result Outcome × World g). All (IsWithin op.projection_id) x.1.db.projections)
      (sym (
        bind_at (on_db g (get_projection op.projection_id)) (start_rounds g setup now op payload) w
          w p (projection_read g w op.projection_id p found)))
      (started (Bool-cases (ceiling_reached p.google_id_generation p.google_id_generation_floor)))
  where
    low : p.google_id_generation ≤ p.google_id_generation_floor + 50
    low =
        let (e, le) =
          All-find_first _ (λ x. x.id == op.projection_id) w.db.projections p h found
            (find_first-holds (λ x. x.id == op.projection_id) w.db.projections p found) in
        le

    started :
        (ceiling_reached p.google_id_generation p.google_id_generation_floor ≡ true)
          ⊎ (ceiling_reached p.google_id_generation p.google_id_generation_floor ≡ false)
        → All (IsWithin op.projection_id) (start_rounds g setup now op payload p w).1.db.projections
    started (inl e) =
        unfold start_rounds in
        simp e (give_up-Leads g now op p.google_id_generation_floor p.google_id_generation low w h)
    started (inr e) =
        unfold start_rounds in
        simp e (
          create_rounds-Leads g now op p.google_id_generation_floor setup payload max_id_generations
            p.google_id_generation
            (below g now op p.google_id_generation_floor p.google_id_generation e) w h)

keyed-StartsWithin :
    (i : ℕ) (p : Projection) (ps : List Projection)
    → IsKeyed ps
    → find_first (λ x. x.id == i) ps ≡ some p
    → p.google_id_generation ≤ p.google_id_generation_floor + 50
    → All (StartsWithin i p.google_id_generation_floor) ps
keyed-StartsWithin i p ps keyed found low = All-map _ _ ps (λ x self same. ground arith) keyed

-- A create never takes a projection's id generation more than fifty above its floor: where ids are a
-- key of ledger_projections and the op's projection is not above it before, it is not above it
-- after, whatever Google answers and also where the create raises.
pub create_within_ceiling :
    (g : GoogleClient) (setup : Setup) (now j : ℕ) (op : Op) (payload : Option Fields) (w : World g)
    (p q : Projection)
    → IsKeyed w.db.projections
    → find_first (λ x. x.id == op.projection_id) w.db.projections ≡ some p
    → p.google_id_generation ≤ p.google_id_generation_floor + 50
    → get_elem? (do_create g setup now op payload w).1.db.projections j ≡ some q
    → q.id ≡ op.projection_id
    → q.google_id_generation ≤ q.google_id_generation_floor + 50
create_within_ceiling g setup now j op payload w p q keyed found low at same =
    All-get_elem? (IsWithin op.projection_id) _ j q
      (do_create-IsWithin g setup now op payload w p found
        (keyed-StartsWithin op.projection_id p w.db.projections keyed found low))
      at (ground arith)
