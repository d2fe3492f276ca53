-- ===== src/Outbox/Handlers.antt =====
-- app/ledger/outbox.py: every handler returns the outcome that it recorded on the op's row.
use busybridge.Prelude.{ℕ, zero, suc, Option, none, some, Text}
use busybridge.Errors.{Action, ◌>>◌, return}
use busybridge.Json.{Fields}
use busybridge.Ledger.{Op}
use busybridge.Google.{GoogleClient, World, write}
use busybridge.Outbox.Retry.{Outcome, succeeded, failed_permanent, superseded_by}
use busybridge.Outbox.Record.{mark_superseded, request_projection_replan}
use busybridge.Outbox.Create.{
  Setup, Occupant, burned, live, created, restore, give_up, next_generation, create_rounds,
  start_rounds, do_create, max_id_generations,
}
use busybridge.Outbox.Outcomes.{
  Ends, Yields-throw, Yields-bind, Yields-if, Yields-Result, Yields-write, Yields-write_twice,
  Yields-on_db, record_success-IsRecorded, mark_superseded-IsRecorded,
  give_up_burned_ids-IsRecorded, request_projection_replan-IsRecorded,
}

module _ (g : GoogleClient) (now : ℕ) (op : Op) where
  created-Ends : (generation : ℕ) (result : Fields) → Ends g op (created g now op generation result)
  unfolding created
  created-Ends generation result = Yields-bind g _ _ _ λ _.
      Yields-bind g _ _ _ λ gid.
        Yields-on_db g _ _ succeeded λ db db' h. record_success-IsRecorded now op _ _ db db' h

  -- Superseding the op and asking for a replan.
  pub superseded-Ends :
      (error : Text) (status : ℕ)
      → Ends g op (
          write g (mark_superseded now op error status)
          >> (write g (request_projection_replan op.projection_id) >> return superseded_by))
  superseded-Ends error status = Yields-write_twice g _ _ _ superseded_by λ db.
      request_projection_replan-IsRecorded now op op.projection_id superseded_by _
        (mark_superseded-IsRecorded now op error status db)

  give_up-Ends : (generation : ℕ) → Ends g op (give_up g now op generation)
  unfolding give_up
  give_up-Ends generation =
      Yields-write g _ _ failed_permanent λ db. give_up_burned_ids-IsRecorded now op generation db

  restore-Ends :
      (payload : Fields) (generation : ℕ) (gid : Text) (existing : Fields)
      → Ends g op (restore g now op payload generation gid existing)
  unfolding restore
  restore-Ends payload generation gid existing = Yields-bind g _ _ _ λ answer.
      Yields-Result g _ answer _ _ (λ result. created-Ends generation result)
        λ e. Yields-if g _ _ _ _ (superseded-Ends _ _) (Yields-throw g _ e)

  next_generation-Ends :
      (floor generation : ℕ) (again : Action (World g) Outcome)
      → Ends g op again
      → Ends g op (next_generation g now op floor generation again)
  unfolding next_generation
  next_generation-Ends floor generation again h =
      Yields-if g _ _ _ _ (give_up-Ends generation) (Yields-bind g _ _ _ λ _. h)

  occupied-Ends :
      (there : Occupant) (m : Action (World g) Outcome) (k : Fields → Action (World g) Outcome)
      → Ends g op m
      → ((d : Fields) → Ends g op (k d))
      → Ends g op (elim there [ burned ↦ m | live d ↦ k d ])
  occupied-Ends burned m k hm hk = hm
  occupied-Ends (live d) m k hm hk = hk d

  create_rounds-Ends :
      (setup : Setup) (payload : Fields) (floor rounds generation : ℕ)
      → Ends g op (create_rounds g setup now op payload floor rounds generation)
  unfolding create_rounds
  create_rounds-Ends setup payload floor zero generation = Yields-throw g _ _
  create_rounds-Ends setup payload floor (suc rounds) generation =
      let again = create_rounds-Ends setup payload floor rounds (suc generation) in
      Yields-bind g _ _ _ λ gid. Yields-bind g _ _ _ λ inserted.
        Yields-Result g _ inserted _ _ (λ result. created-Ends generation result)
          λ e.
            Yields-if g _ _ _ _
              (Yields-bind g _ _ _ λ there.
                occupied-Ends there _ _ (next_generation-Ends floor (suc generation) _ again)
                  λ existing. restore-Ends payload generation gid existing)
              (Yields-throw g _ e)

  pub do_create-Ends :
      (setup : Setup) (payload : Option Fields) → Ends g op (do_create g setup now op payload)
  unfolding do_create start_rounds
  do_create-Ends setup none = Yields-throw g _ _
  do_create-Ends setup (some payload) = Yields-bind g _ _ _ λ proj.
      Yields-if g _ _ _ _ (give_up-Ends _) (
        create_rounds-Ends setup payload proj.google_id_generation_floor max_id_generations
          proj.google_id_generation)
