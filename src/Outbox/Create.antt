-- ===== src/Outbox/Create.antt =====
-- app/ledger/outbox.py: `_do_create`. The derivation of event ids is a parameter of the drain; it is
-- identity.py's function.
use busybridge.Prelude.{
  ℕ, zero, suc, ◌-◌, Bool, ◌||◌, Option, none, some, leb, if◌then◌else◌, Text, codes,
}
use busybridge.Errors.{
  Result, ok, raise, value_error, other_error, Action, ◌>>=◌, ◌>>◌, return, throw, lift,
}
use busybridge.Json.{Fields, str, get, put, is_text, as_text}
use busybridge.Ledger.{Projection, Op}
use busybridge.Google.{GoogleClient, World, on_db, write}
use busybridge.Outbox.Record.{
  get_projection, set_projection, record_success, mark_superseded, give_up_burned_ids,
  request_projection_replan,
}
use busybridge.Outbox.Retry.{Outcome, succeeded, failed_permanent, superseded_by, is_status}

-- The values that the drain takes from elsewhere: identity.derive_google_event_id, and the setting
-- writeback_notifications.
pub record Setup : Type 0 where
  pub derive_google_event_id : ℕ → ℕ → Result Text
  pub writeback_notifications : Bool

abbrev pub max_id_generations : ℕ
max_id_generations = 8

abbrev pub max_total_id_generations : ℕ
max_total_id_generations = 50

abbrev pub or_empty : Option Text → Text
or_empty none = codes ""
or_empty (some s) = s

-- result["id"]
abbrev pub id_of : Fields → Result Text
id_of d = elim (as_text (get d (codes "id"))) [
  | none ↦ raise (other_error (codes "KeyError: id"))
  | some s ↦ ok s
]

abbrev pub is_gone_status : Option ℕ → Bool
is_gone_status s = is_status 404 s || is_status 410 s

unfoldable pub ceiling_reached : ℕ → ℕ → Bool
ceiling_reached generation floor = leb max_total_id_generations (generation - floor)

-- What an id that is taken turns out to hold.
pub data Occupant : Type 0 where
  burned : Occupant
  live : Fields → Occupant

module _ (g : GoogleClient) where
  -- A call whose exception is looked at: the result or the exception, as a value.
  unfoldable pub attempt : {A : Type 0} → Action g.State A → Action (World g) (Result A)
  attempt m w = let (r, s) = m w.google in (ok r, record w { google = s })

  -- The GET after a 409.
  unfoldable pub occupant : Text → Text → Action (World g) Occupant
  occupant cal google_id = do
    found ← attempt (g.get_event cal google_id)
    elim found [
      | raise e ↦ if is_gone_status e.status then return burned else throw e
      | ok event ↦
          return (
            if is_text (get event (codes "status")) (codes "cancelled") then burned else live event)
    ]

  -- A converged create ends the ceiling's episode.
  unfoldable pub created : ℕ → Op → ℕ → Fields → Action (World g) Outcome
  created now op generation result = do
    write g (
        set_projection op.projection_id (λ p. record p {
          google_id_generation = generation;
          google_id_generation_floor = generation;
        }))
    google_id ← lift (id_of result)
    on_db g (record_success now op google_id (or_empty (as_text (get result (codes "etag")))))
    return succeeded

  -- A live event sits at our id: restore the canonical payload.
  unfoldable pub restore : ℕ → Op → Fields → ℕ → Text → Fields → Action (World g) Outcome
  unfolding created
  restore now op payload generation google_id existing = do
    updated ← attempt (
        g.update_event op.target_google_calendar_id google_id payload
          (as_text (get existing (codes "etag"))))
    elim updated [
      | ok result ↦ created now op generation result
      | raise e ↦
          if is_status 412 e.status
          then (do
            write g (mark_superseded now op (codes "etag_mismatch_on_409") 412)
            write g (request_projection_replan op.projection_id)
            return superseded_by)
          else throw e
    ]

  abbrev pub with_id : Fields → Text → Fields
  with_id payload google_id = put payload (codes "id") (str google_id)

  unfoldable pub give_up : ℕ → Op → ℕ → Action (World g) Outcome
  give_up now op generation = do
    write g (give_up_burned_ids now op generation)
    return failed_permanent

  -- The id at this generation is burned: stop at the ceiling, or save the next one and go on.
  unfoldable pub next_generation :
      ℕ → Op → ℕ → ℕ → Action (World g) Outcome → Action (World g) Outcome
  unfolding give_up
  next_generation now op floor generation again =
      if ceiling_reached generation floor then give_up now op generation else do
        write g
            (set_projection op.projection_id (λ p. record p { google_id_generation = generation }))
        again

  -- The loop over fresh ids, by the rounds left.
  unfoldable pub create_rounds : Setup → ℕ → Op → Fields → ℕ → ℕ → ℕ → Action (World g) Outcome
  unfolding occupant created restore next_generation
  create_rounds setup now op payload floor zero generation =
      throw (other_error (codes "exhausted id generations"))
  create_rounds setup now op payload floor (suc rounds) generation =
      let again = create_rounds setup now op payload floor rounds (suc generation) in
      do
        google_id ← lift (setup.derive_google_event_id op.projection_id generation)
        inserted ← attempt (g.insert_event op.target_google_calendar_id (with_id payload google_id))
        elim inserted [
          | ok result ↦ created now op generation result
          | raise e ↦
              if is_status 409 e.status
              then (do
                there ← occupant op.target_google_calendar_id google_id
                elim there [
                  | burned ↦ next_generation now op floor (suc generation) again
                  | live existing ↦ restore now op payload generation google_id existing
                ])
              else throw e
        ]

  -- A resumed op whose generation has used up the episode stops here.
  unfoldable pub start_rounds : Setup → ℕ → Op → Fields → Projection → Action (World g) Outcome
  unfolding create_rounds give_up
  start_rounds setup now op payload proj =
      let floor = proj.google_id_generation_floor in
      let generation = proj.google_id_generation in
      if ceiling_reached generation floor
      then give_up now op generation
      else create_rounds setup now op payload floor max_id_generations generation

  unfoldable pub do_create : Setup → ℕ → Op → Option Fields → Action (World g) Outcome
  unfolding start_rounds
  do_create setup now op none = throw (value_error (codes "create op has no payload"))
  do_create setup now op (some payload) = do
    proj ← on_db g (get_projection op.projection_id)
    start_rounds setup now op payload proj
