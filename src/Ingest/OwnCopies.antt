-- ===== src/Ingest/OwnCopies.antt =====
-- app/ledger/ingest/client.py: what the engine wrote on a client calendar is not taken for an event.
use busybridge.Prelude.{
  ◌≡◌, ◌≢◌, refl, arith, ◌⊎◌, inl, inr, true, Bool-cases, Option, none, some, [], ◌∷◌, Text, codes,
  ℕ, find_first,
}
use busybridge.Ledger.{Projection, Db}
use busybridge.Errors.{◌>>=◌}
use busybridge.Json.{Fields, get, as_text}
use busybridge.Identity.EventId.{is_managed_google_event_id}
use busybridge.Ingest.Rows.{Reader}
use busybridge.Ingest.Client.{
  projection_match, is_series_of_ours, managed_series_instance_base, unless_ours, ingest_one_event,
}
use busybridge.Ingest.OneEvent.{maybe_revert_client_drift-events}

-- An id that the engine derived, or that one of its projections holds.
abbrev pub IsOurs : Db → Text → Type 0
IsOurs db i = is_series_of_ours db i ≡ true

-- The event has such an id, or belongs to a series that has one.
abbrev pub IsOwnCopy : Db → Fields → Text → Type 0
IsOwnCopy db event i =
    IsOurs db i
    ⊎ ((s : Text) × (as_text (get event (codes "recurringEventId")) ≡ some s)
        × (s ≢ [])
        × IsOurs db s)

base_of_series :
    (db : Db) (event : Fields) (s : Text)
    → as_text (get event (codes "recurringEventId")) ≡ some s
    → s ≢ []
    → IsOurs db s
    → managed_series_instance_base event db ≡ some s
unfolding managed_series_instance_base find_first
base_of_series db event [] named h ours = absurd (h refl)
base_of_series db event (c ∷ s) named h ours = rw (named, ours) refl

module _ (c : Reader) (calendar : ℕ) where
  unless_ours-events :
      (i : Text) (event : Fields) (p : Option Projection) (db : Db)
      → projection_match i db ≡ p
      → IsOwnCopy db event i
      → (unless_ours c calendar i event p db).1.events ≡ db.events
  unfolding is_series_of_ours
  unless_ours-events i event (some p) db h own = maybe_revert_client_drift-events p event db
  unless_ours-events i event none db h own =
      elim (Bool-cases (is_managed_google_event_id (some i))) [
        | inl t ↦ rw t refl
        | inr t ↦ elim own [
          | inl ours ↦ absurd (ground (arith, t, h, ours))
          | inr (s, named, filled, ours) ↦
              rw t (rw (base_of_series db event s named filled ours) refl)
        ]
      ]

  -- In the ingest of a client calendar, an event whose id is the engine's own, or that belongs to a
  -- series whose id is, adds and changes no row of ledger_events: an edited or deleted copy never
  -- becomes an event of its own.
  pub own_copy_mints_nothing :
      (event : Fields) (i : Text) (db : Db)
      → as_text (get event (codes "id")) ≡ some i
      → IsOwnCopy db event i
      → (ingest_one_event c calendar event db).1.events ≡ db.events
  unfolding ingest_one_event ◌>>=◌
  own_copy_mints_nothing event i db named own =
      rw named (unless_ours-events i event (projection_match i db) db refl own)
