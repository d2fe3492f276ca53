-- ===== src/Reconciler/Reconcile.antt =====
-- app/ledger/reconciler.py: `reconcile_user` and its convergence loop. The entry
-- points of ingest and of discovery are taken as arguments.
use busybridge.Prelude.{
  ℕ, zero, suc, ◌+◌, Bool, true, false, not, ◌&&◌, Option, none, some, List, [], ◌∷◌, ◌++◌, ◌==◌,
  if◌then◌else◌, find_first, Text,
}
use busybridge.Errors.{Result, ok, raise, Action, ◌>>=◌, return}
use busybridge.Json.{Fields}
use busybridge.Ledger.{Db}
use busybridge.Google.{GoogleClient, World, on_db}
use busybridge.Planner.Plan.{Context}
use busybridge.Outbox.Create.{Setup}
use busybridge.Outbox.Drain.{Counters, no_work, drain_user}
use busybridge.Diff.Decide.{Pass}
use busybridge.Diff.Pass.{diff_and_enqueue_for_user}
use busybridge.Reconciler.Pause.{
  PauseMode, global_pause, user_pause, pause_mode, bump_calendar_failure, bump_main_failure,
}
use busybridge.Reconciler.Affected.{plan_affected}
use busybridge.Reconciler.DryRun.{Preview, snapshot_dry_run_outbox, discard_dry_run_outbox}

-- An entry of client_calendars or of personal_calendars.
pub record Connected : Type 0 where
  pub id : ℕ
  pub google_calendar_id : Text

-- An entry of webcal_subscriptions.
pub record Feed : Type 0 where
  pub id : ℕ
  pub url : Text

-- What a phase is keyed by in out["ingest"] and out["ingest_errors"].
pub data Phase : Type 0 where
  client_phase personal_phase webcal_phase : ℕ → Phase
  main_phase discovery_phase : Phase

-- The dict that a pass returns, where a count that it does not hold is 0.
pub record Report : Type 0 where
  pub ingest : List (Phase × Fields)
  pub ingest_errors : List (Phase × Text)
  pub planned : ℕ
  pub enqueued : ℕ
  pub drain : Counters
  pub paused : Bool
  pub preview_operations : Option (List Preview)

abbrev pub blank_report : Bool → Report
blank_report paused = record {
  ingest = [];
  ingest_errors = [];
  planned = 0;
  enqueued = 0;
  drain = no_work;
  paused = paused;
  preview_operations = none;
}

-- The arguments of a pass that are data.
pub record Arguments : Type 0 where
  pub user_id : ℕ
  pub main_google_calendar_id : Text
  pub client_calendars : List Connected
  pub all_known_client_calendars : List Connected
  pub personal_calendars : List Connected
  pub webcal_subscriptions : List Feed
  pub include_main : Bool
  pub drain : Bool
  pub run_discovery : Bool
  pub dry_run : Bool

-- Ingest and discovery: each writes what it found, and returns its counters or raises.
pub record Ingest (g : GoogleClient) : Type 0 where
  pub ingest_client_calendar : Connected → Action (World g) Fields
  pub ingest_personal_calendar : Connected → Action (World g) Fields
  -- none, where the caller supplied no fetch hook
  pub ingest_webcal_subscription : Option (Feed → Action (World g) Fields)
  pub ingest_main_calendar : Action (World g) Fields
  pub discover_orphans : Bool → Action (World g) Fields

unfoldable pub add_counters : Counters → Counters → Counters
add_counters a b = record {
  processed = a.processed + b.processed;
  succeeded_count = a.succeeded_count + b.succeeded_count;
  retried_count = a.retried_count + b.retried_count;
  failed_permanent_count = a.failed_permanent_count + b.failed_permanent_count;
  superseded_count = a.superseded_count + b.superseded_count;
}

abbrev id_of : Option Connected → Option Text
id_of none = none
id_of (some c) = some c.google_calendar_id

abbrev or_else : Option Text → Option Text → Option Text
or_else none b = b
or_else (some a) b = some a

-- A dictionary by comprehension: of two entries with one key the later counts.
unfoldable pub last_id : List Connected → ℕ → Option Text
last_id [] i = none
last_id (c ∷ cs) i = or_else (last_id cs i) (if c.id == i then some c.google_calendar_id else none)

abbrev known_calendars : Arguments → List Connected
known_calendars a = elim a.all_known_client_calendars [ [] ↦ a.client_calendars | c ∷ cs ↦ c ∷ cs ]

-- google_id_for: setdefault adds the personal calendars.
unfoldable pub google_id_for : Arguments → ℕ → Option Text
unfolding last_id
google_id_for a i =
    or_else (last_id (known_calendars a) i)
      (id_of (find_first (λ c. c.id == i) a.personal_calendars))

-- A counter that is 0.
abbrev none_left : Counters → Bool
none_left c = c.processed == 0 && c.superseded_count == 0

module _ (g : GoogleClient) where
  abbrev note : Phase → Result Fields → Report → Report
  note phase (ok counters) out = record out { ingest = out.ingest ++ (phase, counters) ∷ [] }
  note phase (raise e) out = record out {
    ingest_errors = out.ingest_errors ++ (phase, e.message) ∷ [];
  }

  abbrev bumped : (Text → Db → Db) → Result Fields → World g → World g
  bumped bump (ok counters) w = w
  bumped bump (raise e) w = record w { db = bump e.message w.db }

  -- try: out["ingest"][phase] = m, and the counter of failures and an entry of out["ingest_errors"]
  -- for what it raises.
  unfoldable pub guarded :
      Phase → (Text → Db → Db) → Action (World g) Fields → Report → Action (World g) Report
  guarded phase bump m out w = let (r, w') = m w in (ok (note phase r out), bumped bump r w')

  -- The loops over the calendars.
  unfoldable pub ingest_each :
      (Connected → Phase)
      → (Connected → Text → Db → Db)
      → (Connected → Action (World g) Fields)
      → List Connected
      → Report
      → Action (World g) Report
  unfolding guarded
  ingest_each phase bump ingest [] out = return out
  ingest_each phase bump ingest (c ∷ cs) out = do
    out' ← guarded (phase c) (bump c) (ingest c) out
    ingest_each phase bump ingest cs out'

  unfoldable pub poll_each :
      Option (Feed → Action (World g) Fields) → List Feed → Report → Action (World g) Report
  unfolding guarded
  poll_each none subs out = return out
  poll_each (some poll) [] out = return out
  poll_each (some poll) (s ∷ ss) out = do
    out' ← guarded (webcal_phase s.id) (λ error db. db) (poll s) out
    poll_each (some poll) ss out'

  unfoldable pub ingest_main :
      Arguments → ℕ → Action (World g) Fields → Report → Action (World g) Report
  unfolding guarded
  ingest_main a wall m out =
      if a.include_main
      then guarded main_phase (bump_main_failure wall a.user_id) m out
      else return out

  unfoldable pub discover :
      Arguments → (Bool → Action (World g) Fields) → Report → Action (World g) Report
  unfolding guarded
  discover a m out =
      if a.run_discovery
      then guarded discovery_phase (λ error db. db) (m a.dry_run) out
      else return out

  module _ (setup : Setup) (context : Context) (pass : Pass) where
    abbrev drained : Counters × World g → Result Counters × World g
    drained (c, w) = (ok c, w)

    -- The loop, by the passes that are left of max_passes.
    unfoldable pub diff_drain : ℕ → Bool → Report → Action (World g) Report
    unfolding add_counters
    diff_drain zero drain out = return out
    diff_drain (suc left) drain out = do
      enqueued ← on_db g (diff_and_enqueue_for_user pass)
      let out' = record out { enqueued = out.enqueued + enqueued }
      if not drain then return out' else do
        counters ← λ w. drained (drain_user g setup pass.now pass.user 1000 w)
        let out'' = record out' { drain = add_counters out'.drain counters }
        if none_left counters then return out'' else diff_drain left drain out''

    unfoldable pub diff_drain_until_quiescent : Bool → Report → Action (World g) Report
    unfolding diff_drain
    diff_drain_until_quiescent drain out = diff_drain 3 drain out

  -- The pass that the arguments ask for: the clock and the renderer are as they are given.
  unfoldable pub pass_for : Arguments → Pass → Pass
  unfolding google_id_for
  pass_for a pass = record pass {
    user = a.user_id;
    main_calendar_id = a.main_google_calendar_id;
    google_calendar_id_for = google_id_for a;
  }

  module _ (setup : Setup) (context : Context) (ingest : Ingest g) (clock : Pass) where
    -- Steps 1 and 2, each guarded.
    unfoldable pub ingest_all : Arguments → Report → Action (World g) Report
    unfolding ingest_each poll_each ingest_main discover
    ingest_all a out = do
      out1 ←
          ingest_each (λ c. client_phase c.id) (λ c. bump_calendar_failure clock.wall_clock c.id)
            ingest.ingest_client_calendar a.client_calendars out
      out2 ←
          ingest_each (λ c. personal_phase c.id) (λ c. bump_calendar_failure clock.wall_clock c.id)
            ingest.ingest_personal_calendar a.personal_calendars out1
      out3 ← poll_each ingest.ingest_webcal_subscription a.webcal_subscriptions out2
      out4 ← ingest_main a clock.wall_clock ingest.ingest_main_calendar out3
      discover a ingest.discover_orphans out4

    -- Steps 1 to 4.
    unfoldable pub full_pass : Arguments → Bool → Report → Action (World g) Report
    unfolding ingest_all diff_drain_until_quiescent
    full_pass a drain out = do
      out' ← ingest_all a out
      planned ← on_db g (plan_affected context a.user_id)
      diff_drain_until_quiescent setup context (pass_for a clock) drain
          (record out' { planned = out'.planned + planned })

    -- Under the user's pause nothing is ingested or planned.
    unfoldable pub run_pass : Arguments → Bool → Bool → Action (World g) Report
    unfolding full_pass
    run_pass a paused drain =
        if paused
        then diff_drain_until_quiescent setup context (pass_for a clock) drain (blank_report true)
        else full_pass a drain (blank_report false)

    -- A dry run: the pass without the drain, between the snapshot and the discard.
    unfoldable pub dry_pass : Arguments → Bool → Action (World g) Report
    unfolding run_pass snapshot_dry_run_outbox discard_dry_run_outbox
    dry_pass a paused = do
      snapshot ← λ w. (ok (snapshot_dry_run_outbox a.user_id w.db), w)
      out ← run_pass a paused false
      preview ← on_db g (discard_dry_run_outbox a.user_id snapshot)
      return (record out { preview_operations = some preview })

    abbrev unfrozen : Arguments → Bool → Action (World g) Report
    unfrozen a paused = if a.dry_run then dry_pass a paused else run_pass a paused a.drain

    abbrev in_mode : Arguments → Option PauseMode → Action (World g) Report
    in_mode a (some global_pause) = return (blank_report true)
    in_mode a (some user_pause) = unfrozen a true
    in_mode a none = unfrozen a false

    unfoldable pub reconcile_user : Arguments → Action (World g) Report
    unfolding dry_pass pause_mode
    reconcile_user a w = in_mode a (pause_mode a.user_id w.db) w
