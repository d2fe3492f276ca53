-- ===== src/Google.antt =====
-- app/ledger/google_client.py: the calendar service, as the protocol `GoogleClient` shows it. What
-- the service answers is not the repository's code: a client is a parameter, over a state of the
-- service's own; a call returns a resource or raises, and may change that state either way.
use busybridge.Prelude.{ℕ, Bool, Option, List, Text}
use busybridge.Errors.{Result, Action}
use busybridge.Json.{Fields}
use busybridge.Ledger.{Db}

-- The arguments of a listing.
pub record Listing : Type 0 where
  pub sync_token : Option Text
  pub time_min : Option ℕ
  pub time_max : Option ℕ
  pub max_results : ℕ
  pub single_events : Bool
  pub page_token : Option Text
  pub show_deleted : Bool

-- A response of a listing, whose items are objects.
pub record Page : Type 0 where
  pub items : List Fields
  pub next_page_token : Option Text
  pub next_sync_token : Option Text

pub record GoogleClient : Type 1 where
  pub State : Type 0
  pub insert_event : Text → Fields → Action State Fields
  pub get_event : Text → Text → Action State Fields
  -- calendar, event, body, if_match
  pub update_event : Text → Text → Fields → Option Text → Action State Fields
  -- calendar, event, body, send_updates
  pub patch_event : Text → Text → Fields → Option Text → Action State Fields
  pub delete_event : Text → Text → Action State (Unit {0})
  pub list_events : Text → Listing → Action State Page
  -- calendar, event
  pub list_instances : Text → Text → Listing → Action State Page

-- The database and the service beside it.
pub record World (g : GoogleClient) : Type 0 where
  pub db : Db
  pub google : g.State

module _ (g : GoogleClient) where
  unfoldable pub on_google : {A : Type 0} → Action g.State A → Action (World g) A
  on_google m w = let (r, s) = m w.google in (r, record w { google = s })

  unfoldable pub on_db : {A : Type 0} → Action Db A → Action (World g) A
  on_db m w = let (r, d) = m w.db in (r, record w { db = d })

  -- Database statements that cannot fail.
  unfoldable pub write : (Db → Db) → Action (World g) (Unit {0})
  write f w = (Result.ok tt, record w { db = f w.db })
