-- ===== src/CommandHistory.antt =====
-- apps/frontend/src/app/commands/page.tsx: the history of apply commands, and their retry. Handlers are
-- cut at each `await`; `date_parse` is `Date.parse`.
pub mod Retrying
pub mod Tests
use Prim.Native.String.{◌++◌ as ◌+++◌}
use ev_factory_twin.Prelude.{
  ℕ, ◌+◌, String, Bool, true, false, not, ◌&&◌, ◌||◌, Option, none, some, List, [], ◌∷◌, ◌++◌, leb,
  map, length, if◌then◌else◌,
}
use ev_factory_twin.Prelude.Index.{get_elem?}
use ev_factory_twin.Prelude.Sort.{sort}
use ev_factory_twin.Prelude.Newest.{newer}
use ev_factory_twin.Schema.Fleet.{AppRole}
use ev_factory_twin.Schema.Planning.{Command, CommandStatus, failed, timed_out}
use ev_factory_twin.Permissions.{can, commands_retry}
use ev_factory_twin.Store.{FactoryStore, set_commands, update_command}

-- Who waits for the list of commands: a plain load, or a retry that has failed.
pub data Waiting : Type 0 where
  for_page for_failed_retry : Waiting

pub data Effect : Type 0 where
  gets_commands : Waiting → Effect
  retries : String → Effect

pub record CommandHistory : Type 0 where
  pub role : AppRole
  pub loading : Bool
  pub error : Option String
  pub retrying : Option String
  pub store : FactoryStore
  pub effects : List Effect

abbrev pub initial : AppRole → FactoryStore → CommandHistory
initial role store = record {
  role = role;
  loading = true;
  error = none;
  retrying = none;
  store = store;
  effects = [];
}

abbrev pub perform : Effect → CommandHistory → CommandHistory
perform e s = record s { effects = s.effects ++ e ∷ [] }

abbrev pub has_ended_badly : CommandStatus → Bool
has_ended_badly failed = true
has_ended_badly timed_out = true
has_ended_badly _ = false

unfoldable pub can_retry : Command → Bool
can_retry c = has_ended_badly c.status && leb (length c.attempts) c.max_retries

-- `load` up to its `await`.
unfoldable pub load : Waiting → CommandHistory → CommandHistory
load waiting s = perform (gets_commands waiting) (record s { loading = true; error = none })

-- The `finally` of a retry whose failure has loaded the list again.
abbrev pub released : Waiting → Option String → Option String
released for_page retrying = retrying
released for_failed_retry retrying = none

unfoldable pub load_fails : Waiting → String → CommandHistory → CommandHistory
load_fails waiting message s = record s {
  error = some ("Unable to load command history: " +++ message);
  loading = false;
  retrying = released waiting s.retrying;
}

unfoldable pub retry : Command → CommandHistory → CommandHistory
unfolding can_retry
retry c s =
    if not (can (some s.role) commands_retry) || not (can_retry c)
    then s
    else perform (retries c.operation_id)
        (record s { retrying = some c.operation_id; error = none })

unfoldable pub retry_fails : String → CommandHistory → CommandHistory
unfolding load
retry_fails message s =
    load for_failed_retry (record s { error = some ("Unable to retry command: " +++ message) })

abbrev pub is_free : Option String → Bool
is_free none = true
is_free (some id) = false

-- The retry button of a command: shown to who may retry, and disabled while a retry runs.
abbrev pub press_retry : Command → CommandHistory → CommandHistory
press_retry c s =
    if can (some s.role) commands_retry && (can_retry c && is_free s.retrying) then retry c s else s

-- The button of a row of the list, if there is that row.
abbrev pub press_row : Option Command → CommandHistory → CommandHistory
press_row none s = s
press_row (some c) s = press_retry c s

-- `clicks_retry` has the index of the row.
pub data Input : Type 0 where
  mounts : Input
  clicks_refresh : Input
  clicks_retry : ℕ → Input
  gets_list : Waiting → List Command → Input
  loses_list : Waiting → String → Input
  gets_retried : Command → Input
  loses_retry : String → Input

module _ (date_parse : String → Option ℕ) where
  -- What the page lists.
  unfoldable pub listed_commands : CommandHistory → List Command
  listed_commands s =
      sort (newer (λ (c : Command). date_parse c.created_at))
        (map (λ (e : String × Command). e.1) s.store.commands)

  unfoldable pub commands_arrive : Waiting → List Command → CommandHistory → CommandHistory
  commands_arrive waiting commands s = record s {
    store = set_commands date_parse commands s.store;
    loading = false;
    retrying = released waiting s.retrying;
  }

  unfoldable pub retry_arrives : Command → CommandHistory → CommandHistory
  retry_arrives c s = record s { store = update_command date_parse c s.store; retrying = none }

  unfoldable pub step : Input → CommandHistory → CommandHistory
  step mounts s = load for_page s
  step clicks_refresh s = if s.loading then s else load for_page s
  step (clicks_retry row) s = press_row (get_elem? (listed_commands s) row) s
  step (gets_list waiting commands) s = commands_arrive waiting commands s
  step (loses_list waiting message) s = load_fails waiting message s
  step (gets_retried c) s = retry_arrives c s
  step (loses_retry message) s = retry_fails message s

  unfoldable pub run : List Input → CommandHistory → CommandHistory
  run [] s = s
  run (i ∷ inputs) s = run inputs (step i s)
