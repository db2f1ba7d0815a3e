-- ===== src/ScenarioWorkspace.antt =====
-- apps/frontend/src/app/scenarios/page.tsx: the scenario sandbox, where a Designer runs and submits
-- candidates and a Monitor reviews and applies them. `ScenarioWorkspace` holds the state of the page and
-- the store it writes; what a handler asks of the API and of the toasts is added to `effects`.
pub mod Loading
pub mod Review
pub mod Inputs
pub mod Duties
pub mod Form
pub mod Defaults
pub mod Tests
use ev_factory_twin.Prelude.{
  ℕ, String, Bool, true, false, ◌&&◌, Option, none, some, List, [], ◌∷◌, ◌++◌, ◌==◌, map, find,
  head?, if◌then◌else◌,
}
use ev_factory_twin.Schema.Fleet.{AppRole, CurrentUser, Number}
use ev_factory_twin.Schema.Planning.{
  Scenario, ScenarioStatus, simulated, submitted, approved, revision_requested, Command,
}
use ev_factory_twin.Schema.Layout.{LayoutSummary, LayoutVersion}
use ev_factory_twin.Schema.Request.{ScenarioRunRequest, RequestField}
use ev_factory_twin.Store.{FactoryStore}
use ev_factory_twin.Workflow.{QueueKey, all_queue, newest_first, is_submitted, is_approved}

pub data LoadState : Type 0 where
  is_loading is_ready is_error : LoadState

-- The `ScenarioAction` of components/scenarios/scenario-actions.tsx.
pub data ScenarioAction : Type 0 where
  runs_scenario submits_scenario approves_scenario requests_changes applies_scenario :
      ScenarioAction

-- Why a version of a layout was asked for.
pub data LayoutUse : Type 0 where
  for_page for_layout for_version : LayoutUse
  -- to revise this candidate
  for_revision : Scenario → LayoutUse

pub data Effect : Type 0 where
  -- the two requests of `loadPage` beside the lists below
  gets_page : Effect
  gets_scenarios : Effect
  gets_commands : Effect
  gets_layout : LayoutUse → String → Effect
  gets_layout_version : LayoutUse → String → ℕ → Effect
  runs : ScenarioRunRequest → Effect
  submits : String → Effect
  approves : String → Effect
  requests_revision : String → String → Effect
  -- with a timeout of 30 seconds and one retry
  applies : String → Effect
  toasts_success : String → Effect
  toasts_error : String → Effect
  toasts_info : String → Effect

pub record ScenarioWorkspace : Type 0 where
  pub user : CurrentUser
  pub baseline : Option Scenario
  pub candidate : Option Scenario
  pub revision_source : Option Scenario
  pub layouts : List LayoutSummary
  pub selected_layout : Option LayoutVersion
  pub load_state : LoadState
  pub queue : QueueKey
  pub field_errors : List (RequestField × String)
  pub action_error : Option String
  pub command_load_error : Option String
  pub active_action : Option ScenarioAction
  pub apply_confirmation_open : Bool
  pub store : FactoryStore
  pub effects : List Effect

abbrev pub perform : Effect → ScenarioWorkspace → ScenarioWorkspace
perform e s = record s { effects = s.effects ++ e ∷ [] }

-- The page refuses, or tells of a failure.
abbrev pub complain : String → ScenarioWorkspace → ScenarioWorkspace
complain text s = record s { action_error = some text }

abbrev pub is_simulated : ScenarioStatus → Bool
is_simulated simulated = true
is_simulated _ = false

abbrev pub is_sent_back : ScenarioStatus → Bool
is_sent_back revision_requested = true
is_sent_back _ = false

abbrev pub with_status : (ScenarioStatus → Bool) → List Scenario → Option Scenario
with_status p scenarios = find (λ (s : Scenario). p s.status) scenarios

-- `??`
abbrev pub or_else {ℓ} : {A : Type ℓ} → Option A → Option A → Option A
or_else none b = b
or_else (some a) b = some a

abbrev pub scenario_with : String → List Scenario → Option Scenario
scenario_with id scenarios = find (λ (s : Scenario). s.id == id) scenarios

module _ (date_parse : String → Option ℕ) where
  unfoldable pub newest_useful_scenario : List Scenario → Option Scenario
  newest_useful_scenario scenarios =
      let ordered = newest_first date_parse scenarios in
      or_else (with_status is_submitted ordered) (
        or_else (with_status is_simulated ordered)
          (or_else (with_status is_approved ordered) (head? ordered)))

-- The state at the first rendering.
abbrev pub initial : CurrentUser → FactoryStore → ScenarioWorkspace
initial user store = record {
  user = user;
  baseline = none;
  candidate = none;
  revision_source = none;
  layouts = [];
  selected_layout = none;
  load_state = is_loading;
  queue = all_queue;
  field_errors = [];
  action_error = none;
  command_load_error = none;
  active_action = none;
  apply_confirmation_open = false;
  store = store;
  effects = [];
}
