-- ===== src/ScenarioWorkspace/Loading.antt =====
-- What app/scenarios/page.tsx loads. A handler is cut at each `await`. `date_parse` is `Date.parse`.
use ev_factory_twin.Prelude.{ℕ, String, Bool, false, Option, none, some, List, [], ◌∷◌, ◌==◌, find}
use ev_factory_twin.Schema.Planning.{Scenario, Command}
use ev_factory_twin.Schema.Layout.{LayoutSummary, LayoutVersion}
use ev_factory_twin.Store.{set_scenarios, set_commands}
use ev_factory_twin.Workflow.{QueueKey, queue_key, latest_command_for_scenario, is_completed}
use ev_factory_twin.ScenarioWorkspace.{
  ScenarioWorkspace, is_loading, is_ready, is_error, LayoutUse, for_page, for_layout, for_version,
  for_revision, gets_page, gets_scenarios, gets_commands, gets_layout, gets_layout_version,
  toasts_info, toasts_error, perform, complain, or_else, scenario_with, newest_useful_scenario,
}
use mathlib.Core.List.{map}
use mathlib.Core.Option
use Prim.Native.String.{◌++◌ as ◌+++◌}

-- The query of the page's address; `version` is there if its number is whole and positive.
pub record PageQuery : Type 0 where
  pub queue : Option String
  pub candidate : Option String
  pub layout : Option String
  pub version : Option ℕ

abbrev pub load_commands : ScenarioWorkspace → ScenarioWorkspace
load_commands s = perform gets_commands (record s { command_load_error = none })

-- `loadPage` up to its `await`: four requests at once.
unfoldable pub load_page : ScenarioWorkspace → ScenarioWorkspace
load_page s = load_commands (
    perform gets_scenarios
      (perform gets_page (record s { load_state = is_loading; action_error = none })))

-- What `setQueue` gets.
abbrev pub queue_of : Option String → QueueKey → QueueKey
queue_of none queue = queue
queue_of (some text) queue = elim (queue_key text) [ none ↦ queue | some key ↦ key ]

-- `list.find((item) => item.id === requested)`, where nothing may be requested.
abbrev pub linked_scenario : Option String → List Scenario → Option Scenario
linked_scenario none scenarios = none
linked_scenario (some id) scenarios = scenario_with id scenarios

abbrev pub linked_layout : Option String → List LayoutSummary → Option LayoutSummary
linked_layout none layouts = none
linked_layout (some id) layouts = find (λ (l : LayoutSummary). l.id == id) layouts

-- The version that the page shows first: the one of the query, the newest of the layout of the query,
-- the newest of the first layout, or none.
abbrev pub ask_layout :
    Option LayoutSummary → Option ℕ → List LayoutSummary → ScenarioWorkspace → ScenarioWorkspace
ask_layout (some requested) (some version) layouts s =
    perform (gets_layout_version for_page requested.id version) s
ask_layout (some requested) none layouts s = perform (gets_layout for_page requested.id) s
ask_layout none version [] s = record s { load_state = is_ready }
ask_layout none version (l ∷ ls) s = perform (gets_layout for_page l.id) s

-- All four requests of `loadPage` have been answered.
unfoldable pub page_loaded :
    PageQuery
    → Scenario
    → List LayoutSummary
    → List Scenario
    → ScenarioWorkspace
    → ScenarioWorkspace
page_loaded query baseline layouts scenarios s =
    ask_layout (linked_layout query.layout layouts) query.version layouts (record s {
      baseline = some baseline;
      layouts = layouts;
      queue = queue_of query.queue s.queue;
      candidate = or_else (linked_scenario query.candidate scenarios) s.candidate;
    })

unfoldable pub page_fails : String → ScenarioWorkspace → ScenarioWorkspace
page_fails message s = record (complain ("Unable to load scenarios: " +++ message) s) {
  load_state = is_error;
}

unfoldable pub commands_fail : String → ScenarioWorkspace → ScenarioWorkspace
commands_fail message s = record s {
  command_load_error = some ("Command history is unavailable: " +++ message);
}

unfoldable pub select_layout : String → ScenarioWorkspace → ScenarioWorkspace
select_layout id s = perform (gets_layout for_layout id) (record s { action_error = none })

-- The form gives a number; one that is not whole and positive is `none`.
abbrev pub ask_version : Option LayoutVersion → Option ℕ → ScenarioWorkspace → ScenarioWorkspace
ask_version none version s = s
ask_version (some v) none s = s
ask_version (some v) (some version) s =
    perform (gets_layout_version for_version v.layout_id version) (record s { action_error = none })

unfoldable pub select_layout_version : Option ℕ → ScenarioWorkspace → ScenarioWorkspace
select_layout_version version s = ask_version s.selected_layout version s

unfoldable pub layout_arrives : LayoutUse → LayoutVersion → ScenarioWorkspace → ScenarioWorkspace
layout_arrives for_page v s = record s { selected_layout = some v; load_state = is_ready }
layout_arrives for_layout v s = record s { selected_layout = some v }
layout_arrives for_version v s = record s { selected_layout = some v }
layout_arrives (for_revision source) v s =
    perform (toasts_info "Revision prepared — edit configuration above")
      (record s { selected_layout = some v; revision_source = some source })

unfoldable pub layout_fails : LayoutUse → String → ScenarioWorkspace → ScenarioWorkspace
unfolding page_fails
layout_fails for_page message s = page_fails message s
layout_fails for_layout message s = complain ("Unable to load layout: " +++ message) s
layout_fails for_version message s = complain ("Unable to load layout version: " +++ message) s
layout_fails (for_revision source) message s =
    let text = "Unable to prepare revision: " +++ message in
    perform (toasts_error text) (complain text s)

abbrev pub commands_of : ScenarioWorkspace → List Command
commands_of s = map (λ (e : String × Command). e.1) s.store.commands

module _ (date_parse : String → Option ℕ) where
  -- The functional update of `loadScenarios`.
  abbrev pub refreshed : List Scenario → Option Scenario → Option Scenario
  refreshed loaded none = newest_useful_scenario date_parse loaded
  refreshed loaded (some current) =
      or_else (scenario_with current.id loaded) (newest_useful_scenario date_parse loaded)

  unfoldable pub scenarios_arrive : List Scenario → ScenarioWorkspace → ScenarioWorkspace
  scenarios_arrive loaded s = record s {
    store = set_scenarios loaded s.store;
    candidate = refreshed loaded s.candidate;
  }

  unfoldable pub commands_arrive : List Command → ScenarioWorkspace → ScenarioWorkspace
  commands_arrive loaded s = record s { store = set_commands date_parse loaded s.store }

  -- `candidateCommand?.status === "COMPLETED"`
  abbrev pub apply_completed : ScenarioWorkspace → Bool
  apply_completed s =
      elim (latest_command_for_scenario date_parse (commands_of s)
        (Option.map (λ (c : Scenario). c.id) s.candidate)) [
          | none ↦ false
          | some command ↦ is_completed command.status
        ]
