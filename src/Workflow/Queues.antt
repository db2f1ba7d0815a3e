-- ===== src/Workflow/Queues.antt =====
-- Which candidate and which command of many lib/workflow.ts shows.
use ev_factory_twin.Prelude.{
  ℕ, ◌≡◌, ◌≢◌, sym, subst, String, false, Option, none, some, List, ◌==◌, All, if-false,
}
use ev_factory_twin.Prelude.Newest.{IsNewest, sort-filter-IsNewest}
use ev_factory_twin.Schema.Planning.{Scenario, Command}
use ev_factory_twin.Workflow.{
  candidate_for_layout_version, is_of_version, newest_first, latest_command_for_scenario,
}

module _ (date_parse : String → Option ℕ) where
  -- The candidate of a layout version is a scenario that was run on that version such that no other one
  -- was created later, and there is none only if no scenario was run on it, if the dates can be read.
  pub candidate-IsNewest :
      (scenarios : List Scenario) (layout_id : String) (version : ℕ)
      → All (λ s. date_parse s.created_at ≢ none) scenarios
      → IsNewest
          (λ s. date_parse s.created_at)
          (is_of_version layout_id version)
          scenarios
          (candidate_for_layout_version date_parse scenarios layout_id version)
  unfolding candidate_for_layout_version newest_first
  candidate-IsNewest scenarios layout_id version dated =
      sort-filter-IsNewest (λ s. date_parse s.created_at) (is_of_version layout_id version)
        scenarios dated

  -- The command shown for a scenario is one of its commands such that no other was updated later, and
  -- there is none only if the scenario has no command, if the dates can be read.
  pub latest_command-IsNewest :
      (commands : List Command) (scenario_id : String)
      → (scenario_id == "") ≡ false
      → All (λ c. date_parse c.updated_at ≢ none) commands
      → IsNewest
          (λ c. date_parse c.updated_at)
          (λ c. c.scenario_id == scenario_id)
          commands
          (latest_command_for_scenario date_parse commands (some scenario_id))
  unfolding latest_command_for_scenario
  latest_command-IsNewest commands scenario_id named dated =
      subst (IsNewest (λ c. date_parse c.updated_at) (λ c. c.scenario_id == scenario_id) commands)
        (sym (if-false _ _ named))
        (sort-filter-IsNewest (λ c. date_parse c.updated_at) (λ c. c.scenario_id == scenario_id)
          commands dated)
