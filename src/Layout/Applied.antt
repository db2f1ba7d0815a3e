-- ===== src/Layout/Applied.antt =====
-- Which scenario lib/layout-projection.ts takes for the one that runs.
use ev_factory_twin.Prelude.{ℕ, ◌≢◌, String, Option, none, List, All}
use ev_factory_twin.Prelude.Newest.{IsNewest, sort-filter-IsNewest}
use ev_factory_twin.Schema.Planning.{Scenario}
use ev_factory_twin.Workflow.{is_applied}
use ev_factory_twin.Layout.{applied_date, latest_applied_scenario}

-- The scenario taken for the running one is an applied scenario such that no other one was applied
-- later, and there is none only if no scenario was applied, if the dates can be read.
pub latest_applied-IsNewest :
    (date_parse : String → Option ℕ) (scenarios : List Scenario)
    → All (λ s. applied_date date_parse s ≢ none) scenarios
    → IsNewest
        (applied_date date_parse)
        (λ s. is_applied s.status)
        scenarios
        (latest_applied_scenario date_parse scenarios)
unfolding latest_applied_scenario
latest_applied-IsNewest date_parse scenarios dated =
    sort-filter-IsNewest (applied_date date_parse) (λ s. is_applied s.status) scenarios dated
