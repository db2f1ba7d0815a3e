-- ===== src/Workflow/Tests.antt =====
-- Tests of the model of lib/workflow.ts.
use ev_factory_twin.Prelude.{ℕ, ◌≡◌, String, Option, some, List, [], ◌∷◌, if◌then◌else◌}
use ev_factory_twin.Prelude.Newest.{IsNewest}
use ev_factory_twin.Samples.{date_of, scenario}
use ev_factory_twin.Schema.Fleet.{designer}
use ev_factory_twin.Schema.Planning.{Scenario, submitted, approved, applied}
use ev_factory_twin.Workflow.{is_by, my_candidates, layout_editor}
use ev_factory_twin.Workflow.Actions.{next_action, open_one, designer_follows-IsNewest}

abbrev scenarios : List Scenario
scenarios =
    scenario "S-1" applied "1" ∷ scenario "S-2" submitted "123" ∷ scenario "S-3" approved "12" ∷ []

abbrev no_digits : ℕ → String
no_digits n = "n"

designer_follows-IsNewest_example :
    (latest : Option Scenario) × IsNewest
      (λ (s : Scenario). date_of s.created_at)
      (is_by "U-1")
      scenarios
      latest
    × ((next_action date_of no_digits designer scenarios "U-1").cta
        ≡ some (if open_one latest then my_candidates else layout_editor))
designer_follows-IsNewest_example =
    designer_follows-IsNewest date_of no_digits scenarios "U-1"
      ((λ e. cc), ((λ e. cc), ((λ e. cc), tt)))
