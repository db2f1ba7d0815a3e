-- ===== src/Optimization/Tests.antt =====
-- Tests of the model of optimization-panel.tsx.
use ev_factory_twin.Prelude.{
  ◌≡◌, ◌≤◌, refl, String, false, Option, none, some, List, [], ◌∷◌, ◌==◌, if◌then◌else◌,
}
use ev_factory_twin.Prelude.Int.{pos}
use ev_factory_twin.Prelude.Text.{trim}
use ev_factory_twin.Schema.Fleet.{Number}
use ev_factory_twin.Schema.Layout.{LayoutSummary}
use ev_factory_twin.Schema.Optimization.{candidate_count, request_count, is_valid_request}
use ev_factory_twin.Optimization.{
  OptimizationForm, OptimizationPanel, split_commas, form_count, request_of, submit,
}
use ev_factory_twin.Optimization.Counting.{accepted_request_counted}

-- A reading of numbers: all but the empty text are two.
abbrev two : String → Option Number
two text = if text == "" then some (pos 0) else some (pos 2000)

abbrev form : OptimizationForm
form = record {
  name_prefix = "flow-option";
  optimization_layouts = "L-1" ∷ [];
  route_ids = "BATTERY_DELIVERY";
  robot_counts = "2, 2";
  robot_speeds_mps = "2,2";
  charger_counts = "2,2";
  demand_intervals = "2";
  optimization_tasks = "2";
  optimization_loading = "2";
  optimization_duration = "2";
}

abbrev layouts : List LayoutSummary
layouts =
    record {
      id = "L-1";
      name = "First";
      latest_version = 2;
      created_by = "U-1";
      created_at = "1";
      archived_at = none;
    }
    ∷ []

accepted_request_counted_example :
    (form_count form ≡ request_count (request_of two layouts form)) × (form_count form ≤ 64)
unfolding is_valid_request request_of request_count candidate_count split_commas trim
accepted_request_counted_example = accepted_request_counted two refl layouts form refl refl

form_count_eight : form_count form ≡ 8
unfolding form_count candidate_count split_commas trim
form_count_eight = refl

abbrev untouched : OptimizationPanel
untouched = record { result = none; error = none; running = false; candidates = 8; effects = [] }

-- A blank item is not counted, and refused.
submit_blank :
    (submit two (λ r. "Invalid") layouts (record form { robot_counts = "2,2," }) untouched).error
    ≡ some "Invalid"
unfolding submit is_valid_request request_of request_count candidate_count split_commas trim
submit_blank = refl
