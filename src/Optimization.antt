-- ===== src/Optimization.antt =====
-- apps/frontend/src/components/scenarios/optimization-panel.tsx: a search over several layouts and
-- settings. `number` is JavaScript's `Number` on a text, `none` where it is not finite.
pub mod Counting
pub mod Tests
use Prim.Native.Char.{Char, code}
use Prim.Native.String.{String}
use ev_factory_twin.Prelude.{
  ℕ, ◌+◌, Bool, true, false, not, ◌&&◌, ◌||◌, Option, none, some, List, [], ◌∷◌, ◌++◌, ltb, beq,
  ◌==◌, map, any, filter, length, if◌then◌else◌,
}
use ev_factory_twin.Prelude.Text.{trim, is_empty}
use ev_factory_twin.Schema.Fleet.{Number}
use ev_factory_twin.Schema.Layout.{LayoutSummary}
use ev_factory_twin.Schema.Optimization.{
  LayoutCandidate, OptimizationRequest, OptimizationResult, candidate_count, is_valid_request,
  parsed_request,
}

-- What the form holds: the ids of the chosen layouts, and texts.
pub record OptimizationForm : Type 0 where
  pub name_prefix : String
  pub optimization_layouts : List String
  pub route_ids : String
  pub robot_counts : String
  pub robot_speeds_mps : String
  pub charger_counts : String
  pub demand_intervals : String
  pub optimization_tasks : String
  pub optimization_loading : String
  pub optimization_duration : String

abbrev pub onto_first : Char → List String → List String
onto_first c [] = String.◌∷◌ c String.[] ∷ []
onto_first c (s ∷ rest) = String.◌∷◌ c s ∷ rest

-- `value.split(",")`
unfoldable pub split_commas : String → List String
split_commas String.[] = String.[] ∷ []
split_commas (String.◌∷◌ c s) =
    let rest = split_commas s in if beq (code c) b',' then String.[] ∷ rest else onto_first c rest

-- The items between the commas.
abbrev pub items : String → List String
items text = map trim (split_commas text)

-- `values`
abbrev pub values : String → List String
values text = filter (λ item. not (is_empty item)) (items text)

-- `candidateCount`
unfoldable pub form_count : OptimizationForm → ℕ
unfolding candidate_count
form_count f =
    candidate_count (length f.optimization_layouts) (length (values f.route_ids))
      (length (values f.robot_counts)) (length (values f.robot_speeds_mps))
      (length (values f.charger_counts)) (length (values f.demand_intervals))

abbrev pub chosen_layouts : List LayoutSummary → OptimizationForm → List LayoutSummary
chosen_layouts layouts f =
    filter (λ (l : LayoutSummary). any (λ id. id == l.id) f.optimization_layouts) layouts

abbrev pub layout_candidate : LayoutSummary → LayoutCandidate
layout_candidate l = record { layout_id = l.id; layout_version = l.latest_version }

pub data Effect : Type 0 where
  runs_optimization : OptimizationRequest → Effect

pub record OptimizationPanel : Type 0 where
  pub result : Option OptimizationResult
  pub error : Option String
  pub running : Bool
  pub candidates : ℕ
  pub effects : List Effect

module _ (number : String → Option Number) where
  -- `numbers`
  abbrev pub numbers : String → List (Option Number)
  numbers text = map number (items text)

  unfoldable pub request_of : List LayoutSummary → OptimizationForm → OptimizationRequest
  request_of layouts f = record {
    name_prefix = f.name_prefix;
    layouts = map layout_candidate (chosen_layouts layouts f);
    route_ids = items f.route_ids;
    robot_counts = numbers f.robot_counts;
    robot_speeds_mps = numbers f.robot_speeds_mps;
    charger_counts = numbers f.charger_counts;
    demand_intervals = numbers f.demand_intervals;
    num_tasks = number f.optimization_tasks;
    loading_time = number f.optimization_loading;
    simulation_time = number f.optimization_duration;
  }

  -- The button is disabled while a search runs, without layouts, and without candidates or with too many.
  abbrev pub may_submit : List LayoutSummary → OptimizationPanel → Bool
  may_submit layouts s =
      not (s.running || (beq (length layouts) 0 || (beq s.candidates 0 || ltb 64 s.candidates)))

  -- `run` up to its `await`; `issue` is the schema's first text.
  unfoldable pub submit :
      (OptimizationRequest → String)
      → List LayoutSummary
      → OptimizationForm
      → OptimizationPanel
      → OptimizationPanel
  unfolding is_valid_request request_of
  submit issue layouts f s =
      if not (may_submit layouts s)
      then s
      else if is_valid_request (request_of layouts f)
      then record s {
        running = true;
        error = none;
        effects = s.effects ++ runs_optimization (parsed_request (request_of layouts f)) ∷ [];
      }
      else record s { error = some (issue (request_of layouts f)) }

-- The form's `onChange`.
unfoldable pub change_form : OptimizationForm → OptimizationPanel → OptimizationPanel
unfolding form_count
change_form f s = record s { candidates = form_count f }

unfoldable pub result_arrives : OptimizationResult → OptimizationPanel → OptimizationPanel
result_arrives result s = record s { result = some result; running = false }

unfoldable pub run_fails : String → OptimizationPanel → OptimizationPanel
run_fails message s = record s { error = some message; running = false }
