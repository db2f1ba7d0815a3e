-- ===== src/Schema/Request.antt =====
-- The requests of apps/frontend/src/schemas/scenario.ts: `scenarioRunRequestSchema` and
-- `scenarioRevisionRequestSchema`. Numbers are in thousandths, as the form gives them.
use ev_factory_twin.Prelude.{
  ℕ, String, Bool, true, not, ◌&&◌, Option, none, some, List, [], ◌∷◌, ◌++◌, if◌then◌else◌,
}
use ev_factory_twin.Prelude.Int.{pos, leb_ℤ}
use ev_factory_twin.Prelude.Text.{utf16_length, trim, is_empty}
use ev_factory_twin.Schema.Fleet.{Number}
use ev_factory_twin.Schema.Content.{is_in_range, is_positive_to, is_whole, has_length}

-- What the form can give; the two other settings have their defaults.
pub record ScenarioRunRequest : Type 0 where
  pub name : String
  pub layout_id : String
  pub layout_version : Number
  pub route_id : String
  pub num_robots : Number
  pub num_tasks : Number
  pub task_arrival_interval : Number
  pub travel_time : Number
  pub loading_time : Number
  pub simulation_time : Number
  pub robot_speed_mps : Number
  pub charger_count : Number
  pub revision_of : Option String

pub data RequestField : Type 0 where
  num_robots_field num_tasks_field task_arrival_interval_field travel_time_field : RequestField
  loading_time_field simulation_time_field layout_id_field layout_version_field : RequestField
  route_id_field robot_speed_mps_field charger_count_field name_field revision_of_field :
      RequestField

abbrev pub issue : RequestField → Bool → List RequestField
issue field ok = if ok then [] else field ∷ []

abbrev pub is_count : ℕ → Number → Bool
is_count most n = is_whole n && is_in_range 1000 most n

abbrev pub is_reference : Option String → Bool
is_reference none = true
is_reference (some id) = not (is_empty id)

-- The fields with an issue, in the order of the schema.
unfoldable pub request_issues : ScenarioRunRequest → List RequestField
request_issues r =
    issue num_robots_field (is_count 10000 r.num_robots)
    ++ (issue num_tasks_field (is_count 10000000 r.num_tasks)
        ++ (issue task_arrival_interval_field (is_in_range 1000 60000 r.task_arrival_interval)
            ++ (issue travel_time_field (is_positive_to 86400000 r.travel_time)
                ++ (issue loading_time_field (is_positive_to 86400000 r.loading_time)
                    ++ (issue simulation_time_field (is_positive_to 86400000 r.simulation_time)
                        ++ (issue layout_id_field (has_length 1 80 (utf16_length r.layout_id))
                            ++ (issue layout_version_field
                                  (is_whole r.layout_version && leb_ℤ (pos 1000) r.layout_version)
                                ++ (issue route_id_field (has_length 1 80 (utf16_length r.route_id))
                                    ++ (issue robot_speed_mps_field
                                          (is_positive_to 10000 r.robot_speed_mps)
                                        ++ (issue charger_count_field
                                              (is_count 20000 r.charger_count)
                                            ++ (issue name_field
                                                  (has_length 1 80 (utf16_length (trim r.name)))
                                                ++ issue revision_of_field
                                                    (is_reference r.revision_of))))))))))))

-- The schema's output: the name is trimmed.
abbrev pub parsed_request : ScenarioRunRequest → ScenarioRunRequest
parsed_request r = record r { name = trim r.name }
