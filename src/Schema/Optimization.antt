-- ===== src/Schema/Optimization.antt =====
-- apps/frontend/src/schemas/optimization.ts: what `optimizationRequestSchema` asks. A number of a request
-- is `none` if it is not finite.
use ev_factory_twin.Prelude.{
  ℕ, ◌*◌, String, Bool, false, ◌&&◌, Option, none, some, List, leb, length, every,
}
use ev_factory_twin.Prelude.Text.{utf16_length, trim}
use ev_factory_twin.Schema.Fleet.{Number}
use ev_factory_twin.Schema.Planning.{Scenario}
use ev_factory_twin.Schema.Content.{has_length, is_in_range, is_positive_to, is_whole}

pub record LayoutCandidate : Type 0 where
  pub layout_id : String
  pub layout_version : ℕ

pub record OptimizationRequest : Type 0 where
  pub name_prefix : String
  pub layouts : List LayoutCandidate
  pub route_ids : List String
  pub robot_counts : List (Option Number)
  pub robot_speeds_mps : List (Option Number)
  pub charger_counts : List (Option Number)
  pub demand_intervals : List (Option Number)
  pub num_tasks : Option Number
  pub loading_time : Option Number
  pub simulation_time : Option Number

-- `optimizationCandidateCount`, of the lengths of the six dimensions.
unfoldable pub candidate_count : ℕ → ℕ → ℕ → ℕ → ℕ → ℕ → ℕ
candidate_count layouts routes robots speeds chargers intervals =
    layouts * routes * robots * speeds * chargers * intervals

unfoldable pub request_count : OptimizationRequest → ℕ
unfolding candidate_count
request_count r =
    candidate_count (length r.layouts) (length r.route_ids) (length r.robot_counts)
      (length r.robot_speeds_mps) (length r.charger_counts) (length r.demand_intervals)

abbrev pub is_finite_and : (Number → Bool) → Option Number → Bool
is_finite_and p none = false
is_finite_and p (some n) = p n

abbrev pub is_count_to : ℕ → Number → Bool
is_count_to most n = is_whole n && is_in_range 1000 most n

abbrev pub is_layout_candidate : LayoutCandidate → Bool
is_layout_candidate c = has_length 1 80 (utf16_length c.layout_id) && leb 1 c.layout_version

abbrev pub is_route_id : String → Bool
is_route_id id = has_length 1 80 (utf16_length id)

abbrev pub is_dimension {ℓ} : {A : Type ℓ} → (A → Bool) → List A → Bool
is_dimension p xs = has_length 1 8 (length xs) && every p xs

unfoldable pub is_valid_request : OptimizationRequest → Bool
unfolding request_count
is_valid_request r =
    has_length 1 50 (utf16_length (trim r.name_prefix))
    && (is_dimension is_layout_candidate r.layouts
        && (is_dimension is_route_id r.route_ids
            && (is_dimension (is_finite_and (is_count_to 10000)) r.robot_counts
                && (is_dimension (is_finite_and (is_positive_to 10000)) r.robot_speeds_mps
                    && (is_dimension (is_finite_and (is_count_to 20000)) r.charger_counts
                        && (is_dimension (is_finite_and (is_in_range 1000 60000)) r.demand_intervals
                            && (is_finite_and (is_count_to 10000000) r.num_tasks
                                && (is_finite_and (is_positive_to 86400000) r.loading_time
                                    && (is_finite_and (is_positive_to 86400000) r.simulation_time
                                        && leb (request_count r) 64)))))))))

-- The schema's output: the prefix is trimmed.
abbrev pub parsed_request : OptimizationRequest → OptimizationRequest
parsed_request r = record r { name_prefix = trim r.name_prefix }

pub record OptimizationResult : Type 0 where
  pub evaluated_candidates : ℕ
  pub recommendation : Scenario
  pub ranking : List (ℕ × Scenario)
