-- ===== src/Api/Endpoints.antt =====
-- The calls of `apiClient` in lib/api-client.ts: method, path and body of each. A body is the text of the
-- checked input.
use ev_factory_twin.Prelude.{ℕ, String, Option, none, some}
use Prim.Native.String.{◌++◌}

pub data Method : Type 0 where
  get post patch delete : Method

pub record Endpoint : Type 0 where
  pub method : Method
  pub path : String
  pub body : Option String

pub data Call : Type 0 where
  get_current_user get_factory get_robots get_tasks get_metrics get_alerts : Call
  get_robot get_task : String → Call
  update_mock_config : String → Call
  reset_mock_factory get_layouts : Call
  create_layout : String → Call
  get_layout archive_layout : String → Call
  rename_layout create_layout_version : String → String → Call
  get_layout_version : String → ℕ → Call
  get_baseline_scenario get_scenarios get_commands : Call
  get_scenario : String → Call
  run_scenario : String → Call
  submit_scenario approve_scenario reject_scenario : String → Call
  request_scenario_revision apply_scenario : String → String → Call
  run_optimization : String → Call
  get_command retry_command : String → Call

abbrev pub read : String → Endpoint
read path = record { method = get; path = "/api/v1/" ++ path; body = none }

abbrev pub order : String → Endpoint
order path = record { method = post; path = "/api/v1/" ++ path; body = none }

abbrev pub send : Method → String → String → Endpoint
send method path body = record { method = method; path = "/api/v1/" ++ path; body = some body }

module _ (encode : String → String) (number_text : ℕ → String) where
  unfoldable pub endpoint : Call → Endpoint
  endpoint get_current_user = read "auth/me"
  endpoint get_factory = read "factory"
  endpoint get_robots = read "robots"
  endpoint (get_robot id) = read ("robots/" ++ encode id)
  endpoint get_tasks = read "tasks"
  endpoint (get_task id) = read ("tasks/" ++ encode id)
  endpoint get_metrics = read "metrics"
  endpoint get_alerts = read "alerts"
  endpoint (update_mock_config body) = send post "mock/config" body
  endpoint reset_mock_factory = order "mock/reset"
  endpoint get_layouts = read "layouts"
  endpoint (create_layout body) = send post "layouts" body
  endpoint (get_layout id) = read ("layouts/" ++ encode id)
  endpoint (rename_layout id body) = send patch ("layouts/" ++ encode id) body
  endpoint (archive_layout id) = record {
    method = delete;
    path = "/api/v1/" ++ ("layouts/" ++ encode id);
    body = none;
  }
  endpoint (create_layout_version id body) =
      send post ("layouts/" ++ (encode id ++ "/versions")) body
  endpoint (get_layout_version id version) =
      read ("layouts/" ++ (encode id ++ ("/versions/" ++ number_text version)))
  endpoint get_baseline_scenario = read "scenarios/baseline"
  endpoint get_scenarios = read "scenarios"
  endpoint (get_scenario id) = read ("scenarios/" ++ encode id)
  endpoint (run_scenario body) = send post "scenarios/run" body
  endpoint (submit_scenario id) = order ("scenarios/" ++ (encode id ++ "/submit"))
  endpoint (approve_scenario id) = order ("scenarios/" ++ (encode id ++ "/approve"))
  endpoint (reject_scenario id) = order ("scenarios/" ++ (encode id ++ "/reject"))
  endpoint (request_scenario_revision id body) =
      send post ("scenarios/" ++ (encode id ++ "/request-revision")) body
  endpoint (apply_scenario id body) = send post ("scenarios/" ++ (encode id ++ "/apply")) body
  endpoint (run_optimization body) = send post "optimizations/run" body
  endpoint get_commands = read "commands"
  endpoint (get_command id) = read ("commands/" ++ encode id)
  endpoint (retry_command id) = order ("commands/" ++ (encode id ++ "/retry"))
