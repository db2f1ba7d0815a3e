-- ===== src/Workflow.antt =====
-- apps/frontend/src/lib/workflow.ts: what the console shows of the review of a candidate.
-- `date_parse` is `Date.parse`.
pub mod Stages
pub mod Queues
pub mod Actions
pub mod Tests
use ev_factory_twin.Prelude.{
  ℕ, suc, ◌≡◌, String, Bool, true, false, ◌&&◌, ◌||◌, not, Option, none, some, List, [], ◌∷◌, ◌==◌,
  beq, ltb, if◌then◌else◌, length, filter, head?, any,
}
use ev_factory_twin.Prelude.Dates.{later}
use ev_factory_twin.Prelude.Newest.{newer}
use ev_factory_twin.Prelude.Sort.{sort}
use ev_factory_twin.Prelude.Int.{ℤ, pos, negsuc, ltb_ℤ}
use ev_factory_twin.Schema.Fleet.{AppRole, designer, monitor}
use ev_factory_twin.Schema.Planning.{
  Scenario, ScenarioStatus, draft, simulated, submitted, approved, rejected, revision_requested,
  applied, Command, CommandAttempt, CommandStatus, completed, failed, timed_out,
}
use Prim.Native.String

-- WORKFLOW_STAGES, in its order.
pub data WorkflowStage : Type 0 where
  at_simulated at_submitted at_approved at_applied : WorkflowStage

pub data StageState : Type 0 where
  done_stage current_stage rejected_stage pending_stage : StageState

pub data QueueKey : Type 0 where
  all_queue awaiting_queue mine_queue approved_queue applied_queue : QueueKey

pub record Link : Type 0 where
  pub label : String
  pub href : String

pub record NextAction : Type 0 where
  pub headline : String
  pub hint : String
  pub cta : Option Link

pub record ApplyProgress : Type 0 where
  pub index : ℕ
  pub failed : Bool

abbrev pub layout_editor : Link
layout_editor = record { label = "Open layout editor"; href = "/layouts" }

abbrev pub my_candidates : Link
my_candidates = record { label = "Open my candidates"; href = "/scenarios?queue=mine" }

-- isQueueKey, with the key that the text names.
unfoldable pub queue_key : String → Option QueueKey
queue_key value =
    if value == "all"
    then some all_queue
    else if value == "awaiting"
    then some awaiting_queue
    else if value == "mine"
    then some mine_queue
    else if value == "approved"
    then some approved_queue
    else if value == "applied"
    then some applied_queue
    else none

abbrev pub reached_stage : ScenarioStatus → ℤ
reached_stage draft = negsuc 0
reached_stage simulated = pos 0
reached_stage submitted = pos 1
reached_stage rejected = pos 1
reached_stage revision_requested = pos 1
reached_stage approved = pos 2
reached_stage applied = pos 3

-- `WORKFLOW_STAGES.indexOf(stage)`
abbrev pub stage_index : WorkflowStage → ℕ
stage_index at_simulated = 0
stage_index at_submitted = 1
stage_index at_approved = 2
stage_index at_applied = 3

abbrev pub is_turned_down : ScenarioStatus → Bool
is_turned_down rejected = true
is_turned_down revision_requested = true
is_turned_down _ = false

abbrev pub is_submitted : ScenarioStatus → Bool
is_submitted submitted = true
is_submitted _ = false

abbrev pub is_approved : ScenarioStatus → Bool
is_approved approved = true
is_approved _ = false

abbrev pub is_applied : ScenarioStatus → Bool
is_applied applied = true
is_applied _ = false

unfoldable pub stage_state : ScenarioStatus → WorkflowStage → StageState
stage_state status stage =
    let reached = reached_stage status in
    let index = pos (stage_index stage) in
    if ltb_ℤ reached index
    then pending_stage
    else if ltb_ℤ index reached
    then done_stage
    else if is_turned_down status
    then rejected_stage
    else if is_applied status
    then done_stage
    else current_stage

abbrev pub is_acknowledged_attempt : CommandAttempt → Bool
is_acknowledged_attempt a = elim a.acknowledged_at [ none ↦ false | some _ ↦ true ]

abbrev pub is_completed : CommandStatus → Bool
is_completed completed = true
is_completed _ = false

abbrev pub has_failed : CommandStatus → Bool
has_failed failed = true
has_failed timed_out = true
has_failed _ = false

unfoldable pub apply_progress : Option Command → Option ApplyProgress
apply_progress none = none
apply_progress (some command) = some (record {
  index =
      if is_completed command.status
      then 2
      else if any is_acknowledged_attempt command.attempts
      then 1
      else 0;
  failed = has_failed command.status;
})

-- `scenario.created_by === userId`
abbrev pub is_by : String → Scenario → Bool
is_by user_id s = elim s.created_by [ none ↦ false | some author ↦ author == user_id ]

unfoldable pub filter_queue : List Scenario → QueueKey → String → List Scenario
filter_queue scenarios awaiting_queue user_id = filter (λ s. is_submitted s.status) scenarios
filter_queue scenarios approved_queue user_id = filter (λ s. is_approved s.status) scenarios
filter_queue scenarios applied_queue user_id = filter (λ s. is_applied s.status) scenarios
filter_queue scenarios mine_queue user_id = filter (is_by user_id) scenarios
filter_queue scenarios all_queue user_id = scenarios

abbrev pub is_of_version : String → ℕ → Scenario → Bool
is_of_version layout_id version s =
    s.config.layout_id == layout_id && beq s.config.layout_version version

module _ (date_parse : String → Option ℕ) where
  unfoldable pub newest_first : List Scenario → List Scenario
  newest_first scenarios = sort (newer (λ s. date_parse s.created_at)) scenarios

  unfoldable pub candidate_for_layout_version : List Scenario → String → ℕ → Option Scenario
  unfolding newest_first
  candidate_for_layout_version scenarios layout_id version =
      head? (newest_first (filter (is_of_version layout_id version) scenarios))

  -- `null`, `undefined` and the empty text all name no scenario.
  unfoldable pub latest_command_for_scenario : List Command → Option String → Option Command
  latest_command_for_scenario commands none = none
  latest_command_for_scenario commands (some scenario_id) =
      if scenario_id == ""
      then none
      else head? (
          sort (newer (λ c. date_parse c.updated_at))
            (filter (λ c. c.scenario_id == scenario_id) commands))
