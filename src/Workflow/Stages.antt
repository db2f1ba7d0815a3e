-- ===== src/Workflow/Stages.antt =====
-- The four stages of lib/workflow.ts as the review banner shows them.
use ev_factory_twin.Prelude.{◌<◌, ◌≡◌, ◌≢◌, arith}
use ev_factory_twin.Schema.Planning.{
  ScenarioStatus, draft, simulated, submitted, approved, rejected, revision_requested, applied,
}
use ev_factory_twin.Workflow.{WorkflowStage, done_stage, pending_stage, stage_index, stage_state}

-- Whatever the status, all stages before one that is not pending are done: the banner never skips a
-- stage.
pub stages_in_order :
    (status : ScenarioStatus) (a b : WorkflowStage)
    → stage_index a < stage_index b
    → stage_state status b ≢ pending_stage
    → stage_state status a ≡ done_stage
unfolding stage_state
stages_in_order draft a b h k = ground arith
stages_in_order simulated a b h k = ground arith
stages_in_order submitted a b h k = ground arith
stages_in_order approved a b h k = ground arith
stages_in_order rejected a b h k = ground arith
stages_in_order revision_requested a b h k = ground arith
stages_in_order applied a b h k = ground arith
