-- ===== src/Workflow/Actions.antt =====
-- lib/workflow.ts: the next action that the console proposes to each role. `number_text` prints a
-- number in a template.
use ev_factory_twin.Prelude.{
  ℕ, ◌≡◌, refl, arith, String, Bool, true, false, Option, none, some, List, ltb, beq, if◌then◌else◌,
  length, any-filter-length, filter, head?, any,
}
use ev_factory_twin.Schema.Fleet.{AppRole, designer, monitor}
use ev_factory_twin.Schema.Planning.{
  Scenario, ScenarioStatus, draft, simulated, submitted, approved, rejected, revision_requested,
  applied,
}
use ev_factory_twin.Prelude.{All, ◌≢◌}
use ev_factory_twin.Prelude.Newest.{newer, IsNewest, sort-filter-IsNewest}
use ev_factory_twin.Prelude.Sort.{sort}
use ev_factory_twin.Workflow.{
  is_by, Link, NextAction, layout_editor, my_candidates, filter_queue, mine_queue, awaiting_queue,
  approved_queue, newest_first, is_submitted, is_approved,
}
use Prim.Native.String.{◌++◌}

abbrev pub no_candidate : NextAction
no_candidate = record {
  headline = "No simulated candidate yet";
  hint = "Save a layout revision, then simulate it to produce KPIs a Monitor can review.";
  cta = some layout_editor;
}

unfoldable pub action_for : String → ScenarioStatus → NextAction
action_for name draft = no_candidate
action_for name simulated = record {
  headline = name ++ " is simulated but not submitted";
  hint = "A Monitor cannot see it until you submit it for review.";
  cta = some my_candidates;
}
action_for name submitted = record {
  headline = name ++ " is waiting for Monitor review";
  hint = "You cannot approve or apply your own candidate.";
  cta = some my_candidates;
}
action_for name approved = record {
  headline = name ++ " is approved and waiting to be applied";
  hint = "A Monitor applies it; the factory runtime changes only then.";
  cta = some my_candidates;
}
action_for name applied = record {
  headline = name ++ " is live in the factory";
  hint = "Save a new layout revision to propose the next improvement.";
  cta = some layout_editor;
}
action_for name _ = record {
  headline = name ++ " was rejected";
  hint = "A rejected candidate cannot be resubmitted. Adjust the layout and simulate a new one.";
  cta = some layout_editor;
}

abbrev pub review_queue : Link
review_queue = record { label = "Open review queue"; href = "/scenarios?queue=awaiting" }

abbrev pub apply_queue : Link
apply_queue = record { label = "Open apply queue"; href = "/scenarios?queue=approved" }

abbrev pub open_candidates : Link
open_candidates = record { label = "Open candidates"; href = "/scenarios" }

abbrev pub plural : ℕ → String
plural n = if beq n 1 then "" else "s"

abbrev pub action_for_latest : Option Scenario → NextAction
action_for_latest none = no_candidate
action_for_latest (some s) = action_for s.name s.status

-- The candidate is somewhere between its simulation and its application.
abbrev pub is_open : ScenarioStatus → Bool
is_open simulated = true
is_open submitted = true
is_open approved = true
is_open _ = false

abbrev pub open_one : Option Scenario → Bool
open_one none = false
open_one (some s) = is_open s.status

cta_of :
    (latest : Option Scenario)
    → (action_for_latest latest).cta
      ≡ some (if open_one latest then my_candidates else layout_editor)
unfolding action_for
cta_of none = refl
cta_of (some s) =
    elim s.status
      as (λ status.
        (action_for s.name status).cta
        ≡ some (if is_open status then my_candidates else layout_editor)) [
          | draft ↦ refl
          | simulated ↦ refl
          | submitted ↦ refl
          | approved ↦ refl
          | rejected ↦ refl
          | revision_requested ↦ refl
          | applied ↦ refl
        ]

module _ (date_parse : String → Option ℕ) (number_text : ℕ → String) where
  unfoldable pub designer_action : List Scenario → String → NextAction
  unfolding newest_first filter_queue action_for
  designer_action scenarios user_id =
      action_for_latest
        (head? (newest_first date_parse (filter_queue scenarios mine_queue user_id)))

  unfoldable pub monitor_action : List Scenario → NextAction
  unfolding filter_queue
  monitor_action scenarios =
      let awaiting = length (filter_queue scenarios awaiting_queue "") in
      let ready = length (filter_queue scenarios approved_queue "") in
      if ltb 0 awaiting
      then record {
        headline =
            number_text awaiting ++ (" candidate" ++ (plural awaiting ++ " awaiting your review"));
        hint = "Compare each candidate with the baseline before approving it.";
        cta = some review_queue;
      }
      else if ltb 0 ready
      then record {
        headline =
            number_text ready ++ (" approved candidate" ++ (plural ready ++ " ready to apply"));
        hint = "Applying queues a bridge command; runtime resets when the bridge completes it.";
        cta = some apply_queue;
      }
      else record {
        headline = "Nothing needs your review";
        hint = "Designers submit candidates here after simulating them.";
        cta = some open_candidates;
      }

  unfoldable pub next_action : AppRole → List Scenario → String → NextAction
  unfolding designer_action monitor_action
  next_action designer scenarios user_id = designer_action scenarios user_id
  next_action monitor scenarios user_id = monitor_action scenarios

  -- A Monitor is sent to the review queue as long as any candidate waits for review, else to the apply
  -- queue as long as any is approved, else to the list of candidates.
  pub monitor_priority :
      (scenarios : List Scenario) (user_id : String)
      → (next_action monitor scenarios user_id).cta
        ≡ some (
            if any (λ s. is_submitted s.status) scenarios
            then review_queue
            else if any (λ s. is_approved s.status) scenarios
            then apply_queue
            else open_candidates)
  unfolding next_action monitor_action filter_queue
  monitor_priority scenarios user_id =
      let waits = any-filter-length (λ (s : Scenario). is_submitted s.status) scenarios in
      let ready = any-filter-length (λ (s : Scenario). is_approved s.status) scenarios in
      ground (arith, waits, ready)

  -- A Designer is led by the newest of the candidates of their own, if the dates can be read: to the
  -- list of candidates while that one is between simulation and application, else to the layout editor.
  pub designer_follows-IsNewest :
      (scenarios : List Scenario) (user_id : String)
      → All (λ s. date_parse s.created_at ≢ none) scenarios
      → (latest : Option Scenario) × IsNewest
          (λ s. date_parse s.created_at)
          (is_by user_id)
          scenarios
          latest
        × ((next_action designer scenarios user_id).cta
            ≡ some (if open_one latest then my_candidates else layout_editor))
  unfolding next_action designer_action filter_queue newest_first
  designer_follows-IsNewest scenarios user_id dated =
      let latest =
        head? (sort (newer (λ s. date_parse s.created_at)) (filter (is_by user_id) scenarios)) in
      (
        latest,
        sort-filter-IsNewest (λ s. date_parse s.created_at) (is_by user_id) scenarios dated,
        cta_of latest,
      )
