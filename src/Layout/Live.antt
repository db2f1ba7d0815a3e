-- ===== src/Layout/Live.antt =====
-- apps/frontend/src/hooks/use-applied-factory-layout.ts: the layout of the factory that runs. Each run of
-- the effect is a load with a number; its answers are inputs that name it. The console's views show
-- `layout`.
pub mod Overtaken
use ev_factory_twin.Prelude.{
  ℕ, ◌+◌, String, Bool, true, false, Option, none, some, List, [], ◌∷◌, ◌++◌, beq, if◌then◌else◌,
}
use ev_factory_twin.Schema.Layout.{FactoryLayout, LayoutVersion}
use ev_factory_twin.Schema.Planning.{Scenario}
use ev_factory_twin.Layout.{default_factory_layout, project_layout_version, latest_applied_scenario}

pub data Request : Type 0 where
  asks_scenarios : ℕ → Request
  -- the version of a layout, for a load
  asks_version : ℕ → String → ℕ → Request

pub record AppliedLayout : Type 0 where
  pub layout : FactoryLayout
  pub loads : ℕ
  -- the load whose `active` is true
  pub active_load : Option ℕ
  pub requests : List Request

abbrev pub initial : AppliedLayout
initial = record { layout = default_factory_layout; loads = 0; active_load = none; requests = [] }

pub data Input : Type 0 where
  -- the component mounts, or `factoryRevision` changes
  changes_revision : Input
  gets_scenarios : ℕ → List Scenario → Input
  gets_version : ℕ → LayoutVersion → Input
  fails : ℕ → Input
  unmounts : Input

abbrev pub is_active_load : ℕ → Option ℕ → Bool
is_active_load load none = false
is_active_load load (some active) = beq load active

abbrev pub ask_version : ℕ → Option Scenario → AppliedLayout → AppliedLayout
ask_version load none s = s
ask_version load (some applied) s = record s {
  requests =
      s.requests ++ asks_version load applied.config.layout_id applied.config.layout_version ∷ [];
}

-- A version whose projection throws changes nothing.
abbrev pub show_layout : Option FactoryLayout → AppliedLayout → AppliedLayout
show_layout none s = s
show_layout (some layout) s = record s { layout = layout }

module _ (date_parse : String → Option ℕ) where
  unfoldable pub step : Input → AppliedLayout → AppliedLayout
  step changes_revision s = record s {
    loads = s.loads + 1;
    active_load = some (s.loads + 1);
    requests = s.requests ++ asks_scenarios (s.loads + 1) ∷ [];
  }
  step (gets_scenarios load scenarios) s =
      ask_version load (latest_applied_scenario date_parse scenarios) s
  step (gets_version load version) s =
      if is_active_load load s.active_load
      then show_layout (project_layout_version version) s
      else s
  step (fails load) s = s
  step unmounts s = record s { active_load = none }

  unfoldable pub run : List Input → AppliedLayout → AppliedLayout
  run [] s = s
  run (i ∷ inputs) s = run inputs (step i s)
