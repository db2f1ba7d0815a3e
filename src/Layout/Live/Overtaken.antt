-- ===== src/Layout/Live/Overtaken.antt =====
-- Answers of use-applied-factory-layout.ts that come after a newer load was made.
use ev_factory_twin.Prelude.{ℕ, ◌≡◌, ◌≤◌, Option}
use ev_factory_twin.Schema.Layout.{FactoryLayout}
use ev_factory_twin.Layout.Live.{AppliedLayout, Input, gets_scenarios, gets_version, fails}

-- An answer to one of the first loads.
abbrev pub IsAnswerUpTo : ℕ → Input → Type 0
IsAnswerUpTo loads (gets_scenarios load scenarios) = load ≤ loads
IsAnswerUpTo loads (gets_version load version) = load ≤ loads
IsAnswerUpTo loads (fails load) = load ≤ loads
IsAnswerUpTo loads _ = ⊥

-- The layout and the active load of a state.
abbrev IsShown : FactoryLayout → Option ℕ → AppliedLayout → Type 0
IsShown layout active s = (s.layout ≡ layout) × (s.active_load ≡ active)
