-- ===== src/InitialData.antt =====
-- apps/frontend/src/hooks/use-initial-factory-data.ts: the first snapshot of a page. Each call of
-- `load` has a generation, and the answer of its fetch is an input that names it. `now` is `Date.now()`
-- during one step.
pub mod Races
pub mod Tests
use ev_factory_twin.Prelude.{
  ℕ, ◌+◌, Bool, true, false, Option, none, some, List, [], ◌∷◌, ◌++◌, beq, if◌then◌else◌,
}
use ev_factory_twin.Snapshot.{FactorySnapshot, commit_factory_snapshot}
use ev_factory_twin.Store.{FactoryStore, mock, set_connection_status}

pub data LoadState : Type 0 where
  is_loading is_ready is_error : LoadState

pub record InitialData : Type 0 where
  pub state : LoadState
  pub generation : ℕ
  -- the generation whose controller is `activeRequestRef.current`
  pub active_request : Option ℕ
  pub store : FactoryStore
  -- the generations whose requests were aborted
  pub aborted : List ℕ

abbrev pub abort : Option ℕ → InitialData → InitialData
abort none s = s
abort (some generation) s = record s { aborted = s.aborted ++ generation ∷ [] }

-- The `finally` of `load`.
abbrev pub clear_request : ℕ → Option ℕ → Option ℕ
clear_request generation none = none
clear_request generation (some g) = if beq g generation then none else some g

abbrev pub finish_request : ℕ → InitialData → InitialData
finish_request generation s = record s {
  active_request = clear_request generation s.active_request;
}

-- `load` up to its `await`, with REST data.
unfoldable pub load : InitialData → InitialData
load s = record (abort s.active_request s) {
  generation = s.generation + 1;
  active_request = some (s.generation + 1);
  state = is_loading;
}

-- `load` with the fixtures, which needs no answer.
unfoldable pub load_fixtures : ℕ → FactorySnapshot → InitialData → InitialData
unfolding load
load_fixtures now fixtures s = finish_request (s.generation + 1) (record (load s) {
  store = set_connection_status mock (commit_factory_snapshot now fixtures s.store);
  state = is_ready;
})

-- The snapshot of a load arrives.
unfoldable pub load_arrives : ℕ → ℕ → FactorySnapshot → InitialData → InitialData
load_arrives now generation snapshot s = finish_request generation (
    if beq generation s.generation
    then record s { store = commit_factory_snapshot now snapshot s.store; state = is_ready }
    else s)

-- The fetch of a load fails.
unfoldable pub load_fails : ℕ → InitialData → InitialData
load_fails generation s =
    finish_request generation
      (if beq generation s.generation then record s { state = is_error } else s)

-- The effect's cleanup.
unfoldable pub leave : InitialData → InitialData
leave s = record (abort s.active_request s) { generation = s.generation + 1; active_request = none }
