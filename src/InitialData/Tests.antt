-- ===== src/InitialData/Tests.antt =====
-- Tests of the model of hooks/use-initial-factory-data.ts.
use ev_factory_twin.Prelude.{none, []}
use ev_factory_twin.Samples.{snapshot}
use ev_factory_twin.Store.{initial}
use ev_factory_twin.InitialData.{InitialData, is_loading, load, load_arrives, load_fails}
use ev_factory_twin.InitialData.Races.{Shows, last_load_wins}

abbrev opened : InitialData
opened = record {
  state = is_loading;
  generation = 0;
  active_request = none;
  store = initial;
  aborted = [];
}

last_load_wins_example :
    Shows 9 snapshot opened (
      load_arrives 9 2 snapshot
        (load_arrives 5 1 (record snapshot { robots = [] }) (load (load opened))))
    × Shows 9 snapshot opened (
        load_arrives 5 1
          (record snapshot { robots = [] })
          (load_arrives 9 2 snapshot (load (load opened))))
    × Shows 9 snapshot opened (load_fails 1 (load_arrives 9 2 snapshot (load (load opened))))
last_load_wins_example = last_load_wins 5 9 (record snapshot { robots = [] }) snapshot opened
