-- ===== src/Sync/Tests.antt =====
-- Tests of the model of use-factory-socket.ts.
use ev_factory_twin.Prelude.{ℕ, zero, suc, ◌≡◌, refl, arith, true, false, none, some, List, [], ◌∷◌}
use ev_factory_twin.Samples.{date_of, snapshot, first_event, second_event, other_event, live_store}
use ev_factory_twin.Schema.Event.{FactoryEvent, factory_reset}
use ev_factory_twin.Snapshot.{commit_factory_snapshot}
use ev_factory_twin.Store.{live, set_connection_status, set_paused}
use ev_factory_twin.Sync.{Sync, authentication, apply_events, receive_events}
use ev_factory_twin.Sync.Inputs.{
  Input, gets_event, gets_snapshot, sets_pause, authenticates, snapshot_arrives, changes_store, run,
}
use ev_factory_twin.Sync.Sound.{IsOrderly}
use ev_factory_twin.Sync.Sound.Steps.{run-IsOrderly}
use ev_factory_twin.Sync.Replay.{recovery_in_order, DiscardsFor, reset_discards_snapshot}
use ev_factory_twin.Sync.Pausing.Resume.{pause_replays_in_order}
use ev_factory_twin.Sync.Pausing.Recovery.{pause_during_recovery_reorders}
use ev_factory_twin.Sync.Pausing.Overflow.{StartsOver, pause_overflow_refetches}

-- A mounted hook that has done nothing yet.
abbrev fresh : Sync
fresh = record {
  store = live_store;
  mounted = true;
  snapshot_generation = 0;
  synchronizing = false;
  buffered_events = [];
  active = false;
  fetching = none;
  waiters = [];
  recovery_requested = false;
  paused_events = [];
  paused_snapshot = none;
  pause_overflow_warned = false;
  paused_buffer_incomplete = false;
  access_token = "T";
  refresh_attempted_for_token = none;
  effects = [];
}

-- A hook whose first snapshot is being fetched.
abbrev pub fetching : Sync
fetching = record fresh {
  snapshot_generation = 1;
  synchronizing = true;
  active = true;
  fetching = some 1;
  waiters = (1, authentication) ∷ [];
}

recovery_in_order_example :
    (snapshot_arrives date_of 20 1 snapshot
      (receive_events date_of 10 (first_event ∷ second_event ∷ []) fetching)).store
    ≡ set_connection_status live (
        apply_events date_of 20
          (first_event ∷ second_event ∷ [])
          (commit_factory_snapshot 20 snapshot live_store))
recovery_in_order_example =
    recovery_in_order date_of 10 20 1 snapshot (first_event ∷ second_event ∷ []) fetching refl refl
      refl refl (omega arith)

-- A reset came between two events.
abbrev reset_between : Sync
reset_between = record fetching {
  buffered_events = first_event ∷ factory_reset ∷ second_event ∷ [];
}

reset_discards_snapshot_example :
    DiscardsFor 1 reset_between (snapshot_arrives date_of 20 1 snapshot reset_between)
reset_discards_snapshot_example =
    reset_discards_snapshot date_of 20 1 snapshot reset_between refl refl

pause_replays_in_order_example :
    (changes_store date_of 3 (set_paused false) (
      receive_events date_of 2
        (first_event ∷ other_event ∷ [])
        (changes_store date_of 1 (set_paused true) fresh))).store
    ≡ apply_events date_of 3 (first_event ∷ other_event ∷ []) live_store
pause_replays_in_order_example =
    pause_replays_in_order date_of 1 2 3 (first_event ∷ other_event ∷ []) fresh
      (refl, refl, refl, refl, refl, refl) refl (omega arith)

-- The snapshot holds the robot. The second telemetry came last, and the first one stays.
pause_during_recovery_reorders_example :
    (changes_store date_of 5 (set_paused false) (
      snapshot_arrives date_of 4 1 snapshot (
        receive_events date_of 3 (second_event ∷ []) (
          changes_store date_of 2
            (set_paused true)
            (receive_events date_of 1 (first_event ∷ []) fetching))))).store
    ≡ apply_events date_of 5
        (second_event ∷ first_event ∷ [])
        (commit_factory_snapshot 5 snapshot (set_connection_status live live_store))
pause_during_recovery_reorders_example =
    pause_during_recovery_reorders date_of 1 2 3 4 5 1 snapshot (first_event ∷ [])
      (second_event ∷ []) fetching refl refl refl refl refl refl (omega arith)

abbrev many : ℕ → List FactoryEvent
many zero = []
many (suc n) = first_event ∷ many n

pause_overflow_refetches_example : StartsOver fresh (
    changes_store date_of 3
      (set_paused false)
      (receive_events date_of 2 (many 501) (changes_store date_of 1 (set_paused true) fresh)))
pause_overflow_refetches_example =
    pause_overflow_refetches date_of 1 2 3 (many 501) fresh (refl, refl, refl, refl, refl, refl)
      refl (omega arith)

abbrev day : List (ℕ × Input)
day =
    (1, authenticates)
    ∷ (2, gets_event first_event)
    ∷ (3, sets_pause true)
    ∷ (4, gets_event factory_reset)
    ∷ (5, gets_snapshot 1 snapshot)
    ∷ (6, sets_pause false)
    ∷ []

run-IsOrderly_example : IsOrderly (run date_of day fresh)
run-IsOrderly_example = run-IsOrderly date_of day fresh (ground arith)
