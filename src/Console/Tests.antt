-- ===== src/Console/Tests.antt =====
-- A run of the socket and the hook together.
use ev_factory_twin.Prelude.{◌≡◌, refl, arith, [], ◌∷◌}
use ev_factory_twin.Samples.{date_of, snapshot, first_event, second_event, other_event, live_store}
use ev_factory_twin.Snapshot.{commit_factory_snapshot}
use ev_factory_twin.Socket.{run, auth_resolved}
use ev_factory_twin.Socket.Order.{messages}
use ev_factory_twin.Socket.Tests.{waiting}
use ev_factory_twin.Store.{live, set_connection_status}
use ev_factory_twin.Sync.{apply_events}
use ev_factory_twin.Sync.Inputs.{snapshot_arrives}
use ev_factory_twin.Sync.Tests.{fetching}
use ev_factory_twin.Console.{follow}
use ev_factory_twin.Console.Handover.{stream_behind_snapshot}

stream_behind_snapshot_example :
    (follow date_of 20 waiting
      (run
        (messages 0 (second_event ∷ []))
        (auth_resolved 0 (run (messages 0 (first_event ∷ other_event ∷ [])) waiting)))
      (snapshot_arrives date_of 10 1 snapshot fetching)).store
    ≡ apply_events date_of 20
        (first_event ∷ other_event ∷ second_event ∷ [])
        (set_connection_status live (commit_factory_snapshot 10 snapshot live_store))
stream_behind_snapshot_example =
    stream_behind_snapshot date_of 20 10 0 1 snapshot (first_event ∷ other_event ∷ [])
      (second_event ∷ []) waiting fetching
      (record { current = refl; running = refl; signed_in = refl; usable = refl }) refl refl
      (omega arith) refl refl refl refl
