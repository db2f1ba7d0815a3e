-- ===== src/Sync.antt =====
-- apps/frontend/src/hooks/use-factory-socket.ts: how the live event stream and the REST snapshots meet
-- in the store. One run of the hook's effect (one mount with one access token) is the record `Sync`,
-- whose fields are the closure's variables; each closure is a function on it. Snapshots are fetched
-- for a generation, and their answers are inputs. `now` is `Date.now()` during one input.
pub mod Inputs
pub mod Sound
pub mod Replay
pub mod Pausing
pub mod Tests
use ev_factory_twin.Prelude.{
  ℕ, ◌+◌, String, Bool, true, false, not, ◌&&◌, ◌||◌, Option, none, some, List, [], ◌∷◌, ◌++◌, ◌==◌,
  beq, leb, if◌then◌else◌, length, drop, any,
}
use ev_factory_twin.Schema.Event.{
  FactoryEvent, robot_telemetry, task_updated, metrics_updated, alert_created, alert_updated,
  factory_reset, command_updated,
}
use ev_factory_twin.Snapshot.{FactorySnapshot, commit_factory_snapshot}
use ev_factory_twin.Store.{
  FactoryStore, ConnectionStatus, connecting, live, offline, mock, update_robot_telemetry,
  update_task, set_metrics, add_alert, update_command, mark_data_updated, clear_metrics_history,
  bump_factory_revision, set_connection_status,
}

abbrev pub paused_factory_event_limit : ℕ
paused_factory_event_limit = 500

abbrev pub socket_pending_event_limit : ℕ
socket_pending_event_limit = 1000

-- Who waits for a synchronisation: the socket's authentication, which is settled with it, or a
-- handler that asks for recovery if it fails.
pub data Waiter : Type 0 where
  authentication recovery : Waiter

pub data Effect : Type 0 where
  fetches : ℕ → Effect
  aborts : ℕ → Effect
  settles_authentication : Bool → Effect
  requests_socket_recovery : Effect
  warns_buffer_full : Effect
  invalidates_session : Effect
  refreshes_user : Effect
  refreshes_session : Effect
  disconnects_socket : Effect

pub record Sync : Type 0 where
  pub store : FactoryStore
  -- `lifecycleGeneration.current === lifecycle`
  pub mounted : Bool
  pub snapshot_generation : ℕ
  pub synchronizing : Bool
  pub buffered_events : List FactoryEvent
  -- `activeSynchronization !== null`
  pub active : Bool
  -- the generation whose controller is `activeSnapshotController`
  pub fetching : Option ℕ
  -- who holds the promise of each generation
  pub waiters : List (ℕ × Waiter)
  pub recovery_requested : Bool
  pub paused_events : List FactoryEvent
  pub paused_snapshot : Option FactorySnapshot
  pub pause_overflow_warned : Bool
  pub paused_buffer_incomplete : Bool
  pub access_token : String
  pub refresh_attempted_for_token : Option String
  pub effects : List Effect

abbrev pub perform : Effect → Sync → Sync
perform e s = record s { effects = s.effects ++ e ∷ [] }

abbrev pub on_store : (FactoryStore → FactoryStore) → Sync → Sync
on_store f s = record s { store = f s.store }

abbrev pub is_current : ℕ → Sync → Bool
is_current generation s = s.mounted && beq s.snapshot_generation generation

abbrev pub is_reset : FactoryEvent → Bool
is_reset factory_reset = true
is_reset _ = false

unfoldable pub buffer_paused_event : FactoryEvent → Sync → Sync
buffer_paused_event e s =
    let full = leb paused_factory_event_limit (length s.paused_events) in
    let warned : Sync =
      if full && not s.pause_overflow_warned
      then perform warns_buffer_full (record s { pause_overflow_warned = true })
      else s in
    if full
    then record warned {
      paused_events = drop 1 s.paused_events ++ e ∷ [];
      paused_buffer_incomplete = true;
    }
    else record s { paused_events = s.paused_events ++ e ∷ [] }

unfoldable pub buffer_paused_events : List FactoryEvent → Sync → Sync
buffer_paused_events [] s = s
buffer_paused_events (e ∷ es) s = buffer_paused_events es (buffer_paused_event e s)

-- Starts a fetch, or joins the synchronisation that is under way.
unfoldable pub synchronize_snapshot : Waiter → Sync → Sync
synchronize_snapshot w s =
    if s.active
    then record s { waiters = s.waiters ++ (s.snapshot_generation, w) ∷ [] }
    else let generation = s.snapshot_generation + 1 in
      let started : Sync = record s {
        synchronizing = true;
        store = set_connection_status connecting s.store;
        snapshot_generation = generation;
        active = true;
        waiters = s.waiters ++ (generation, w) ∷ [];
      } in
      if s.mounted
      then perform (fetches generation) (record started { fetching = some generation })
      else started

abbrev pub abort_fetch : Option ℕ → Sync → Sync
abort_fetch none s = s
abort_fetch (some generation) s = perform (aborts generation) s

unfoldable pub cancel_synchronization : Sync → Sync
cancel_synchronization s = abort_fetch s.fetching (record s {
  snapshot_generation = s.snapshot_generation + 1;
  buffered_events = [];
  synchronizing = false;
  active = false;
  fetching = none;
})

unfoldable pub request_recovery : Sync → Sync
unfolding cancel_synchronization
request_recovery s =
    if s.recovery_requested || not s.mounted
    then s
    else perform requests_socket_recovery (
        on_store (set_connection_status offline)
          (cancel_synchronization (record s { recovery_requested = true })))

-- The promise of a synchronisation resolves (`ok`) or throws for one of those who wait for it.
unfoldable pub tell : Bool → Waiter → Sync → Sync
unfolding request_recovery
tell ok authentication s = perform (settles_authentication ok) s
tell true recovery s = s
tell false recovery s = request_recovery s

-- Those who wait for a generation are told in the order in which they came; the others go on waiting.
unfoldable pub settle : ℕ → Bool → List (ℕ × Waiter) → Sync → Sync
unfolding tell
settle generation ok [] s = s
settle generation ok ((g, w) ∷ waiters) s =
    settle generation ok waiters
      (if beq g generation then tell ok w s else record s { waiters = s.waiters ++ (g, w) ∷ [] })

module _ (date_parse : String → Option ℕ) (now : ℕ) where
  unfoldable pub apply_event : FactoryEvent → FactoryStore → FactoryStore
  apply_event (robot_telemetry t) s = mark_data_updated now (update_robot_telemetry t s)
  apply_event (task_updated t) s = mark_data_updated now (update_task t s)
  apply_event (metrics_updated m) s = mark_data_updated now (set_metrics now m s)
  apply_event (alert_created a) s = mark_data_updated now (add_alert a s)
  apply_event (alert_updated a) s = mark_data_updated now (add_alert a s)
  apply_event (command_updated c) s = mark_data_updated now (update_command date_parse c s)
  apply_event factory_reset s = mark_data_updated now s

  unfoldable pub apply_events : List FactoryEvent → FactoryStore → FactoryStore
  apply_events [] s = s
  apply_events (e ∷ es) s = apply_events es (apply_event e s)

  unfoldable pub receive_event : FactoryEvent → Sync → Sync
  receive_event e s =
      if s.store.paused
      then buffer_paused_event e s
      else if s.synchronizing
      then (if leb socket_pending_event_limit (length s.buffered_events)
          then request_recovery s
          else record s { buffered_events = s.buffered_events ++ e ∷ [] })
      else if is_reset e
      then synchronize_snapshot recovery
          (on_store (λ t. bump_factory_revision (clear_metrics_history t)) s)
      else on_store (apply_event e) s

  unfoldable pub receive_events : List FactoryEvent → Sync → Sync
  receive_events [] s = s
  receive_events (e ∷ es) s = receive_events es (receive_event e s)
