-- ===== src/Sync/Inputs.antt =====
-- apps/frontend/src/hooks/use-factory-socket.ts: the answers of the snapshot fetch, the pause button,
-- and the callbacks that the hook gives to its `FactorySocket`.
use ev_factory_twin.Prelude.{
  ℕ, String, Bool, true, false, not, ◌&&◌, Option, none, some, List, [], ◌∷◌, ◌==◌, beq, any,
  if◌then◌else◌,
}
use ev_factory_twin.Schema.Event.{FactoryEvent}
use ev_factory_twin.Socket.State.{close_unauthorized, close_forbidden, close_profile_changed}
use ev_factory_twin.Snapshot.{FactorySnapshot, commit_factory_snapshot}
use ev_factory_twin.Store.{
  FactoryStore, ConnectionStatus, live, offline, clear_metrics_history, set_connection_status,
  set_paused, toggle_paused, reset,
}
use ev_factory_twin.Sync.{
  Sync, fetches, invalidates_session, refreshes_user, refreshes_session, disconnects_socket,
  authentication, recovery, perform, on_store, is_current, is_reset, buffer_paused_events,
  synchronize_snapshot, cancel_synchronization, settle, apply_events, receive_event, receive_events,
}

-- The events behind the last reset: `pending.slice(latestReset + 1)`.
unfoldable pub after_last_reset : List FactoryEvent → List FactoryEvent
after_last_reset [] = []
after_last_reset (e ∷ es) =
    let rest = after_last_reset es in
    if any is_reset es then rest else if is_reset e then es else e ∷ es

-- `if (activeSnapshotController === controller) activeSnapshotController = null`
abbrev pub clear_fetch : ℕ → Option ℕ → Option ℕ
clear_fetch generation none = none
clear_fetch generation (some f) = if beq f generation then none else some f

abbrev pub fetch_done : ℕ → Sync → Sync
fetch_done generation s = record s { fetching = clear_fetch generation s.fetching }

-- The `finally` of the synchronisation.
abbrev pub finish : ℕ → Bool → Sync → Sync
finish generation ok s =
    let ended : Sync =
      if is_current generation s then record s { synchronizing = false; active = false } else s in
    settle generation ok s.waiters (record ended { waiters = [] })

unfoldable pub snapshot_fails : ℕ → Sync → Sync
snapshot_fails generation s =
    let done = fetch_done generation s in
    if is_current generation s
    then finish generation false
        (on_store (set_connection_status offline) (record done { buffered_events = [] }))
    else finish generation false done

abbrev pub is_offline : ConnectionStatus → Bool
is_offline offline = true
is_offline _ = false

abbrev pub forget_pause : Sync → Sync
forget_pause s = record s {
  paused_snapshot = none;
  paused_events = [];
  paused_buffer_incomplete = false;
}

abbrev pub commit_kept : ℕ → Option FactorySnapshot → Sync → Sync
commit_kept now none s = s
commit_kept now (some snapshot) s = on_store (commit_factory_snapshot now snapshot) s

unfoldable pub on_pause : Sync → Sync
on_pause s = record s { pause_overflow_warned = false; paused_buffer_incomplete = false }

-- The factory was reset while the snapshot was fetched: fetch again.
abbrev pub refetch : ℕ → Sync → Sync
refetch generation s = perform (fetches generation) (
    on_store clear_metrics_history (record s {
      buffered_events = after_last_reset s.buffered_events;
      fetching = some generation;
    }))

-- The user has paused: keep the snapshot for later, and the events that came after it.
abbrev pub keep_snapshot : FactorySnapshot → Sync → Sync
keep_snapshot snapshot s = on_store (set_connection_status live) (
    buffer_paused_events s.buffered_events
      (record s { buffered_events = []; paused_snapshot = some snapshot; synchronizing = false }))

module _ (date_parse : String → Option ℕ) (now : ℕ) where
  -- Store the snapshot, and apply the events that came after it.
  abbrev pub store_snapshot : FactorySnapshot → Sync → Sync
  store_snapshot snapshot s = record s {
    buffered_events = [];
    synchronizing = false;
    store = set_connection_status live (
        apply_events date_parse now s.buffered_events
          (commit_factory_snapshot now snapshot s.store));
  }

  abbrev pub use_snapshot : ℕ → FactorySnapshot → Sync → Sync
  use_snapshot generation snapshot s =
      if any is_reset s.buffered_events
      then refetch generation s
      else if s.store.paused
      then finish generation true (keep_snapshot snapshot s)
      else finish generation true (store_snapshot snapshot s)

  unfoldable pub snapshot_arrives : ℕ → FactorySnapshot → Sync → Sync
  snapshot_arrives generation snapshot s =
      let done = fetch_done generation s in
      if is_current generation s
      then use_snapshot generation snapshot done
      else finish generation true done

  unfoldable pub on_resume : Sync → Sync
  on_resume s' =
      let s : Sync = record s' { pause_overflow_warned = false } in
      if is_offline s.store.connection_status
      then forget_pause s
      else if s.paused_buffer_incomplete
      then synchronize_snapshot recovery (forget_pause s)
      else receive_events date_parse now s.paused_events (
          commit_kept now s.paused_snapshot
            (record s { paused_snapshot = none; paused_events = [] }))

  -- The store's subscription, which sees each change of the store; `previous` is `previous.paused`.
  unfoldable pub on_store_change : Bool → Sync → Sync
  unfolding on_pause on_resume
  on_store_change previous s =
      if not previous && s.store.paused
      then on_pause s
      else if previous && not s.store.paused
      then on_resume s
      else s

  -- The pause button, and the store's reset at a logout, while the subscription lasts.
  unfoldable pub changes_store : (FactoryStore → FactoryStore) → Sync → Sync
  unfolding on_store_change
  changes_store f s =
      let changed = on_store f s in
      if s.mounted then on_store_change s.store.paused changed else changed

-- The socket's `onStatus`.
unfoldable pub on_status : ConnectionStatus → Sync → Sync
unfolding cancel_synchronization
on_status offline s = record (cancel_synchronization (on_store (set_connection_status offline) s)) {
  paused_snapshot = none;
  paused_events = [];
  pause_overflow_warned = false;
  paused_buffer_incomplete = false;
}
on_status status s = on_store (set_connection_status status) s

-- The socket's `onAuthenticated`.
unfoldable pub on_authenticated : Sync → Sync
unfolding synchronize_snapshot
on_authenticated s =
    synchronize_snapshot authentication
      (on_store clear_metrics_history (record s { recovery_requested = false }))

abbrev pub attempted : String → Option String → Bool
attempted token none = false
attempted token (some t) = t == token

-- The socket's `onAuthFailure`.
unfoldable pub on_auth_failure : ℕ → Sync → Sync
on_auth_failure code s =
    if beq code close_forbidden
    then perform invalidates_session s
    else if beq code close_profile_changed
    then perform refreshes_user s
    else if beq code close_unauthorized
        && not (attempted s.access_token s.refresh_attempted_for_token)
    then perform refreshes_session (record s { refresh_attempted_for_token = some s.access_token })
    else s

-- The effect's cleanup.
unfoldable pub unmount : Sync → Sync
unfolding cancel_synchronization
unmount s = perform disconnects_socket (cancel_synchronization (record s { mounted = false }))

pub data Input : Type 0 where
  gets_event : FactoryEvent → Input
  gets_snapshot : ℕ → FactorySnapshot → Input
  loses_snapshot : ℕ → Input
  sets_pause : Bool → Input
  toggles_pause : Input
  resets_store : Input
  gets_status : ConnectionStatus → Input
  authenticates : Input
  fails_auth : ℕ → Input
  unmounts : Input

module _ (date_parse : String → Option ℕ) where
  -- Each input comes with its time.
  unfoldable pub step : ℕ × Input → Sync → Sync
  step (now, gets_event e) s = receive_event date_parse now e s
  step (now, gets_snapshot generation snapshot) s =
      snapshot_arrives date_parse now generation snapshot s
  step (now, loses_snapshot generation) s = snapshot_fails generation s
  step (now, sets_pause paused) s = changes_store date_parse now (set_paused paused) s
  step (now, toggles_pause) s = changes_store date_parse now toggle_paused s
  step (now, resets_store) s = changes_store date_parse now reset s
  step (now, gets_status status) s = on_status status s
  step (now, authenticates) s = on_authenticated s
  step (now, fails_auth code) s = on_auth_failure code s
  step (now, unmounts) s = unmount s

  unfoldable pub run : List (ℕ × Input) → Sync → Sync
  run [] s = s
  run (i ∷ inputs) s = run inputs (step i s)
