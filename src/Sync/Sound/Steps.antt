-- ===== src/Sync/Sound/Steps.antt =====
-- Every input of use-factory-socket.ts against the invariant.
use ev_factory_twin.Prelude.{
  ℕ, ◌≤◌, ◌≡◌, ◌∙◌, String, Bool, true, false, not, ◌&&◌, Option, none, some, List, [], ◌∷◌, any,
  arith, if◌then◌else◌, length, length-append, drop, length-drop, if-elim,
}
use ev_factory_twin.Schema.Event.{FactoryEvent}
use ev_factory_twin.Snapshot.{FactorySnapshot, commit_factory_snapshot}
use ev_factory_twin.Store.{
  FactoryStore, ConnectionStatus, offline, set_connection_status, clear_metrics_history, set_paused,
  toggle_paused, reset,
}
use ev_factory_twin.Sync.{
  Sync, authentication, recovery, on_store, is_current, is_reset, buffer_paused_event,
  buffer_paused_events, paused_factory_event_limit,
}
use ev_factory_twin.Sync.Sound.Store.{paused-apply_events, paused-commit}
use ev_factory_twin.Sync.Inputs.{
  after_last_reset, finish, clear_fetch, forget_pause, commit_kept, is_offline, fetch_done,
  keep_snapshot, store_snapshot, snapshot_arrives, snapshot_fails, on_status, on_authenticated,
  on_auth_failure, unmount, on_pause, on_resume, on_store_change, changes_store, step, run, Input,
  gets_event, gets_snapshot, loses_snapshot, sets_pause, toggles_pause, resets_store, gets_status,
  authenticates, fails_auth, unmounts,
}
use ev_factory_twin.Sync.Sound.{
  IsOrderly, synchronize_snapshot-IsOrderly, settle-IsOrderly, receive_event-IsOrderly,
  receive_events-IsOrderly,
}

-- Buffering a paused event leaves these parts of the state alone, and the buffer within its limit.
record KeepsRest (s t : Sync) : Type 0 where
  store : t.store ≡ s.store
  mounted : t.mounted ≡ s.mounted
  snapshot_generation : t.snapshot_generation ≡ s.snapshot_generation
  synchronizing : t.synchronizing ≡ s.synchronizing
  buffered_events : t.buffered_events ≡ s.buffered_events
  fetching : t.fetching ≡ s.fetching
  within :
      length s.paused_events ≤ paused_factory_event_limit
      → length t.paused_events ≤ paused_factory_event_limit

buffer_paused_event-KeepsRest :
    (e : FactoryEvent) (s : Sync) → KeepsRest s (buffer_paused_event e s)
unfolding buffer_paused_event
buffer_paused_event-KeepsRest e s = ground (
  arith,
  length-append s.paused_events (e ∷ []),
  length-append (drop 1 s.paused_events) (e ∷ []),
  length-drop 1 s.paused_events,
)

buffer_paused_events-KeepsRest :
    (es : List FactoryEvent) (s : Sync) → KeepsRest s (buffer_paused_events es s)
unfolding buffer_paused_events
buffer_paused_events-KeepsRest [] s = ground arith
buffer_paused_events-KeepsRest (e ∷ es) s =
    let one = buffer_paused_event-KeepsRest e s in
    let rest = buffer_paused_events-KeepsRest es (buffer_paused_event e s) in
    record {
      store = rest.store ∙ one.store;
      mounted = rest.mounted ∙ one.mounted;
      snapshot_generation = rest.snapshot_generation ∙ one.snapshot_generation;
      synchronizing = rest.synchronizing ∙ one.synchronizing;
      buffered_events = rest.buffered_events ∙ one.buffered_events;
      fetching = rest.fetching ∙ one.fetching;
      within = λ h. rest.within (one.within h);
    }

length-after_last_reset : (es : List FactoryEvent) → length (after_last_reset es) ≤ length es
unfolding after_last_reset
length-after_last_reset [] = omega arith
length-after_last_reset (e ∷ es) = ground (arith, length-after_last_reset es)

-- A synchronisation that has ended, one way or the other, as far as its state goes.
finish-IsOrderly :
    (generation : ℕ) (ok : Bool) (s : Sync)
    → IsOrderly
        (if is_current generation s then record s { synchronizing = false; active = false } else s)
    → IsOrderly (finish generation ok s)
finish-IsOrderly generation ok s h = settle-IsOrderly generation ok s.waiters _ (ground arith)

keep_snapshot-IsOrderly :
    (generation : ℕ) (snapshot : FactorySnapshot) (s : Sync)
    → IsOrderly s
    → is_current generation s ≡ true
    → s.store.paused ≡ true
    → IsOrderly (finish generation true (keep_snapshot snapshot (fetch_done generation s)))
unfolding set_connection_status
keep_snapshot-IsOrderly generation snapshot s h current paused =
    finish-IsOrderly generation true (keep_snapshot snapshot (fetch_done generation s)) (
      let t : Sync = record s {
        fetching = clear_fetch generation s.fetching;
        buffered_events = [];
        paused_snapshot = some snapshot;
        synchronizing = false;
      } in
      ground (arith, buffer_paused_events-KeepsRest s.buffered_events t))

module _ (date_parse : String → Option ℕ) (now : ℕ) where
  store_snapshot-IsOrderly :
      (generation : ℕ) (snapshot : FactorySnapshot) (s : Sync)
      → IsOrderly s
      → is_current generation s ≡ true
      → s.store.paused ≡ false
      → IsOrderly (
          finish generation true (store_snapshot date_parse now snapshot (fetch_done generation s)))
  unfolding set_connection_status
  store_snapshot-IsOrderly generation snapshot s h current paused =
      finish-IsOrderly generation true
        (store_snapshot date_parse now snapshot (fetch_done generation s))
        (ground (
          arith,
          paused-apply_events date_parse now s.buffered_events
              (commit_factory_snapshot now snapshot s.store),
          paused-commit now snapshot s.store,
        ))

  snapshot_arrives-IsOrderly :
      (generation : ℕ) (snapshot : FactorySnapshot) (s : Sync)
      → IsOrderly s
      → IsOrderly (snapshot_arrives date_parse now generation snapshot s)
  unfolding snapshot_arrives set_connection_status clear_metrics_history
  snapshot_arrives-IsOrderly generation snapshot s h =
      if-elim IsOrderly (is_current generation s)
        (λ current.
          if-elim IsOrderly (any is_reset s.buffered_events)
            (λ _. ground (arith, length-after_last_reset s.buffered_events))
            λ _.
              if-elim IsOrderly s.store.paused
                (λ paused. keep_snapshot-IsOrderly generation snapshot s h current paused)
                (λ paused. store_snapshot-IsOrderly generation snapshot s h current paused))
        (λ stale. finish-IsOrderly generation true (fetch_done generation s) (ground arith))

  on_resume-IsOrderly :
      (s : Sync) (t : FactoryStore)
      → IsOrderly s
      → IsOrderly (on_resume date_parse now (record s { store = t }))
  unfolding on_resume
  on_resume-IsOrderly s t h =
      if-elim IsOrderly (is_offline t.connection_status) (λ _. ground arith)
        λ _.
          if-elim IsOrderly s.paused_buffer_incomplete
            (λ _.
              synchronize_snapshot-IsOrderly recovery
                (forget_pause (record s { store = t; pause_overflow_warned = false }))
                (ground arith))
            λ _. receive_events-IsOrderly date_parse now s.paused_events _ (kept s.paused_snapshot)
    where
      kept :
          (o : Option FactorySnapshot)
          → IsOrderly (
              commit_kept now o (record s {
                store = t;
                pause_overflow_warned = false;
                paused_snapshot = none;
                paused_events = [];
              }))
      kept none = ground arith
      kept (some snapshot) = ground arith

  changes_store-IsOrderly :
      (f : FactoryStore → FactoryStore) (s : Sync)
      → IsOrderly s
      → IsOrderly (changes_store date_parse now f s)
  unfolding changes_store on_store_change on_pause
  changes_store-IsOrderly f s h =
      if-elim IsOrderly s.mounted
        (λ here.
          if-elim IsOrderly (not s.store.paused && (f s.store).paused) (λ pausing. ground arith)
            λ other.
              if-elim IsOrderly (s.store.paused && not (f s.store).paused)
                (λ resuming. on_resume-IsOrderly s (f s.store) h) (λ same. ground arith))
        (λ gone. ground arith)

snapshot_fails-IsOrderly :
    (generation : ℕ) (s : Sync) → IsOrderly s → IsOrderly (snapshot_fails generation s)
unfolding snapshot_fails set_connection_status
snapshot_fails-IsOrderly generation s h =
    if-elim IsOrderly (is_current generation s)
      (λ current.
        finish-IsOrderly generation false
          (on_store (set_connection_status offline)
            (record s { fetching = clear_fetch generation s.fetching; buffered_events = [] }))
          (ground arith))
      (λ stale. finish-IsOrderly generation false (fetch_done generation s) (ground arith))

on_status-IsOrderly :
    (status : ConnectionStatus) (s : Sync) → IsOrderly s → IsOrderly (on_status status s)
unfolding on_status set_connection_status
on_status-IsOrderly offline s h = ground arith
on_status-IsOrderly _ s h = ground arith

unmount-IsOrderly : (s : Sync) → IsOrderly s → IsOrderly (unmount s)
unfolding unmount
unmount-IsOrderly s h = ground arith

on_auth_failure-IsOrderly : (code : ℕ) (s : Sync) → IsOrderly s → IsOrderly (on_auth_failure code s)
unfolding on_auth_failure
on_auth_failure-IsOrderly code s h = ground arith

on_authenticated-IsOrderly : (s : Sync) → IsOrderly s → IsOrderly (on_authenticated s)
unfolding on_authenticated clear_metrics_history
on_authenticated-IsOrderly s h =
    synchronize_snapshot-IsOrderly authentication
      (on_store clear_metrics_history (record s { recovery_requested = false })) (ground arith)

module _ (date_parse : String → Option ℕ) where
  step-IsOrderly : (i : ℕ × Input) (s : Sync) → IsOrderly s → IsOrderly (step date_parse i s)
  unfolding step
  step-IsOrderly (now, gets_event e) s h = receive_event-IsOrderly date_parse now e s h
  step-IsOrderly (now, gets_snapshot generation snapshot) s h =
      snapshot_arrives-IsOrderly date_parse now generation snapshot s h
  step-IsOrderly (now, loses_snapshot generation) s h = snapshot_fails-IsOrderly generation s h
  step-IsOrderly (now, sets_pause paused) s h =
      changes_store-IsOrderly date_parse now (set_paused paused) s h
  step-IsOrderly (now, toggles_pause) s h = changes_store-IsOrderly date_parse now toggle_paused s h
  step-IsOrderly (now, resets_store) s h = changes_store-IsOrderly date_parse now reset s h
  step-IsOrderly (now, gets_status status) s h = on_status-IsOrderly status s h
  step-IsOrderly (now, authenticates) s h = on_authenticated-IsOrderly s h
  step-IsOrderly (now, fails_auth code) s h = on_auth_failure-IsOrderly code s h
  step-IsOrderly (now, unmounts) s h = unmount-IsOrderly s h

  -- Whatever the hook is told, in whatever order, keeps its state in order if it was: events are
  -- buffered only while a synchronisation runs, which has a fetch in flight as long as the hook is
  -- mounted; a mounted hook keeps events and a snapshot for later only while the user has paused;
  -- and neither buffer passes its limit.
  pub run-IsOrderly :
      (inputs : List (ℕ × Input)) (s : Sync) → IsOrderly s → IsOrderly (run date_parse inputs s)
  unfolding run
  run-IsOrderly [] s h = h
  run-IsOrderly (i ∷ inputs) s h = run-IsOrderly inputs (step date_parse i s) (step-IsOrderly i s h)
