-- ===== src/Sync/Sound.antt =====
-- The invariant of use-factory-socket.ts, and its parts.
pub mod Store
pub mod Steps
use ev_factory_twin.Prelude.{
  ℕ, ◌+◌, ◌≤◌, ◌≡◌, refl, ap, sym, ◌∙◌, String, Bool, true, false, not, ◌&&◌, Option, none, some,
  List, [], ◌∷◌, ◌++◌, ◌==◌, beq, any, inl, inr, arith, if◌then◌else◌, length, length-append, drop,
  length-drop, Bool-cases, if-elim, leb,
}
use ev_factory_twin.Schema.Event.{FactoryEvent, factory_reset}
use ev_factory_twin.Snapshot.{FactorySnapshot, commit_factory_snapshot}
use ev_factory_twin.Store.{
  set_connection_status, clear_metrics_history, bump_factory_revision, set_paused, toggle_paused,
  reset,
}
use ev_factory_twin.Sync.{
  Sync, Effect, Waiter, authentication, recovery, perform, on_store, is_current, is_reset,
  buffer_paused_event, buffer_paused_events, synchronize_snapshot, cancel_synchronization,
  request_recovery, tell, settle, apply_event, apply_events, receive_event, receive_events,
  socket_pending_event_limit, paused_factory_event_limit,
}
use ev_factory_twin.Sync.Sound.Store.{paused-apply_event, paused-apply_events, paused-commit}
use ev_factory_twin.Sync.Inputs.{
  after_last_reset, finish, snapshot_arrives, snapshot_fails, on_status, on_authenticated,
  on_auth_failure, unmount, on_pause, on_resume, on_store_change, changes_store, step, run,
}

-- Events are buffered only while a synchronisation runs, which then has a fetch in flight; events and
-- a snapshot are kept for later only while the user has paused; neither buffer passes its limit.
pub record IsOrderly (s : Sync) : Type 0 where
  pub joined : s.synchronizing ≡ s.active
  pub held : s.synchronizing ≡ false → s.buffered_events ≡ []
  pub bounded : length s.buffered_events ≤ socket_pending_event_limit
  pub paused_events_held : s.mounted ≡ true → s.store.paused ≡ false → s.paused_events ≡ []
  pub paused_snapshot_held : s.mounted ≡ true → s.store.paused ≡ false → s.paused_snapshot ≡ none
  pub paused_bounded : length s.paused_events ≤ paused_factory_event_limit
  pub in_flight :
      s.synchronizing ≡ true → s.mounted ≡ true → s.fetching ≡ some s.snapshot_generation

synchronize_snapshot-IsOrderly :
    (w : Waiter) (s : Sync) → IsOrderly s → IsOrderly (synchronize_snapshot w s)
unfolding synchronize_snapshot set_connection_status
synchronize_snapshot-IsOrderly w s h = ground arith

-- Cancelling needs less: it empties the buffer itself.
cancel_synchronization-IsOrderly : (s : Sync) → IsOrderly s → IsOrderly (cancel_synchronization s)
unfolding cancel_synchronization
cancel_synchronization-IsOrderly s h = ground arith

request_recovery-IsOrderly : (s : Sync) → IsOrderly s → IsOrderly (request_recovery s)
unfolding request_recovery set_connection_status
request_recovery-IsOrderly s h = ground arith

buffer_paused_event-IsOrderly :
    (e : FactoryEvent) (s : Sync)
    → s.store.paused ≡ true
    → IsOrderly s
    → IsOrderly (buffer_paused_event e s)
unfolding buffer_paused_event
buffer_paused_event-IsOrderly e s p h = ground (
  arith,
  length-append s.paused_events (e ∷ []),
  length-append (drop 1 s.paused_events) (e ∷ []),
  length-drop 1 s.paused_events,
)

tell-IsOrderly : (ok : Bool) (w : Waiter) (s : Sync) → IsOrderly s → IsOrderly (tell ok w s)
unfolding tell
tell-IsOrderly ok authentication s h = ground arith
tell-IsOrderly true recovery s h = h
tell-IsOrderly false recovery s h = request_recovery-IsOrderly s h

settle-IsOrderly :
    (generation : ℕ) (ok : Bool) (waiters : List (ℕ × Waiter)) (s : Sync)
    → IsOrderly s
    → IsOrderly (settle generation ok waiters s)
unfolding settle
settle-IsOrderly generation ok [] s h = h
settle-IsOrderly generation ok ((g, w) ∷ waiters) s h = elim (Bool-cases (beq g generation)) [
  | inl e ↦ rw e (settle-IsOrderly generation ok waiters (tell ok w s) (tell-IsOrderly ok w s h))
  | inr e ↦ rw e (
      settle-IsOrderly generation ok waiters (record s { waiters = s.waiters ++ (g, w) ∷ [] })
        (ground arith))
]

module _ (date_parse : String → Option ℕ) (now : ℕ) where
  receive_event-IsOrderly :
      (e : FactoryEvent) (s : Sync) → IsOrderly s → IsOrderly (receive_event date_parse now e s)
  unfolding receive_event clear_metrics_history bump_factory_revision
  receive_event-IsOrderly e s h =
      if-elim IsOrderly s.store.paused (λ p. buffer_paused_event-IsOrderly e s p h)
        λ p.
          if-elim IsOrderly s.synchronizing
            (λ y.
              if-elim IsOrderly (leb socket_pending_event_limit (length s.buffered_events))
                (λ _. request_recovery-IsOrderly s h)
                (λ room. ground (arith, length-append s.buffered_events (e ∷ []))))
            λ n.
              if-elim IsOrderly (is_reset e)
                (λ _. synchronize_snapshot-IsOrderly recovery _ (ground arith))
                (λ _. ground (arith, paused-apply_event date_parse now e s.store))

  receive_events-IsOrderly :
      (es : List FactoryEvent) (s : Sync)
      → IsOrderly s
      → IsOrderly (receive_events date_parse now es s)
  unfolding receive_events
  receive_events-IsOrderly [] s h = h
  receive_events-IsOrderly (e ∷ es) s h =
      receive_events-IsOrderly es (receive_event date_parse now e s) (receive_event-IsOrderly e s h)
