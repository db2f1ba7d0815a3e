-- ===== src/Sync/Pausing.antt =====
-- The pause button in use-factory-socket.ts: what is done with the events that arrive while the user
-- has paused, and what the button does when it is pressed again.
pub mod Resume
pub mod Overflow
pub mod Recovery
use ev_factory_twin.Prelude.{
  ℕ, suc, ◌+◌, ◌≤◌, ◌<◌, ◌≡◌, refl, sym, ap, ◌∙◌, String, Bool, true, false, ◌||◌, ◌&&◌, not,
  Option, none, some, List, [], ◌∷◌, ◌++◌, append_assoc, append-nil, any, inl, inr, arith, beq, leb,
  length, length-append, drop, Bool-cases, if◌then◌else◌, if-true, if-false, if-elim,
}
use ev_factory_twin.Schema.Event.{
  FactoryEvent, robot_telemetry, task_updated, metrics_updated, alert_created, alert_updated,
  factory_reset, command_updated,
}
use ev_factory_twin.Snapshot.{FactorySnapshot, commit_factory_snapshot}
use ev_factory_twin.Store.{FactoryStore, set_paused}
use ev_factory_twin.Sync.{
  Sync, on_store, is_reset, buffer_paused_event, buffer_paused_events, paused_factory_event_limit,
  perform, warns_buffer_full, apply_event, apply_events, receive_event, receive_events,
}
use ev_factory_twin.Sync.Inputs.{on_pause, on_resume, changes_store, on_store_change, is_offline}
use ev_factory_twin.Sync.Sound.Store.{paused-apply_event}

-- Within the limit, what arrives while paused is kept in the order of arrival.
pub buffer_paused_events_kept :
    (es : List FactoryEvent) (s : Sync)
    → length s.paused_events + length es ≤ paused_factory_event_limit
    → buffer_paused_events es s ≡ record s { paused_events = s.paused_events ++ es }
unfolding buffer_paused_events buffer_paused_event
buffer_paused_events_kept [] s room =
    ap (λ b. record s { paused_events = b }) (sym (append-nil s.paused_events))
buffer_paused_events_kept (e ∷ es) s room =
    let one : Sync = record s { paused_events = s.paused_events ++ e ∷ [] } in
    ap (buffer_paused_events es)
      (if-false {b = leb paused_factory_event_limit (length s.paused_events)} _ _ (ground arith))
    ∙ buffer_paused_events_kept es one (omega (arith, length-append s.paused_events (e ∷ [])))
    ∙ ap (λ b. record s { paused_events = b }) (append_assoc s.paused_events (e ∷ []) es)

store-buffer_paused_event :
    (e : FactoryEvent) (s : Sync) → (buffer_paused_event e s).store ≡ s.store
unfolding buffer_paused_event
store-buffer_paused_event e s = ground arith

module _ (date_parse : String → Option ℕ) (now : ℕ) where
  pub receive_events_paused :
      (es : List FactoryEvent) (s : Sync)
      → s.store.paused ≡ true
      → receive_events date_parse now es s ≡ buffer_paused_events es s
  unfolding receive_events receive_event buffer_paused_events
  receive_events_paused [] s p = refl
  receive_events_paused (e ∷ es) s p =
      ap (receive_events date_parse now es) (if-true _ _ p)
      ∙ receive_events_paused es (buffer_paused_event e s)
          (ap (λ (t : FactoryStore). t.paused) (store-buffer_paused_event e s) ∙ p)

  pub receive_events_live :
      (es : List FactoryEvent) (s : Sync)
      → s.store.paused ≡ false
      → s.synchronizing ≡ false
      → any is_reset es ≡ false
      → receive_events date_parse now es s ≡ on_store (apply_events date_parse now es) s
  unfolding receive_events receive_event apply_events
  receive_events_live [] s p y none_reset = refl
  receive_events_live (e ∷ es) s p y none_reset =
      ap (receive_events date_parse now es)
        (if-false _ _ p ∙ if-false _ _ y ∙ if-false {b = is_reset e} _ _ (ground arith))
      ∙ receive_events_live es (on_store (apply_event date_parse now e) s)
          (paused-apply_event date_parse now e s.store ∙ p) y (ground arith)

  pub pauses :
      (s : Sync)
      → s.mounted ≡ true
      → s.store.paused ≡ false
      → changes_store date_parse now (set_paused true) s ≡ on_pause (on_store (set_paused true) s)
  unfolding changes_store on_store_change set_paused
  pauses s m p = if-true _ _ m ∙ if-true {b = not s.store.paused && true} _ _ (ground arith)

  pub resumes :
      (s : Sync)
      → s.mounted ≡ true
      → s.store.paused ≡ true
      → changes_store date_parse now (set_paused false) s
        ≡ on_resume date_parse now (on_store (set_paused false) s)
  unfolding changes_store on_store_change set_paused
  resumes s m p =
      if-true _ _ m
      ∙ if-false {b = not s.store.paused && false} _ _ (ground arith)
      ∙ if-true {b = s.store.paused && true} _ _ (ground arith)
