-- ===== src/Console/Handover.antt =====
-- A snapshot, the events that wait for it in the socket, and those behind it, end to end.
use ev_factory_twin.Prelude.{
  ℕ, ◌+◌, ◌≤◌, ◌≡◌, refl, sym, ap, ◌∙◌, arith, String, true, false, Option, List, [], ◌∷◌, ◌++◌,
  map, any, length, drop, subst,
}
use ev_factory_twin.Schema.Event.{FactoryEvent}
use ev_factory_twin.Snapshot.{FactorySnapshot, commit_factory_snapshot}
use ev_factory_twin.Socket.State.{FactorySocket, Call, delivers, reports, pending_event_limit}
use ev_factory_twin.Socket.State as Socket_state
use ev_factory_twin.Socket.{run, auth_resolved}
use ev_factory_twin.Socket.Order.{IsUp, messages, handover_in_order}
use ev_factory_twin.Store.{FactoryStore, live, set_connection_status}
use ev_factory_twin.Sync.{Sync, is_current, is_reset, receive_events, apply_events}
use ev_factory_twin.Sync.Inputs.{snapshot_arrives, on_status, store_snapshot, fetch_done}
use ev_factory_twin.Sync.Pausing.{receive_events_live}
use ev_factory_twin.Sync.Pausing.Recovery.{finish_kept}
use ev_factory_twin.Sync.Replay.{arrives_live}
use ev_factory_twin.Sync.Sound.Store.{paused-commit}
use ev_factory_twin.Console.{forward, forward_all, follow}

drop-append : {A : Type 0} (xs ys : List A) → drop (length xs) (xs ++ ys) ≡ ys
drop-append [] ys = refl
drop-append (x ∷ xs) ys = drop-append xs ys

-- The hook that has its snapshot.
abbrev Has : ℕ → FactorySnapshot → Sync → Sync → Type 0
Has now snapshot h t =
    (t.store ≡ set_connection_status live (commit_factory_snapshot now snapshot h.store))
    × (t.synchronizing ≡ false)

snapshot_stored :
    (date_parse : String → Option ℕ) (now generation : ℕ) (snapshot : FactorySnapshot) (h : Sync)
    → is_current generation h ≡ true
    → h.store.paused ≡ false
    → h.buffered_events ≡ []
    → Has now snapshot h (snapshot_arrives date_parse now generation snapshot h)
unfolding apply_events
snapshot_stored date_parse now generation snapshot h current p none_waits =
    let stored = store_snapshot date_parse now snapshot (fetch_done generation h) in
    let (kept, _, idle, _, _, _) = finish_kept generation stored refl in
    subst (Has now snapshot h)
      (sym (
        arrives_live date_parse now generation snapshot h current (ap (any is_reset) none_waits) p))
      (
        kept
            ∙ ap
                (λ es.
                  set_connection_status live
                    (apply_events date_parse now es (commit_factory_snapshot now snapshot h.store)))
                none_waits,
        idle,
      )

module _ (date_parse : String → Option ℕ) (now : ℕ) where
  forward_all_events :
      (es : List FactoryEvent) (h : Sync)
      → forward_all date_parse now (map delivers es) h ≡ receive_events date_parse now es h
  unfolding forward_all forward receive_events
  forward_all_events [] h = refl
  forward_all_events (e ∷ es) h = forward_all_events es _

  follow_handover :
      (old new : FactorySocket) (es : List FactoryEvent) (h : Sync)
      → new.calls ≡ old.calls ++ reports Socket_state.live ∷ map delivers es
      → follow date_parse now old new h ≡ receive_events date_parse now es (on_status live h)
  unfolding follow forward_all forward
  follow_handover old new es h called =
      ap (λ cs. forward_all date_parse now (drop (length old.calls) cs) h) called
      ∙ ap (λ cs. forward_all date_parse now cs h)
          (drop-append old.calls (reports Socket_state.live ∷ map delivers es))
      ∙ forward_all_events es (on_status live h)

  -- What an open and authenticated socket received until the current snapshot came, within the limit,
  -- and what it receives afterwards is applied to that snapshot once each in the order of arrival, and
  -- the connection is shown as live, if the user has not paused, neither the socket nor the hook held
  -- an event before, and no reset is among them.
  pub stream_behind_snapshot :
      (arrival id generation : ℕ) (snapshot : FactorySnapshot) (es fs : List FactoryEvent)
      (s : FactorySocket) (h : Sync)
      → IsUp id s
      → s.synchronized ≡ false
      → s.pending_events ≡ []
      → length es ≤ pending_event_limit
      → is_current generation h ≡ true
      → h.store.paused ≡ false
      → h.buffered_events ≡ []
      → any is_reset (es ++ fs) ≡ false
      → (follow date_parse now s
          (run (messages id fs) (auth_resolved id (run (messages id es) s)))
          (snapshot_arrives date_parse arrival generation snapshot h)).store
        ≡ apply_events date_parse now
            (es ++ fs)
            (set_connection_status live (commit_factory_snapshot arrival snapshot h.store))
  unfolding on_status set_connection_status
  stream_behind_snapshot arrival id generation snapshot es fs s h up unsynchronized none_pending
        room current p none_waits none_reset =
      let done = snapshot_arrives date_parse arrival generation snapshot h in
      let (stored, idle) =
        snapshot_stored date_parse arrival generation snapshot h current p none_waits in
      ap (λ (t : Sync). t.store)
        (follow_handover s _ (es ++ fs) done (
          handover_in_order id es fs s up unsynchronized (
            subst (λ ps. length ps + length es ≤ pending_event_limit) (sym none_pending)
              (omega arith))
          ∙ ap (λ ps. s.calls ++ reports Socket_state.live ∷ map delivers (ps ++ es ++ fs))
              none_pending))
      ∙ ap (λ (t : Sync). t.store)
          (receive_events_live date_parse now (es ++ fs) (on_status live done)
            (ap (λ (t : FactoryStore). t.paused) stored
              ∙ paused-commit arrival snapshot h.store
              ∙ p)
            idle none_reset)
      ∙ ap (λ t. apply_events date_parse now (es ++ fs) (set_connection_status live t)) stored
