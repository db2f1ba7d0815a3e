-- ===== src/Console.antt =====
-- The socket of lib/websocket-client.ts with the callbacks that hooks/use-factory-socket.ts gives to it:
-- what the socket calls reaches the hook.
pub mod Handover
pub mod Tests
use ev_factory_twin.Prelude.{ℕ, String, Option, List, [], ◌∷◌, drop, length}
use ev_factory_twin.Socket.State.{
  FactorySocket, Status, Call, reports, delivers, authenticates, fails_auth, opens, sends, closes,
}
use ev_factory_twin.Socket.State as Socket_state
use ev_factory_twin.Store.{ConnectionStatus, connecting, live, offline}
use ev_factory_twin.Sync.{Sync, receive_event}
use ev_factory_twin.Sync.Inputs.{on_status, on_authenticated, on_auth_failure}

abbrev pub status_of : Status → ConnectionStatus
status_of Socket_state.connecting = connecting
status_of Socket_state.live = live
status_of Socket_state.offline = offline

module _ (date_parse : String → Option ℕ) (now : ℕ) where
  -- The four callbacks in the constructor's arguments; the other calls go to the browser.
  unfoldable pub forward : Call → Sync → Sync
  forward (reports status) h = on_status (status_of status) h
  forward (delivers e) h = receive_event date_parse now e h
  forward (authenticates id user reconnected) h = on_authenticated h
  forward (fails_auth code) h = on_auth_failure code h
  forward (opens id) h = h
  forward (sends id token) h = h
  forward (closes id code) h = h

  unfoldable pub forward_all : List Call → Sync → Sync
  forward_all [] h = h
  forward_all (c ∷ calls) h = forward_all calls (forward c h)

  -- The hook after the socket has gone from the one state to the other.
  unfoldable pub follow : FactorySocket → FactorySocket → Sync → Sync
  unfolding forward_all
  follow old new h = forward_all (drop (length old.calls) new.calls) h
