-- ===== src/Socket.antt =====
-- apps/frontend/src/lib/websocket-client.ts: `FactorySocket`, the client of the live event stream.
-- The fields of the class are the record `FactorySocket`. Each handler, timer and method is a function
-- on it. What the class calls is written to `calls`, oldest first: callbacks of its owner, and the
-- browser's WebSocket. A WebSocket object is a number, and `ready` holds its `readyState`.
pub mod State
pub mod Sound
pub mod Delivery
pub mod Order
pub mod Closing
pub mod Tests
use ev_factory_twin.Prelude.{
  ℕ, zero, suc, ◌+◌, ◌*◌, ◌^◌, min, String, Bool, true, false, not, ◌&&◌, ◌||◌, Option, none, some,
  List, [], ◌∷◌, ◌++◌, map, ◌==◌, beq, leb, if◌then◌else◌, length,
}
use ev_factory_twin.Schema.Event.{FactoryEvent, AuthenticatedUser}
use ev_factory_twin.Socket.State.{
  Status, ReadyState, Call, FactorySocket, create, close_unauthorized, close_forbidden,
  close_profile_changed, close_auth_timeout, close_sync_failed, close_protocol_error,
  close_buffer_overflow, close_policy_violation, pending_event_limit, call, set_ready, usable,
  opened, close, close_usable, is_current, has_usable, clear_auth_timer, connecting, live, offline,
  is_connecting, is_open, is_closing, is_closed, reports, delivers, authenticates, fails_auth,
  opens, sends, closes,
}

unfoldable pub connect : FactorySocket → FactorySocket
connect s = if has_usable s.socket s then s else record s {
  stopped = false;
  authenticated = false;
  synchronized = false;
  pending_events = [];
  socket = some s.next_socket;
  ready = λ j. if beq j s.next_socket then is_connecting else s.ready j;
  next_socket = suc s.next_socket;
  calls = s.calls ++ reports connecting ∷ opens s.next_socket ∷ [];
}

-- `onopen`. An empty token fails the request's schema, and the handler throws.
unfoldable pub on_open : ℕ → FactorySocket → FactorySocket
on_open id s =
    let s' = set_ready id is_open s in
    if is_current id s.socket && not s.stopped && not (s.access_token == "")
    then record (call (sends id s.access_token) s') { auth_timer = some id }
    else s'

-- The timer that `onopen` sets.
unfoldable pub auth_timeout : FactorySocket → FactorySocket
auth_timeout s = elim s.auth_timer [
  | none ↦ s
  | some id ↦
      if is_current id s.socket && not s.authenticated
      then close id (some close_auth_timeout) (clear_auth_timer s)
      else clear_auth_timer s
]

-- What JSON.parse and the two schemas make of a message.
pub data Payload : Type 0 where
  malformed : Payload
  auth_ok : AuthenticatedUser → Payload
  factory_event : FactoryEvent → Payload
  unrecognised : Payload

abbrev pub receive_auth : ℕ → Payload → FactorySocket → FactorySocket
receive_auth id (auth_ok user) s =
    call (authenticates id user s.authenticated_once)
      (clear_auth_timer (record s { authenticated = true; authenticated_once = true }))
receive_auth id _ s = close id (some close_protocol_error) s

abbrev pub receive_event : ℕ → FactoryEvent → FactorySocket → FactorySocket
receive_event id e s =
    if s.synchronized
    then call (delivers e) s
    else if leb pending_event_limit (length s.pending_events)
    then close id (some close_buffer_overflow) (record s { pending_events = [] })
    else record s { pending_events = s.pending_events ++ e ∷ [] }

abbrev pub receive : ℕ → Payload → FactorySocket → FactorySocket
receive id malformed s = close id (some close_protocol_error) s
receive id (factory_event e) s =
    if s.authenticated then receive_event id e s else receive_auth id (factory_event e) s
receive id p s = if s.authenticated then s else receive_auth id p s

unfoldable pub on_message : ℕ → Payload → FactorySocket → FactorySocket
on_message id p s = if is_current id s.socket && not s.stopped then receive id p s else s

unfoldable pub on_error : ℕ → FactorySocket → FactorySocket
on_error id s = close id none s

-- `Math.min(1_000 * 2 ** retry, 10_000)`
abbrev pub backoff : ℕ → ℕ
backoff retry = min (1000 * 2 ^ retry) 10000

abbrev pub is_some {ℓ} : {A : Type ℓ} → Option A → Bool
is_some none = false
is_some (some a) = true

unfoldable pub schedule_reconnect : FactorySocket → FactorySocket
schedule_reconnect s =
    if s.stopped || is_some s.reconnect_timer
    then s
    else record s { reconnect_timer = some (backoff s.retry); retry = suc s.retry }

-- The timer that `scheduleReconnect` sets.
unfoldable pub reconnect_timeout : FactorySocket → FactorySocket
unfolding connect
reconnect_timeout s = elim s.reconnect_timer [
  | none ↦ s
  | some delay ↦ connect (record s { reconnect_timer = none })
]

abbrev pub dropped : FactorySocket → FactorySocket
dropped s = record s {
  socket = none;
  authenticated = false;
  synchronized = false;
  pending_events = [];
  auth_timer = none;
}

-- The close codes that end in `onAuthFailure` alone, and those that end in nothing.
abbrev pub is_rejection : ℕ → Bool
is_rejection code = beq code close_unauthorized || beq code close_forbidden

abbrev pub is_final : ℕ → Bool
is_final code = beq code close_policy_violation || beq code close_protocol_error

unfoldable pub on_close : ℕ → ℕ → FactorySocket → FactorySocket
unfolding schedule_reconnect
on_close id code s =
    let gone = set_ready id is_closed s in
    let left = call (reports offline) (dropped gone) in
    if not (is_current id s.socket)
    then gone
    else if s.stopped
    then left
    else if is_rejection code || beq code close_profile_changed
    then call (fails_auth code) left
    else if is_final code
    then left
    else schedule_reconnect left

-- `refreshProfileAndReconnect`, once `onAuthFailure` has settled either way.
unfoldable pub profile_refreshed : FactorySocket → FactorySocket
unfolding schedule_reconnect
profile_refreshed s = schedule_reconnect s

-- `finishAuthentication`, once `onAuthenticated` has resolved.
unfoldable pub auth_resolved : ℕ → FactorySocket → FactorySocket
auth_resolved id s =
    if is_current id s.socket && not s.stopped && s.authenticated && opened (s.ready id)
    then record s {
      retry = 0;
      synchronized = true;
      pending_events = [];
      calls = s.calls ++ reports live ∷ map delivers s.pending_events;
    }
    else s

-- `finishAuthentication`, once `onAuthenticated` has thrown.
unfoldable pub auth_rejected : ℕ → FactorySocket → FactorySocket
auth_rejected id s =
    if is_current id s.socket && not s.stopped then close id (some close_sync_failed) s else s

unfoldable pub disconnect : FactorySocket → FactorySocket
disconnect s =
    close_usable s.socket 1000 (record (dropped s) { stopped = true; reconnect_timer = none })

unfoldable pub reconnect : FactorySocket → FactorySocket
unfolding connect
reconnect s =
    connect (close_usable s.socket 1000 (record (dropped s) { reconnect_timer = none; retry = 0 }))

unfoldable pub request_recovery : FactorySocket → FactorySocket
request_recovery s = close_usable s.socket close_sync_failed (record s { pending_events = [] })

-- What happens to a `FactorySocket`: the browser's events and timers, and the owner's calls.
pub data Input : Type 0 where
  opens_socket : ℕ → Input
  gets_message : ℕ → Payload → Input
  gets_error : ℕ → Input
  gets_close : ℕ → ℕ → Input
  auth_timer_fires : Input
  reconnect_timer_fires : Input
  resolves_auth : ℕ → Input
  rejects_auth : ℕ → Input
  refreshes_profile : Input
  calls_connect : Input
  calls_disconnect : Input
  calls_reconnect : Input
  calls_recovery : Input

unfoldable pub step : Input → FactorySocket → FactorySocket
step (opens_socket id) = on_open id
step (gets_message id p) = on_message id p
step (gets_error id) = on_error id
step (gets_close id code) = on_close id code
step auth_timer_fires = auth_timeout
step reconnect_timer_fires = reconnect_timeout
step (resolves_auth id) = auth_resolved id
step (rejects_auth id) = auth_rejected id
step refreshes_profile = profile_refreshed
step calls_connect = connect
step calls_disconnect = disconnect
step calls_reconnect = reconnect
step calls_recovery = request_recovery

unfoldable pub run : List Input → FactorySocket → FactorySocket
run [] s = s
run (i ∷ inputs) s = run inputs (step i s)
