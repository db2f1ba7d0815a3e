-- ===== src/Socket/State.antt =====
-- The fields of `FactorySocket` in apps/frontend/src/lib/websocket-client.ts, its close codes, and
-- what it asks of the browser.
use ev_factory_twin.Prelude.{
  ℕ, String, Bool, true, false, Option, none, some, List, [], ◌∷◌, ◌++◌, beq, if◌then◌else◌,
}
use ev_factory_twin.Schema.Event.{FactoryEvent, AuthenticatedUser}

pub data Status : Type 0 where
  connecting live offline : Status

-- `WebSocket.readyState`, in the order of its numbers.
pub data ReadyState : Type 0 where
  is_connecting is_open is_closing is_closed : ReadyState

pub data Call : Type 0 where
  -- `onStatus(status)`
  reports : Status → Call
  -- `onEvent(event)`
  delivers : FactoryEvent → Call
  -- `onAuthenticated(user, reconnected)`, awaited for the socket
  authenticates : ℕ → AuthenticatedUser → Bool → Call
  -- `onAuthFailure(closeCode)`
  fails_auth : ℕ → Call
  -- `new WebSocket(url)`
  opens : ℕ → Call
  -- `socket.send` of the authentication request
  sends : ℕ → String → Call
  -- `socket.close(code)`
  closes : ℕ → Option ℕ → Call

pub record FactorySocket : Type 0 where
  pub access_token : String
  pub socket : Option ℕ
  pub retry : ℕ
  -- the delay of the pending timer
  pub reconnect_timer : Option ℕ
  -- the socket for which the pending timer was set
  pub auth_timer : Option ℕ
  pub stopped : Bool
  pub authenticated : Bool
  pub synchronized : Bool
  pub authenticated_once : Bool
  pub pending_events : List FactoryEvent
  pub ready : ℕ → ReadyState
  pub next_socket : ℕ
  pub calls : List Call

abbrev pub create : String → FactorySocket
create token = record {
  access_token = token;
  socket = none;
  retry = 0;
  reconnect_timer = none;
  auth_timer = none;
  stopped = false;
  authenticated = false;
  synchronized = false;
  authenticated_once = false;
  pending_events = [];
  ready = λ id. is_closed;
  next_socket = 0;
  calls = [];
}

abbrev pub close_unauthorized : ℕ
close_unauthorized = 4401

abbrev pub close_forbidden : ℕ
close_forbidden = 4403

abbrev pub close_profile_changed : ℕ
close_profile_changed = 4409

abbrev pub close_auth_timeout : ℕ
close_auth_timeout = 4001

abbrev pub close_sync_failed : ℕ
close_sync_failed = 4002

abbrev pub close_protocol_error : ℕ
close_protocol_error = 4003

abbrev pub close_buffer_overflow : ℕ
close_buffer_overflow = 4004

abbrev pub close_policy_violation : ℕ
close_policy_violation = 1008

abbrev pub pending_event_limit : ℕ
pending_event_limit = 1000

abbrev pub call : Call → FactorySocket → FactorySocket
call c s = record s { calls = s.calls ++ c ∷ [] }

abbrev pub set_ready : ℕ → ReadyState → FactorySocket → FactorySocket
set_ready id r s = record s { ready = λ j. if beq j id then r else s.ready j }

-- `readyState < WebSocket.CLOSING`
abbrev pub usable : ReadyState → Bool
usable is_connecting = true
usable is_open = true
usable is_closing = false
usable is_closed = false

abbrev pub opened : ReadyState → Bool
opened is_open = true
opened _ = false

-- `socket.close(code)`: a socket that is closing or closed is left alone by the browser.
abbrev pub close : ℕ → Option ℕ → FactorySocket → FactorySocket
close id code s =
    let s' = call (closes id code) s in
    if usable (s.ready id) then set_ready id is_closing s' else s'

-- `if (socket && socket.readyState < WebSocket.CLOSING) socket.close(code)`
abbrev pub close_usable : Option ℕ → ℕ → FactorySocket → FactorySocket
close_usable none code s = s
close_usable (some id) code s = if usable (s.ready id) then close id (some code) s else s

-- `this.socket === socket`
abbrev pub is_current : ℕ → Option ℕ → Bool
is_current id none = false
is_current id (some j) = beq id j

abbrev pub has_usable : Option ℕ → FactorySocket → Bool
has_usable none s = false
has_usable (some id) s = usable (s.ready id)

abbrev pub clear_auth_timer : FactorySocket → FactorySocket
clear_auth_timer s = record s { auth_timer = none }
