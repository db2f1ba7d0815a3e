-- ===== src/Socket/Sound.antt =====
-- The invariant of `FactorySocket`, and every step against it.
use ev_factory_twin.Prelude.{
  ℕ, ◌≤◌, ◌≡◌, ◌⊎◌, true, false, Option, none, some, List, [], ◌∷◌, length, length-append, arith,
}
use ev_factory_twin.Socket.State.{FactorySocket, pending_event_limit}
use ev_factory_twin.Socket.{
  Input, Payload, opens_socket, gets_message, malformed, auth_ok, factory_event, unrecognised,
  gets_error, gets_close, auth_timer_fires, reconnect_timer_fires, resolves_auth, rejects_auth,
  refreshes_profile, calls_connect, calls_disconnect, calls_reconnect, calls_recovery, step, run,
  connect, on_open, on_message, on_error, on_close, auth_timeout, reconnect_timeout, auth_resolved,
  auth_rejected, profile_refreshed, schedule_reconnect, disconnect, reconnect, request_recovery,
}

abbrev pub IsBacked : Option ℕ → Type 0
IsBacked none = Unit
IsBacked (some delay) = delay ≤ 10000

-- A synchronised socket is authenticated, an authenticated one is there, events wait only between the
-- two and no more than the limit, a stopped client has no socket and no timer, and no reconnection is
-- put off for more than ten seconds.
pub record IsSound (s : FactorySocket) : Type 0 where
  pub in_step : s.synchronized ≡ true → s.authenticated ≡ true
  pub present : s.authenticated ≡ true → s.socket ≡ none → ⊥
  pub waiting : (s.authenticated ≡ false) ⊎ (s.synchronized ≡ true) → s.pending_events ≡ []
  pub bounded : length s.pending_events ≤ pending_event_limit
  pub silent :
      s.stopped ≡ true → (s.socket ≡ none) × (s.reconnect_timer ≡ none) × (s.auth_timer ≡ none)
  pub backed : IsBacked s.reconnect_timer

connect-IsSound : (s : FactorySocket) → IsSound s → IsSound (connect s)
unfolding connect
connect-IsSound s h = ground arith

on_open-IsSound : (id : ℕ) (s : FactorySocket) → IsSound s → IsSound (on_open id s)
unfolding on_open
on_open-IsSound id s h = ground arith

auth_timeout-IsSound : (s : FactorySocket) → IsSound s → IsSound (auth_timeout s)
unfolding auth_timeout
auth_timeout-IsSound s h = ground arith

on_message-IsSound :
    (id : ℕ) (p : Payload) (s : FactorySocket) → IsSound s → IsSound (on_message id p s)
unfolding on_message
on_message-IsSound id malformed s h = ground arith
on_message-IsSound id (auth_ok user) s h = ground arith
on_message-IsSound id (factory_event e) s h =
    ground (arith, length-append s.pending_events (e ∷ []))
on_message-IsSound id unrecognised s h = ground arith

on_error-IsSound : (id : ℕ) (s : FactorySocket) → IsSound s → IsSound (on_error id s)
unfolding on_error
on_error-IsSound id s h = ground arith

schedule_reconnect-IsSound : (s : FactorySocket) → IsSound s → IsSound (schedule_reconnect s)
unfolding schedule_reconnect
schedule_reconnect-IsSound s h = ground arith

on_close-IsSound : (id code : ℕ) (s : FactorySocket) → IsSound s → IsSound (on_close id code s)
unfolding on_close
on_close-IsSound id code s h = ground arith

reconnect_timeout-IsSound : (s : FactorySocket) → IsSound s → IsSound (reconnect_timeout s)
unfolding reconnect_timeout
reconnect_timeout-IsSound s h = ground arith

auth_resolved-IsSound : (id : ℕ) (s : FactorySocket) → IsSound s → IsSound (auth_resolved id s)
unfolding auth_resolved
auth_resolved-IsSound id s h = ground arith

auth_rejected-IsSound : (id : ℕ) (s : FactorySocket) → IsSound s → IsSound (auth_rejected id s)
unfolding auth_rejected
auth_rejected-IsSound id s h = ground arith

disconnect-IsSound : (s : FactorySocket) → IsSound s → IsSound (disconnect s)
unfolding disconnect
disconnect-IsSound s h = ground arith

reconnect-IsSound : (s : FactorySocket) → IsSound s → IsSound (reconnect s)
unfolding reconnect
reconnect-IsSound s h = ground arith

request_recovery-IsSound : (s : FactorySocket) → IsSound s → IsSound (request_recovery s)
unfolding request_recovery
request_recovery-IsSound s h = ground arith

step-IsSound : (i : Input) (s : FactorySocket) → IsSound s → IsSound (step i s)
unfolding step profile_refreshed
step-IsSound (opens_socket id) s h = on_open-IsSound id s h
step-IsSound (gets_message id p) s h = on_message-IsSound id p s h
step-IsSound (gets_error id) s h = on_error-IsSound id s h
step-IsSound (gets_close id code) s h = on_close-IsSound id code s h
step-IsSound auth_timer_fires s h = auth_timeout-IsSound s h
step-IsSound reconnect_timer_fires s h = reconnect_timeout-IsSound s h
step-IsSound (resolves_auth id) s h = auth_resolved-IsSound id s h
step-IsSound (rejects_auth id) s h = auth_rejected-IsSound id s h
step-IsSound refreshes_profile s h = schedule_reconnect-IsSound s h
step-IsSound calls_connect s h = connect-IsSound s h
step-IsSound calls_disconnect s h = disconnect-IsSound s h
step-IsSound calls_reconnect s h = reconnect-IsSound s h
step-IsSound calls_recovery s h = request_recovery-IsSound s h

-- Whatever happens to a client, in whatever order, keeps it sound if it was: what is synchronised is
-- authenticated, and what is authenticated has a socket; events wait only between the two and within
-- the limit; a stopped client has no socket and no timer; no reconnection is put off for more than
-- ten seconds.
pub run-IsSound : (inputs : List Input) (s : FactorySocket) → IsSound s → IsSound (run inputs s)
unfolding run
run-IsSound [] s h = h
run-IsSound (i ∷ inputs) s h = run-IsSound inputs (step i s) (step-IsSound i s h)
