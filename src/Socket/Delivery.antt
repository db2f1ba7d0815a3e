-- ===== src/Socket/Delivery.antt =====
-- Which events a `FactorySocket` hands to its owner, and in which order.
use ev_factory_twin.Prelude.{
  ℕ, ◌≡◌, refl, ap, ◌∙◌, inl, inr, true, false, Option, none, some, List, [], ◌∷◌, ◌++◌, append-nil,
  arith, Option-cases,
}
use ev_factory_twin.Schema.Event.{FactoryEvent}
use ev_factory_twin.Socket.State.{
  FactorySocket, Call, reports, delivers, authenticates, fails_auth, opens, sends, closes,
  connecting, offline, close_usable,
}
use ev_factory_twin.Socket.{
  Input, Payload, gets_message, auth_ok, factory_event, resolves_auth, step, connect, on_open,
  on_message, on_error, on_close, auth_timeout, reconnect_timeout, auth_resolved, auth_rejected,
  profile_refreshed, dropped, schedule_reconnect, disconnect, reconnect, request_recovery,
  opens_socket, gets_error, gets_close, auth_timer_fires, reconnect_timer_fires, rejects_auth,
  refreshes_profile, calls_connect, calls_disconnect, calls_reconnect, calls_recovery,
}

-- The events that `onEvent` was called with.
abbrev pub delivered : List Call → List FactoryEvent
delivered [] = []
delivered (delivers e ∷ calls) = e ∷ delivered calls
delivered (_ ∷ calls) = delivered calls

delivered-append : (xs ys : List Call) → delivered (xs ++ ys) ≡ delivered xs ++ delivered ys
delivered-append [] ys = refl
delivered-append (delivers e ∷ xs) ys = ap (◌∷◌ e) (delivered-append xs ys)
delivered-append (reports _ ∷ xs) ys = delivered-append xs ys
delivered-append (authenticates _ _ _ ∷ xs) ys = delivered-append xs ys
delivered-append (fails_auth _ ∷ xs) ys = delivered-append xs ys
delivered-append (opens _ ∷ xs) ys = delivered-append xs ys
delivered-append (sends _ _ ∷ xs) ys = delivered-append xs ys
delivered-append (closes _ _ ∷ xs) ys = delivered-append xs ys

-- What is not an event adds none.
delivered-skip :
    (xs : List Call) (c : Call) → delivered (c ∷ []) ≡ [] → delivered (xs ++ c ∷ []) ≡ delivered xs
delivered-skip xs c h = delivered-append xs (c ∷ []) ∙ rw h (append-nil (delivered xs))

abbrev IsQuiet : FactorySocket → FactorySocket → Type 0
IsQuiet s t = t.synchronized ≡ false → delivered t.calls ≡ delivered s.calls

module _ (id : ℕ) (s : FactorySocket) where
  close-IsQuiet : (code : Option ℕ) → delivered (s.calls ++ closes id code ∷ []) ≡ delivered s.calls
  close-IsQuiet code = delivered-skip s.calls (closes id code) refl

  on_open-IsQuiet : IsQuiet s (on_open id s)
  unfolding on_open
  on_open-IsQuiet h = ground (arith, delivered-skip s.calls (sends id s.access_token) refl)

  on_message-IsQuiet : (p : Payload) → IsQuiet s (on_message id p s)
  unfolding on_message
  on_message-IsQuiet (auth_ok user) h = ground (
    arith,
    delivered-skip s.calls (authenticates id user s.authenticated_once) refl,
    close-IsQuiet (some 4003),
  )
  on_message-IsQuiet (factory_event e) h =
      ground (arith, close-IsQuiet (some 4003), close-IsQuiet (some 4004))
  on_message-IsQuiet _ h = ground (arith, close-IsQuiet (some 4003))

  on_error-IsQuiet : IsQuiet s (on_error id s)
  unfolding on_error
  on_error-IsQuiet h = ground (arith, close-IsQuiet none)

  on_close-IsQuiet : (code : ℕ) → IsQuiet s (on_close id code s)
  unfolding on_close
  on_close-IsQuiet code h = ground (
    arith,
    delivered-skip s.calls (reports offline) refl,
    delivered-skip (s.calls ++ reports offline ∷ []) (fails_auth code) refl,
  )

  auth_resolved-IsQuiet : IsQuiet s (auth_resolved id s)
  unfolding auth_resolved
  auth_resolved-IsQuiet h = ground arith

  auth_rejected-IsQuiet : IsQuiet s (auth_rejected id s)
  unfolding auth_rejected
  auth_rejected-IsQuiet h = ground (arith, close-IsQuiet (some 4002))

connect-IsQuiet : (s : FactorySocket) → delivered (connect s).calls ≡ delivered s.calls
unfolding connect
connect-IsQuiet s =
    let two = delivered-append s.calls (reports connecting ∷ opens s.next_socket ∷ []) in
    ground (arith, two, append-nil (delivered s.calls))

close_usable-IsQuiet :
    (o : Option ℕ) (code : ℕ) (s : FactorySocket)
    → delivered (close_usable o code s).calls ≡ delivered s.calls
close_usable-IsQuiet none code s = refl
close_usable-IsQuiet (some id) code s = ground (arith, close-IsQuiet id s (some code))

auth_timeout-IsQuiet : (s : FactorySocket) → delivered (auth_timeout s).calls ≡ delivered s.calls
unfolding auth_timeout
auth_timeout-IsQuiet s = elim (Option-cases s.auth_timer) [
  | inl e ↦ rw (e, auth_timeout)
  | inr (id, e) ↦ ground (arith, close-IsQuiet id s (some 4001))
]

-- While the client is not synchronised, no event reaches its owner: an event is delivered only by a
-- step that leaves the client synchronised.
pub step-IsQuiet :
    (i : Input) (s : FactorySocket)
    → (step i s).synchronized ≡ false
    → delivered (step i s).calls ≡ delivered s.calls
unfolding step profile_refreshed reconnect_timeout schedule_reconnect disconnect reconnect
    request_recovery
step-IsQuiet (opens_socket id) s h = on_open-IsQuiet id s h
step-IsQuiet (gets_message id p) s h = on_message-IsQuiet id s p h
step-IsQuiet (gets_error id) s h = on_error-IsQuiet id s h
step-IsQuiet (gets_close id code) s h = on_close-IsQuiet id s code h
step-IsQuiet auth_timer_fires s h = auth_timeout-IsQuiet s
step-IsQuiet reconnect_timer_fires s h =
    ground (arith, connect-IsQuiet (record s { reconnect_timer = none }))
step-IsQuiet (resolves_auth id) s h = auth_resolved-IsQuiet id s h
step-IsQuiet (rejects_auth id) s h = auth_rejected-IsQuiet id s h
step-IsQuiet refreshes_profile s h = ground arith
step-IsQuiet calls_connect s h = connect-IsQuiet s
step-IsQuiet calls_disconnect s h =
    close_usable-IsQuiet s.socket 1000
      (record (dropped s) { stopped = true; reconnect_timer = none })
step-IsQuiet calls_reconnect s h =
    let parted : FactorySocket = record (dropped s) { reconnect_timer = none; retry = 0 } in
    connect-IsQuiet (close_usable s.socket 1000 parted) ∙ close_usable-IsQuiet s.socket 1000 parted
step-IsQuiet calls_recovery s h =
    close_usable-IsQuiet s.socket 4002 (record s { pending_events = [] })
