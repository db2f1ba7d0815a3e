-- ===== src/Socket/Tests.antt =====
-- Tests of the model of websocket-client.ts.
use ev_factory_twin.Prelude.{
  ◌≡◌, refl, arith, true, none, some, List, [], ◌∷◌, filter, min, ◌*◌, ◌^◌,
}
use ev_factory_twin.Samples.{first_event}
use ev_factory_twin.Schema.Fleet.{designer}
use ev_factory_twin.Schema.Event.{AuthenticatedUser}
use ev_factory_twin.Socket.State.{
  FactorySocket, create, is_open, reports, opens, connecting, offline,
}
use ev_factory_twin.Socket.{
  Input, auth_ok, factory_event, calls_connect, opens_socket, gets_message, gets_close,
  auth_timer_fires, resolves_auth, run, on_close, disconnect, reconnect_timeout,
}
use ev_factory_twin.Socket.Sound.{IsSound, run-IsSound}
use ev_factory_twin.Socket.Closing.{
  is_outward, disconnect_is_final, refusal_is_final, other_close_reconnects,
}

abbrev account : AuthenticatedUser
account = record { user_id = "U-1"; display_name = "A"; role = designer; expires_at = 100 }

-- A client whose socket is open and authenticated, and whose owner fetches the snapshot.
abbrev pub waiting : FactorySocket
waiting = record (create "T") {
  socket = some 0;
  authenticated = true;
  authenticated_once = true;
  ready = λ id. is_open;
  next_socket = 1;
}

abbrev morning : List Input
morning =
    calls_connect
    ∷ opens_socket 0
    ∷ gets_message 0 (auth_ok account)
    ∷ gets_message 0 (factory_event first_event)
    ∷ resolves_auth 0
    ∷ gets_close 0 1006
    ∷ []

run-IsSound_example : IsSound (run morning (create "T"))
run-IsSound_example = run-IsSound morning (create "T") (ground arith)

disconnect_is_final_example :
    ((run (auth_timer_fires ∷ resolves_auth 0 ∷ []) (disconnect waiting)).socket ≡ none)
    × (filter is_outward (run (auth_timer_fires ∷ resolves_auth 0 ∷ []) (disconnect waiting)).calls
        ≡ [])
disconnect_is_final_example =
    disconnect_is_final (auth_timer_fires ∷ resolves_auth 0 ∷ []) waiting (tt, (tt, tt))

refusal_is_final_example :
    ((run (resolves_auth 0 ∷ []) (on_close 0 4403 waiting)).socket ≡ none)
    × (filter is_outward (run (resolves_auth 0 ∷ []) (on_close 0 4403 waiting)).calls
        ≡ filter is_outward (on_close 0 4403 waiting).calls)
refusal_is_final_example =
    refusal_is_final 0 4403 (resolves_auth 0 ∷ []) waiting refl refl refl (tt, tt)

other_close_reconnects_example :
    ((on_close 0 1006 waiting).reconnect_timer ≡ some 1000)
    × ((on_close 0 1006 waiting).retry ≡ 1)
    × (min (1000 * 2 ^ 1) 10000 ≡ min (2 * min (1000 * 2 ^ 0) 10000) 10000)
    × ((reconnect_timeout (on_close 0 1006 waiting)).socket ≡ some 1)
    × ((reconnect_timeout (on_close 0 1006 waiting)).calls
        ≡ reports offline ∷ reports connecting ∷ opens 1 ∷ [])
other_close_reconnects_example = other_close_reconnects 0 1006 waiting refl refl refl refl
