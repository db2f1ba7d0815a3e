-- ===== src/Socket/Closing.antt =====
-- How a `FactorySocket` ends a connection, and when it makes a new one.
use ev_factory_twin.Prelude.{
  ℕ, suc, ◌*◌, ◌^◌, min, ◌≡◌, refl, ◌∙◌, Bool, true, false, ◌||◌, Option, none, some, List, [], ◌∷◌,
  ◌++◌, append-nil, beq, filter, All, arith,
}
use native.Mathlib.Nat.{pow-suc}
use ev_factory_twin.Socket.State.{
  FactorySocket, Call, reports, opens, closes, connecting, offline, is_current, is_closed, is_open,
  set_ready, close_usable, close_profile_changed,
}
use ev_factory_twin.Socket.{
  Input, Payload, gets_message, resolves_auth, step, run, on_open, on_message, on_error, on_close,
  auth_timeout, reconnect_timeout, auth_resolved, auth_rejected, profile_refreshed,
  schedule_reconnect, disconnect, request_recovery, opens_socket, gets_error, gets_close,
  auth_timer_fires, reconnect_timer_fires, rejects_auth, refreshes_profile, calls_connect,
  calls_disconnect, calls_reconnect, calls_recovery, is_rejection, is_final, dropped,
}

-- Events of a socket that is no longer the current one change nothing but what is known of that
-- socket; nor do late answers of the owner for it.
pub stale_is_ignored :
    (id code : ℕ) (p : Payload) (s : FactorySocket)
    → is_current id s.socket ≡ false
    → (on_open id s ≡ set_ready id is_open s)
      × (on_message id p s ≡ s)
      × (on_close id code s ≡ set_ready id is_closed s)
      × (auth_resolved id s ≡ s)
      × (auth_rejected id s ≡ s)
unfolding on_open on_message on_close auth_resolved auth_rejected
stale_is_ignored id code p s h = (rw h, rw h, rw h, rw h, rw h)

-- The calls that are more than the closing of a socket.
abbrev pub is_outward : Call → Bool
is_outward (closes _ _) = false
is_outward _ = true

-- What happens by itself, with no `connect` or `reconnect` of the owner.
-- Only an ended client may still wait for a profile refresh.
abbrev pub IsUnprompted : Bool → Input → Type 0
IsUnprompted ended calls_connect = ⊥
IsUnprompted ended calls_reconnect = ⊥
IsUnprompted ended refreshes_profile = ended ≡ true
IsUnprompted ended _ = Unit

-- Neither a socket nor a plan to get one. A client whose owner has ended it stays ended.
pub record IsResting (ended : Bool) (s : FactorySocket) : Type 0 where
  pub none_open : s.socket ≡ none
  pub none_planned : s.reconnect_timer ≡ none
  pub stays : ended ≡ true → s.stopped ≡ true

abbrev RestsAs : Bool → FactorySocket → FactorySocket → Type 0
RestsAs ended s t = IsResting ended t × (filter is_outward t.calls ≡ filter is_outward s.calls)

filter-append :
    (xs ys : List Call)
    → filter is_outward (xs ++ ys) ≡ filter is_outward xs ++ filter is_outward ys
filter-append [] ys = refl
filter-append (x ∷ xs) ys = ground (arith, filter-append xs ys)

not_outward :
    (xs : List Call) (id : ℕ) (code : Option ℕ)
    → filter is_outward (xs ++ closes id code ∷ []) ≡ filter is_outward xs
not_outward xs id code = filter-append xs (closes id code ∷ []) ∙ append-nil (filter is_outward xs)

step-RestsAs :
    (ended : Bool) (i : Input) (s : FactorySocket)
    → IsResting ended s
    → IsUnprompted ended i
    → RestsAs ended s (step i s)
unfolding step on_open on_message on_error on_close auth_timeout reconnect_timeout auth_resolved
    auth_rejected profile_refreshed schedule_reconnect disconnect request_recovery
step-RestsAs ended (gets_error id) s h u = ground (arith, not_outward s.calls id none)
step-RestsAs ended (opens_socket id) s h u = ground arith
step-RestsAs ended (gets_message id p) s h u = ground arith
step-RestsAs ended (gets_close id code) s h u = ground arith
step-RestsAs ended auth_timer_fires s h u = ground arith
step-RestsAs ended reconnect_timer_fires s h u = ground arith
step-RestsAs ended (resolves_auth id) s h u = ground arith
step-RestsAs ended (rejects_auth id) s h u = ground arith
step-RestsAs ended refreshes_profile s h u = ground arith
step-RestsAs ended calls_disconnect s h u = ground arith
step-RestsAs ended calls_recovery s h u = ground arith
step-RestsAs ended calls_connect s h u = absurd u
step-RestsAs ended calls_reconnect s h u = absurd u

run-RestsAs :
    (ended : Bool) (inputs : List Input) (s : FactorySocket)
    → IsResting ended s
    → All (IsUnprompted ended) inputs
    → RestsAs ended s (run inputs s)
unfolding run
run-RestsAs ended [] s h u = (h, refl)
run-RestsAs ended (i ∷ inputs) s h u =
    let (rests, same) = step-RestsAs ended i s h u.0 in
    let (rests', same') = run-RestsAs ended inputs (step i s) rests u.1 in (rests', same' ∙ same)

close_usable-RestsAs :
    (o : Option ℕ) (s : FactorySocket) → IsResting true s → RestsAs true s (close_usable o 1000 s)
close_usable-RestsAs none s h = (h, refl)
close_usable-RestsAs (some id) s h =
    ground (arith, not_outward s.calls id (some 1000), h.stays refl)

disconnect-RestsAs : (s : FactorySocket) → RestsAs true s (disconnect s)
unfolding disconnect
disconnect-RestsAs s =
    (close_usable-RestsAs s.socket (record (dropped s) { stopped = true; reconnect_timer = none })
      (record { none_open = refl; none_planned = refl; stays = λ e. refl }))

-- Once its owner has disconnected, a client stays without a socket, and nothing but `connect` or
-- `reconnect` makes it call its owner, send, or open a socket again: it only closes sockets.
pub disconnect_is_final :
    (inputs : List Input) (s : FactorySocket)
    → All (IsUnprompted true) inputs
    → ((run inputs (disconnect s)).socket ≡ none)
      × (filter is_outward (run inputs (disconnect s)).calls ≡ filter is_outward s.calls)
disconnect_is_final inputs s u =
    let (rests, same) = disconnect-RestsAs s in
    let (rests', same') = run-RestsAs true inputs (disconnect s) rests u in
    (rests'.none_open, same' ∙ same)

on_close_refused :
    (id code : ℕ) (s : FactorySocket)
    → is_current id s.socket ≡ true
    → s.reconnect_timer ≡ none
    → (is_rejection code || is_final code) ≡ true
    → IsResting false (on_close id code s)
unfolding on_close
on_close_refused id code s cur idle refused = ground arith

-- After the current socket is closed for a rejected token, a forbidden account, a policy violation
-- or a broken protocol, and no reconnection was planned, the client has no socket and calls, sends
-- and opens nothing, whatever happens, until its owner connects again or refreshes its profile.
pub refusal_is_final :
    (id code : ℕ) (inputs : List Input) (s : FactorySocket)
    → is_current id s.socket ≡ true
    → s.reconnect_timer ≡ none
    → (is_rejection code || is_final code) ≡ true
    → All (IsUnprompted false) inputs
    → ((run inputs (on_close id code s)).socket ≡ none)
      × (filter is_outward (run inputs (on_close id code s)).calls
          ≡ filter is_outward (on_close id code s).calls)
refusal_is_final id code inputs s cur idle refused u =
    let (rests, same) =
      run-RestsAs false inputs (on_close id code s) (on_close_refused id code s cur idle refused)
        u in
    (rests.none_open, same)

-- After any other close of the current socket of a running client, if no reconnection was planned,
-- one is planned after a delay of a second, doubled with each failure before, up to ten seconds, the
-- failure is counted, and when the time has come a new socket is opened.
pub other_close_reconnects :
    (id code : ℕ) (s : FactorySocket)
    → is_current id s.socket ≡ true
    → s.stopped ≡ false
    → s.reconnect_timer ≡ none
    → (is_rejection code || beq code close_profile_changed || is_final code) ≡ false
    → ((on_close id code s).reconnect_timer ≡ some (min (1000 * 2 ^ s.retry) 10000))
      × ((on_close id code s).retry ≡ suc s.retry)
      × (min (1000 * 2 ^ suc s.retry) 10000 ≡ min (2 * min (1000 * 2 ^ s.retry) 10000) 10000)
      × ((reconnect_timeout (on_close id code s)).socket ≡ some s.next_socket)
      × ((reconnect_timeout (on_close id code s)).calls
          ≡ s.calls ++ reports offline ∷ [] ++ reports connecting ∷ opens s.next_socket ∷ [])
unfolding on_close reconnect_timeout
other_close_reconnects id code s cur running idle other =
    (ground arith, ground arith, omega (arith, pow-suc 2 s.retry), ground arith, ground arith)
