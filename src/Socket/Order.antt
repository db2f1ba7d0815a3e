-- ===== src/Socket/Order.antt =====
-- The hand-over from buffering to live delivery in lib/websocket-client.ts.
use ev_factory_twin.Prelude.{
  ℕ, ◌+◌, ◌≤◌, ◌≡◌, refl, sym, ap, ◌∙◌, true, false, List, [], ◌∷◌, ◌++◌, map, append_assoc,
  append-nil, length, length-append, arith,
}
use mathlib.Core.List.{map-append}
use ev_factory_twin.Schema.Event.{FactoryEvent}
use ev_factory_twin.Socket.State.{
  FactorySocket, Call, reports, delivers, live, opened, is_current, pending_event_limit,
}
use ev_factory_twin.Socket.{
  Input, gets_message, factory_event, step, run, on_message, auth_resolved,
}

-- The messages of an open socket that carry these events.
abbrev pub messages : ℕ → List FactoryEvent → List Input
messages id es = map (λ e. gets_message id (factory_event e)) es

-- The current socket of a running client is authenticated and open.
pub record IsUp (id : ℕ) (s : FactorySocket) : Type 0 where
  pub current : is_current id s.socket ≡ true
  pub running : s.stopped ≡ false
  pub signed_in : s.authenticated ≡ true
  pub usable : opened (s.ready id) ≡ true

-- Buffering and delivering change neither of these.
with_events :
    {id : ℕ} {s : FactorySocket} (p : List FactoryEvent)
    → IsUp id s
    → IsUp id (record s { pending_events = p })
with_events p up = record {
  current = up.current;
  running = up.running;
  signed_in = up.signed_in;
  usable = up.usable;
}

with_calls :
    {id : ℕ} {s : FactorySocket} (c : List Call) → IsUp id s → IsUp id (record s { calls = c })
with_calls c up = record {
  current = up.current;
  running = up.running;
  signed_in = up.signed_in;
  usable = up.usable;
}

message_buffered :
    (id : ℕ) (e : FactoryEvent) (s : FactorySocket)
    → IsUp id s
    → s.synchronized ≡ false
    → length s.pending_events + 1 ≤ pending_event_limit
    → on_message id (factory_event e) s ≡ record s { pending_events = s.pending_events ++ e ∷ [] }
unfolding on_message
message_buffered id e s up h room = ground arith

message_delivered :
    (id : ℕ) (e : FactoryEvent) (s : FactorySocket)
    → IsUp id s
    → s.synchronized ≡ true
    → on_message id (factory_event e) s ≡ record s { calls = s.calls ++ delivers e ∷ [] }
unfolding on_message
message_delivered id e s up h = ground arith

run-buffered :
    (id : ℕ) (es : List FactoryEvent) (s : FactorySocket)
    → IsUp id s
    → s.synchronized ≡ false
    → length s.pending_events + length es ≤ pending_event_limit
    → run (messages id es) s ≡ record s { pending_events = s.pending_events ++ es }
unfolding run step
run-buffered id [] s up h room =
    ap (λ p. record s { pending_events = p }) (sym (append-nil s.pending_events))
run-buffered id (e ∷ es) s up h room =
    let s' : FactorySocket = record s { pending_events = s.pending_events ++ e ∷ [] } in
    ap (run (messages id es)) (message_buffered id e s up h (omega arith))
    ∙ run-buffered id es s' (with_events (s.pending_events ++ e ∷ []) up) h
        (omega (arith, length-append s.pending_events (e ∷ [])))
    ∙ ap (λ p. record s { pending_events = p }) (append_assoc s.pending_events (e ∷ []) es)

run-delivered :
    (id : ℕ) (es : List FactoryEvent) (s : FactorySocket)
    → IsUp id s
    → s.synchronized ≡ true
    → run (messages id es) s ≡ record s { calls = s.calls ++ map delivers es }
unfolding run step
run-delivered id [] s up h = ap (λ c. record s { calls = c }) (sym (append-nil s.calls))
run-delivered id (e ∷ es) s up h =
    let s' : FactorySocket = record s { calls = s.calls ++ delivers e ∷ [] } in
    ap (run (messages id es)) (message_delivered id e s up h)
    ∙ run-delivered id es s' (with_calls (s.calls ++ delivers e ∷ []) up) h
    ∙ ap (λ c. record s { calls = c }) (append_assoc s.calls (delivers e ∷ []) (map delivers es))

auth_resolved_up :
    (id : ℕ) (s : FactorySocket)
    → IsUp id s
    → auth_resolved id s ≡ record s {
      retry = 0;
      synchronized = true;
      pending_events = [];
      calls = s.calls ++ reports live ∷ map delivers s.pending_events;
    }
unfolding auth_resolved
auth_resolved_up id s up = ground arith

-- On an open and authenticated socket, the events that wait, those that arrive until the owner has
-- its snapshot, if they are within the limit, and those that arrive afterwards are delivered once
-- each in the order of arrival, behind the report that the client is live.
pub handover_in_order :
    (id : ℕ) (es fs : List FactoryEvent) (s : FactorySocket)
    → IsUp id s
    → s.synchronized ≡ false
    → length s.pending_events + length es ≤ pending_event_limit
    → (run (messages id fs) (auth_resolved id (run (messages id es) s))).calls
      ≡ s.calls ++ reports live ∷ map delivers (s.pending_events ++ es ++ fs)
handover_in_order id es fs s up h room =
    let held = s.pending_events ++ es in
    let s1 : FactorySocket = record s { pending_events = held } in
    let s2 : FactorySocket = record s1 {
      retry = 0;
      synchronized = true;
      pending_events = [];
      calls = s.calls ++ reports live ∷ map delivers held;
    } in
    rw
      (
        run-buffered id es s up h room,
        auth_resolved_up id s1 (with_events held up),
        run-delivered id fs s2
            (record {
              current = up.current;
              running = up.running;
              signed_in = up.signed_in;
              usable = up.usable;
            })
            refl,
      )
      (append_assoc s.calls (reports live ∷ map delivers held) (map delivers fs)
        ∙ ap (λ (t : List Call). s.calls ++ reports live ∷ t) (sym (map-append delivers held fs)))
