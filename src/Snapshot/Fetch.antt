-- ===== src/Snapshot/Fetch.antt =====
-- lib/factory-snapshot.ts: `fetchFactorySnapshot`, which races four requests against the caller's abort
-- and a timeout. `Fetch` holds what has come so far; the result is that of `Promise.race`.
pub mod Race
use ev_factory_twin.Prelude.{ℕ, Bool, true, false, Option, none, some, List, [], ◌∷◌, if◌then◌else◌}
use ev_factory_twin.Schema.Fleet.{Robot, Task, FactoryMetrics, FactoryAlert}
use ev_factory_twin.Snapshot.{FactorySnapshot}

-- The reason of the controller's signal: an error of the caller, something else of the caller, or the
-- error of the timeout.
pub data SignalReason : Type 0 where
  caller_error caller_value timeout_error : SignalReason

-- What the fetch is rejected with after an abort.
pub data AbortReason : Type 0 where
  by_caller by_default by_timeout : AbortReason

pub data Result : Type 0 where
  resolves : FactorySnapshot → Result
  rejects : AbortReason → Result
  request_fails : Result

pub record Fetch : Type 0 where
  pub robots : Option (List Robot)
  pub tasks : Option (List Task)
  pub metrics : Option FactoryMetrics
  pub alerts : Option (List FactoryAlert)
  -- the reason that the controller was aborted with
  pub controller : Option SignalReason
  -- whether the timer runs, and whether the caller's signal is listened to
  pub timer : Bool
  pub listening : Bool
  pub result : Option Result

-- The `finally`, once the race has a result.
abbrev pub settle_with : Result → Fetch → Fetch
settle_with result s = record s { result = some result; timer = false; listening = false }

-- `abortReason`: a reason that is no `Error` is replaced.
abbrev pub abort_reason : SignalReason → AbortReason
abort_reason caller_error = by_caller
abort_reason caller_value = by_default
abort_reason timeout_error = by_timeout

-- `signal?.reason`, by whether it is an `Error`.
abbrev pub caller_reason : Bool → SignalReason
caller_reason true = caller_error
caller_reason false = caller_value

-- `controller.abort`, with the listener that rejects: an aborted controller keeps its first reason and
-- calls nobody.
abbrev pub abort_unless : Option SignalReason → SignalReason → Fetch → Fetch
abort_unless none reason s =
    settle_with (rejects (abort_reason reason)) (record s { controller = some reason })
abort_unless (some first) reason s = s

abbrev pub abort : SignalReason → Fetch → Fetch
abort reason s = abort_unless s.controller reason s

-- The start, with whether the caller's signal is aborted already, and if so, by an error: then nothing
-- listens to that signal, and the race is lost when it begins.
unfoldable pub start : Option Bool → Fetch
start aborted =
    let fresh : Fetch = record {
      robots = none;
      tasks = none;
      metrics = none;
      alerts = none;
      controller = none;
      timer = true;
      listening = true;
      result = none;
    } in
    elim aborted [
      | none ↦ fresh
      | some is_error ↦
          settle_with (rejects (abort_reason (caller_reason is_error)))
            (record fresh { controller = some (caller_reason is_error); listening = false })
    ]

-- `Promise.all`: all four, or not yet.
abbrev pub all_four :
    Option (List Robot)
    → Option (List Task)
    → Option FactoryMetrics
    → Option (List FactoryAlert)
    → Option FactorySnapshot
all_four (some robots) (some tasks) (some metrics) (some alerts) =
    some (record { robots = robots; tasks = tasks; metrics = metrics; alerts = alerts })
all_four _ _ _ _ = none

abbrev pub complete : Option FactorySnapshot → Fetch → Fetch
complete none s = s
complete (some snapshot) s = settle_with (resolves snapshot) s

abbrev pub gather : Fetch → Fetch
gather s = complete (all_four s.robots s.tasks s.metrics s.alerts) s

pub data Input : Type 0 where
  gets_robots : List Robot → Input
  gets_tasks : List Task → Input
  gets_metrics : FactoryMetrics → Input
  gets_alerts : List FactoryAlert → Input
  fails_request : Input
  aborts : Bool → Input
  times_out : Input

-- The caller's signal is heard while it is listened to, and the timer fires while it runs.
unfoldable pub receive : Input → Fetch → Fetch
receive (gets_robots robots) s = gather (record s { robots = some robots })
receive (gets_tasks tasks) s = gather (record s { tasks = some tasks })
receive (gets_metrics metrics) s = gather (record s { metrics = some metrics })
receive (gets_alerts alerts) s = gather (record s { alerts = some alerts })
receive fails_request s = settle_with request_fails s
receive (aborts is_error) s = if s.listening then abort (caller_reason is_error) s else s
receive times_out s = if s.timer then abort timeout_error s else s

abbrev pub is_settled : Option Result → Bool
is_settled none = false
is_settled (some _) = true

-- What comes after the result changes nothing.
unfoldable pub step : Input → Fetch → Fetch
unfolding receive
step i s = if is_settled s.result then s else receive i s

unfoldable pub run : List Input → Fetch → Fetch
run [] s = s
run (i ∷ inputs) s = run inputs (step i s)
