-- ===== src/Snapshot/Fetch/Race.antt =====
-- The race of `fetchFactorySnapshot` in lib/factory-snapshot.ts.
use ev_factory_twin.Prelude.{
  ◌≡◌, refl, sym, ap, ◌∙◌, Bool, true, false, Option, none, some, List, [], ◌∷◌, if-elim, if-true,
  subst, ◌⊎◌, inl, inr,
}
use ev_factory_twin.Snapshot.{FactorySnapshot}
use ev_factory_twin.Snapshot.Fetch.{
  Fetch, Result, resolves, rejects, by_timeout, SignalReason, timeout_error, caller_reason,
  abort_unless, Input, gets_robots, gets_tasks, gets_metrics, gets_alerts, fails_request, aborts,
  times_out, start, all_four, complete, gather, receive, is_settled, step, run,
}

-- What the race has come to: while there is no result, the timer runs, the caller is listened to and the
-- controller is not aborted; afterwards neither, and a snapshot is made of the four answers.
abbrev pub IsOf : Option Result → Fetch → Type 0
IsOf none s = (s.timer ≡ true) × (s.listening ≡ true) × (s.controller ≡ none)
IsOf (some (resolves snapshot)) s =
    ((s.timer ≡ false) × (s.listening ≡ false))
    × (all_four s.robots s.tasks s.metrics s.alerts ≡ some snapshot)
IsOf (some _) s = (s.timer ≡ false) × (s.listening ≡ false)

abbrev pub IsRace : Fetch → Type 0
IsRace s = IsOf s.result s

complete-IsRace :
    (o : Option FactorySnapshot) (s : Fetch)
    → all_four s.robots s.tasks s.metrics s.alerts ≡ o
    → IsRace s
    → IsRace (complete o s)
complete-IsRace none s e h = h
complete-IsRace (some snapshot) s e h = ((refl, refl), e)

-- An answer more, and the race is gathered.
gather-IsRace :
    (s t : Fetch)
    → s.result ≡ none
    → t.result ≡ s.result
    → t.timer ≡ s.timer
    → t.listening ≡ s.listening
    → t.controller ≡ s.controller
    → IsRace s
    → IsRace (gather t)
gather-IsRace s t e r m l c h =
    let (timer, listening, controller) = subst (λ o. IsOf o s) e h in
    complete-IsRace (all_four t.robots t.tasks t.metrics t.alerts) t refl
      (subst (λ o. IsOf o t) (sym (r ∙ e)) (m ∙ timer, l ∙ listening, c ∙ controller))

abort-IsRace :
    (first : Option SignalReason) (reason : SignalReason) (s : Fetch)
    → IsRace s
    → IsRace (abort_unless first reason s)
abort-IsRace none reason s h = (refl, refl)
abort-IsRace (some first) reason s h = h

receive-IsRace : (i : Input) (s : Fetch) → s.result ≡ none → IsRace s → IsRace (receive i s)
unfolding receive
receive-IsRace (gets_robots robots) s e h =
    gather-IsRace s (record s { robots = some robots }) e refl refl refl refl h
receive-IsRace (gets_tasks tasks) s e h =
    gather-IsRace s (record s { tasks = some tasks }) e refl refl refl refl h
receive-IsRace (gets_metrics metrics) s e h =
    gather-IsRace s (record s { metrics = some metrics }) e refl refl refl refl h
receive-IsRace (gets_alerts alerts) s e h =
    gather-IsRace s (record s { alerts = some alerts }) e refl refl refl refl h
receive-IsRace fails_request s e h = (refl, refl)
receive-IsRace (aborts is_error) s e h =
    if-elim IsRace s.listening (λ _. abort-IsRace s.controller (caller_reason is_error) s h)
      (λ _. h)
receive-IsRace times_out s e h =
    if-elim IsRace s.timer (λ _. abort-IsRace s.controller timeout_error s h) (λ _. h)

split : (o : Option Result) → (o ≡ none) ⊎ ((r : Result) × (o ≡ some r))
split none = inl refl
split (some r) = inr (r, refl)

unsettled : (o : Option Result) → is_settled o ≡ false → o ≡ none
unsettled none h = refl
unsettled (some r) h = cc

step-IsRace : (i : Input) (s : Fetch) → IsRace s → IsRace (step i s)
unfolding step
step-IsRace i s h =
    if-elim IsRace (is_settled s.result) (λ _. h)
      (λ open_race. receive-IsRace i s (unsettled s.result open_race) h)

run-IsRace : (inputs : List Input) (s : Fetch) → IsRace s → IsRace (run inputs s)
unfolding run
run-IsRace [] s h = h
run-IsRace (i ∷ inputs) s h = run-IsRace inputs (step i s) (step-IsRace i s h)

start-IsRace : (aborted : Option Bool) → IsRace (start aborted)
unfolding start
start-IsRace none = (refl, refl, refl)
start-IsRace (some is_error) = (refl, refl)

-- Whatever happens in whatever order after the start, while there is no result the timer runs, the
-- caller's signal is listened to and the controller is not aborted; with the result both are given up; and a snapshot that is returned
-- holds the four answers.
pub fetch-IsRace :
    (aborted : Option Bool) (inputs : List Input) → IsRace (run inputs (start aborted))
fetch-IsRace aborted inputs = run-IsRace inputs (start aborted) (start-IsRace aborted)

settled_stays : (inputs : List Input) (s : Fetch) → is_settled s.result ≡ true → run inputs s ≡ s
unfolding run step
settled_stays [] s h = refl
settled_stays (i ∷ inputs) s h = ap (run inputs) (if-true _ _ h) ∙ settled_stays inputs s h

-- The result, once the timeout is over.
abbrev pub ended : Option Result → Result
ended none = rejects by_timeout
ended (some r) = r

step-ended : (s : Fetch) → IsRace s → (step times_out s).result ≡ some (ended s.result)
unfolding step receive
step-ended s h = elim (split s.result) [
  | inl e ↦ let (timer, _, controller) = subst (λ o. IsOf o s) e h in rw (e, timer, controller) refl
  | inr (r, e) ↦ rw e refl
]

-- Whatever happens after the start and before the timeout is over, the fetch then has a result, the
-- error of the timeout if it had none, and is changed by nothing that comes afterwards.
pub timeout_settles :
    (aborted : Option Bool) (before after : List Input)
    → ((step times_out (run before (start aborted))).result
        ≡ some (ended (run before (start aborted)).result))
      × (run after (step times_out (run before (start aborted)))
          ≡ step times_out (run before (start aborted)))
timeout_settles aborted before after =
    let s = run before (start aborted) in
    let e : (step times_out s).result ≡ some (ended s.result) =
      step-ended s (fetch-IsRace aborted before) in
    (e, settled_stays after (step times_out s) (ap is_settled e))
