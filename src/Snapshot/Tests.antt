-- ===== src/Snapshot/Tests.antt =====
-- Tests of the model of lib/factory-snapshot.ts.
use ev_factory_twin.Prelude.{◌≡◌, refl, true, none, some, [], ◌∷◌}
use ev_factory_twin.Samples.{robot, metrics}
use ev_factory_twin.Snapshot.Fetch.{
  start, gets_robots, gets_tasks, gets_metrics, gets_alerts, times_out, aborts, run, receive,
  rejects, by_caller, step,
}
use ev_factory_twin.Snapshot.Fetch.Race.{IsRace, ended, fetch-IsRace, timeout_settles}

fetch-IsRace_example : IsRace (
    run
      (gets_robots (robot ∷ [])
        ∷ gets_metrics metrics
        ∷ gets_tasks []
        ∷ gets_alerts []
        ∷ times_out
        ∷ [])
      (start none))
fetch-IsRace_example = fetch-IsRace none (
    gets_robots (robot ∷ [])
    ∷ gets_metrics metrics
    ∷ gets_tasks []
    ∷ gets_alerts []
    ∷ times_out
    ∷ [])

timeout_settles_example :
    ((step times_out (run (gets_tasks [] ∷ []) (start none))).result
      ≡ some (ended (run (gets_tasks [] ∷ []) (start none)).result))
    × (run (aborts true ∷ []) (step times_out (run (gets_tasks [] ∷ []) (start none)))
        ≡ step times_out (run (gets_tasks [] ∷ []) (start none)))
timeout_settles_example = timeout_settles none (gets_tasks [] ∷ []) (aborts true ∷ [])

-- An abort of the caller is not overtaken by the timeout.
aborted_before_timeout :
    (run (aborts true ∷ times_out ∷ []) (start none)).result ≡ some (rejects by_caller)
unfolding run step receive start
aborted_before_timeout = refl
