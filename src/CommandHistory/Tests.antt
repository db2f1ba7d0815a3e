-- ===== src/CommandHistory/Tests.antt =====
-- Tests of the model of app/commands/page.tsx.
use ev_factory_twin.Prelude.{◌≡◌, refl, none, List, [], ◌∷◌}
use ev_factory_twin.Prelude.Sort.{sort}
use ev_factory_twin.Prelude.Dict.{merge, from_entries, insert, lookup}
use ev_factory_twin.Store.{set_commands}
use ev_factory_twin.Schema.Fleet.{monitor}
use ev_factory_twin.Schema.Planning.{Command, failed}
use ev_factory_twin.Samples.{date_of, live_store, command}
use ev_factory_twin.CommandHistory.{
  CommandHistory, listed_commands, initial, for_page, for_failed_retry, gets_commands, retries,
  Input, mounts, clicks_retry, gets_list, loses_retry, can_retry, load, retry, retry_fails,
  commands_arrive, step, run,
}
use ev_factory_twin.CommandHistory.Retrying.{
  IsOfLoad, AddsJustified, run_hides_retry_errors, step_retries_justified,
}
use ev_factory_twin.Permissions.{can}

abbrev broken : Command
broken = record (command "12") { status = failed }

-- The history loads, a failed command is retried, the retry fails and the history is loaded again.
abbrev session : List Input
session =
    mounts
    ∷ gets_list for_page (broken ∷ [])
    ∷ clicks_retry 0
    ∷ clicks_retry 0
    ∷ loses_retry "503"
    ∷ gets_list for_failed_retry (broken ∷ [])
    ∷ []

session-effects :
    (run date_of session (initial monitor live_store)).effects
    ≡ gets_commands for_page ∷ retries "OP-1" ∷ gets_commands for_failed_retry ∷ []
unfolding run step listed_commands sort can_retry load retry retry_fails commands_arrive can
    set_commands merge from_entries insert lookup
session-effects = refl

session-error : (run date_of session (initial monitor live_store)).error ≡ none
unfolding run step listed_commands sort can_retry load retry retry_fails commands_arrive can
    set_commands merge from_entries insert lookup
session-error = refl

run_hides_retry_errors_example : IsOfLoad (run date_of session (initial monitor live_store)).error
run_hides_retry_errors_example =
    run_hides_retry_errors date_of session (initial monitor live_store) tt

abbrev loaded : CommandHistory
loaded = run date_of (mounts ∷ gets_list for_page (broken ∷ []) ∷ []) (initial monitor live_store)

step_retries_justified_example :
    AddsJustified (listed_commands date_of loaded) loaded (step date_of (clicks_retry 0) loaded)
step_retries_justified_example = step_retries_justified date_of (clicks_retry 0) loaded
