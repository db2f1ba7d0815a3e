-- ===== src/CommandHistory/Retrying.antt =====
-- Retries in app/commands/page.tsx: who asks for them, and what is told of one that fails.
use Prim.Native.String.{◌++◌ as ◌+++◌}
use ev_factory_twin.Prelude.{
  ℕ, ◌≡◌, refl, arith, String, true, not, ◌&&◌, ◌||◌, Option, none, some, List, [], ◌∷◌, ◌++◌, All,
  ◌⊎◌, inl, inr, ◌≤◌, length, append-nil, sym, if-elim,
}
use ev_factory_twin.Prelude.Index.{get_elem?}
use ev_factory_twin.Schema.Fleet.{AppRole, designer, monitor}
use ev_factory_twin.Schema.Planning.{Command, CommandStatus, failed, timed_out}
use ev_factory_twin.Permissions.{can, commands_retry}
use ev_factory_twin.CommandHistory.{
  CommandHistory, for_page, for_failed_retry, Effect, gets_commands, retries, Input, mounts,
  clicks_refresh, clicks_retry, gets_list, loses_list, gets_retried, loses_retry, can_retry, load,
  load_fails, retry, retry_fails, press_retry, press_row, has_ended_badly, perform, listed_commands,
  is_free, commands_arrive, retry_arrives, step, run,
}

-- Nothing is told, or that the history could not be loaded.
abbrev pub IsOfLoad : Option String → Type 0
IsOfLoad none = Unit
IsOfLoad (some text) = (message : String) × (text ≡ "Unable to load command history: " +++ message)

abbrev TellsOfLoad : CommandHistory → Type 0
TellsOfLoad s = IsOfLoad s.error

-- What justifies a request in the state `s`, with the commands that the page lists.
abbrev pub IsJustified : List Command → CommandHistory → Effect → Type 0
IsJustified listed s (gets_commands waiting) = Unit
IsJustified listed s (retries id) =
    (s.role ≡ monitor)
    × (s.retrying ≡ none)
    × (row : ℕ) × (c : Command) × (get_elem? listed row ≡ some c)
    × (c.operation_id ≡ id)
    × ((c.status ≡ failed) ⊎ (c.status ≡ timed_out))
    × (length c.attempts ≤ c.max_retries)

-- `t` asks for what `s` asks for, and newly for what is justified in `s`.
abbrev pub AddsJustified : List Command → CommandHistory → CommandHistory → Type 0
AddsJustified listed s t =
    (added : List Effect) × (t.effects ≡ s.effects ++ added) × All (IsJustified listed s) added

Adds-nothing : (listed : List Command) (s : CommandHistory) → AddsJustified listed s s
Adds-nothing listed s = ([], sym (append-nil s.effects), tt)

Adds-one :
    (listed : List Command) (e : Effect) (s : CommandHistory)
    → IsJustified listed s e
    → AddsJustified listed s (perform e s)
Adds-one listed e s h = (e ∷ [], refl, (h, tt))

role_retries : (role : AppRole) → can (some role) commands_retry ≡ true → role ≡ monitor
unfolding can
role_retries monitor h = refl
role_retries designer h = cc

free_none : (o : Option String) → is_free o ≡ true → o ≡ none
free_none none h = refl
free_none (some id) h = cc

ended_badly :
    (status : CommandStatus)
    → has_ended_badly status ≡ true
    → (status ≡ failed) ⊎ (status ≡ timed_out)
ended_badly failed h = inl refl
ended_badly timed_out h = inr refl
ended_badly _ h = cc

can_retry_lem :
    (c : Command)
    → can_retry c ≡ true
    → ((c.status ≡ failed) ⊎ (c.status ≡ timed_out)) × (length c.attempts ≤ c.max_retries)
unfolding can_retry
can_retry_lem c h = (ended_badly c.status (ground arith), ground arith)

press_retry-Adds :
    (row : ℕ) (listed : List Command) (c : Command) (s : CommandHistory)
    → get_elem? listed row ≡ some c
    → AddsJustified listed s (press_retry c s)
unfolding retry
press_retry-Adds row listed c s at =
    if-elim (AddsJustified listed s)
      (can (some s.role) commands_retry && (can_retry c && is_free s.retrying))
      (λ pressed.
        if-elim (AddsJustified listed s)
          (not (can (some s.role) commands_retry) || not (can_retry c)) (λ _. Adds-nothing listed s)
          (λ _.
            let (bad, budget) = can_retry_lem c (ground arith) in
            Adds-one listed (retries c.operation_id) s (
              role_retries s.role (ground arith),
              free_none s.retrying (ground arith),
              row,
              c,
              at,
              refl,
              bad,
              budget,
            )))
      (λ _. Adds-nothing listed s)

press_row-Adds :
    (row : ℕ) (listed : List Command) (o : Option Command) (s : CommandHistory)
    → get_elem? listed row ≡ o
    → AddsJustified listed s (press_row o s)
press_row-Adds row listed none s at = Adds-nothing listed s
press_row-Adds row listed (some c) s at = press_retry-Adds row listed c s at

press_retry-tells :
    (c : Command) (s : CommandHistory) → TellsOfLoad s → TellsOfLoad (press_retry c s)
unfolding retry
press_retry-tells c s h =
    if-elim TellsOfLoad (can (some s.role) commands_retry && (can_retry c && is_free s.retrying))
      (λ _.
        if-elim TellsOfLoad (not (can (some s.role) commands_retry) || not (can_retry c)) (λ _. h)
          (λ _. tt))
      (λ _. h)

press_row-tells :
    (o : Option Command) (s : CommandHistory) → TellsOfLoad s → TellsOfLoad (press_row o s)
press_row-tells none s h = h
press_row-tells (some c) s h = press_retry-tells c s h

module _ (date_parse : String → Option ℕ) where
  step-tells : (i : Input) (s : CommandHistory) → TellsOfLoad s → TellsOfLoad (step date_parse i s)
  unfolding step load load_fails retry_fails commands_arrive retry_arrives
  step-tells mounts s h = tt
  step-tells clicks_refresh s h = if-elim TellsOfLoad s.loading (λ _. h) (λ _. tt)
  step-tells (clicks_retry row) s h =
      press_row-tells (get_elem? (listed_commands date_parse s) row) s h
  step-tells (gets_list waiting commands) s h = h
  step-tells (loses_list waiting message) s h = (message, refl)
  step-tells (gets_retried c) s h = h
  step-tells (loses_retry message) s h = tt

  -- Whatever happens to the page, the only error that it ever tells is that the history could not be
  -- loaded, if it was so before: no failure of a retry is told.
  pub run_hides_retry_errors :
      (inputs : List Input) (s : CommandHistory)
      → IsOfLoad s.error
      → IsOfLoad (run date_parse inputs s).error
  unfolding run
  run_hides_retry_errors [] s h = h
  run_hides_retry_errors (i ∷ inputs) s h =
      run_hides_retry_errors inputs (step date_parse i s) (step-tells i s h)

  -- Whatever happens to the page, a retry that it newly asks for is of a command that it lists, which has
  -- failed or timed out and has been attempted at most as often as it may be retried, and the page is a
  -- Monitor's and has no retry running.
  pub step_retries_justified :
      (i : Input) (s : CommandHistory)
      → AddsJustified (listed_commands date_parse s) s (step date_parse i s)
  unfolding step load load_fails retry_fails commands_arrive retry_arrives
  step_retries_justified mounts s =
      Adds-one (listed_commands date_parse s) (gets_commands for_page) s tt
  step_retries_justified clicks_refresh s =
      if-elim (AddsJustified (listed_commands date_parse s) s) s.loading
        (λ _. Adds-nothing (listed_commands date_parse s) s)
        (λ _. Adds-one (listed_commands date_parse s) (gets_commands for_page) s tt)
  step_retries_justified (clicks_retry row) s =
      press_row-Adds row (listed_commands date_parse s)
        (get_elem? (listed_commands date_parse s) row) s refl
  step_retries_justified (gets_list waiting commands) s =
      Adds-nothing (listed_commands date_parse s) s
  step_retries_justified (loses_list waiting message) s =
      Adds-nothing (listed_commands date_parse s) s
  step_retries_justified (gets_retried c) s = Adds-nothing (listed_commands date_parse s) s
  step_retries_justified (loses_retry message) s =
      Adds-one (listed_commands date_parse s) (gets_commands for_failed_retry) s tt
