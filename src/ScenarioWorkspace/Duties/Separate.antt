-- ===== src/ScenarioWorkspace/Duties/Separate.antt =====
-- One user's session in app/scenarios/page.tsx.
use ev_factory_twin.Prelude.{
  ℕ, ◌≡◌, refl, sym, ap, arith, String, Option, none, some, List, [], ◌∷◌, All, All-append,
  All-map_of, if-elim, subst,
}
use ev_factory_twin.Schema.Fleet.{Number, AppRole, designer, monitor, CurrentUser}
use ev_factory_twin.Schema.Layout.{LayoutSummary}
use ev_factory_twin.Schema.Request.{ScenarioRunRequest, RequestField}
use ev_factory_twin.ScenarioWorkspace.{
  ScenarioWorkspace, for_page, for_layout, for_version, for_revision, Effect, runs, submits,
  approves, requests_revision, applies,
}
use ev_factory_twin.ScenarioWorkspace.Loading.{
  load_page, page_loaded, page_fails, scenarios_arrive, commands_arrive, commands_fail, ask_layout,
  select_layout, select_layout_version, layout_arrives, layout_fails, linked_layout,
}
use ev_factory_twin.ScenarioWorkspace.Review.{
  approve_scenario, request_revision, submit_scenario, request_apply_scenario, apply_scenario,
  start_revision, review_arrives, action_fails, select_scenario, apply_arrives, run_scenario,
  run_arrives,
}
use ev_factory_twin.ScenarioWorkspace.Inputs.{
  Input, gets_page as gets_page_answer, gets_layout_answer, loses_layout, handle, step, run,
}
use ev_factory_twin.ScenarioWorkspace.Duties.{Justified}
use ev_factory_twin.ScenarioWorkspace.Duties.Runs.{step_justified}

-- Designers run and submit; Monitors review and apply.
abbrev pub IsDutyOf : AppRole → Effect → Type 0
IsDutyOf role (runs request) = role ≡ designer
IsDutyOf role (submits id) = role ≡ designer
IsDutyOf role (approves id) = role ≡ monitor
IsDutyOf role (requests_revision id note) = role ≡ monitor
IsDutyOf role (applies id) = role ≡ monitor
IsDutyOf role _ = Unit

duty : (s : ScenarioWorkspace) (e : Effect) → Justified s e → IsDutyOf s.user.role e
duty s (runs request) h = h.0
duty s (submits id) h = h.0
duty s (approves id) h = h.0
duty s (requests_revision id note) h = h.0
duty s (applies id) h = h.0
duty s _ h = tt

abbrev HasUser : CurrentUser → ScenarioWorkspace → Type 0
HasUser u s = s.user ≡ u

user-ask_layout :
    (l : Option LayoutSummary) (version : Option ℕ) (layouts : List LayoutSummary)
    (s : ScenarioWorkspace)
    → (ask_layout l version layouts s).user ≡ s.user
user-ask_layout (some l) (some version) layouts s = refl
user-ask_layout (some l) none layouts s = refl
user-ask_layout none version [] s = refl
user-ask_layout none version (l ∷ ls) s = refl

module _ (date_parse : String → Option ℕ)
    (issue_message : RequestField → ScenarioRunRequest → String) (fixed : Number → String)
    (number_text : ℕ → String) where
  user-handle :
      (i : Input) (s : ScenarioWorkspace)
      → (handle date_parse issue_message fixed number_text i s).user ≡ s.user
  unfolding handle load_page page_loaded page_fails scenarios_arrive commands_arrive commands_fail
      select_layout select_layout_version layout_arrives layout_fails approve_scenario
      request_revision submit_scenario request_apply_scenario apply_scenario start_revision
      review_arrives action_fails select_scenario apply_arrives run_scenario run_arrives
  user-handle (gets_page_answer query baseline layouts scenarios) s =
      user-ask_layout (linked_layout query.layout layouts) query.version layouts _
  user-handle (gets_layout_answer for_page v) s = refl
  user-handle (gets_layout_answer for_layout v) s = refl
  user-handle (gets_layout_answer for_version v) s = refl
  user-handle (gets_layout_answer (for_revision c) v) s = refl
  user-handle (loses_layout for_page message) s = refl
  user-handle (loses_layout for_layout message) s = refl
  user-handle (loses_layout for_version message) s = refl
  user-handle (loses_layout (for_revision c) message) s = refl
  user-handle _ s = ground arith

  user-step :
      (i : Input) (s : ScenarioWorkspace)
      → (step date_parse issue_message fixed number_text i s).user ≡ s.user
  unfolding step
  user-step i s = if-elim (HasUser s.user) _ (λ _. user-handle i s) (λ _. user-handle i s)

  step-duties :
      (role : AppRole) (i : Input) (s : ScenarioWorkspace)
      → s.user.role ≡ role
      → All (IsDutyOf role) s.effects
      → All (IsDutyOf role) (step date_parse issue_message fixed number_text i s).effects
  step-duties role i s is_role h =
      let (new, added, justified) = step_justified date_parse issue_message fixed number_text i s in
      rw added (
        All-append (IsDutyOf role) s.effects new h
          (All-map_of new (λ e j. subst (λ r. IsDutyOf r e) is_role (duty s e j)) justified))

  -- In a session of one user, whatever happens, runs and submissions are asked for by a Designer only, and
  -- reviews and applications by a Monitor only, if that is so of what was asked for before.
  pub run_keeps_duties :
      (inputs : List Input) (s : ScenarioWorkspace)
      → All (IsDutyOf s.user.role) s.effects
      → All (IsDutyOf s.user.role) (run date_parse issue_message fixed number_text inputs s).effects
  unfolding run
  run_keeps_duties [] s h = h
  run_keeps_duties (i ∷ inputs) s h =
      let t = step date_parse issue_message fixed number_text i s in
      let same : t.user.role ≡ s.user.role = ap (λ (u : CurrentUser). u.role) (user-step i s) in
      subst
        (λ r. All (IsDutyOf r) (run date_parse issue_message fixed number_text inputs t).effects)
        same
        (run_keeps_duties inputs t (
          step-duties t.user.role i s (sym same)
            (subst (λ r. All (IsDutyOf r) s.effects) (sym same) h)))
