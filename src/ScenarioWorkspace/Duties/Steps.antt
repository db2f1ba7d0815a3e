-- ===== src/ScenarioWorkspace/Duties/Steps.antt =====
-- Each input of app/scenarios/page.tsx against what justifies its requests.
use ev_factory_twin.Prelude.{
  ℕ, ◌≡◌, refl, sym, arith, String, Bool, true, not, ◌&&◌, ◌||◌, Option, none, some, List, [], ◌∷◌,
  ◌++◌, if-elim, subst,
}
use ev_factory_twin.Prelude.Text.{is_empty, trim}
use ev_factory_twin.Schema.Fleet.{designer}
use ev_factory_twin.Schema.Planning.{Scenario, ScenarioStatus}
use ev_factory_twin.Schema.Layout.{LayoutVersion, LayoutSummary}
use ev_factory_twin.Schema.Request.{
  ScenarioRunRequest, RequestField, request_issues, parsed_request,
}
use ev_factory_twin.Permissions.{scenarios_run, scenarios_apply}
use ev_factory_twin.Workflow.{is_submitted, is_approved}
use ev_factory_twin.ScenarioWorkspace.{
  ScenarioWorkspace, ScenarioAction, LayoutUse, for_page, for_layout, for_version, for_revision,
  Effect, gets_layout, gets_layout_version, runs, submits, approves, requests_revision, applies,
  toasts_error, toasts_info, is_simulated,
}
use ev_factory_twin.ScenarioWorkspace.Loading.{
  ask_layout, ask_version, layout_arrives, layout_fails,
}
use ev_factory_twin.ScenarioWorkspace.Review.{
  may, ask, approve_scenario, request_revision, submit_scenario, open_confirmation, apply_confirmed,
  prepare, send_run, run_scenario,
}
use ev_factory_twin.ScenarioWorkspace.Inputs.{
  is_idle, press, send_note, Offer, same_offer, offered_for,
}
use ev_factory_twin.ScenarioWorkspace.Duties.{
  Justified, Adds, AddsJustified, Adds-nothing, Adds-one, runs-designer, reviews-monitor,
  applies-monitor,
}

-- An action about the candidate asks for what is justified if the effect is justified by the status and the
-- permission.
ask-Adds :
    (has_status : ScenarioStatus → Bool) (permitted : Bool) (refusal : String)
    (action : ScenarioAction) (request : String → Effect) (candidate : Option Scenario)
    (s : ScenarioWorkspace)
    → ((c : Scenario)
        → candidate ≡ some c
        → has_status c.status ≡ true
        → permitted ≡ true
        → Justified s (request c.id))
    → AddsJustified s (ask has_status permitted refusal action request candidate s)
ask-Adds has_status permitted refusal action request none s fine = Adds-nothing s
ask-Adds has_status permitted refusal action request (some c) s fine =
    if-elim (AddsJustified s) (not (has_status c.status) || not permitted) (λ _. Adds-nothing s)
      (λ ok. Adds-one (request c.id) s (fine c refl (ground arith) (ground arith)))

-- What a button does is offered, in an idle page.
pub press-Adds :
    (o : Offer) (f : ScenarioWorkspace → ScenarioWorkspace) (s : ScenarioWorkspace)
    → (is_idle s.active_action ≡ true → AddsJustified s (f s))
    → AddsJustified s (press o f s)
press-Adds o f s fine =
    if-elim (AddsJustified s) (same_offer (offered_for s.candidate s) o && is_idle s.active_action)
      (λ on. fine (ground arith)) (λ _. Adds-nothing s)

pub submit-Adds :
    (s : ScenarioWorkspace) → is_idle s.active_action ≡ true → AddsJustified s (submit_scenario s)
unfolding submit_scenario
submit-Adds s idle = ask-Adds is_simulated _ _ _ submits s.candidate s (λ c found status permitted.
    (runs-designer s.user.role permitted, idle, (c, found, status, refl)))

pub approve-Adds :
    (s : ScenarioWorkspace) → is_idle s.active_action ≡ true → AddsJustified s (approve_scenario s)
unfolding approve_scenario
approve-Adds s idle =
    ask-Adds is_submitted _ _ _ approves s.candidate s (λ c found status permitted.
      (reviews-monitor s.user.role permitted, idle, (c, found, status, refl)))

pub send_note-Adds :
    (text : String) (s : ScenarioWorkspace)
    → is_idle s.active_action ≡ true
    → AddsJustified s (send_note text s)
unfolding request_revision
send_note-Adds text s idle =
    if-elim (AddsJustified s) (is_empty (trim text)) (λ _. Adds-nothing s)
      (λ written.
        ask-Adds is_submitted _ _ _ (λ id. requests_revision id (trim text)) s.candidate s
          (λ c found status permitted.
            (reviews-monitor s.user.role permitted, idle, written, (c, found, status, refl))))

pub open_confirmation-Adds :
    (c : Option Scenario) (s : ScenarioWorkspace) → AddsJustified s (open_confirmation c s)
open_confirmation-Adds none s = Adds-nothing s
open_confirmation-Adds (some c) s =
    if-elim (AddsJustified s) _ (λ _. Adds-nothing s) (λ _. Adds-nothing s)

pub apply_confirmed-Adds :
    (candidate : Option Scenario) (s : ScenarioWorkspace)
    → s.candidate ≡ candidate
    → s.apply_confirmation_open ≡ true
    → AddsJustified s (apply_confirmed candidate s)
apply_confirmed-Adds none s found opened = Adds-nothing s
apply_confirmed-Adds (some c) s found opened =
    if-elim (AddsJustified s) (not (is_approved c.status) || not (may scenarios_apply s))
      (λ _. Adds-nothing s)
      (λ ok.
        Adds-one (applies c.id) s
          (applies-monitor s.user.role (ground arith), opened, (c, found, ground arith, refl)))

pub prepare-Adds : (c : Option Scenario) (s : ScenarioWorkspace) → AddsJustified s (prepare c s)
prepare-Adds none s = Adds-nothing s
prepare-Adds (some c) s =
    if-elim (AddsJustified s) _ (λ _. Adds-nothing s)
      (λ _.
        Adds-one (gets_layout_version (for_revision c) c.config.layout_id c.config.layout_version) s
          tt)

send_run-Adds :
    (issue_message : RequestField → ScenarioRunRequest → String) (issues : List RequestField)
    (request : ScenarioRunRequest) (s : ScenarioWorkspace)
    → request_issues request ≡ issues
    → s.user.role ≡ designer
    → is_idle s.active_action ≡ true
    → AddsJustified s (send_run issue_message issues request s)
send_run-Adds issue_message [] request s none_found role idle =
    Adds-one (runs (parsed_request request)) s (role, idle, (request, none_found, refl))
send_run-Adds issue_message (f ∷ fs) request s found role idle = Adds-nothing s

pub run_scenario-Adds :
    (issue_message : RequestField → ScenarioRunRequest → String) (request : ScenarioRunRequest)
    (s : ScenarioWorkspace)
    → is_idle s.active_action ≡ true
    → AddsJustified s (run_scenario issue_message request s)
unfolding run_scenario
run_scenario-Adds issue_message request s idle =
    if-elim (AddsJustified s) (not (may scenarios_run s)) (λ _. Adds-nothing s)
      (λ permitted.
        send_run-Adds issue_message (request_issues request) request s refl
          (runs-designer s.user.role (ground arith)) idle)

asked :
    (e : Effect) (s : ScenarioWorkspace) (effects : List Effect)
    → Justified s e
    → effects ≡ s.effects
    → Adds s (effects ++ e ∷ [])
asked e s effects fine same = subst (λ es. Adds s (es ++ e ∷ [])) (sym same) (Adds-one e s fine)

pub ask_layout-Adds :
    (l : Option LayoutSummary) (version : Option ℕ) (layouts : List LayoutSummary)
    (s t : ScenarioWorkspace)
    → t.effects ≡ s.effects
    → Adds s (ask_layout l version layouts t).effects
ask_layout-Adds (some l) (some version) layouts s t same =
    asked (gets_layout_version for_page l.id version) s t.effects tt same
ask_layout-Adds (some l) none layouts s t same =
    asked (gets_layout for_page l.id) s t.effects tt same
ask_layout-Adds none version [] s t same = subst (Adds s) (sym same) (Adds-nothing s)
ask_layout-Adds none version (l ∷ ls) s t same =
    asked (gets_layout for_page l.id) s t.effects tt same

pub layout_arrives-Adds :
    (purpose : LayoutUse) (v : LayoutVersion) (s : ScenarioWorkspace)
    → AddsJustified s (layout_arrives purpose v s)
unfolding layout_arrives
layout_arrives-Adds for_page v s = Adds-nothing s
layout_arrives-Adds for_layout v s = Adds-nothing s
layout_arrives-Adds for_version v s = Adds-nothing s
layout_arrives-Adds (for_revision c) v s = Adds-one (toasts_info _) s tt

pub layout_fails-Adds :
    (purpose : LayoutUse) (message : String) (s : ScenarioWorkspace)
    → AddsJustified s (layout_fails purpose message s)
unfolding layout_fails
layout_fails-Adds for_page message s = Adds-nothing s
layout_fails-Adds for_layout message s = Adds-nothing s
layout_fails-Adds for_version message s = Adds-nothing s
layout_fails-Adds (for_revision c) message s = Adds-one (toasts_error _) s tt

pub ask_version-Adds :
    (v : Option LayoutVersion) (version : Option ℕ) (s : ScenarioWorkspace)
    → AddsJustified s (ask_version v version s)
ask_version-Adds none version s = Adds-nothing s
ask_version-Adds (some v) none s = Adds-nothing s
ask_version-Adds (some v) (some version) s =
    Adds-one (gets_layout_version for_version v.layout_id version) s tt
