-- ===== src/ScenarioWorkspace/Duties.antt =====
-- Who may ask for what in app/scenarios/page.tsx.
pub mod Steps
pub mod Runs
pub mod Separate
use ev_factory_twin.Prelude.{
  ℕ, ◌≡◌, refl, sym, ap, ◌∙◌, arith, String, Bool, true, false, not, ◌&&◌, ◌||◌, Option, none, some,
  List, [], ◌∷◌, ◌++◌, append-nil, append_assoc, All, All-append, if◌then◌else◌, if-elim,
  Bool-cases, inl, inr,
}
use ev_factory_twin.Prelude.Text.{is_empty, trim}
use ev_factory_twin.Schema.Fleet.{AppRole, designer, monitor}
use ev_factory_twin.Schema.Planning.{Scenario, ScenarioStatus}
use ev_factory_twin.Schema.Request.{
  ScenarioRunRequest, RequestField, request_issues, parsed_request,
}
use ev_factory_twin.Permissions.{can, scenarios_run, scenarios_review, scenarios_apply}
use ev_factory_twin.Workflow.{is_submitted, is_approved, is_by}
use ev_factory_twin.ScenarioWorkspace.{
  ScenarioWorkspace, Effect, gets_page, gets_scenarios, gets_commands, gets_layout,
  gets_layout_version, runs, submits, approves, requests_revision, applies, toasts_success,
  toasts_error, toasts_info, perform, is_simulated,
}
use ev_factory_twin.ScenarioWorkspace.Inputs.{is_idle}

-- The candidate has this id, and a status that passes the test.
abbrev pub IsCandidate : (ScenarioStatus → Bool) → String → ScenarioWorkspace → Type 0
IsCandidate has_status id s =
    (c : Scenario) × (s.candidate ≡ some c) × (has_status c.status ≡ true) × (c.id ≡ id)

-- What must hold of the page when it asks for this.
abbrev pub Justified : ScenarioWorkspace → Effect → Type 0
Justified s (runs q) =
    (s.user.role ≡ designer)
    × (is_idle s.active_action ≡ true)
    × ((r : ScenarioRunRequest) × (request_issues r ≡ []) × (q ≡ parsed_request r))
Justified s (submits id) =
    (s.user.role ≡ designer) × (is_idle s.active_action ≡ true) × IsCandidate is_simulated id s
Justified s (approves id) =
    (s.user.role ≡ monitor) × (is_idle s.active_action ≡ true) × IsCandidate is_submitted id s
Justified s (requests_revision id note) =
    (s.user.role ≡ monitor)
    × (is_idle s.active_action ≡ true)
    × (is_empty note ≡ false)
    × IsCandidate is_submitted id s
Justified s (applies id) =
    (s.user.role ≡ monitor) × (s.apply_confirmation_open ≡ true) × IsCandidate is_approved id s
Justified s _ = Unit

-- No more is asked for than what is justified in `s`.
abbrev pub Adds : ScenarioWorkspace → List Effect → Type 0
Adds s effects = (new : List Effect) × (effects ≡ s.effects ++ new) × All (Justified s) new

abbrev pub AddsJustified : ScenarioWorkspace → ScenarioWorkspace → Type 0
AddsJustified s t = Adds s t.effects

pub Adds-nothing : (s : ScenarioWorkspace) → Adds s s.effects
Adds-nothing s = ([], sym (append-nil s.effects), tt)

pub Adds-perform :
    (e : Effect) (s : ScenarioWorkspace) (effects : List Effect)
    → Justified s e
    → Adds s effects
    → Adds s (effects ++ e ∷ [])
Adds-perform e s effects fine (new, added, justified) = (
  new ++ e ∷ [],
  ap (λ es. es ++ e ∷ []) added ∙ append_assoc s.effects new (e ∷ []),
  All-append (Justified s) new (e ∷ []) justified (fine, tt),
)

pub Adds-one : (e : Effect) (s : ScenarioWorkspace) → Justified s e → Adds s (s.effects ++ e ∷ [])
Adds-one e s fine = Adds-perform e s s.effects fine (Adds-nothing s)

pub runs-designer : (role : AppRole) → can (some role) scenarios_run ≡ true → role ≡ designer
unfolding can
runs-designer designer h = refl
runs-designer monitor h = cc

pub reviews-monitor : (role : AppRole) → can (some role) scenarios_review ≡ true → role ≡ monitor
unfolding can
reviews-monitor designer h = cc
reviews-monitor monitor h = refl

pub applies-monitor : (role : AppRole) → can (some role) scenarios_apply ≡ true → role ≡ monitor
unfolding can
applies-monitor designer h = cc
applies-monitor monitor h = refl
