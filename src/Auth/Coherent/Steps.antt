-- ===== src/Auth/Coherent/Steps.antt =====
-- Every step of components/auth/auth-provider.tsx against the invariant.
use ev_factory_twin.Prelude.{
  ℕ, ◌≤◌, ◌≡◌, ◌≢◌, sym, ◌∙◌, arith, Bool, true, false, Option, none, some, List, [], ◌∷◌, ◌&&◌,
  not, any, All, Bool-cases, inl, inr, if-elim,
}
use ev_factory_twin.Auth.{
  Effect, gets_profile, replaces_with_login, refreshes_router, reads_session, renews_session,
  signs_in, signs_out, queues_hydration, login_succeeds, login_fails, perform, Auth, Session,
  session_expired, Caller, by_login, by_other, ProfileAnswer, loads, refuses, breaks, is_latest,
  is_public_path, failure, configuration, unavailable, login_error, clear_auth, redirect_to_login,
  terminate_session, expire_session, no_profile, hydrate_session, handle_unauthorized,
  profile_arrives,
}
use ev_factory_twin.Auth.Inputs
use ev_factory_twin.Auth.Inputs.{
  SessionAnswer, Input, is_request, same_caller, step, run, refresh_user, session_read,
  refresh_session, session_renewed, mount, unmount, on_auth_state_change, login, signed_in, logout,
  logout_ends, unauthorized, session_ended, redirect_unless_public, stop_loading, not_configured,
}
use ev_factory_twin.Auth.Coherent.{
  IsAsked, IsCoherent, perform-IsCoherent, clear_auth-IsCoherent, redirect-IsCoherent,
  terminate_session-IsCoherent, hydrate_session-IsCoherent, login_throws-IsCoherent,
  handle_unauthorized-IsCoherent, hydration_ends-IsCoherent,
}

request-IsAsked :
    (n generation : ℕ) (session : Option Session) (caller : Caller) (es : List Effect)
    → All (IsAsked n session) es
    → any (is_request generation caller) es ≡ true
    → (generation ≤ n) × (generation ≡ n → session ≢ none)
request-IsAsked n generation session caller [] h r = absurd (ground arith)
request-IsAsked n generation session caller (e ∷ es) h r =
    elim (Bool-cases (is_request generation caller e)) [
      | inl this ↦ asked_of e h.0 this
      | inr other ↦ request-IsAsked n generation session caller es h.1 (ground arith)
    ]
  where
    asked_of :
        (e : Effect)
        → IsAsked n session e
        → is_request generation caller e ≡ true
        → (generation ≤ n) × (generation ≡ n → session ≢ none)
    asked_of (gets_profile g c) (le, signed) this =
        let same : g ≡ generation = ground arith in (omega arith, λ h. signed (same ∙ h))
    asked_of (replaces_with_login to) h this = absurd (ground arith)
    asked_of refreshes_router h this = absurd (ground arith)
    asked_of reads_session h this = absurd (ground arith)
    asked_of renews_session h this = absurd (ground arith)
    asked_of signs_in h this = absurd (ground arith)
    asked_of signs_out h this = absurd (ground arith)
    asked_of (queues_hydration s) h this = absurd (ground arith)
    asked_of (login_succeeds u) h this = absurd (ground arith)
    asked_of (login_fails e) h this = absurd (ground arith)

-- A handler that ends the session leaves no request of it current.
told_latest :
    (generation : ℕ) (answer : ProfileAnswer) (s : Auth)
    → generation ≤ s.generation
    → is_latest generation (handle_unauthorized answer s) ≡ true
    → ((handle_unauthorized answer s).session ≡ s.session) × (generation ≡ s.generation)
unfolding handle_unauthorized expire_session terminate_session clear_auth redirect_to_login
told_latest generation (loads u) s le h = ground arith
told_latest generation breaks s le h = ground arith
told_latest generation (refuses status) s le h = ground arith

profile_arrives-IsCoherent :
    (caller : Caller) (generation : ℕ) (answer : ProfileAnswer) (s : Auth)
    → (generation ≤ s.generation) × (generation ≡ s.generation → s.session ≢ none)
    → IsCoherent s
    → IsCoherent (profile_arrives caller generation answer s)
unfolding profile_arrives
profile_arrives-IsCoherent caller generation answer s (le, signed) h =
    let told : Auth = handle_unauthorized answer s in
    let k = handle_unauthorized-IsCoherent answer s h in
    if-elim IsCoherent (is_latest generation told)
      (λ latest.
        let (same, current) = told_latest generation answer s le latest in
        hydration_ends-IsCoherent caller answer told (λ e. signed current (sym same ∙ e)) k)
      (λ _. login_throws-IsCoherent caller no_profile told k)

redirect_unless_public-IsCoherent :
    (s : Auth) → IsCoherent s → IsCoherent (redirect_unless_public s)
redirect_unless_public-IsCoherent s h =
    if-elim IsCoherent (is_public_path s.pathname) (λ _. h)
      (λ _. redirect-IsCoherent session_expired s h)

refresh_user-IsCoherent : (s : Auth) → IsCoherent s → IsCoherent (refresh_user s)
unfolding refresh_user
refresh_user-IsCoherent s h =
    if-elim IsCoherent s.has_client
      (λ _. perform-IsCoherent reads_session (record s { is_loading = true }) tt h) (λ _. h)

session_read-IsCoherent :
    (answer : SessionAnswer) (s : Auth) → IsCoherent s → IsCoherent (session_read answer s)
unfolding session_read
session_read-IsCoherent (Inputs.fails status) s h =
    redirect_unless_public-IsCoherent (stop_loading none (clear_auth s)) (clear_auth-IsCoherent s h)
session_read-IsCoherent (Inputs.answers none) s h =
    redirect_unless_public-IsCoherent (hydrate_session by_other none s)
      (hydrate_session-IsCoherent by_other none s h)
session_read-IsCoherent (Inputs.answers (some session)) s h =
    hydrate_session-IsCoherent by_other (some session) s h

refresh_session-IsCoherent : (s : Auth) → IsCoherent s → IsCoherent (refresh_session s)
unfolding refresh_session expire_session
refresh_session-IsCoherent s h =
    if-elim IsCoherent s.has_client (λ _. perform-IsCoherent renews_session s tt h)
      (λ _. terminate_session-IsCoherent session_expired s h)

session_renewed-IsCoherent :
    (answer : SessionAnswer) (s : Auth) → IsCoherent s → IsCoherent (session_renewed answer s)
unfolding session_renewed expire_session
session_renewed-IsCoherent (Inputs.answers (some session)) s h =
    hydrate_session-IsCoherent by_other (some session) s h
session_renewed-IsCoherent (Inputs.answers none) s h =
    terminate_session-IsCoherent session_expired s h
session_renewed-IsCoherent (Inputs.fails status) s h =
    terminate_session-IsCoherent session_expired s h

mount-IsCoherent : (s : Auth) → IsCoherent s → IsCoherent (mount s)
unfolding mount
mount-IsCoherent s h =
    if-elim IsCoherent s.has_client
      (λ _. refresh_user-IsCoherent (record s { mounted = true; handles_unauthorized = true }) h)
      (λ _. h)

ended-IsCoherent : (s : Auth) → IsCoherent s → IsCoherent (session_ended s)
ended-IsCoherent s h =
    let cleared : Auth = stop_loading none (clear_auth s) in
    if-elim IsCoherent (not s.logout_in_progress && not (is_public_path s.pathname))
      (λ _. redirect-IsCoherent session_expired cleared (clear_auth-IsCoherent s h))
      (λ _. clear_auth-IsCoherent s h)

on_auth_state_change-IsCoherent :
    (signed_out : Bool) (next : Option Session) (s : Auth)
    → IsCoherent s
    → IsCoherent (on_auth_state_change signed_out next s)
unfolding on_auth_state_change
on_auth_state_change-IsCoherent signed_out none s h = ended-IsCoherent s h
on_auth_state_change-IsCoherent signed_out (some session) s h =
    if-elim IsCoherent signed_out (λ _. ended-IsCoherent s h)
      (λ _. perform-IsCoherent (queues_hydration session) s tt h)

login-IsCoherent : (s : Auth) → IsCoherent s → IsCoherent (login s)
unfolding login
login-IsCoherent s h =
    if-elim IsCoherent s.has_client
      (λ _.
        perform-IsCoherent signs_in (record s { expiration_in_progress = false; error = none }) tt
          h)
      (λ _. perform-IsCoherent (login_fails (failure configuration not_configured)) s tt h)

signed_in-IsCoherent :
    (answer : SessionAnswer) (s : Auth) → IsCoherent s → IsCoherent (signed_in answer s)
unfolding signed_in
signed_in-IsCoherent (Inputs.fails status) s h =
    perform-IsCoherent (login_fails (login_error status)) s tt h
signed_in-IsCoherent (Inputs.answers none) s h =
    perform-IsCoherent
      (login_fails (failure unavailable "Authentication did not return a session.")) s tt h
signed_in-IsCoherent (Inputs.answers (some session)) s h =
    hydrate_session-IsCoherent by_login (some session) s h

logout_ends-IsCoherent : (s : Auth) → IsCoherent s → IsCoherent (logout_ends s)
unfolding logout_ends
logout_ends-IsCoherent s h =
    perform-IsCoherent refreshes_router (perform (replaces_with_login none) s) tt
      (perform-IsCoherent (replaces_with_login none) s tt h)

logout-IsCoherent : (s : Auth) → IsCoherent s → IsCoherent (logout s)
unfolding logout
logout-IsCoherent s h =
    let begun : Auth = record s { logout_in_progress = true; expiration_in_progress = false } in
    let left : Auth = record (clear_auth begun) { error = none } in
    let k : IsCoherent left = clear_auth-IsCoherent begun h in
    if-elim IsCoherent s.has_client (λ _. perform-IsCoherent signs_out left tt k)
      (λ _. logout_ends-IsCoherent left k)

step-IsCoherent : (i : Input) (s : Auth) → IsCoherent s → IsCoherent (step i s)
unfolding step unmount expire_session
step-IsCoherent Inputs.mounts s h = mount-IsCoherent s h
step-IsCoherent Inputs.unmounts s h = h
step-IsCoherent (Inputs.navigates pathname) s h = h
step-IsCoherent Inputs.asks_refresh_user s h = refresh_user-IsCoherent s h
step-IsCoherent (Inputs.reads answer) s h = session_read-IsCoherent answer s h
step-IsCoherent Inputs.asks_refresh_session s h = refresh_session-IsCoherent s h
step-IsCoherent (Inputs.renews answer) s h = session_renewed-IsCoherent answer s h
step-IsCoherent Inputs.gets_unauthorized s h =
    if-elim IsCoherent s.handles_unauthorized
      (λ _. terminate_session-IsCoherent session_expired s h) (λ _. h)
step-IsCoherent (Inputs.changes_auth_state signed_out next) s h =
    on_auth_state_change-IsCoherent signed_out next s h
step-IsCoherent (Inputs.hydrates session) s h =
    hydrate_session-IsCoherent by_other (some session) s h
step-IsCoherent (Inputs.gets_profile_answer caller generation answer) s h =
    if-elim IsCoherent (any (is_request generation caller) s.effects)
      (λ r.
        profile_arrives-IsCoherent caller generation answer s
          (request-IsAsked s.generation generation s.session caller s.effects h.2 r) h)
      (λ _. h)
step-IsCoherent Inputs.asks_login s h = login-IsCoherent s h
step-IsCoherent (Inputs.gets_sign_in answer) s h = signed_in-IsCoherent answer s h
step-IsCoherent Inputs.asks_logout s h = logout-IsCoherent s h
step-IsCoherent Inputs.ends_logout s h = logout_ends-IsCoherent s h
step-IsCoherent Inputs.ends_termination s h = h

-- Whatever happens, in whatever order, these hold if they did: the API client holds the token of the
-- current session and none without one, nobody is signed in without a session, and a request for a
-- profile is that of the current generation only while there is a session.
pub run-IsCoherent : (inputs : List Input) (s : Auth) → IsCoherent s → IsCoherent (run inputs s)
unfolding run
run-IsCoherent [] s h = h
run-IsCoherent (i ∷ inputs) s h = run-IsCoherent inputs (step i s) (step-IsCoherent i s h)
