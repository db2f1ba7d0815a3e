-- ===== src/Auth/Coherent.antt =====
-- The invariant of components/auth/auth-provider.tsx, and its parts.
pub mod Steps
use ev_factory_twin.Prelude.{
  ℕ, ◌≡◌, refl, ap, sym, ◌∙◌, arith, String, Bool, true, false, Option, none, some, List, [], ◌∷◌,
  ◌&&◌, ◌==◌, ◌||◌, not, beq, if◌then◌else◌, Bool-cases, inl, inr, if-elim, All, All-append,
  All-map_of, ◌≤◌, ◌+◌, ◌≢◌, any,
}
use ev_factory_twin.Schema.Fleet.{CurrentUser}
use ev_factory_twin.Auth.{
  Effect, gets_profile, refreshes_router, replaces_with_login, signs_out, reads_session,
  renews_session, signs_in, queues_hydration, login_fails, login_succeeds, perform, login_throws,
  login_loads, is_latest, is_forbidden, profile_error, no_profile, is_public_path, session_expired,
  access_revoked, AuthActionError, Auth, Session, Reason, Caller, by_login, by_other, ProfileAnswer,
  loads, refuses, breaks, token_of, clear_auth, redirect_to_login, terminate_session,
  expire_session, revoke_access, hydrate_session, handle_unauthorized, hydration_fails,
  hydration_ends, profile_arrives,
}
use ev_factory_twin.Auth.Inputs

-- A request for a profile was made for a generation up to this one, and for this one with a session.
abbrev pub IsAsked : ℕ → Option Session → Effect → Type 0
IsAsked generation session (gets_profile g caller) =
    (g ≤ generation) × (g ≡ generation → session ≢ none)
IsAsked generation session _ = Unit

-- The API client holds the token of the session, nobody is signed in without a session, and the
-- requests for profiles are in order.
abbrev pub IsCoherent : Auth → Type 0
IsCoherent s =
    (s.api_token ≡ token_of s.session)
    × (s.session ≡ none → s.user ≡ none)
    × All (IsAsked s.generation s.session) s.effects

pub perform-IsCoherent :
    (e : Effect) (s : Auth)
    → IsAsked s.generation s.session e
    → IsCoherent s
    → IsCoherent (perform e s)
perform-IsCoherent e s asked (a, b, c) = (a, b, All-append _ s.effects (e ∷ []) c (asked, tt))

bump : (n : ℕ) (old new : Option Session) (e : Effect) → IsAsked n old e → IsAsked (n + 1) new e
bump n old new (gets_profile g caller) (le, _) = (omega arith, λ h. absurd (omega arith))
bump n old new (replaces_with_login to) h = tt
bump n old new refreshes_router h = tt
bump n old new reads_session h = tt
bump n old new renews_session h = tt
bump n old new signs_in h = tt
bump n old new signs_out h = tt
bump n old new (queues_hydration session) h = tt
bump n old new (login_succeeds u) h = tt
bump n old new (login_fails e) h = tt

pub clear_auth-IsCoherent : (s : Auth) → IsCoherent s → IsCoherent (clear_auth s)
unfolding clear_auth
clear_auth-IsCoherent s (a, b, c) =
    (refl, λ _. refl, All-map_of s.effects (bump s.generation s.session none) c)

pub redirect-IsCoherent :
    (reason : Reason) (s : Auth) → IsCoherent s → IsCoherent (redirect_to_login reason s)
unfolding redirect_to_login
redirect-IsCoherent reason s h =
    let to = some (reason, if s.pathname == "/login" then none else some s.pathname) in
    if-elim IsCoherent (is_public_path s.pathname) (λ _. h)
      (λ _.
        perform-IsCoherent refreshes_router (perform (replaces_with_login to) s) tt
          (perform-IsCoherent (replaces_with_login to) s tt h))

pub terminate_session-IsCoherent :
    (reason : Reason) (s : Auth) → IsCoherent s → IsCoherent (terminate_session reason s)
unfolding terminate_session
terminate_session-IsCoherent reason s h =
    let started : Auth = record s { expiration_in_progress = true; logout_in_progress = true } in
    let cleared : Auth = record (clear_auth started) { error = none } in
    let redirected = redirect-IsCoherent reason cleared (clear_auth-IsCoherent started h) in
    if-elim IsCoherent s.expiration_in_progress (λ _. h)
      (λ _.
        if-elim IsCoherent s.has_client
          (λ _. perform-IsCoherent signs_out (redirect_to_login reason cleared) tt redirected)
          (λ _. redirected))

pub hydrate_session-IsCoherent :
    (caller : Caller) (next : Option Session) (s : Auth)
    → IsCoherent s
    → IsCoherent (hydrate_session caller next s)
unfolding hydrate_session
hydrate_session-IsCoherent caller none s (a, b, c) =
    (refl, λ _. refl, All-map_of s.effects (bump s.generation s.session none) c)
hydrate_session-IsCoherent caller (some session) s (a, b, c) = (
  refl,
  λ h. cc,
  All-append _ s.effects (gets_profile (s.generation + 1) caller ∷ [])
      (All-map_of s.effects (bump s.generation s.session (some session)) c)
      ((omega arith, λ _ h. cc), tt),
)

pub login_throws-IsCoherent :
    (caller : Caller) (e : AuthActionError) (s : Auth)
    → IsCoherent s
    → IsCoherent (login_throws caller e s)
login_throws-IsCoherent by_login e s h = perform-IsCoherent (login_fails e) s tt h
login_throws-IsCoherent by_other e s h = h

login_loads-IsCoherent :
    (caller : Caller) (u : CurrentUser) (s : Auth)
    → IsCoherent s
    → IsCoherent (login_loads caller u s)
login_loads-IsCoherent by_login u s h = perform-IsCoherent (login_succeeds u) s tt h
login_loads-IsCoherent by_other u s h = h

pub handle_unauthorized-IsCoherent :
    (answer : ProfileAnswer) (s : Auth) → IsCoherent s → IsCoherent (handle_unauthorized answer s)
unfolding handle_unauthorized expire_session
handle_unauthorized-IsCoherent (loads u) s h = h
handle_unauthorized-IsCoherent breaks s h = h
handle_unauthorized-IsCoherent (refuses status) s h =
    if-elim IsCoherent (beq status 401 && s.handles_unauthorized)
      (λ _. terminate_session-IsCoherent session_expired s h) (λ _. h)

hydration_fails-IsCoherent :
    (caller : Caller) (answer : ProfileAnswer) (s : Auth)
    → IsCoherent s
    → IsCoherent (hydration_fails caller answer s)
unfolding hydration_fails revoke_access
hydration_fails-IsCoherent caller answer s h =
    let e = profile_error answer in
    if-elim IsCoherent (is_forbidden answer)
      (λ _.
        login_throws-IsCoherent caller e (terminate_session access_revoked s)
          (terminate_session-IsCoherent access_revoked s h))
      (λ _.
        login_throws-IsCoherent caller e
          (record s { user = none; error = some e.message; is_loading = false })
          (h.0, (λ _. refl), h.2))

pub hydration_ends-IsCoherent :
    (caller : Caller) (answer : ProfileAnswer) (s : Auth)
    → s.session ≢ none
    → IsCoherent s
    → IsCoherent (hydration_ends caller answer s)
unfolding hydration_ends
hydration_ends-IsCoherent caller (loads u) s signed h =
    login_loads-IsCoherent caller u
      (record s { expiration_in_progress = false; user = some u; is_loading = false })
      (h.0, (λ e. absurd (signed e)), h.2)
hydration_ends-IsCoherent caller (refuses status) s signed h =
    hydration_fails-IsCoherent caller (refuses status) s h
hydration_ends-IsCoherent caller breaks s signed h = hydration_fails-IsCoherent caller breaks s h
