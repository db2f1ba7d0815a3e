-- ===== src/Auth/Inputs.antt =====
-- components/auth/auth-provider.tsx: its callbacks and effect, each as what it does up to its `await`
-- and what it does with the answer. A microtask that follows at once is part of its step.
use ev_factory_twin.Prelude.{
  ℕ, String, Bool, true, false, not, ◌&&◌, Option, none, some, List, [], ◌∷◌, if◌then◌else◌, any,
  beq,
}
use ev_factory_twin.Auth.{
  Effect, gets_profile, Auth, Session, session_expired, Caller, by_login, by_other, ProfileAnswer,
  perform, is_public_path, failure, configuration, unavailable, login_error, login_fails,
  reads_session, renews_session, signs_in, signs_out, queues_hydration, replaces_with_login,
  refreshes_router, clear_auth, redirect_to_login, expire_session, hydrate_session, profile_arrives,
}

-- What a call of the Supabase client comes to: an error, with its status, or a session or none.
pub data SessionAnswer : Type 0 where
  fails : Option ℕ → SessionAnswer
  answers : Option Session → SessionAnswer

abbrev pub not_configured : String
not_configured = "Supabase authentication is not configured."

abbrev pub stop_loading : Option String → Auth → Auth
stop_loading error s = record s { error = error; is_loading = false }

abbrev pub redirect_unless_public : Auth → Auth
redirect_unless_public s =
    if is_public_path s.pathname then s else redirect_to_login session_expired s

unfoldable pub refresh_user : Auth → Auth
refresh_user s =
    if s.has_client
    then perform reads_session (record s { is_loading = true })
    else stop_loading (some not_configured) s

unfoldable pub session_read : SessionAnswer → Auth → Auth
unfolding clear_auth hydrate_session
session_read (fails status) s = redirect_unless_public (stop_loading none (clear_auth s))
session_read (answers none) s = redirect_unless_public (hydrate_session by_other none s)
session_read (answers (some session)) s = hydrate_session by_other (some session) s

unfoldable pub refresh_session : Auth → Auth
unfolding expire_session
refresh_session s = if s.has_client then perform renews_session s else expire_session s

unfoldable pub session_renewed : SessionAnswer → Auth → Auth
unfolding expire_session hydrate_session
session_renewed (answers (some session)) s = hydrate_session by_other (some session) s
session_renewed _ s = expire_session s

-- The component's effect, and its cleanup.
unfoldable pub mount : Auth → Auth
unfolding refresh_user
mount s' =
    let s : Auth = record s' { mounted = true } in
    if s.has_client
    then refresh_user (record s { handles_unauthorized = true })
    else stop_loading (some not_configured) s

unfoldable pub unmount : Auth → Auth
unmount s = record s {
  mounted = false;
  handles_unauthorized = if s.has_client then false else s.handles_unauthorized;
}

abbrev pub session_ended : Auth → Auth
session_ended s =
    let cleared : Auth = stop_loading none (clear_auth s) in
    if not s.logout_in_progress && not (is_public_path s.pathname)
    then redirect_to_login session_expired cleared
    else cleared

-- `onAuthStateChange`: whether the event is `SIGNED_OUT`, and the session that comes with it.
unfoldable pub on_auth_state_change : Bool → Option Session → Auth → Auth
on_auth_state_change signed_out none s = session_ended s
on_auth_state_change signed_out (some session) s =
    if signed_out then session_ended s else perform (queues_hydration session) s

unfoldable pub login : Auth → Auth
login s =
    if s.has_client
    then perform signs_in (record s { expiration_in_progress = false; error = none })
    else perform (login_fails (failure configuration not_configured)) s

unfoldable pub signed_in : SessionAnswer → Auth → Auth
unfolding hydrate_session
signed_in (fails status) s = perform (login_fails (login_error status)) s
signed_in (answers none) s =
    perform (login_fails (failure unavailable "Authentication did not return a session.")) s
signed_in (answers (some session)) s = hydrate_session by_login (some session) s

-- The `finally` of `logout`.
unfoldable pub logout_ends : Auth → Auth
logout_ends s = record (perform refreshes_router (perform (replaces_with_login none) s)) {
  logout_in_progress = false;
}

unfoldable pub logout : Auth → Auth
unfolding clear_auth logout_ends
logout s =
    let cleared : Auth =
      clear_auth (record s { logout_in_progress = true; expiration_in_progress = false }) in
    let left : Auth = record cleared { error = none } in
    if s.has_client then perform signs_out left else logout_ends left

-- The `finally` behind the `signOut` of `terminateSession`.
abbrev pub sign_out_ends : Auth → Auth
sign_out_ends s = record s { logout_in_progress = false }

pub data Input : Type 0 where
  mounts : Input
  unmounts : Input
  navigates : String → Input
  asks_refresh_user : Input
  reads : SessionAnswer → Input
  asks_refresh_session : Input
  renews : SessionAnswer → Input
  gets_unauthorized : Input
  changes_auth_state : Bool → Option Session → Input
  hydrates : Session → Input
  gets_profile_answer : Caller → ℕ → ProfileAnswer → Input
  asks_login : Input
  gets_sign_in : SessionAnswer → Input
  asks_logout : Input
  ends_logout : Input
  ends_termination : Input

-- Another call of the API client has met a 401.
abbrev pub unauthorized : Auth → Auth
unauthorized s = if s.handles_unauthorized then expire_session s else s

abbrev pub same_caller : Caller → Caller → Bool
same_caller by_login by_login = true
same_caller by_other by_other = true
same_caller _ _ = false

abbrev pub is_request : ℕ → Caller → Effect → Bool
is_request generation caller (gets_profile g c) = beq g generation && same_caller c caller
is_request generation caller _ = false

-- A profile comes as the answer to a request only.
unfoldable pub step : Input → Auth → Auth
step mounts s = mount s
step unmounts s = unmount s
step (navigates pathname) s = record s { pathname = pathname }
step asks_refresh_user s = refresh_user s
step (reads answer) s = session_read answer s
step asks_refresh_session s = refresh_session s
step (renews answer) s = session_renewed answer s
step gets_unauthorized s = unauthorized s
step (changes_auth_state signed_out next) s = on_auth_state_change signed_out next s
step (hydrates session) s = hydrate_session by_other (some session) s
step (gets_profile_answer caller generation answer) s =
    if any (is_request generation caller) s.effects
    then profile_arrives caller generation answer s
    else s
step asks_login s = login s
step (gets_sign_in answer) s = signed_in answer s
step asks_logout s = logout s
step ends_logout s = logout_ends s
step ends_termination s = sign_out_ends s

unfoldable pub run : List Input → Auth → Auth
run [] s = s
run (i ∷ inputs) s = run inputs (step i s)
