-- ===== src/Auth.antt =====
-- apps/frontend/src/components/auth/auth-provider.tsx: who is signed in. The record `Auth` holds the
-- component's states and refs, the token and the handler that it gives to lib/api-client.ts, and the
-- factory store that it resets. What it awaits is an effect, and the answer an input. Of a Supabase
-- session the code reads the access token.
pub mod Inputs
pub mod Ending
pub mod Racing
pub mod Coherent
pub mod Tests
use ev_factory_twin.Prelude.{
  ℕ, ◌+◌, String, Bool, true, false, not, ◌&&◌, ◌||◌, Option, none, some, List, [], ◌∷◌, ◌++◌, ◌==◌,
  beq, if◌then◌else◌,
}
use ev_factory_twin.Schema.Fleet.{CurrentUser}
use ev_factory_twin.Store.{FactoryStore, reset}

pub data ErrorCode : Type 0 where
  configuration invalid_credentials profile unavailable : ErrorCode

pub record AuthActionError : Type 0 where
  pub code : ErrorCode
  pub message : String

pub data Reason : Type 0 where
  session_expired access_revoked : Reason

-- A session, by its access token.
pub record Session : Type 0 where
  pub access_token : String

-- Who awaits a hydration: `login` has its errors thrown.
pub data Caller : Type 0 where
  by_login by_other : Caller

-- What `apiClient.getCurrentUser()` comes to: a user, an `ApiError` with its status, or another error.
pub data ProfileAnswer : Type 0 where
  loads : CurrentUser → ProfileAnswer
  refuses : ℕ → ProfileAnswer
  breaks : ProfileAnswer

pub data Effect : Type 0 where
  -- `/login` with the reason and the path to return to, or without
  replaces_with_login : Option (Reason × Option String) → Effect
  refreshes_router : Effect
  gets_profile : ℕ → Caller → Effect
  reads_session : Effect
  renews_session : Effect
  signs_in : Effect
  signs_out : Effect
  queues_hydration : Session → Effect
  login_succeeds : CurrentUser → Effect
  login_fails : AuthActionError → Effect

pub record Auth : Type 0 where
  pub user : Option CurrentUser
  pub session : Option Session
  pub is_loading : Bool
  pub error : Option String
  pub generation : ℕ
  pub mounted : Bool
  pub pathname : String
  pub logout_in_progress : Bool
  pub expiration_in_progress : Bool
  -- `clientRef.current !== null`
  pub has_client : Bool
  -- the `accessToken` of the API client, and whether its `unauthorizedHandler` is `expireSession`
  pub api_token : Option String
  pub handles_unauthorized : Bool
  pub store : FactoryStore
  pub effects : List Effect

abbrev pub perform : Effect → Auth → Auth
perform e s = record s { effects = s.effects ++ e ∷ [] }

abbrev pub is_public_path : String → Bool
is_public_path pathname =
    pathname == "/homepage" || (pathname == "/login" || pathname == "/scene-probe")

abbrev pub failure : ErrorCode → String → AuthActionError
failure code message = record { code = code; message = message }

unfoldable pub profile_error : ProfileAnswer → AuthActionError
profile_error (refuses status) =
    if beq status 403
    then failure profile "This account is inactive or does not have access."
    else if beq status 401
    then failure profile "Your session has expired. Please sign in again."
    else failure unavailable "Unable to verify your account with the Factory Twin API."
profile_error _ = failure unavailable "Unable to verify your account with the Factory Twin API."

unfoldable pub login_error : Option ℕ → AuthActionError
login_error none = failure unavailable "Authentication is temporarily unavailable."
login_error (some status) =
    if beq status 400 || (beq status 401 || beq status 422)
    then failure invalid_credentials "Invalid email or password."
    else failure unavailable "Authentication is temporarily unavailable."

unfoldable pub clear_auth : Auth → Auth
clear_auth s = record s {
  generation = s.generation + 1;
  api_token = none;
  session = none;
  user = none;
  is_loading = false;
  store = reset s.store;
}

unfoldable pub redirect_to_login : Reason → Auth → Auth
redirect_to_login reason s =
    if is_public_path s.pathname
    then s
    else let return_to = if s.pathname == "/login" then none else some s.pathname in
      perform refreshes_router (perform (replaces_with_login (some (reason, return_to))) s)

unfoldable pub terminate_session : Reason → Auth → Auth
unfolding clear_auth redirect_to_login
terminate_session reason s =
    let cleared : Auth =
      clear_auth (record s { expiration_in_progress = true; logout_in_progress = true }) in
    let redirected : Auth = redirect_to_login reason (record cleared { error = none }) in
    if s.expiration_in_progress
    then s
    else if s.has_client
    then perform signs_out redirected
    else record redirected { logout_in_progress = false }

unfoldable pub expire_session : Auth → Auth
unfolding terminate_session
expire_session s = terminate_session session_expired s

unfoldable pub revoke_access : Auth → Auth
unfolding terminate_session
revoke_access s = terminate_session access_revoked s

abbrev pub token_of : Option Session → Option String
token_of none = none
token_of (some session) = some session.access_token

-- The synchronous part of `hydrateSession`, up to the request for the profile.
unfoldable pub hydrate_session : Caller → Option Session → Auth → Auth
hydrate_session caller next s =
    let begun : Auth = record s {
      generation = s.generation + 1;
      session = next;
      api_token = token_of next;
      error = none;
    } in
    elim next [
      | none ↦ record begun { user = none; is_loading = false }
      | some _ ↦ perform (gets_profile (s.generation + 1) caller) begun
    ]

-- How `login` goes on from the end of the hydration that it awaits.
abbrev pub login_throws : Caller → AuthActionError → Auth → Auth
login_throws by_login e s = perform (login_fails e) s
login_throws by_other e s = s

abbrev pub login_loads : Caller → CurrentUser → Auth → Auth
login_loads by_login u s = perform (login_succeeds u) s
login_loads by_other u s = s

abbrev pub no_profile : AuthActionError
no_profile = failure profile "Unable to load your Factory Twin profile."

abbrev pub is_latest : ℕ → Auth → Bool
is_latest generation s = s.mounted && beq generation s.generation

-- `cause instanceof ApiError && cause.status === 403`
abbrev pub is_forbidden : ProfileAnswer → Bool
is_forbidden (refuses status) = beq status 403
is_forbidden _ = false

-- The API client calls its handler before it throws a 401.
unfoldable pub handle_unauthorized : ProfileAnswer → Auth → Auth
unfolding expire_session
handle_unauthorized (refuses status) s =
    if beq status 401 && s.handles_unauthorized then expire_session s else s
handle_unauthorized _ s = s

unfoldable pub hydration_fails : Caller → ProfileAnswer → Auth → Auth
unfolding revoke_access profile_error
hydration_fails caller answer s =
    let e = profile_error answer in
    if is_forbidden answer
    then login_throws caller e (revoke_access s)
    else login_throws caller e
        (record s { user = none; error = some e.message; is_loading = false })

unfoldable pub hydration_ends : Caller → ProfileAnswer → Auth → Auth
unfolding hydration_fails
hydration_ends caller (loads u) s =
    login_loads caller u
      (record s { expiration_in_progress = false; user = some u; is_loading = false })
hydration_ends caller (refuses status) s = hydration_fails caller (refuses status) s
hydration_ends caller breaks s = hydration_fails caller breaks s

-- The rest of `hydrateSession`.
unfoldable pub profile_arrives : Caller → ℕ → ProfileAnswer → Auth → Auth
unfolding handle_unauthorized hydration_ends
profile_arrives caller generation answer s =
    let told : Auth = handle_unauthorized answer s in
    if is_latest generation told
    then hydration_ends caller answer told
    else login_throws caller no_profile told
