-- ===== src/Routing.antt =====
-- Where a request is sent: apps/frontend/src/middleware.ts, apps/frontend/src/lib/auth/return-to.ts, and
-- what components/auth/login-form.tsx makes of them. `new URL` is the argument `parse`.
pub mod Returning
pub mod Tests
use Prim.Native.Char.{Char, code}
use Prim.Native.String.{String, ◌++◌ as ◌+++◌}
use ev_factory_twin.Prelude.{
  ℕ, Bool, true, false, not, ◌&&◌, ◌||◌, Option, none, some, beq, ◌==◌, if◌then◌else◌,
}
use ev_factory_twin.Schema.Fleet.{AppRole, designer, monitor}

-- The middleware's answer. A response that continues is marked as private and not to be stored; a
-- redirection has the pathname and the `returnTo` of its address, and nothing else in its query.
pub data Answer : Type 0 where
  continues : Answer
  redirects : String → Option String → Answer

-- `pathname === "/homepage" || pathname === "/login"`
abbrev pub is_public : String → Bool
is_public pathname = pathname == "/homepage" || pathname == "/login"

-- `middleware`, told whether the session has a user. The cookies go along with every answer.
unfoldable pub middleware : Bool → String → String → Answer
middleware signed_in pathname search =
    if not signed_in && pathname == "/"
    then redirects "/homepage" none
    else if not signed_in && not (is_public pathname)
    then redirects "/login" (some (pathname +++ search))
    else continues

unfoldable pub default_route_for_role : AppRole → String
default_route_for_role designer = "/scenarios"
default_route_for_role monitor = "/"

-- What `safeReturnTo` reads of a `URL`.
pub record ParsedUrl : Type 0 where
  pub origin : String
  pub pathname : String
  pub search : String
  pub hash : String

abbrev pub starts_with_slash : String → Bool
starts_with_slash String.[] = false
starts_with_slash (String.◌∷◌ c s) = beq (code c) b'/'

abbrev pub starts_with_slashes : String → Bool
starts_with_slashes String.[] = false
starts_with_slashes (String.◌∷◌ c s) = beq (code c) b'/' && starts_with_slash s

abbrev pub has_backslash : String → Bool
has_backslash String.[] = false
has_backslash (String.◌∷◌ c s) = beq (code c) b'\\' || has_backslash s

-- `value.startsWith("/") && !value.startsWith("//") && !value.includes("\\")`
unfoldable pub looks_local : String → Bool
looks_local value =
    starts_with_slash value && (not (starts_with_slashes value) && not (has_backslash value))

abbrev pub local_origin : String
local_origin = "https://factory-twin.local"

-- The end of `safeReturnTo`, for an address that can be read or not.
abbrev pub accepted_path : String → Option ParsedUrl → String
accepted_path fallback none = fallback
accepted_path fallback (some u) =
    if not (u.origin == local_origin) || u.pathname == "/login"
    then fallback
    else u.pathname +++ (u.search +++ u.hash)

module _ (parse : String → Option ParsedUrl) where
  unfoldable pub safe_return_to : Option String → String → String
  unfolding looks_local
  safe_return_to none fallback = fallback
  safe_return_to (some value) fallback =
      if looks_local value then accepted_path fallback (parse value) else fallback

  -- Where the login form goes once a user of this role is signed in.
  abbrev pub destination : Option String → AppRole → String
  destination return_to role = safe_return_to return_to (default_route_for_role role)
