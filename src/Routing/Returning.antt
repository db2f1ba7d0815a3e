-- ===== src/Routing/Returning.antt =====
-- A visitor who must sign in, from the redirection to the page they asked for.
use Prim.Native.String.{String, ◌++◌ as ◌+++◌}
use text.Mathlib.TextLemmas.{append-nil}
use ev_factory_twin.Prelude.{
  ◌≡◌, refl, ap, sym, arith, Bool, true, false, Option, some, ◌==◌, ◌⊎◌, inl, inr, Bool-cases,
}
use ev_factory_twin.Schema.Fleet.{AppRole}
use ev_factory_twin.Routing.{
  continues, redirects, middleware, is_public, ParsedUrl, looks_local, local_origin, safe_return_to,
  destination,
}

-- The text of an address of this site, as it stands in a link.
abbrev pub written : ParsedUrl → String
written u = u.pathname +++ (u.search +++ u.hash)

-- Whatever `new URL` has read of this site, it reads again in the same way from its written parts, if
-- these look local.
abbrev pub ReadsAgain : (String → Option ParsedUrl) → Type 0
ReadsAgain parse =
    (text : String) (u : ParsedUrl)
    → parse text ≡ some u
    → u.origin ≡ local_origin
    → looks_local (written u) ≡ true
    → parse (written u) ≡ some u

-- What `continues` and what redirects, by the path that a visitor asks for.
redirected_to_login :
    (signed_in : Bool) (pathname search value : String)
    → middleware signed_in pathname search ≡ redirects "/login" (some value)
    → ((pathname == "/login") ≡ false) × (value ≡ pathname +++ search)
unfolding middleware
redirected_to_login true pathname search value h = cc
redirected_to_login false pathname search value h = ground arith

-- A visitor without a session who asks for an address of this site and is sent to the login comes back,
-- once signed in, to the address that they asked for, path and query, whatever their role: if the address
-- has no fragment and no backslash and does not start with two slashes, and `new URL` reads again what it
-- has read.
pub login_returns :
    (parse : String → Option ParsedUrl) (text : String) (asked : ParsedUrl) (value : String)
    (role : AppRole)
    → ReadsAgain parse
    → parse text ≡ some asked
    → asked.origin ≡ local_origin
    → asked.hash ≡ ""
    → looks_local (asked.pathname +++ asked.search) ≡ true
    → middleware false asked.pathname asked.search ≡ redirects "/login" (some value)
    → destination parse (some value) role ≡ asked.pathname +++ asked.search
unfolding safe_return_to
login_returns parse text asked value role again read here no_hash safe sent =
    let (other, same) = redirected_to_login false asked.pathname asked.search value sent in
    let plain : written asked ≡ asked.pathname +++ asked.search =
      rw no_hash (ap (◌+++◌ asked.pathname) (append-nil asked.search)) in
    let local : looks_local (written asked) ≡ true = rw plain safe in
    let parsed : parse value ≡ some asked =
      rw (same, sym plain) (again text asked read here local) in
    let fine : looks_local value ≡ true = rw same safe in rw (fine, parsed, here, other) plain

target-is_public :
    (pathname search target : String) (return_to : Option String)
    → middleware false pathname search ≡ redirects target return_to
    → (target ≡ "/homepage") ⊎ (target ≡ "/login")
unfolding middleware
target-is_public pathname search target return_to h = elim (Bool-cases (pathname == "/")) [
  | inl root ↦ inl (let k = rw root at h in cc)
  | inr other ↦ elim (Bool-cases (is_public pathname)) [
    | inl is_open ↦ absurd (let k = rw (other, is_open) at h in cc)
    | inr closed ↦ inr (let k = rw (other, closed) at h in cc)
  ]
]

-- The middleware never redirects twice: what it redirects to, it lets pass, with any query.
pub redirects_once :
    (signed_in : Bool) (pathname search target : String) (return_to : Option String)
    (query : String)
    → middleware signed_in pathname search ≡ redirects target return_to
    → middleware signed_in target query ≡ continues
unfolding middleware
redirects_once true pathname search target return_to query h = refl
redirects_once false pathname search target return_to query h =
    elim (target-is_public pathname search target return_to h) [
      | inl home ↦ rw home refl
      | inr login ↦ rw login refl
    ]
