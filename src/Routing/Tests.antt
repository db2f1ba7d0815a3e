-- ===== src/Routing/Tests.antt =====
-- Tests of the model of middleware.ts and return-to.ts.
use Prim.Native.String.{◌++◌ as ◌+++◌}
use ev_factory_twin.Prelude.{
  ◌≡◌, refl, subst, String, Option, none, some, ◌==◌, if◌then◌else◌, inl, inr, Bool-cases,
}
use ev_factory_twin.Schema.Fleet.{monitor}
use ev_factory_twin.Routing.{
  ParsedUrl, local_origin, middleware, looks_local, safe_return_to, destination,
}
use ev_factory_twin.Routing.Returning.{ReadsAgain, written, login_returns}

-- The one address that `new URL` reads here.
abbrev asked : ParsedUrl
asked = record {
  origin = local_origin;
  pathname = "/scenarios";
  search = "?candidate=S-1";
  hash = "";
}

abbrev parse : String → Option ParsedUrl
parse text = if text == "/scenarios?candidate=S-1" then some asked else none

parse-ReadsAgain : ReadsAgain parse
parse-ReadsAgain text u read here safe = elim (Bool-cases (text == "/scenarios?candidate=S-1")) [
  | inl same ↦
      let k : some asked ≡ some u = rw same at read in
      let e : asked ≡ u = cc in subst (λ (v : ParsedUrl). parse (written v) ≡ some v) e refl
  | inr other ↦ absurd (let k = rw other at read in cc)
]

login_returns_example :
    destination parse (some "/scenarios?candidate=S-1") monitor ≡ "/scenarios" +++ "?candidate=S-1"
unfolding middleware looks_local
login_returns_example =
    login_returns parse "/scenarios?candidate=S-1" asked "/scenarios?candidate=S-1" monitor
      parse-ReadsAgain refl refl refl refl refl

-- Another host, a backslash, an address that cannot be read and a sign-in without one.
safe_return_to_other_host : safe_return_to parse (some "//evil.example") "/factory" ≡ "/factory"
unfolding safe_return_to looks_local
safe_return_to_other_host = refl

safe_return_to_backslash : safe_return_to parse (some "/\\evil.example") "/factory" ≡ "/factory"
unfolding safe_return_to looks_local
safe_return_to_backslash = refl

safe_return_to_unreadable : safe_return_to parse (some "/:") "/factory" ≡ "/factory"
unfolding safe_return_to looks_local
safe_return_to_unreadable = refl
