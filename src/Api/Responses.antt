-- ===== src/Api/Responses.antt =====
-- What a response of lib/api-client.ts comes to, and which headers a request has.
use ev_factory_twin.Prelude.{
  ℕ, ◌≡◌, refl, sym, ap, ◌∙◌, arith, Bool-cases, if-true, if-false, inl, inr, String, Bool, true,
  false, ◌==◌, Option, none, some, beq, if◌then◌else◌,
}
use ev_factory_twin.Prelude.Dict.{Dict, lookup, insert, lookup-insert}
use ev_factory_twin.Api.{
  Json, Response, returns, throws_api, ApiError, is_ok, parsed, read_body, request_ends,
  response_error, request_headers, set_if, non_empty, bearer,
}

-- The call returned this value, so the response was a success whose body the schema accepts.
abbrev pub IsAccepted : {A : Type 0} → (Json → Option A) → Option Response → A → Type 0
IsAccepted parse none value = ⊥
IsAccepted parse (some response) value =
    (is_ok response.status ≡ true)
    × ((json : Json) × (response.json ≡ some json) × (parse json ≡ some value))

error_returns : {A : Type 0} (e : ApiError) (value : A) → throws_api e ≡ returns value → ⊥
error_returns e value h = cc

not_unauthorized : (status : ℕ) → is_ok status ≡ true → beq status 401 ≡ false
not_unauthorized status ok = ground arith

parsed_returns :
    {A : Type 0} (number_text : ℕ → String) (o : Option A) (value : A)
    → parsed number_text o ≡ returns value
    → o ≡ some value
parsed_returns number_text none value h = cc
parsed_returns number_text (some v) value h = ground arith

body_accepted :
    {A : Type 0} (number_text : ℕ → String) (parse : Json → Option A) (o : Option Json) (value : A)
    → read_body number_text parse o ≡ returns value
    → (json : Json) × (o ≡ some json) × (parse json ≡ some value)
body_accepted number_text parse none value h = cc
body_accepted number_text parse (some json) value h =
    (json, refl, parsed_returns number_text (parse json) value h)

module _ (number_text : ℕ → String) where
  -- A call returns a value only from a successful response whose body the schema accepts, and then it has
  -- not called the unauthorized handler.
  pub returned-IsAccepted :
      {A : Type 0} (parse : Json → Option A) (path : String) (response : Option Response)
      (value : A)
      → (request_ends number_text parse path response).outcome ≡ returns value
      → IsAccepted parse response value
        × ((request_ends number_text parse path response).handler_called ≡ false)
  unfolding request_ends
  returned-IsAccepted parse path none value h = cc
  returned-IsAccepted parse path (some response) value h =
      elim (Bool-cases (is_ok response.status)) [
        | inl ok ↦
            let body = sym (if-true _ _ ok) ∙ h in
            (
              (ok, body_accepted number_text parse response.json value body),
              not_unauthorized response.status ok,
            )
        | inr failed ↦ absurd (
            error_returns (response_error number_text response path) value
              (sym (if-false _ _ failed) ∙ h))
      ]

lookup-set_if :
    (test : Bool) (key value other : String) (headers : Dict String)
    → lookup other (set_if test key value headers) ≡ (
        if key == other
        then (if test then some value else lookup other headers)
        else lookup other headers)
lookup-set_if true key value other headers = lookup-insert key other value headers
lookup-set_if false key value other headers = ground arith

-- Each of the three headers is set just if it should be, whatever the caller had set.
pub lookup-request_headers :
    (token body : Option String) (initial : Dict String)
    → (lookup "Accept" (request_headers token body initial) ≡ some "application/json")
      × (lookup "Content-Type" (request_headers token body initial)
          ≡ (if non_empty body then some "application/json" else lookup "Content-Type" initial))
      × (lookup "Authorization" (request_headers token body initial)
          ≡ (if non_empty token then some (bearer token) else lookup "Authorization" initial))
unfolding request_headers
lookup-request_headers token body initial =
    let plain = insert "Accept" "application/json" initial in
    let typed = set_if (non_empty body) "Content-Type" "application/json" plain in
    let top =
      λ (key : String). lookup-set_if (non_empty token) "Authorization" (bearer token) key typed in
    let middle = λ (key : String).
      lookup-set_if (non_empty body) "Content-Type" "application/json" key plain in
    let bottom = λ (key : String). lookup-insert "Accept" key "application/json" initial in
    (
      top "Accept" ∙ middle "Accept" ∙ bottom "Accept",
      top "Content-Type"
          ∙ middle "Content-Type"
          ∙ ap (λ o. if non_empty body then some "application/json" else o) (bottom "Content-Type"),
      top "Authorization"
          ∙ ap (λ o. if non_empty token then some (bearer token) else o)
              (middle "Authorization" ∙ bottom "Authorization"),
    )
