-- ===== src/Api/Tests.antt =====
-- Tests of the model of lib/api-client.ts.
use ev_factory_twin.Prelude.{ℕ, ◌≡◌, refl, String, false, Option, none, some}
use ev_factory_twin.Api.{
  Json, is_text, is_object, member, no_members, Response, response_error, request_ends,
}
use ev_factory_twin.Api.Responses.{IsAccepted, returned-IsAccepted}

abbrev any_number : ℕ → String
any_number n = "n"

-- A schema for texts.
abbrev text : Json → Option String
text (is_text t) = some t
text _ = none

abbrev good : Response
good = record { status = 200; json = some (is_text "Hello") }

returned-IsAccepted_example :
    IsAccepted text (some good) "Hello"
    × ((request_ends any_number text "/api/v1/factory" (some good)).handler_called ≡ false)
unfolding request_ends
returned-IsAccepted_example =
    returned-IsAccepted any_number text "/api/v1/factory" (some good) "Hello" refl

-- The detail of an error is the server's, if it is a text, and else the status and the path.
detail_of_server :
    (response_error any_number
      (record {
        status = 409;
        json = some (is_object (member "detail" (is_text "Busy") no_members));
      })
      "/x").detail
    ≡ "Busy"
unfolding response_error
detail_of_server = refl

detail_of_status :
    (response_error any_number (record { status = 500; json = none }) "/x").detail ≡ "API n: /x"
unfolding response_error
detail_of_status = refl
