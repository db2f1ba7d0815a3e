-- ===== src/Api.antt =====
-- apps/frontend/src/lib/api-client.ts: how a request is built and what its response comes to. `fetch` is
-- an input, a schema a parser, `encode` is `encodeURIComponent` and `number_text` prints a number. Bodies
-- are texts, as `JSON.stringify` makes them.
pub mod Responses
pub mod Endpoints
pub mod Tests
use ev_factory_twin.Prelude.{
  ℕ, String, Bool, true, false, not, ◌&&◌, Option, none, some, List, [], ◌∷◌, ◌==◌, beq, leb, ltb,
  if◌then◌else◌,
}
use ev_factory_twin.Prelude.Dict.{Dict, lookup, insert}
use Prim.Native.String.{◌++◌}

-- A parsed JSON text.
mutual
  pub data Json : Type 0 where
    is_null : Json
    is_bool : Bool → Json
    is_number : ℕ → Json
    is_text : String → Json
    is_array : Items → Json
    is_object : Members → Json

  pub data Items : Type 0 where
    no_items : Items
    item : Json → Items → Items

  pub data Members : Type 0 where
    no_members : Members
    member : String → Json → Members → Members

-- What `fetch` resolves to: the status, and the body if it is JSON.
pub record Response : Type 0 where
  pub status : ℕ
  pub json : Option Json

pub record ApiError : Type 0 where
  pub status : ℕ
  pub path : String
  pub detail : String

-- How a call ends: with a value, an `ApiError`, or another error.
pub data Outcome (A : Type 0) : Type 0 where
  returns : A → Outcome A
  throws_api : ApiError → Outcome A
  throws : Outcome A

-- A call that ended, and whether it called the unauthorized handler.
pub record Ending (A : Type 0) : Type 0 where
  pub handler_called : Bool
  pub outcome : Outcome A

-- `response.ok`
abbrev pub is_ok : ℕ → Bool
is_ok status = leb 200 status && ltb status 300

-- The payload's own `detail`, if it is a text.
abbrev pub member_detail : Members → Option String
member_detail no_members = none
member_detail (member key (is_text value) members) =
    let rest = member_detail members in if key == "detail" then some value else rest
member_detail (member key value members) =
    let rest = member_detail members in if key == "detail" then none else rest

abbrev pub payload_detail : Option Json → Option String
payload_detail (some (is_object members)) = member_detail members
payload_detail _ = none

abbrev pub non_empty : Option String → Bool
non_empty none = false
non_empty (some text) = not (text == "")

abbrev pub set_if : Bool → String → String → Dict String → Dict String
set_if test key value headers = if test then insert key value headers else headers

abbrev pub bearer : Option String → String
bearer none = "Bearer null"
bearer (some token) = "Bearer " ++ token

-- The headers of a request; `initial` are those of the caller. `Headers` treats keys in any case alike;
-- all keys here are spelled in one way.
unfoldable pub request_headers : Option String → Option String → Dict String → Dict String
request_headers token body initial = set_if (non_empty token) "Authorization" (bearer token) (
    set_if (non_empty body) "Content-Type" "application/json"
      (insert "Accept" "application/json" initial))

module _ (number_text : ℕ → String) where
  unfoldable pub response_error : Response → String → ApiError
  response_error response path =
      let fallback = "API " ++ (number_text response.status ++ (": " ++ path)) in
      record {
        status = response.status;
        path = path;
        detail = elim (payload_detail response.json) [ none ↦ fallback | some detail ↦ detail ];
      }

  -- What the schema makes of the body.
  abbrev pub parsed : {A : Type 0} → Option A → Outcome A
  parsed none = throws
  parsed (some value) = returns value

  abbrev pub read_body : {A : Type 0} → (Json → Option A) → Option Json → Outcome A
  read_body parse none = throws
  read_body parse (some json) = parsed (parse json)

  -- `request` from the end of the `fetch`: `none` is a fetch that failed.
  unfoldable pub request_ends :
      {A : Type 0} → (Json → Option A) → String → Option Response → Ending A
  unfolding response_error
  request_ends parse path none = record { handler_called = false; outcome = throws }
  request_ends parse path (some response) = record {
    handler_called = beq response.status 401;
    outcome =
        if is_ok response.status
        then read_body parse response.json
        else throws_api (response_error response path);
  }

  -- `requestVoid`, which does not look at the body.
  unfoldable pub request_void_ends : String → Option Response → Ending Unit
  unfolding response_error
  request_void_ends path none = record { handler_called = false; outcome = throws }
  request_void_ends path (some response) = record {
    handler_called = beq response.status 401;
    outcome =
        if is_ok response.status then returns tt else throws_api (response_error response path);
  }
