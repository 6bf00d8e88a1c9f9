-- ===== src/Auth/Middleware/Tests.antt =====
-- Runs of the middleware on small inputs, and the theorems at concrete inputs.
use stricklysoft_core.Prelude.{
  ℕ, ◌+◌, ◌≡◌, ◌≢◌, refl, String, none, some, List, [], ◌∷◌, ◌==◌, if◌then◌else◌,
}
use stricklysoft_core.Errors.{plain}
use stricklysoft_core.Errors.Results.{Result, ok, err}
use stricklysoft_core.Auth.Identity.{Identity, basic, type_user}
use stricklysoft_core.Auth.CallChain.{CallChain}
use stricklysoft_core.Auth.Context.{Context, identity_from_context}
use stricklysoft_core.Auth.Middleware.{
  Validate, admitted, header_authorization, extract_bearer_token, first_value, http_decision,
  extract_identity_from_grpc,
}
use stricklysoft_core.Auth.Middleware.Admits.{outcome, grpc-http_decision, http_decision-identity}

abbrev alice : Identity
alice = basic (record { id = "alice"; id_type = type_user; claims = [] })

-- One token is good; the state counts the calls.
abbrev one_token : Validate ℕ
one_token ctx token calls =
    (if token == "t1" then ok alice else err (plain "unknown token"), calls + 1)

abbrev no_chain : List ℕ → Result CallChain
no_chain bytes = err (plain "no JSON")

abbrev background : Context
background = record { identity = none; caller_service = none; call_chain = none }

abbrev headers : String → String
headers key =
    if key == header_authorization
    then "bearer t1"
    else if key == "x-caller-service"
    then "gw"
    else ""

abbrev metadata : String → List String
metadata key = headers key ∷ []

grpc-http_decision_example :
    outcome one_token no_chain
      (extract_identity_from_grpc one_token no_chain (some metadata) background 0)
    ≡ outcome one_token no_chain (
        http_decision one_token no_chain
          (λ k. first_value one_token no_chain (metadata k))
          background
          0)
grpc-http_decision_example = grpc-http_decision one_token no_chain metadata background 0

abbrev known : Context
known = record { identity = some alice; caller_service = some "gw"; call_chain = none }

alice_admitted : http_decision one_token no_chain headers background 0 ≡ (admitted known, 1)
unfolding http_decision
alice_admitted = refl

http_decision-identity_example :
    (identity : Identity) × (extract_bearer_token (headers header_authorization) ≢ "")
    × ((one_token background (extract_bearer_token (headers header_authorization)) 0).0
        ≡ ok identity)
    × ((one_token background (extract_bearer_token (headers header_authorization)) 0).1 ≡ 1)
    × (identity_from_context known ≡ some identity)
http_decision-identity_example =
    http_decision-identity one_token no_chain headers background known 0 1 alice_admitted
