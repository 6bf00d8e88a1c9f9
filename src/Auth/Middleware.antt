-- ===== src/Auth/Middleware.antt =====
-- pkg/auth/http.go and grpc.go: what a server does with a request before its handler, and what it
-- reads of pkg/auth/propagation.go for that. The validator, JSON decoding and the handlers are
-- parameters; `S` is what they act on. Warnings in the log are left out.
pub mod Admits
mod Tests
use Prim.Native.String.{◌++◌}
use stricklysoft_core.Prelude.{
  ℕ, Bool, true, false, String, Option, none, some, List, [], ◌∷◌, ◌==◌, if◌then◌else◌,
  decode_base64, equal_fold,
}
use stricklysoft_core.Errors.{GoError, plain, wrapped}
use stricklysoft_core.Errors.Results.{Result, ok, err}
use stricklysoft_core.Auth.Identity.{Identity}
use stricklysoft_core.Auth.CallChain.{CallChain}
use stricklysoft_core.Auth.Context.{
  Context, context_with_identity, context_with_caller_service, context_with_call_chain,
}

abbrev pub header_authorization : String
header_authorization = "authorization"

abbrev pub header_caller_service : String
header_caller_service = "x-caller-service"

abbrev pub header_call_chain : String
header_call_chain = "x-call-chain"

-- The text behind as many characters as the first text has, if it has more than those, and they
-- are the first text's up to case.
unfoldable pub after_prefix : String → String → String
unfolding equal_fold
after_prefix String.[] s = s
after_prefix (String.◌∷◌ p prefix) String.[] = ""
after_prefix (String.◌∷◌ p prefix) (String.◌∷◌ c s) =
    let rest = after_prefix prefix s in
    if equal_fold (String.◌∷◌ c "") (String.◌∷◌ p "") then rest else ""

-- `ExtractBearerToken`; seven bytes that equal "Bearer " up to case are seven characters.
unfoldable pub extract_bearer_token : String → String
unfolding after_prefix
extract_bearer_token auth_header = after_prefix "Bearer " auth_header

-- `DeserializeCallChain`, with `json.Unmarshal` of a call chain; no chain is nil.
unfoldable pub deserialize_call_chain :
    (List ℕ → Result CallChain) → String → Result (Option CallChain)
deserialize_call_chain unmarshal encoded =
    if encoded == "" then ok none else elim (decode_base64 encoded) [
      | none ↦ err (wrapped "auth: failed to decode call chain" (plain "illegal base64 data"))
      | some bytes ↦ elim (unmarshal bytes) [
        | err e ↦ err (wrapped "auth: failed to unmarshal call chain" e)
        | ok chain ↦ ok (some chain)
      ]
    ]

-- A request is refused with a message, or its handler is run in a context.
pub data Decision : Type 0 where
  refused : String → Decision
  admitted : Context → Decision

-- `TokenValidator.Validate`
abbrev pub Validate : Type 0 → Type 0
Validate S = Context → String → S → Result Identity × S

module _ {S : Type 0} (validate : Validate S) (unmarshal : List ℕ → Result CallChain) where
  abbrev pub with_caller : String → Context → Context
  with_caller caller ctx = if caller == "" then ctx else context_with_caller_service ctx caller

  abbrev pub with_decoded : Result (Option CallChain) → Context → Context
  with_decoded (ok (some chain)) ctx = context_with_call_chain ctx chain
  with_decoded _ ctx = ctx

  abbrev pub with_chain : String → Context → Context
  with_chain encoded ctx =
      if encoded == "" then ctx else with_decoded (deserialize_call_chain unmarshal encoded) ctx

  abbrev pub enriched : Context → String → String → Result Identity × S → Decision × S
  enriched ctx caller chain (err e, s) = (refused "token validation failed", s)
  enriched ctx caller chain (ok identity, s) =
      (admitted (with_chain chain (with_caller caller (context_with_identity ctx identity))), s)

  -- The part of `HTTPMiddleware` in front of the handler; `get` is `r.Header.Get`.
  unfoldable pub http_decision : (String → String) → Context → S → Decision × S
  unfolding extract_bearer_token deserialize_call_chain context_with_identity
      context_with_caller_service context_with_call_chain
  http_decision get ctx s =
      let token = extract_bearer_token (get header_authorization) in
      if token == ""
      then (refused "missing or invalid authorization header", s)
      else enriched ctx (get header_caller_service) (get header_call_chain) (validate ctx token s)

  -- `HTTPMiddleware`, with `http.Error` and the next handler
  unfoldable pub http_middleware :
      (ℕ → String → S → S) → (Context → S → S) → (String → String) → Context → S → S
  unfolding http_decision
  http_middleware http_error next get ctx s =
      let (decision, s') = http_decision get ctx s in
      elim decision [ refused message ↦ http_error 401 message s' | admitted ctx' ↦ next ctx' s' ]

  -- The first value of a key, and whether there is one that is not empty.
  abbrev pub first_value : List String → String
  first_value [] = ""
  first_value (v ∷ vs) = v

  abbrev grpc_token : (String → List String) → List String → Context → S → Decision × S
  grpc_token md [] ctx s = (refused "missing authorization metadata", s)
  grpc_token md (value ∷ values) ctx s =
      let token = extract_bearer_token value in
      if token == ""
      then (refused "invalid authorization format", s)
      else enriched ctx (first_value (md header_caller_service))
          (first_value (md header_call_chain)) (validate ctx token s)

  -- `extractIdentityFromGRPC`, with `metadata.FromIncomingContext` and `md.Get`; a refusal has the
  -- code Unauthenticated
  unfoldable pub extract_identity_from_grpc :
      Option (String → List String) → Context → S → Decision × S
  unfolding extract_bearer_token deserialize_call_chain context_with_identity
      context_with_caller_service context_with_call_chain
  extract_identity_from_grpc none ctx s = (refused "missing metadata", s)
  extract_identity_from_grpc (some md) ctx s = grpc_token md (md header_authorization) ctx s

  -- `UnaryServerInterceptor` and `StreamServerInterceptor`, with the handler: the handler's reply, or
  -- the message of the refusal
  unfoldable pub server_interceptor :
      {R : Type 0}
      → (String → R)
      → (Context → S → R × S)
      → Option (String → List String)
      → Context
      → S
      → R × S
  unfolding extract_identity_from_grpc
  server_interceptor unauthenticated handler md ctx s =
      let (decision, s') = extract_identity_from_grpc md ctx s in
      elim decision [
        | refused message ↦ (unauthenticated message, s')
        | admitted ctx' ↦ handler ctx' s'
      ]
