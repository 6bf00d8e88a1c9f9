-- ===== src/Auth/Outgoing.antt =====
-- pkg/auth/http.go and grpc.go: what a client adds to a request. Header names are in lower case here,
-- for `Header.Set` and the metadata do not tell cases apart.
pub mod Received
mod Tests
use stricklysoft_core.Prelude.{String, Option, none, some, List, [], ◌∷◌, ◌++◌, Dict, insert_all}
use stricklysoft_core.Errors.Results.{Result, ok, err}
use stricklysoft_core.Auth.Identity.{Identity, id_of, type_of}
use stricklysoft_core.Auth.CallChain.{CallerInfo, CallChain, append_caller}
use stricklysoft_core.Auth.Context.{Context, identity_from_context, call_chain_from_context}
use stricklysoft_core.Auth.Propagation.{Json, identity_to_headers}

abbrev pub chain_or_new : Identity → Option CallChain → CallChain
chain_or_new identity (some chain) = chain
chain_or_new identity none = record {
  original_id = id_of identity;
  original_type = type_of identity;
  callers = [];
}

-- The call chain that `RoundTrip` and `propagateIdentityToGRPC` send.
unfoldable pub outgoing_chain : String → Identity → Option CallChain → CallChain
unfolding id_of type_of append_caller
outgoing_chain service_name identity chain = append_caller (chain_or_new identity chain) (record {
  service_name = service_name;
  identity_id = id_of identity;
  identity_type = type_of identity;
})

module _ (json : Json) (service_name : String) where
  abbrev pub headers_of : Context → Option Identity → Result (Dict String)
  headers_of ctx none = ok []
  headers_of ctx (some identity) =
      identity_to_headers json identity service_name
        (some (outgoing_chain service_name identity (call_chain_from_context ctx)))

  abbrev pub set_all : Result (Dict String) → Dict String → Dict String
  set_all (ok headers) request = insert_all headers request
  set_all (err e) request = request

  -- `PropagatingRoundTripper.RoundTrip`: the headers of the request that the wrapped transport is
  -- given, for the headers of the request
  unfoldable pub round_trip : Context → Dict String → Dict String
  unfolding identity_to_headers outgoing_chain identity_from_context call_chain_from_context
  round_trip ctx request = set_all (headers_of ctx (identity_from_context ctx)) request

  abbrev join : Result (Dict String) → List (String × String) → List (String × String)
  join (ok headers) existing = existing ++ headers
  join (err e) existing = existing

  -- `propagateIdentityToGRPC`: the pairs of the outgoing metadata, for those that are there
  unfoldable pub propagate_identity_to_grpc :
      Context → List (String × String) → List (String × String)
  unfolding identity_to_headers outgoing_chain identity_from_context call_chain_from_context
  propagate_identity_to_grpc ctx existing =
      join (headers_of ctx (identity_from_context ctx)) existing

  -- `UnaryClientInterceptor` and `StreamClientInterceptor`, with the invoker, which is given the context
  -- and its outgoing metadata.
  unfoldable pub client_interceptor :
      {S R : Type 0}
      → (Context → List (String × String) → S → R × S)
      → Context
      → List (String × String)
      → S
      → R × S
  unfolding propagate_identity_to_grpc
  client_interceptor invoker ctx existing = invoker ctx (propagate_identity_to_grpc ctx existing)
