-- ===== src/Auth/Propagation.antt =====
-- pkg/auth/propagation.go: an identity and its call chain as headers, and back. JSON is a parameter.
-- `ExtractBearerToken` and `DeserializeCallChain` are in Auth/Middleware.
pub mod RoundTrip
mod Tests
use Prim.Native.String.{◌++◌}
use stricklysoft_core.Prelude.{
  ℕ, Bool, not, String, Option, none, some, List, [], ◌∷◌, ◌==◌, if◌then◌else◌, ltb, Dict, lookup,
  insert, byte_length, decode_base64, encode_base64,
}
use stricklysoft_core.Value.{Claims}
use stricklysoft_core.Errors.{GoError, plain, wrapped}
use stricklysoft_core.Errors.Results.{Result, ok, err, ◌>>=◌}
use stricklysoft_core.Auth.Identity.{
  Identity, IdentityType, BasicIdentity, new_basic_identity, valid_type, type_service, id_of,
  type_of, claims_of,
}
use stricklysoft_core.Auth.CallChain.{CallChain}
use stricklysoft_core.Auth.Middleware.{
  header_caller_service, header_call_chain, deserialize_call_chain,
}

abbrev pub header_identity_id : String
header_identity_id = "x-identity-id"

abbrev pub header_identity_type : String
header_identity_type = "x-identity-type"

abbrev pub header_identity_claims : String
header_identity_claims = "x-identity-claims"

abbrev pub max_header_value_size : ℕ
max_header_value_size = 8192

-- `json.Marshal` and `json.Unmarshal` of claims (a JSON null is the empty map) and of a call chain, and
-- the decimal text of a number.
pub record Json : Type 0 where
  pub marshal_claims : Claims → Result (List ℕ)
  pub unmarshal_claims : List ℕ → Result Claims
  pub marshal_chain : CallChain → Result (List ℕ)
  pub unmarshal_chain : List ℕ → Result CallChain
  pub decimal : ℕ → String

-- What `identityFromHeaders` returns besides an error.
pub record Propagated : Type 0 where
  pub identity : Option BasicIdentity
  pub caller_service : String
  pub call_chain : Option CallChain

module _ (json : Json) where
  -- The encoding of marshaled bytes as a header value.
  abbrev pub sized : String → Result (List ℕ) → Result String
  sized what (err e) = err (wrapped ("auth: failed to marshal " ++ what) e)
  sized what (ok bytes) =
      if ltb max_header_value_size (byte_length (encode_base64 bytes))
      then err (
          plain (
            "auth: serialized "
            ++ what
            ++ " size "
            ++ json.decimal (byte_length (encode_base64 bytes))
            ++ " exceeds maximum 8192 bytes"))
      else ok (encode_base64 bytes)

  -- `SerializeClaims`
  unfoldable pub serialize_claims : Claims → Result String
  unfolding encode_base64 byte_length
  serialize_claims [] = ok ""
  serialize_claims (claim ∷ claims) = sized "claims" (json.marshal_claims (claim ∷ claims))

  abbrev pub parsed_claims : Option (List ℕ) → Result Claims
  parsed_claims none = err (wrapped "auth: failed to decode claims" (plain "illegal base64 data"))
  parsed_claims (some bytes) = elim (json.unmarshal_claims bytes) [
    | err e ↦ err (wrapped "auth: failed to unmarshal claims" e)
    | ok claims ↦ ok claims
  ]

  -- `DeserializeClaims`
  unfoldable pub deserialize_claims : String → Result Claims
  unfolding decode_base64
  deserialize_claims encoded =
      if encoded == "" then ok [] else parsed_claims (decode_base64 encoded)

  -- `SerializeCallChain`
  unfoldable pub serialize_call_chain : Option CallChain → Result String
  unfolding encode_base64 byte_length
  serialize_call_chain none = ok ""
  serialize_call_chain (some chain) = sized "call chain" (json.marshal_chain chain)

  abbrev pub as_header : Result String → Result (Option String)
  as_header (err e) = err e
  as_header (ok encoded) = ok (some encoded)

  -- The value of the claims header, if it is set.
  abbrev pub claims_header : Claims → Result (Option String)
  claims_header [] = ok none
  claims_header (claim ∷ claims) = as_header (serialize_claims (claim ∷ claims))

  -- The value of the call chain header, if it is set.
  abbrev pub chain_header : Option CallChain → Result (Option String)
  chain_header none = ok none
  chain_header (some chain) = as_header (serialize_call_chain (some chain))

  abbrev pub set_header : String → Option String → Dict String → Dict String
  set_header key none headers = headers
  set_header key (some value) headers = insert key value headers

  abbrev pub named : String → Option String
  named caller = if caller == "" then none else some caller

  abbrev pub header_map : Identity → Option String → Option String → Option String → Dict String
  header_map identity caller claims chain = set_header header_call_chain chain (
      set_header header_caller_service caller (
        set_header header_identity_claims claims
          ((header_identity_id, id_of identity) ∷ (header_identity_type, type_of identity) ∷ [])))

  -- `identityToHeaders` of an identity that is not nil
  unfoldable pub identity_to_headers : Identity → String → Option CallChain → Result (Dict String)
  unfolding serialize_claims serialize_call_chain insert id_of type_of claims_of
  identity_to_headers identity caller chain = do
    claims_value ← claims_header (claims_of identity)
    chain_value ← chain_header chain
    ok (header_map identity (named caller) claims_value chain_value)

  abbrev pub known_type : IdentityType → IdentityType
  known_type t = if valid_type t then t else type_service

  abbrev pub wrap_propagated : {A : Type 0} → String → Result A → Result A
  wrap_propagated message (ok a) = ok a
  wrap_propagated message (err e) = err (wrapped message e)

  -- `identityFromHeaders`
  unfoldable pub identity_from_headers : (String → String) → Result Propagated
  unfolding deserialize_claims deserialize_call_chain new_basic_identity valid_type
  identity_from_headers get =
      if get header_identity_id == ""
      then ok (record { identity = none; caller_service = ""; call_chain = none })
      else (do
        claims ←
            wrap_propagated "auth: invalid propagated claims"
              (deserialize_claims (get header_identity_claims))
        chain ←
            wrap_propagated "auth: invalid propagated call chain"
              (deserialize_call_chain json.unmarshal_chain (get header_call_chain))
        ok (record {
          identity = some (
              new_basic_identity (get header_identity_id) (known_type (get header_identity_type))
                claims);
          caller_service = get header_caller_service;
          call_chain = chain;
        }))
