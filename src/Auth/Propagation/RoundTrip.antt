-- ===== src/Auth/Propagation/RoundTrip.antt =====
-- An identity that is sent as headers and read back by the next service.
use stricklysoft_core.Prelude.{
  ℕ, ◌≡◌, ◌≢◌, refl, ap, sym, ◌∙◌, true, false, String, Option, none, some, List, [], ◌∷◌, arith,
  ◌==◌, eq_iff, All, Dict, lookup, insert, decode_base64, encode_base64, IsByte,
  decode-encode_base64,
}
use stricklysoft_core.Value.{Claims}
use stricklysoft_core.Errors.Results.{Result, ok, err, ◌>>=◌}
use stricklysoft_core.Auth.Identity.{
  Identity, new_basic_identity, valid_type, id_of, type_of, claims_of,
}
use stricklysoft_core.Auth.CallChain.{CallChain}
use stricklysoft_core.Auth.Middleware.{
  header_caller_service, header_call_chain, deserialize_call_chain,
}
use stricklysoft_core.Auth.Propagation.{
  Json, header_identity_id, header_identity_type, header_identity_claims, sized, serialize_claims,
  deserialize_claims, parsed_claims, serialize_call_chain, as_header, claims_header, chain_header,
  header_map, named, identity_to_headers, identity_from_headers,
}

-- What is marshaled is some bytes that are unmarshaled to the same value.
pub record KeepsValues (json : Json) : Type 0 where
  pub claims_kept :
      (claims : Claims) (bytes : List ℕ)
      → json.marshal_claims claims ≡ ok bytes
      → All IsByte bytes × (bytes ≢ []) × (json.unmarshal_claims bytes ≡ ok claims)
  pub chain_kept :
      (chain : CallChain) (bytes : List ℕ)
      → json.marshal_chain chain ≡ ok bytes
      → All IsByte bytes × (bytes ≢ []) × (json.unmarshal_chain bytes ≡ ok chain)

encode_given :
    (bytes : List ℕ) → All IsByte bytes → bytes ≢ [] → (encode_base64 bytes == "") ≡ false
unfolding decode_base64
encode_given bytes h n = ground (arith, eq_iff (encode_base64 bytes) "", n, empty)
  where
    some_injective : (x y : List ℕ) → some x ≡ some y → x ≡ y
    some_injective x y e = ap (λ (o : Option (List ℕ)). elim o [ none ↦ x | some z ↦ z ]) e

    empty : encode_base64 bytes ≡ "" → bytes ≡ []
    empty e = some_injective bytes [] (sym (decode-encode_base64 bytes h) ∙ ap decode_base64 e)

abbrev text_of : Option String → String
text_of none = ""
text_of (some s) = s

module _ (json : Json) (laws : KeepsValues json) where
  sized-ok :
      (what : String) (r : Result (List ℕ)) (s : String)
      → sized json what r ≡ ok s
      → (bytes : List ℕ) × (r ≡ ok bytes) × (s ≡ encode_base64 bytes)
  sized-ok what (err e) s h = absurd (ground (arith, h))
  sized-ok what (ok bytes) s h = (bytes, refl, ground (arith, h))

  as_header-ok :
      (r : Result String) (o : Option String)
      → as_header json r ≡ ok o
      → (s : String) × (r ≡ ok s) × (o ≡ some s)
  as_header-ok (err e) o h = absurd (ground (arith, h))
  as_header-ok (ok s) o h = (s, refl, sym (ok_injective (some s) o h))
    where
      ok_injective : (x y : Option String) → ok x ≡ ok y → x ≡ y
      ok_injective x y e = ap (λ (r : Result (Option String)). elim r [ err _ ↦ x | ok z ↦ z ]) e

  claims_decoded :
      (claims : Claims) (bytes : List ℕ)
      → json.marshal_claims claims ≡ ok bytes
      → deserialize_claims json (encode_base64 bytes) ≡ ok claims
  unfolding deserialize_claims
  claims_decoded claims bytes e =
      let (octets, given, back) = laws.claims_kept claims bytes e in
      rw (encode_given bytes octets given)
        (ap (parsed_claims json) (decode-encode_base64 bytes octets) ∙ rw (back, parsed_claims))

  claims_back :
      (claims : Claims) (o : Option String)
      → claims_header json claims ≡ ok o
      → deserialize_claims json (text_of o) ≡ ok claims
  unfolding serialize_claims deserialize_claims
  claims_back [] o h =
      ap
        (λ (r : Result (Option String)). elim r [
          | err e ↦ ok []
          | ok p ↦ deserialize_claims json (text_of p)
        ])
        (sym h)
  claims_back (c ∷ cs) o h =
      let (s, e, q) = as_header-ok (serialize_claims json (c ∷ cs)) o h in
      let (bytes, m, t) = sized-ok "claims" (json.marshal_claims (c ∷ cs)) s e in
      ap (λ p. deserialize_claims json (text_of p)) (q ∙ ap some t)
      ∙ claims_decoded (c ∷ cs) bytes m

  chain_decoded :
      (chain : CallChain) (bytes : List ℕ)
      → json.marshal_chain chain ≡ ok bytes
      → deserialize_call_chain json.unmarshal_chain (encode_base64 bytes) ≡ ok (some chain)
  unfolding deserialize_call_chain
  chain_decoded chain bytes e =
      let (octets, given, back) = laws.chain_kept chain bytes e in
      rw (encode_given bytes octets given, decode-encode_base64 bytes octets, back)

  chain_back :
      (chain : Option CallChain) (o : Option String)
      → chain_header json chain ≡ ok o
      → deserialize_call_chain json.unmarshal_chain (text_of o) ≡ ok chain
  unfolding serialize_call_chain deserialize_call_chain
  chain_back none o h =
      ap
        (λ (r : Result (Option String)). elim r [
          | err e ↦ ok none
          | ok p ↦ deserialize_call_chain json.unmarshal_chain (text_of p)
        ])
        (sym h)
  chain_back (some chain) o h =
      let (s, e, q) = as_header-ok (serialize_call_chain json (some chain)) o h in
      let (bytes, m, t) = sized-ok "call chain" (json.marshal_chain chain) s e in
      ap (λ p. deserialize_call_chain json.unmarshal_chain (text_of p)) (q ∙ ap some t)
      ∙ chain_decoded chain bytes m

  -- What the receiver reads under a key.
  abbrev pub read : Dict String → String → String
  read headers key = text_of (lookup key headers)

  reads :
      (i : Identity) (caller claims chain : Option String)
      → (read (header_map json i caller claims chain) header_identity_id ≡ id_of i)
        × (read (header_map json i caller claims chain) header_identity_type ≡ type_of i)
        × (read (header_map json i caller claims chain) header_identity_claims ≡ text_of claims)
        × (read (header_map json i caller claims chain) header_caller_service ≡ text_of caller)
        × (read (header_map json i caller claims chain) header_call_chain ≡ text_of chain)
  unfolding lookup insert
  reads i none none none = (refl, refl, refl, refl, refl)
  reads i none none (some c) = (refl, refl, refl, refl, refl)
  reads i none (some b) none = (refl, refl, refl, refl, refl)
  reads i none (some b) (some c) = (refl, refl, refl, refl, refl)
  reads i (some a) none none = (refl, refl, refl, refl, refl)
  reads i (some a) none (some c) = (refl, refl, refl, refl, refl)
  reads i (some a) (some b) none = (refl, refl, refl, refl, refl)
  reads i (some a) (some b) (some c) = (refl, refl, refl, refl, refl)

  named_back : (caller : String) → text_of (named json caller) ≡ caller
  named_back caller = ground (arith, eq_iff caller "")

  pub sent :
      (i : Identity) (caller : String) (chain : Option CallChain) (headers : Dict String)
      → identity_to_headers json i caller chain ≡ ok headers
      → (claims_value chain_value : Option String) × (claims_header json (claims_of i)
          ≡ ok claims_value)
        × (chain_header json chain ≡ ok chain_value)
        × (header_map json i (named json caller) claims_value chain_value ≡ headers)
  unfolding identity_to_headers
  sent i caller chain headers h = go (claims_header json (claims_of i)) (chain_header json chain) h
    where
      go :
          (r q : Result (Option String))
          → (r >>= λ c. q >>= λ d. ok (header_map json i (named json caller) c d)) ≡ ok headers
          → (c d : Option String) × (r ≡ ok c)
            × (q ≡ ok d)
            × (header_map json i (named json caller) c d ≡ headers)
      go (err e) q h = absurd (ground (arith, h))
      go (ok c) (err e) h = absurd (ground (arith, h))
      go (ok c) (ok d) h = (
        c,
        d,
        refl,
        refl,
        ap (λ (r : Result (Dict String)). elim r [ err _ ↦ headers | ok m ↦ m ]) h,
      )

  -- If JSON gives back what it was given, an identity with an id and a known type that
  -- identityToHeaders sends is read back by identityFromHeaders: its id, type and claims, the
  -- caller and the call chain are the same, and the permissions are not sent.
  pub identity_from_headers-to_headers :
      (i : Identity) (caller : String) (chain : Option CallChain) (headers : Dict String)
      → id_of i ≢ ""
      → valid_type (type_of i) ≡ true
      → identity_to_headers json i caller chain ≡ ok headers
      → identity_from_headers json (read headers)
        ≡ ok (record {
          identity = some (new_basic_identity (id_of i) (type_of i) (claims_of i));
          caller_service = caller;
          call_chain = chain;
        })
  unfolding identity_from_headers
  identity_from_headers-to_headers i caller chain headers given known h =
      let (c, d, hc, hd, e) = sent i caller chain headers h in
      let (r₁, r₂, r₃, r₄, r₅) = reads i (named json caller) c d in
      let id_given : (id_of i == "") ≡ false = ground (arith, eq_iff (id_of i) "", given) in
      ap (λ m. identity_from_headers json (read m)) (sym e)
      ∙ rw (
        r₁,
        id_given,
        r₂,
        known,
        r₃,
        claims_back (claims_of i) c hc,
        r₅,
        chain_back chain d hd,
        r₄,
        named_back caller,
      )
