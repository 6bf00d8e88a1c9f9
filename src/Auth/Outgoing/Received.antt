-- ===== src/Auth/Outgoing/Received.antt =====
-- A request of one service, as the next one reads it.
use stricklysoft_core.Prelude.{
  length, drop, ◌-◌, ◌≡◌, ◌≢◌, refl, ap, ◌∙◌, true, String, Option, none, some, [], ◌∷◌, ◌++◌, Dict,
  lookup, insert, insert_all, IsMap, lookup-copy, subst,
}
use stricklysoft_core.Errors.Results.{ok}
use stricklysoft_core.Auth.Identity.{
  Identity, new_basic_identity, valid_type, id_of, type_of, claims_of,
}
use stricklysoft_core.Auth.CallChain.{CallerInfo, CallChain, append_caller, last_callers-drop}
use stricklysoft_core.Auth.Context.{Context, identity_from_context, call_chain_from_context}
use stricklysoft_core.Auth.Propagation.{Json, header_map, named, identity_from_headers}
use stricklysoft_core.Auth.Propagation.RoundTrip.{
  KeepsValues, read, sent, identity_from_headers-to_headers,
}
use stricklysoft_core.Auth.Outgoing.{outgoing_chain, headers_of, set_all, round_trip}

abbrev caller_of : String → Identity → CallerInfo
caller_of service_name i = record {
  service_name = service_name;
  identity_id = id_of i;
  identity_type = type_of i;
}

-- The call chain that a service sends on: the one of its context, if there is one, with the service
-- behind its callers, of which the last 32 are kept; else a new one from the identity.
abbrev pub Extends : String → Identity → Option CallChain → CallChain → Type 0
Extends service_name i none sent =
    (sent.original_id ≡ id_of i)
    × (sent.original_type ≡ type_of i)
    × (sent.callers
        ≡ record { service_name = service_name; identity_id = id_of i; identity_type = type_of i }
          ∷ [])
Extends service_name i (some given) sent =
    let callers =
      given.callers
      ++ record { service_name = service_name; identity_id = id_of i; identity_type = type_of i }
        ∷ [] in
    (sent.original_id ≡ given.original_id)
    × (sent.original_type ≡ given.original_type)
    × (sent.callers ≡ drop (length callers - 32) callers)

outgoing_chain-Extends :
    (service_name : String) (i : Identity) (chain : Option CallChain)
    → Extends service_name i chain (outgoing_chain service_name i chain)
unfolding outgoing_chain append_caller
outgoing_chain-Extends service_name i none =
    (refl, refl, last_callers-drop 32 (caller_of service_name i ∷ []))
outgoing_chain-Extends service_name i (some given) =
    (refl, refl, last_callers-drop 32 (given.callers ++ caller_of service_name i ∷ []))

module _ (json : Json) (laws : KeepsValues json) where
  header_map-IsMap :
      (i : Identity) (caller claims chain : Option String)
      → IsMap (header_map json i caller claims chain)
  unfolding lookup insert
  header_map-IsMap i none none none = (refl, (refl, tt))
  header_map-IsMap i none none (some c) = (refl, (refl, (refl, tt)))
  header_map-IsMap i none (some b) none = (refl, (refl, (refl, tt)))
  header_map-IsMap i none (some b) (some c) = (refl, (refl, (refl, (refl, tt))))
  header_map-IsMap i (some a) none none = (refl, (refl, (refl, tt)))
  header_map-IsMap i (some a) none (some c) = (refl, (refl, (refl, (refl, tt))))
  header_map-IsMap i (some a) (some b) none = (refl, (refl, (refl, (refl, tt))))
  header_map-IsMap i (some a) (some b) (some c) = (refl, (refl, (refl, (refl, (refl, tt)))))

  read-copy :
      (headers : Dict String)
      → IsMap headers
      → read json laws (insert_all headers []) ≡ read json laws headers
  read-copy headers h = λ j k.
      ap (λ (o : Option String). elim o [ none ↦ "" | some s ↦ s ]) (lookup-copy k headers h) j

  -- If JSON gives back what it was given, a request without headers that RoundTrip sends for an
  -- identity with an id and a known type, and whose headers fit, is read by the next service as that
  -- id, type and claims, called by this service, with a call chain. That is the chain of the context
  -- with this service behind its callers, of which the last 32 are kept; where the context has none, it
  -- starts at the identity and has this service as its only caller.
  pub identity_from_headers-round_trip :
      (service_name : String) (ctx : Context) (i : Identity) (headers : Dict String)
      → identity_from_context ctx ≡ some i
      → id_of i ≢ ""
      → valid_type (type_of i) ≡ true
      → headers_of json service_name ctx (some i) ≡ ok headers
      → (sent : CallChain) × (identity_from_headers json
            (read json laws (round_trip json service_name ctx []))
          ≡ ok (record {
            identity = some (new_basic_identity (id_of i) (type_of i) (claims_of i));
            caller_service = service_name;
            call_chain = some sent;
          }))
        × Extends service_name i ctx.call_chain sent
  unfolding round_trip call_chain_from_context
  identity_from_headers-round_trip service_name ctx i headers known_identity given known fits =
      let chain = some (outgoing_chain service_name i (call_chain_from_context ctx)) in
      let (c, d, hc, hd, e) = sent json laws i service_name chain headers fits in
      let is_map : IsMap headers =
        subst IsMap e (header_map-IsMap i (named json service_name) c d) in
      (
        outgoing_chain service_name i (call_chain_from_context ctx),
        ap
              (λ o. identity_from_headers json (
                read json laws (set_all json service_name (headers_of json service_name ctx o) [])))
              known_identity
            ∙ ap (λ r. identity_from_headers json (read json laws (set_all json service_name r [])))
                fits
            ∙ ap (λ get. identity_from_headers json get) (read-copy headers is_map)
            ∙ identity_from_headers-to_headers json laws i service_name chain headers given known
                fits,
        outgoing_chain-Extends service_name i ctx.call_chain,
      )
