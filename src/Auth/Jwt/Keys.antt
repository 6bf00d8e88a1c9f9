-- ===== src/Auth/Jwt/Keys.antt =====
-- pkg/auth/jwt.go: the public keys of a JWKS endpoint, and `jwksCache`. What the network and
-- encoding/json answer is a parameter; a key is looked up by one goroutine at a time.
pub mod Caching
use Prim.Native.Nat.{◌*◌, ◌%◌}
use Prim.Native.String.{◌++◌}
use stricklysoft_core.Prelude.{
  ℕ, ◌+◌, ◌-◌, Bool, true, false, ◌&&◌, String, Option, none, some, List, [], ◌∷◌, ◌==◌,
  if◌then◌else◌, ltb, Dict, lookup, insert, quote, ℤ, pos, negsuc, decode_base64, same_code,
}
use stricklysoft_core.Errors.{GoError, plain, wrapped}
use stricklysoft_core.Errors.Results.{Result, ok, err, ◌>>=◌}

pub data Curve : Type 0 where
  p256 p384 p521 : Curve

-- `*rsa.PublicKey` and `*ecdsa.PublicKey`
pub data PublicKey : Type 0 where
  rsa : (modulus : ℕ) (exponent : ℤ) → PublicKey
  ecdsa : (curve : Curve) (x y : ℕ) → PublicKey

-- `jwkKey`
pub record JwkKey : Type 0 where
  pub kty : String
  pub kid : String
  pub alg : String
  pub key_use : String
  pub n : String
  pub e : String
  pub crv : String
  pub x : String
  pub y : String

-- `new(big.Int).SetBytes(bytes)`
unfoldable pub big_endian : ℕ → List ℕ → ℕ
big_endian acc [] = acc
big_endian acc (b ∷ bytes) = big_endian (acc * 256 + b) bytes

-- `int(e.Int64())`, the low 64 bits as a signed number
abbrev pub int64_of : ℕ → ℤ
int64_of n =
    let low = n % 18446744073709551616 in
    if ltb low 9223372036854775808 then pos low else negsuc (18446744073709551616 - low - 1)

abbrev pub decoded : String → Option (List ℕ) → Result (List ℕ)
decoded message none = err (wrapped message (plain "illegal base64 data"))
decoded message (some bytes) = ok bytes

-- `parseRSAPublicKey`
unfoldable pub parse_rsa_public_key : String → String → Result PublicKey
unfolding big_endian
parse_rsa_public_key n e = do
  n_bytes ← decoded "auth: failed to decode RSA modulus" (decode_base64 n)
  e_bytes ← decoded "auth: failed to decode RSA exponent" (decode_base64 e)
  ok (rsa (big_endian 0 n_bytes) (int64_of (big_endian 0 e_bytes)))

abbrev pub curve_of : String → Result Curve
curve_of crv =
    if crv == "P-256"
    then ok p256
    else if crv == "P-384"
    then ok p384
    else if crv == "P-521"
    then ok p521
    else err (plain ("auth: unsupported EC curve " ++ quote crv))

-- `parseECPublicKey`
unfoldable pub parse_ec_public_key : String → String → String → Result PublicKey
unfolding big_endian
parse_ec_public_key crv x y = do
  curve ← curve_of crv
  x_bytes ← decoded "auth: failed to decode EC x coordinate" (decode_base64 x)
  y_bytes ← decoded "auth: failed to decode EC y coordinate" (decode_base64 y)
  ok (ecdsa curve (big_endian 0 x_bytes) (big_endian 0 y_bytes))

abbrev pub add_parsed : String → Result PublicKey → Dict PublicKey → Dict PublicKey
add_parsed kid (ok key) keys = insert kid key keys
add_parsed kid (err e) keys = keys

-- The body of the loop in `fetchJWKS`: keys without an id, malformed keys and keys of other types
-- are skipped.
unfoldable pub add_key_of : JwkKey → Dict PublicKey → Dict PublicKey
unfolding parse_rsa_public_key parse_ec_public_key
add_key_of k keys =
    if k.kid == ""
    then keys
    else if k.kty == "RSA"
    then add_parsed k.kid (parse_rsa_public_key k.n k.e) keys
    else if k.kty == "EC"
    then add_parsed k.kid (parse_ec_public_key k.crv k.x k.y) keys
    else keys

unfoldable pub add_keys : List JwkKey → Dict PublicKey → Dict PublicKey
add_keys [] keys = keys
add_keys (k ∷ rest) keys = add_keys rest (add_key_of k keys)

-- `http.Response`: its status, and a body that is read up to a number of bytes.
pub record Response (W : Type 0) : Type 0 where
  pub status : ℕ
  pub body : ℕ → W → Result String × W

-- `oidcDiscoveryResponse`
pub record OidcDiscovery : Type 0 where
  pub issuer : String
  pub jwks_uri : String

-- The clock, `http.NewRequestWithContext` for a GET of a URL, `HTTPClient.Do` and `json.Unmarshal`.
pub record Remote (W : Type 0) : Type 0 where
  pub now : W → ℕ
  pub new_request : String → Option GoError
  pub send : String → W → Result (Response W) × W
  pub unmarshal_keys : String → Result (List JwkKey)
  pub unmarshal_discovery : String → Result OidcDiscovery
  pub decimal : ℕ → String

-- `jwksCacheEntry`
pub record JwksCacheEntry : Type 0 where
  pub keys : Dict PublicKey
  pub fetched_at : ℕ

-- `jwksCache`; the client is in `Remote`.
pub record JwksCache : Type 0 where
  pub entries : Dict JwksCacheEntry
  pub ttl : ℕ

abbrev pub new_jwks_cache : ℕ → JwksCache
new_jwks_cache ttl = record { entries = []; ttl = ttl }

abbrev pub wrap_result {ℓ} : {A : Type ℓ} → String → Result A → Result A
wrap_result message (ok a) = ok a
wrap_result message (err e) = err (wrapped message e)

module _ {W : Type 0} (remote : Remote W) where
  -- The GET requests of `fetchJWKS` and `fetchOIDCDiscovery`, with the first word of their errors:
  -- the status must be 200, and at most 1 MB of the body is read.
  unfoldable pub get_body : String → String → W → Result String × W
  get_body what url w = elim (remote.new_request url) [
    | some e ↦ (err (wrapped ("auth: failed to create " ++ what ++ " request") e), w)
    | none ↦
        let (sent, w') = remote.send url w in
        elim sent [
          | err e ↦ (err (wrapped ("auth: " ++ what ++ " request failed") e), w')
          | ok response ↦
              let (read, w'') = response.body 1048576 w' in
              if same_code response.status 200
              then (wrap_result ("auth: failed to read " ++ what ++ " response") read, w'')
              else (
                err (
                    plain (
                      "auth: "
                      ++ what
                      ++ " endpoint returned status "
                      ++ remote.decimal response.status)),
                w',
              )
        ]
  ]

  -- `fetchJWKS`
  unfoldable pub fetch_jwks : String → W → Result (Dict PublicKey) × W
  unfolding get_body add_keys add_key_of
  fetch_jwks url w =
      let (body, w') = get_body "JWKS" url w in
      (
        (do
          text ← body
          listed ← wrap_result "auth: failed to parse JWKS JSON" (remote.unmarshal_keys text)
          ok (add_keys listed [])),
        w',
      )

  -- The key that the cache has, if the entry of the URL is not older than the ttl.
  abbrev pub cached_key : JwksCache → String → String → W → Option PublicKey
  cached_key c url kid w = elim (lookup url c.entries) [
    | none ↦ none
    | some entry ↦
        if ltb (remote.now w) (entry.fetched_at + c.ttl) then lookup kid entry.keys else none
  ]

  abbrev pub found_key : String → String → Option PublicKey → Result PublicKey
  found_key url kid none =
      err (plain ("auth: key ID " ++ quote kid ++ " not found in JWKS from " ++ url))
  found_key url kid (some key) = ok key

  abbrev pub filed : JwksCache → String → Dict PublicKey → ℕ → JwksCache
  filed c url keys now = record c {
    entries = insert url (record { keys = keys; fetched_at = now }) c.entries;
  }

  -- The part behind the call of `fetchJWKS`.
  abbrev pub refetched :
      JwksCache → String → String → Result (Dict PublicKey) → W → Result PublicKey × JwksCache × W
  refetched c url kid (err e) w =
      (err (wrapped ("auth: failed to fetch JWKS from " ++ url) e), c, w)
  refetched c url kid (ok keys) w =
      (found_key url kid (lookup kid keys), filed c url keys (remote.now w), w)

  -- The part behind the look into the cache.
  abbrev pub answered :
      JwksCache → String → String → W → Option PublicKey → Result PublicKey × JwksCache × W
  answered c url kid w (some key) = (ok key, c, w)
  answered c url kid w none =
      let fetched = fetch_jwks url w in refetched c url kid fetched.0 fetched.1

  -- `jwksCache.getKey`
  unfoldable pub get_key : JwksCache → String → String → W → Result PublicKey × JwksCache × W
  unfolding fetch_jwks
  get_key c url kid w = answered c url kid w (cached_key c url kid w)
