-- ===== src/Auth/Jwt/Keys/Caching.antt =====
-- What `getKey` keeps, and what `fetchJWKS` yields.
use stricklysoft_core.Prelude.{
  ℕ, ◌+◌, ◌<◌, ◌≡◌, refl, Bool-cases, Option-cases, inl, inr, ap, ◌∙◌, false, String, Option, none,
  some, List, [], ◌∷◌, arith, ◌==◌, eq_refl, Dict, lookup, lookup-insert,
}
use stricklysoft_core.Errors.Results.{Result, ok, err}
use stricklysoft_core.Auth.Jwt.Keys.{
  PublicKey, JwkKey, add_key_of, add_keys, Remote, JwksCache, JwksCacheEntry, cached_key,
  fetch_jwks, refetched, answered, get_key, add_parsed, parse_rsa_public_key, parse_ec_public_key,
}

add_parsed-no_empty :
    (kid : String) (r : Result PublicKey) (keys : Dict PublicKey)
    → (kid == "") ≡ false
    → lookup "" keys ≡ none
    → lookup "" (add_parsed kid r keys) ≡ none
add_parsed-no_empty kid (ok key) keys g h = lookup-insert kid "" key keys ∙ rw (g, h)
add_parsed-no_empty kid (err e) keys g h = h

add_key_of-no_empty :
    (k : JwkKey) (keys : Dict PublicKey)
    → lookup "" keys ≡ none
    → lookup "" (add_key_of k keys) ≡ none
unfolding add_key_of
add_key_of-no_empty k keys h = elim (Bool-cases (k.kid == "")) [
  | inl e ↦ rw (e, h)
  | inr g ↦ ground (
    arith,
    g,
    h,
    add_parsed-no_empty k.kid (parse_rsa_public_key k.n k.e) keys g h,
    add_parsed-no_empty k.kid (parse_ec_public_key k.crv k.x k.y) keys g h,
  )
]

-- Adding the keys that an endpoint lists files none under the empty id, if none is there before,
-- whatever the list holds.
add_keys-no_empty :
    (listed : List JwkKey) (keys : Dict PublicKey)
    → lookup "" keys ≡ none
    → lookup "" (add_keys listed keys) ≡ none
unfolding add_keys
add_keys-no_empty [] keys h = h
add_keys-no_empty (k ∷ listed) keys h =
    add_keys-no_empty listed (add_key_of k keys) (add_key_of-no_empty k keys h)

module _ {W : Type 0} (remote : Remote W) (url kid : String) (key : PublicKey) where
  -- The time until which the cache answers for the URL.
  abbrev fresh_until : JwksCache → ℕ
  fresh_until d = elim (lookup url d.entries) [ none ↦ 0 | some entry ↦ entry.fetched_at + d.ttl ]

  -- The key stands in the entry of the URL.
  abbrev Holds : JwksCache → Type 0
  Holds d =
      (entry : JwksCacheEntry) × (lookup url d.entries ≡ some entry)
      × (lookup kid entry.keys ≡ some key)

  Holds-cached :
      (d : JwksCache) (later : W)
      → Holds d
      → remote.now later < fresh_until d
      → get_key remote d url kid later ≡ (ok key, d, later)
  unfolding get_key
  Holds-cached d later (entry, e, k) p = ap (answered remote d url kid later) hit
    where
      hit : cached_key remote d url kid later ≡ some key
      hit = ground (arith, e, k, p)

  cached-Holds : (d : JwksCache) (w : W) → cached_key remote d url kid w ≡ some key → Holds d
  cached-Holds d w h = elim (Option-cases (lookup url d.entries)) [
    | inl e ↦ absurd (ground (arith, e, h))
    | inr (entry, e) ↦ (entry, e, ground (arith, e, h))
  ]

  refetched-Holds :
      (c : JwksCache) (r : Result (Dict PublicKey)) (w : W)
      → (refetched remote c url kid r w).0 ≡ ok key
      → Holds (refetched remote c url kid r w).1
  refetched-Holds c (err e) w h = ground (arith, h)
  refetched-Holds c (ok keys) w h = (
    record { keys = keys; fetched_at = remote.now w },
    lookup-insert url url _ c.entries ∙ rw (eq_refl url),
    ground (arith, h),
  )

  module _ (c : JwksCache) (w : W) where
    abbrev after_key : JwksCache
    after_key = (get_key remote c url kid w).1

    answered-Holds :
        (o : Option PublicKey)
        → cached_key remote c url kid w ≡ o
        → (answered remote c url kid w o).0 ≡ ok key
        → Holds (answered remote c url kid w o).1
    answered-Holds none e h =
        refetched-Holds c (fetch_jwks remote url w).0 (fetch_jwks remote url w).1 h
    answered-Holds (some k) e h = cached-Holds c w (ground (arith, e, h))

    -- A key that getKey has returned it returns again, without a request, while the entry of the
    -- URL is not older than the ttl: the cache and the world stay as they are.
    pub get_key-again :
        (later : W)
        → (get_key remote c url kid w).0 ≡ ok key
        → remote.now later < fresh_until after_key
        → get_key remote after_key url kid later ≡ (ok key, after_key, later)
    unfolding get_key
    get_key-again later h p =
        Holds-cached after_key later (answered-Holds (cached_key remote c url kid w) refl h) p
