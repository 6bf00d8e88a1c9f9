-- ===== src/Auth/TokenCache/Expiry.antt =====
-- How long the token cache answers.
use stricklysoft_core.Prelude.{
  ℕ, ◌+◌, ◌-◌, ◌≤◌, ◌<◌, ◌≡◌, ◌≢◌, refl, ap, ◌∙◌, false, ◌&&◌, String, Option, none, some, [], ◌∷◌,
  arith, ◌==◌, eq_iff, eq_refl, ltb, leb, length, if◌then◌else◌, Dict, lookup, lookup-insert,
  lookup-delete, IsMap, Bool-cases, inl, inr,
}
use stricklysoft_core.Auth.TokenCache.{
  TokenCacheEntry, TokenCache, get, identity_at, drop_expired, evict_expired, evict_oldest,
  make_room, effective_ttl, put, find_oldest, no_oldest,
}

module _ {I : Type 0} where
  entry_of :
      (t : ℕ) (other : I) (o : Option (TokenCacheEntry I))
      → identity_at t o ≡ some other
      → (v : TokenCacheEntry I) × (o ≡ some v) × (identity_at t (some v) ≡ some other)
  entry_of t other none h = cc
  entry_of t other (some v) h = (v, refl, h)

  lookup-drop_expired-none :
      (now : ℕ) (k : String) (m : Dict (TokenCacheEntry I))
      → lookup k m ≡ none
      → lookup k (drop_expired now m) ≡ none
  unfolding lookup drop_expired
  lookup-drop_expired-none now k [] h = refl
  lookup-drop_expired-none now k ((j, v) ∷ m) h = ground (arith, lookup-drop_expired-none now k m)

  lookup-drop_expired :
      (now : ℕ) (k : String) (m : Dict (TokenCacheEntry I)) (v : TokenCacheEntry I)
      → IsMap m
      → lookup k (drop_expired now m) ≡ some v
      → lookup k m ≡ some v
  unfolding lookup drop_expired
  lookup-drop_expired now k [] v u h = cc
  lookup-drop_expired now k ((j, w) ∷ m) v u h = ground (
    arith,
    lookup-drop_expired now k m v u.1,
    lookup-drop_expired-none now k m,
    eq_iff j k,
    u.0,
    same j k m,
  )
    where
      same : (j k : String) (m : Dict (TokenCacheEntry I)) → j ≡ k → lookup j m ≡ lookup k m
      same j k m e = rw e

  lookup-evict_oldest :
      (c : TokenCache I) (k : String) (v : TokenCacheEntry I)
      → lookup k (evict_oldest c).entries ≡ some v
      → lookup k c.entries ≡ some v
  unfolding evict_oldest
  lookup-evict_oldest c k v h =
      ground (arith, lookup-delete (find_oldest no_oldest c.entries).key k c.entries)

  lookup-make_room :
      (c : TokenCache I) (now : ℕ) (k : String) (v : TokenCacheEntry I)
      → IsMap c.entries
      → lookup k (make_room c now).entries ≡ some v
      → lookup k c.entries ≡ some v
  unfolding evict_expired
  lookup-make_room c now k v u h = elim (Bool-cases (leb c.max_size (length c.entries))) [
    | inl full ↦
        lookup-drop_expired now k c.entries v u
          (lookup-evict_oldest (evict_expired c now) k v (rw full at h))
    | inr free ↦ lookup-evict_oldest c k v (rw free at h)
  ]

  module _ (c : TokenCache I) (token_hash : String) (identity : I)
      (token_exp until_now now evict_now : ℕ) where
    abbrev cached : TokenCache I
    cached = put c token_hash identity token_exp until_now now evict_now

    lookup-put :
        (k : String)
        → 0 < c.ttl
        → lookup k cached.entries ≡ (
            if token_hash == k
            then some (record {
              identity = identity;
              expires_at = now + effective_ttl c.ttl token_exp until_now;
            })
            else lookup k (make_room c evict_now).entries)
    unfolding put
    lookup-put k h = rw (caches h) (lookup-insert token_hash k _ (make_room c evict_now).entries)
      where
        caches : 0 < c.ttl → leb (effective_ttl c.ttl token_exp until_now) 0 ≡ false
        caches h = ground arith

    get-put :
        (t : ℕ)
        → 0 < c.ttl
        → get cached token_hash t
          ≡ (if ltb (now + effective_ttl c.ttl token_exp until_now) t then none else some identity)
    unfolding get
    get-put t h = rw (lookup-put token_hash h, eq_refl token_hash)

    -- If the token had not expired when its remaining lifetime was read and the ttl is not 0, the
    -- cache answers with the identity up to the earlier of the ttl's end and the token's expiration,
    -- the latter put off by the time that passed between the two clock readings, and with nothing
    -- after that.
    pub get-put_live :
        (t : ℕ)
        → 0 < c.ttl
        → until_now < token_exp
        → until_now ≤ now
        → get cached token_hash t ≡ (
            if leb t (now + c.ttl) && leb t (token_exp + (now - until_now))
            then some identity
            else none)
    get-put_live t h live order = get-put t h ∙ ground arith

    -- A token that had expired already when its remaining lifetime was read is cached for the whole
    -- ttl, and answered for all that time.
    pub get-put_expired :
        (t : ℕ)
        → 0 < c.ttl
        → token_exp ≤ until_now
        → t ≤ now + c.ttl
        → get cached token_hash t ≡ some identity
    get-put_expired t h dead within = get-put t h ∙ ground arith

    -- Under any other hash put makes nothing visible: what the cache answers for it afterwards it
    -- answered before, if the keys of the map are distinct.
    get-put_ne :
        (k : String) (t : ℕ) (other : I)
        → token_hash ≢ k
        → IsMap c.entries
        → get cached k t ≡ some other
        → get c k t ≡ some other
    unfolding put get
    get-put_ne k t other n u h =
        elim (Bool-cases (leb (effective_ttl c.ttl token_exp until_now) 0)) [
          | inl z ↦ rw z at h
          | inr z ↦
              let h' : identity_at t (lookup k (make_room c evict_now).entries) ≡ some other =
                ground (
                  arith,
                  eq_iff token_hash k,
                  lookup-insert token_hash k
                      (record {
                        identity = identity;
                        expires_at = now + effective_ttl c.ttl token_exp until_now;
                      })
                      (make_room c evict_now).entries,
                ) in
              let (v, e, p) = entry_of t other (lookup k (make_room c evict_now).entries) h' in
              ap (identity_at t) (lookup-make_room c evict_now k v u e) ∙ p
        ]
