-- ===== src/Auth/TokenCache/Bounds.antt =====
-- The size of the token cache.
use stricklysoft_core.Prelude.{
  ℕ, ◌≤◌, ◌<◌, ◌≡◌, ◌≢◌, refl, ◌∙◌, true, false, String, [], ◌∷◌, arith, ◌⊎◌, ◌==◌, eq_iff, eq_refl,
  ltb, leb, length, Dict, insert, delete, length-insert, length-delete, Bool-cases, inl, inr, All,
}
use stricklysoft_core.Auth.TokenCache.{
  TokenCacheEntry, TokenCache, Oldest, older, new_token_cache, drop_expired, evict_expired,
  find_oldest, no_oldest, evict_oldest, make_room, effective_ttl, put,
}

same_key : (j k : String) → k ≡ j → (j == k) ≡ true
same_key j k e = rw e (eq_refl j)

module _ {I : Type 0} where
  -- A key that stands in the map, which is not the empty text.
  abbrev HasKey : String → Dict (TokenCacheEntry I) → Type 0
  HasKey k [] = ⊥
  HasKey k ((j, v) ∷ m) = ((j == k) ≡ true) ⊎ HasKey k m

  abbrev pub IsHash : String × TokenCacheEntry I → Type 0
  IsHash e = (e.0 == "") ≡ false

  -- No more entries than allowed, and no empty hash.
  pub record IsBounded (c : TokenCache I) : Type 0 where
    pub within : length c.entries ≤ c.max_size
    pub hashes : All IsHash c.entries

  length-delete_lt :
      (k : String) (m : Dict (TokenCacheEntry I)) → HasKey k m → length (delete k m) < length m
  unfolding delete
  length-delete_lt k [] h = absurd h
  length-delete_lt k ((j, v) ∷ m) (inl e) = rw e (omega (arith, length-delete k m))
  length-delete_lt k ((j, v) ∷ m) (inr h) =
      ground (arith, length-delete k m, length-delete_lt k m h)

  older-key :
      (o : Oldest) (k : String) (v : TokenCacheEntry I)
      → ((older o k v).key ≡ k) ⊎ ((older o k v).key ≡ o.key)
  older-key o k v = ground arith

  -- The oldest key is the one that the loop had, or that of an entry that it has gone through.
  find_oldest-key :
      (o : Oldest) (m : Dict (TokenCacheEntry I))
      → ((find_oldest o m).key ≡ o.key) ⊎ HasKey (find_oldest o m).key m
  unfolding find_oldest
  find_oldest-key o [] = inl refl
  find_oldest-key o ((k, v) ∷ m) = elim (find_oldest-key (older o k v) m) [
    | inr h ↦ inr (inr h)
    | inl q ↦ elim (older-key o k v) [
      | inl e ↦ inr (inl (same_key k _ (q ∙ e)))
      | inr e ↦ inl (q ∙ e)
    ]
  ]

  oldest-HasKey :
      (m : Dict (TokenCacheEntry I)) → 0 < length m → HasKey (find_oldest no_oldest m).key m
  unfolding find_oldest
  oldest-HasKey [] h = absurd (omega arith)
  oldest-HasKey ((k, v) ∷ m) h =
      elim (find_oldest-key (record { key = k; time = v.expires_at; first = false }) m) [
        | inl q ↦ inl (same_key k _ q)
        | inr h ↦ inr h
      ]

  hash_of_key :
      (k : String) (m : Dict (TokenCacheEntry I)) → All IsHash m → HasKey k m → (k == "") ≡ false
  hash_of_key k [] a h = absurd h
  hash_of_key k ((j, v) ∷ m) a (inl e) = ground (arith, eq_iff j k, a.0)
  hash_of_key k ((j, v) ∷ m) a (inr h) = hash_of_key k m a.1 h

  delete-hashes :
      (k : String) (m : Dict (TokenCacheEntry I)) → All IsHash m → All IsHash (delete k m)
  unfolding delete
  delete-hashes k [] a = a
  delete-hashes k ((j, v) ∷ m) a = elim (Bool-cases (j == k)) [
    | inl e ↦ rw e (delete-hashes k m a.1)
    | inr e ↦ rw e (a.0, delete-hashes k m a.1)
  ]

  insert-hashes :
      (k : String) (v : TokenCacheEntry I) (m : Dict (TokenCacheEntry I))
      → (k == "") ≡ false
      → All IsHash m
      → All IsHash (insert k v m)
  unfolding insert
  insert-hashes k v [] h a = (h, tt)
  insert-hashes k v ((j, w) ∷ m) h a = elim (Bool-cases (j == k)) [
    | inl e ↦ rw e (h, a.1)
    | inr e ↦ rw e (a.0, insert-hashes k v m h a.1)
  ]

  drop_expired-hashes :
      (now : ℕ) (m : Dict (TokenCacheEntry I)) → All IsHash m → All IsHash (drop_expired now m)
  unfolding drop_expired
  drop_expired-hashes now [] a = a
  drop_expired-hashes now ((j, v) ∷ m) a = elim (Bool-cases (ltb v.expires_at now)) [
    | inl e ↦ rw e (drop_expired-hashes now m a.1)
    | inr e ↦ rw e (a.0, drop_expired-hashes now m a.1)
  ]

  length-drop_expired :
      (now : ℕ) (m : Dict (TokenCacheEntry I)) → length (drop_expired now m) ≤ length m
  unfolding drop_expired
  length-drop_expired now [] = omega arith
  length-drop_expired now ((j, v) ∷ m) = ground (arith, length-drop_expired now m)

  evict_expired-IsBounded :
      (c : TokenCache I) (now : ℕ) → IsBounded c → IsBounded (evict_expired c now)
  unfolding evict_expired
  evict_expired-IsBounded c now h = record {
    within = omega (arith, length-drop_expired now c.entries, h.within);
    hashes = drop_expired-hashes now c.entries h.hashes;
  }

  -- After the eviction of the oldest entry there is room for one more.
  evict_oldest-room :
      (c : TokenCache I)
      → IsBounded c
      → 0 < c.max_size
      → IsBounded (evict_oldest c)
        × (length (evict_oldest c).entries < c.max_size)
        × ((evict_oldest c).max_size ≡ c.max_size)
  unfolding evict_oldest
  evict_oldest-room c h pos = elim (Bool-cases (leb c.max_size (length c.entries))) [
    | inl full ↦
        let k = (find_oldest no_oldest c.entries).key in
        let there : HasKey k c.entries = oldest-HasKey c.entries (ground arith) in
        rw (full, hash_of_key k c.entries h.hashes there)
          (
            record {
              within = omega (arith, length-delete k c.entries, h.within);
              hashes = delete-hashes k c.entries h.hashes;
            },
            omega (arith, length-delete_lt k c.entries there, h.within),
            refl,
          )
    | inr free ↦ rw free (h, ground arith, refl)
  ]

  make_room-room :
      (c : TokenCache I) (now : ℕ)
      → IsBounded c
      → 0 < c.max_size
      → IsBounded (make_room c now)
        × (length (make_room c now).entries < c.max_size)
        × ((make_room c now).max_size ≡ c.max_size)
  make_room-room c now h pos = elim (Bool-cases (leb c.max_size (length c.entries))) [
    | inl full ↦ rw full (
        unfold evict_expired in
        evict_oldest-room (evict_expired c now) (evict_expired-IsBounded c now h) pos)
    | inr free ↦ rw free (evict_oldest-room c h pos)
  ]

  -- A cache within its size, whose hashes are not empty, stays so under put, whatever the times, if
  -- the size is not 0 and the new hash is not empty: the cache never holds more entries than
  -- TokenCacheMaxSize. A new cache is such a cache, and evictExpired keeps it so.
  pub put-IsBounded :
      (c : TokenCache I) (token_hash : String) (identity : I)
      (token_exp until_now now evict_now : ℕ)
      → IsBounded c
      → 0 < c.max_size
      → token_hash ≢ ""
      → IsBounded (put c token_hash identity token_exp until_now now evict_now)
        × IsBounded (evict_expired c now)
        × IsBounded (new_token_cache {I = I} c.ttl c.max_size)
  unfolding put new_token_cache
  put-IsBounded c token_hash identity token_exp until_now now evict_now h pos given = (
    elim (Bool-cases (leb (effective_ttl c.ttl token_exp until_now) 0)) [
      | inl z ↦ rw z h
      | inr z ↦
          let r = make_room-room c evict_now h pos in
          rw z (record {
            within =
                omega (arith, length-insert token_hash _ (make_room c evict_now).entries, r.1, r.2);
            hashes =
                insert-hashes token_hash _ (make_room c evict_now).entries
                  (ground (arith, eq_iff token_hash "", given)) r.0.hashes;
          })
    ],
    evict_expired-IsBounded c now h,
    record { within = omega arith; hashes = tt },
  )
