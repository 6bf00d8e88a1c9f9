-- ===== src/Auth/TokenCache.antt =====
-- pkg/auth/jwt.go: `tokenCache`. Times and durations are nanoseconds; the ttl is not negative, as
-- `ValidatorConfig.Validate` demands, and `-` stops at 0 where the source's difference is negative.
pub mod Bounds
pub mod Expiry
use stricklysoft_core.Prelude.{
  ℕ, ◌+◌, ◌-◌, Bool, true, false, ◌&&◌, ◌||◌, String, Option, none, some, List, [], ◌∷◌, ◌==◌, ltb,
  leb, length, if◌then◌else◌, Dict, lookup, insert, delete,
}

pub record TokenCacheEntry (I : Type 0) : Type 0 where
  pub identity : I
  pub expires_at : ℕ

-- The mutex is held by each operation from its first line to its last.
pub record TokenCache (I : Type 0) : Type 0 where
  pub entries : Dict (TokenCacheEntry I)
  pub max_size : ℕ
  pub ttl : ℕ

-- The loop variables `oldestKey`, `oldestTime` and `first`.
pub record Oldest : Type 0 where
  pub key : String
  pub time : ℕ
  pub first : Bool

abbrev pub no_oldest : Oldest
no_oldest = record { key = ""; time = 0; first = true }

-- The effective ttl, with `time.Until(tokenExp)` read at the time `until_now`.
abbrev pub effective_ttl : ℕ → ℕ → ℕ → ℕ
effective_ttl ttl token_exp until_now =
    let remaining = token_exp - until_now in
    if ltb 0 remaining && ltb remaining ttl then remaining else ttl

module _ {I : Type 0} where
  -- `newTokenCache`
  unfoldable pub new_token_cache : ℕ → ℕ → TokenCache I
  new_token_cache ttl max_size = record { entries = []; max_size = max_size; ttl = ttl }

  abbrev pub identity_at : ℕ → Option (TokenCacheEntry I) → Option I
  identity_at now none = none
  identity_at now (some entry) = if ltb entry.expires_at now then none else some entry.identity

  -- `get` at the time `now`
  unfoldable pub get : TokenCache I → String → ℕ → Option I
  get c token_hash now = identity_at now (lookup token_hash c.entries)

  -- The loop of `evictExpiredLocked`
  unfoldable pub drop_expired : ℕ → Dict (TokenCacheEntry I) → Dict (TokenCacheEntry I)
  drop_expired now [] = []
  drop_expired now ((k, v) ∷ entries) =
      let rest = drop_expired now entries in if ltb v.expires_at now then rest else (k, v) ∷ rest

  -- `evictExpired`, and `evictExpiredLocked` under a lock that is held
  unfoldable pub evict_expired : TokenCache I → ℕ → TokenCache I
  unfolding drop_expired
  evict_expired c now = record c { entries = drop_expired now c.entries }

  -- The body of the loop that looks for the entry with the earliest `expiresAt`
  abbrev pub older : Oldest → String → TokenCacheEntry I → Oldest
  older o k v =
      if o.first || ltb v.expires_at o.time
      then record { key = k; time = v.expires_at; first = false }
      else o

  -- The loop that looks for the entry with the earliest `expiresAt`
  unfoldable pub find_oldest : Oldest → Dict (TokenCacheEntry I) → Oldest
  find_oldest o [] = o
  find_oldest o ((k, v) ∷ entries) = find_oldest (older o k v) entries

  -- `if len(c.entries) >= c.maxSize { ... }` for the oldest entry
  unfoldable pub evict_oldest : TokenCache I → TokenCache I
  unfolding find_oldest
  evict_oldest c =
      let oldest = find_oldest no_oldest c.entries in
      if leb c.max_size (length c.entries)
      then (if oldest.key == "" then c else record c { entries = delete oldest.key c.entries })
      else c

  abbrev pub make_room : TokenCache I → ℕ → TokenCache I
  make_room c now =
      evict_oldest (if leb c.max_size (length c.entries) then evict_expired c now else c)

  -- `put`, with the clock read three times: for `time.Until`, for `time.Now` and for the eviction
  unfoldable pub put : TokenCache I → String → I → ℕ → ℕ → ℕ → ℕ → TokenCache I
  unfolding evict_expired evict_oldest
  put c token_hash identity token_exp until_now now evict_now =
      let ttl = effective_ttl c.ttl token_exp until_now in
      let entry : TokenCacheEntry I = record { identity = identity; expires_at = now + ttl } in
      let d = make_room c evict_now in
      if leb ttl 0 then c else record d { entries = insert token_hash entry d.entries }
