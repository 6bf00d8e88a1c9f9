-- ===== src/Clients/Redis/History.antt =====
-- Any sequence of Redis commands: what stands in the trace behind it, and which errors came back.
use Prim.Native.String.{◌++◌}
use stricklysoft_core.Prelude.{
  ℕ, ◌+◌, Bool, String, Option, List, [], ◌≡◌, refl, arith, ℤ, pos, Dict, decimal, false, length,
}
use stricklysoft_core.Errors.{GoError, Error}
use stricklysoft_core.Clients.Trace.{Traced}
use stricklysoft_core.Clients.Observed.{
  AllEnded, count_errors, failures, error_of, driver_error, Answers, IsTraced, is_traced, added,
  IsTraced-Answers,
}
use stricklysoft_core.Clients.Redis.Commands.{
  Cmdable, list_text, start_span, set, get, del, exists, expire, ttl, incr, decr, hset, hget,
  hgetall, hdel, lpush, rpush, lrange, llen, sadd, smembers, sismember, srem,
}

-- A call of a method of the client, with its arguments.
pub data Command (V : Type 0) : Type 0 where
  do_set : (key : String) (value : V) (expiration : ℤ) → Command V
  do_get : (key : String) → Command V
  do_del : (keys : List String) → Command V
  do_exists : (keys : List String) → Command V
  do_expire : (key : String) (expiration : ℤ) → Command V
  do_ttl : (key : String) → Command V
  do_incr : (key : String) → Command V
  do_decr : (key : String) → Command V
  do_hset : (key : String) (values : List V) → Command V
  do_hget : (key name : String) → Command V
  do_hgetall : (key : String) → Command V
  do_hdel : (key : String) (names : List String) → Command V
  do_lpush : (key : String) (values : List V) → Command V
  do_rpush : (key : String) (values : List V) → Command V
  do_lrange : (key : String) (start stop : ℤ) → Command V
  do_llen : (key : String) → Command V
  do_sadd : (key : String) (members : List V) → Command V
  do_smembers : (key : String) → Command V
  do_sismember : (key : String) (member : V) → Command V
  do_srem : (key : String) (members : List V) → Command V

module _ {D V : Type 0} (cmdable : Cmdable D V) (db_index : ℤ) (duration_text : ℤ → String) where
  -- The error that the method returns, and the client behind it.
  unfoldable pub run : Command V → Traced D → Option Error × Traced D
  unfolding set get del exists expire ttl incr decr hset hget hgetall hdel lpush rpush lrange llen
      sadd smembers sismember srem
  run (do_set key value expiration) c =
      error_of (set cmdable db_index duration_text key value expiration c)
  run (do_get key) c = error_of (get cmdable db_index duration_text key c)
  run (do_del keys) c = error_of (del cmdable db_index duration_text keys c)
  run (do_exists keys) c = error_of (exists cmdable db_index duration_text keys c)
  run (do_expire key expiration) c =
      error_of (expire cmdable db_index duration_text key expiration c)
  run (do_ttl key) c = error_of (ttl cmdable db_index duration_text key c)
  run (do_incr key) c = error_of (incr cmdable db_index duration_text key c)
  run (do_decr key) c = error_of (decr cmdable db_index duration_text key c)
  run (do_hset key values) c = error_of (hset cmdable db_index duration_text key values c)
  run (do_hget key name) c = error_of (hget cmdable db_index duration_text key name c)
  run (do_hgetall key) c = error_of (hgetall cmdable db_index duration_text key c)
  run (do_hdel key names) c = error_of (hdel cmdable db_index duration_text key names c)
  run (do_lpush key values) c = error_of (lpush cmdable db_index duration_text key values c)
  run (do_rpush key values) c = error_of (rpush cmdable db_index duration_text key values c)
  run (do_lrange key start stop) c =
      error_of (lrange cmdable db_index duration_text key start stop c)
  run (do_llen key) c = error_of (llen cmdable db_index duration_text key c)
  run (do_sadd key members) c = error_of (sadd cmdable db_index duration_text key members c)
  run (do_smembers key) c = error_of (smembers cmdable db_index duration_text key c)
  run (do_sismember key member) c = error_of (sismember cmdable db_index duration_text key member c)
  run (do_srem key members) c = error_of (srem cmdable db_index duration_text key members c)

  -- What the connection is asked by a command, without the value of the answer.
  abbrev pub asked : Command V → D → Option GoError × D
  asked (do_set key value expiration) d = driver_error (cmdable.call_set key value expiration d)
  asked (do_get key) d = driver_error (cmdable.call_get key d)
  asked (do_del keys) d = driver_error (cmdable.call_del keys d)
  asked (do_exists keys) d = driver_error (cmdable.call_exists keys d)
  asked (do_expire key expiration) d = driver_error (cmdable.call_expire key expiration d)
  asked (do_ttl key) d = driver_error (cmdable.call_ttl key d)
  asked (do_incr key) d = driver_error (cmdable.call_incr key d)
  asked (do_decr key) d = driver_error (cmdable.call_decr key d)
  asked (do_hset key values) d = driver_error (cmdable.call_hset key values d)
  asked (do_hget key name) d = driver_error (cmdable.call_hget key name d)
  asked (do_hgetall key) d = driver_error (cmdable.call_hgetall key d)
  asked (do_hdel key names) d = driver_error (cmdable.call_hdel key names d)
  asked (do_lpush key values) d = driver_error (cmdable.call_lpush key values d)
  asked (do_rpush key values) d = driver_error (cmdable.call_rpush key values d)
  asked (do_lrange key start stop) d = driver_error (cmdable.call_lrange key start stop d)
  asked (do_llen key) d = driver_error (cmdable.call_llen key d)
  asked (do_sadd key members) d = driver_error (cmdable.call_sadd key members d)
  asked (do_smembers key) d = driver_error (cmdable.call_smembers key d)
  asked (do_sismember key member) d = driver_error (cmdable.call_sismember key member d)
  asked (do_srem key members) d = driver_error (cmdable.call_srem key members d)

  method : (command : Command V) → IsTraced (run command) (asked command)
  unfolding run
  method (do_set key value expiration) =
      is_traced {T = Unit {0}} (start_span db_index "Set" ("SET " ++ key)) (λ _. tt)
        "redis: set failed" (cmdable.call_set key value expiration) (λ c. refl) (λ d. refl)
  method (do_get key) =
      is_traced {T = String} (start_span db_index "Get" ("GET " ++ key)) (λ _. "")
        "redis: get failed" (cmdable.call_get key) (λ c. refl) (λ d. refl)
  method (do_del keys) =
      is_traced {T = ℤ} (start_span db_index "Del" ("DEL " ++ list_text keys)) (λ _. pos 0)
        "redis: del failed" (cmdable.call_del keys) (λ c. refl) (λ d. refl)
  method (do_exists keys) =
      is_traced {T = ℤ} (start_span db_index "Exists" ("EXISTS " ++ list_text keys)) (λ _. pos 0)
        "redis: exists failed" (cmdable.call_exists keys) (λ c. refl) (λ d. refl)
  method (do_expire key expiration) =
      is_traced {T = Bool}
        (start_span db_index "Expire" ("EXPIRE " ++ key ++ " " ++ duration_text expiration))
        (λ _. false) "redis: expire failed" (cmdable.call_expire key expiration) (λ c. refl)
        (λ d. refl)
  method (do_ttl key) =
      is_traced {T = ℤ} (start_span db_index "TTL" ("TTL " ++ key)) (λ _. pos 0) "redis: ttl failed"
        (cmdable.call_ttl key) (λ c. refl) (λ d. refl)
  method (do_incr key) =
      is_traced {T = ℤ} (start_span db_index "Incr" ("INCR " ++ key)) (λ _. pos 0)
        "redis: incr failed" (cmdable.call_incr key) (λ c. refl) (λ d. refl)
  method (do_decr key) =
      is_traced {T = ℤ} (start_span db_index "Decr" ("DECR " ++ key)) (λ _. pos 0)
        "redis: decr failed" (cmdable.call_decr key) (λ c. refl) (λ d. refl)
  method (do_hset key values) =
      is_traced {T = ℤ} (start_span db_index "HSet" ("HSET " ++ key)) (λ _. pos 0)
        "redis: hset failed" (cmdable.call_hset key values) (λ c. refl) (λ d. refl)
  method (do_hget key name) =
      is_traced {T = String} (start_span db_index "HGet" ("HGET " ++ key ++ " " ++ name)) (λ _. "")
        "redis: hget failed" (cmdable.call_hget key name) (λ c. refl) (λ d. refl)
  method (do_hgetall key) =
      is_traced {T = Dict String} (start_span db_index "HGetAll" ("HGETALL " ++ key)) (λ _. [])
        "redis: hgetall failed" (cmdable.call_hgetall key) (λ c. refl) (λ d. refl)
  method (do_hdel key names) =
      is_traced {T = ℤ} (start_span db_index "HDel" ("HDEL " ++ key ++ " " ++ list_text names))
        (λ _. pos 0) "redis: hdel failed" (cmdable.call_hdel key names) (λ c. refl) (λ d. refl)
  method (do_lpush key values) =
      is_traced {T = ℤ} (start_span db_index "LPush" ("LPUSH " ++ key)) (λ _. pos 0)
        "redis: lpush failed" (cmdable.call_lpush key values) (λ c. refl) (λ d. refl)
  method (do_rpush key values) =
      is_traced {T = ℤ} (start_span db_index "RPush" ("RPUSH " ++ key)) (λ _. pos 0)
        "redis: rpush failed" (cmdable.call_rpush key values) (λ c. refl) (λ d. refl)
  method (do_lrange key start stop) =
      is_traced {T = List String}
        (start_span db_index "LRange"
          ("LRANGE " ++ key ++ " " ++ decimal start ++ " " ++ decimal stop))
        (λ _. []) "redis: lrange failed" (cmdable.call_lrange key start stop) (λ c. refl)
        (λ d. refl)
  method (do_llen key) =
      is_traced {T = ℤ} (start_span db_index "LLen" ("LLEN " ++ key)) (λ _. pos 0)
        "redis: llen failed" (cmdable.call_llen key) (λ c. refl) (λ d. refl)
  method (do_sadd key members) =
      is_traced {T = ℤ} (start_span db_index "SAdd" ("SADD " ++ key)) (λ _. pos 0)
        "redis: sadd failed" (cmdable.call_sadd key members) (λ c. refl) (λ d. refl)
  method (do_smembers key) =
      is_traced {T = List String} (start_span db_index "SMembers" ("SMEMBERS " ++ key)) (λ _. [])
        "redis: smembers failed" (cmdable.call_smembers key) (λ c. refl) (λ d. refl)
  method (do_sismember key member) =
      is_traced {T = Bool} (start_span db_index "SIsMember" ("SISMEMBER " ++ key)) (λ _. false)
        "redis: sismember failed" (cmdable.call_sismember key member) (λ c. refl) (λ d. refl)
  method (do_srem key members) =
      is_traced {T = ℤ} (start_span db_index "SRem" ("SREM " ++ key)) (λ _. pos 0)
        "redis: srem failed" (cmdable.call_srem key members) (λ c. refl) (λ d. refl)

  -- Each of the twenty Redis commands asks the connection once, with its arguments. Without an error it
  -- returns none; the error of the connection it returns wrapped, as a database timeout if the deadline
  -- of the context stands in its chain, else as an internal database error. The trace gets one ended
  -- span, with the status Ok or with that error.
  pub run-Answers :
      (command : Command V) (c : Traced D) → Answers c (asked command c.driver) (run command c)
  run-Answers command c = IsTraced-Answers (run command) (asked command) c (method command)

  -- A sequence of commands on one client, with the number of commands and of errors returned.
  pub data Session (c : Traced D) : ℕ → ℕ → Traced D → Type 0 where
    opened : Session c 0 0 c
    commanded :
        {n failed : ℕ} {d : Traced D}
        → Session c n failed d
        → (command : Command V)
        → Session c (n + 1) (failed + failures (run command d).0) (run command d).1

  -- Behind any sequence of Redis commands the trace has one more span for each command; where those
  -- before were ended, all of them are; and there is one more span with an error for each error that was
  -- returned.
  pub Session-observed :
      {c d : Traced D} {n failed : ℕ}
      → Session c n failed d
      → AllEnded c.spans
      → (length d.spans ≡ length c.spans + n)
        × (count_errors d.spans ≡ count_errors c.spans + failed)
        × AllEnded d.spans
  Session-observed opened h = (omega arith, omega arith, h)
  Session-observed (commanded {d} s command) h =
      let (more, errors, all_ended) = Session-observed s h in
      let a = added (run command) (asked command) d (method command) in
      (omega (arith, a.one_more), omega (arith, a.errors), a.all_ended all_ended)
