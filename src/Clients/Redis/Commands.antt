-- ===== src/Clients/Redis/Commands.antt =====
-- pkg/clients/redis/client.go: the commands, each with a span around the call of the driver. The
-- connection is the record Cmdable of functions on a state of the driver; a context that the driver is
-- given goes with its function.
use Prim.Native.String.{◌++◌}
use stricklysoft_core.Prelude.{ℕ, Bool, false, String, Option, List, [], ◌∷◌, Dict, ℤ, pos, decimal}
use stricklysoft_core.Errors.{GoError, Error}
use stricklysoft_core.Clients.Text.{truncate}
use stricklysoft_core.Clients.Trace.{
  string_value, int_value, Span, started, Call, Traced, traced, Context, health,
}

-- `fmt.Sprintf("%v", words)` of a list of texts
abbrev words_text : List String → String
words_text [] = ""
words_text (w ∷ []) = w
words_text (w ∷ v ∷ ws) = w ++ " " ++ words_text (v ∷ ws)

abbrev pub list_text : List String → String
list_text ws = "[" ++ words_text ws ++ "]"

-- The methods of go-redis that the client calls. A value of a command is of any type.
pub record Cmdable (D V : Type 0) : Type 0 where
  pub call_set : String → V → ℤ → Call D (Unit {0})
  pub call_get : String → Call D String
  pub call_del : List String → Call D ℤ
  pub call_exists : List String → Call D ℤ
  pub call_expire : String → ℤ → Call D Bool
  pub call_ttl : String → Call D ℤ
  pub call_incr : String → Call D ℤ
  pub call_decr : String → Call D ℤ
  pub call_hset : String → List V → Call D ℤ
  pub call_hget : String → String → Call D String
  pub call_hgetall : String → Call D (Dict String)
  pub call_hdel : String → List String → Call D ℤ
  pub call_lpush : String → List V → Call D ℤ
  pub call_rpush : String → List V → Call D ℤ
  pub call_lrange : String → ℤ → ℤ → Call D (List String)
  pub call_llen : String → Call D ℤ
  pub call_sadd : String → List V → Call D ℤ
  pub call_smembers : String → Call D (List String)
  pub call_sismember : String → V → Call D Bool
  pub call_srem : String → List V → Call D ℤ
  pub call_ping : Context → Call D (Unit {0})
  pub close : D → Option GoError × D

-- `startSpan` of a client of the database with that index.
unfoldable pub start_span : ℤ → String → String → Span
unfolding truncate
start_span db_index operation_name statement = started ("redis." ++ operation_name) (
    ("db.system", string_value "redis")
    ∷ ("db.redis.database_index", int_value db_index)
    ∷ ("db.statement", string_value (truncate statement))
    ∷ [])

abbrev pub Method : Type 0 → Type 0 → Type 0
Method D T = Traced D → (T × Option Error) × Traced D

-- A client: the connection, the index of its database, and `%v` of a duration.
module _ {D V : Type 0} (cmdable : Cmdable D V) (db_index : ℤ) (duration_text : ℤ → String) where
  unfoldable pub set : (key : String) (value : V) (expiration : ℤ) → Method D (Unit {0})
  unfolding traced start_span
  set key value expiration =
      traced (start_span db_index "Set" ("SET " ++ key)) (λ _. tt) "redis: set failed"
        (cmdable.call_set key value expiration)

  unfoldable pub get : (key : String) → Method D String
  unfolding traced start_span
  get key =
      traced (start_span db_index "Get" ("GET " ++ key)) (λ _. "") "redis: get failed"
        (cmdable.call_get key)

  unfoldable pub del : (keys : List String) → Method D ℤ
  unfolding traced start_span
  del keys =
      traced (start_span db_index "Del" ("DEL " ++ list_text keys)) (λ _. pos 0) "redis: del failed"
        (cmdable.call_del keys)

  unfoldable pub exists : (keys : List String) → Method D ℤ
  unfolding traced start_span
  exists keys =
      traced (start_span db_index "Exists" ("EXISTS " ++ list_text keys)) (λ _. pos 0)
        "redis: exists failed" (cmdable.call_exists keys)

  unfoldable pub expire : (key : String) (expiration : ℤ) → Method D Bool
  unfolding traced start_span
  expire key expiration =
      traced (start_span db_index "Expire" ("EXPIRE " ++ key ++ " " ++ duration_text expiration))
        (λ _. false) "redis: expire failed" (cmdable.call_expire key expiration)

  unfoldable pub ttl : (key : String) → Method D ℤ
  unfolding traced start_span
  ttl key =
      traced (start_span db_index "TTL" ("TTL " ++ key)) (λ _. pos 0) "redis: ttl failed"
        (cmdable.call_ttl key)

  unfoldable pub incr : (key : String) → Method D ℤ
  unfolding traced start_span
  incr key =
      traced (start_span db_index "Incr" ("INCR " ++ key)) (λ _. pos 0) "redis: incr failed"
        (cmdable.call_incr key)

  unfoldable pub decr : (key : String) → Method D ℤ
  unfolding traced start_span
  decr key =
      traced (start_span db_index "Decr" ("DECR " ++ key)) (λ _. pos 0) "redis: decr failed"
        (cmdable.call_decr key)

  unfoldable pub hset : (key : String) (values : List V) → Method D ℤ
  unfolding traced start_span
  hset key values =
      traced (start_span db_index "HSet" ("HSET " ++ key)) (λ _. pos 0) "redis: hset failed"
        (cmdable.call_hset key values)

  unfoldable pub hget : (key name : String) → Method D String
  unfolding traced start_span
  hget key name =
      traced (start_span db_index "HGet" ("HGET " ++ key ++ " " ++ name)) (λ _. "")
        "redis: hget failed" (cmdable.call_hget key name)

  unfoldable pub hgetall : (key : String) → Method D (Dict String)
  unfolding traced start_span
  hgetall key =
      traced (start_span db_index "HGetAll" ("HGETALL " ++ key)) (λ _. []) "redis: hgetall failed"
        (cmdable.call_hgetall key)

  unfoldable pub hdel : (key : String) (names : List String) → Method D ℤ
  unfolding traced start_span
  hdel key names =
      traced (start_span db_index "HDel" ("HDEL " ++ key ++ " " ++ list_text names)) (λ _. pos 0)
        "redis: hdel failed" (cmdable.call_hdel key names)

  unfoldable pub lpush : (key : String) (values : List V) → Method D ℤ
  unfolding traced start_span
  lpush key values =
      traced (start_span db_index "LPush" ("LPUSH " ++ key)) (λ _. pos 0) "redis: lpush failed"
        (cmdable.call_lpush key values)

  unfoldable pub rpush : (key : String) (values : List V) → Method D ℤ
  unfolding traced start_span
  rpush key values =
      traced (start_span db_index "RPush" ("RPUSH " ++ key)) (λ _. pos 0) "redis: rpush failed"
        (cmdable.call_rpush key values)

  unfoldable pub lrange : (key : String) (start stop : ℤ) → Method D (List String)
  unfolding traced start_span
  lrange key start stop =
      traced
        (start_span db_index "LRange"
          ("LRANGE " ++ key ++ " " ++ decimal start ++ " " ++ decimal stop))
        (λ _. []) "redis: lrange failed" (cmdable.call_lrange key start stop)

  unfoldable pub llen : (key : String) → Method D ℤ
  unfolding traced start_span
  llen key =
      traced (start_span db_index "LLen" ("LLEN " ++ key)) (λ _. pos 0) "redis: llen failed"
        (cmdable.call_llen key)

  unfoldable pub sadd : (key : String) (members : List V) → Method D ℤ
  unfolding traced start_span
  sadd key members =
      traced (start_span db_index "SAdd" ("SADD " ++ key)) (λ _. pos 0) "redis: sadd failed"
        (cmdable.call_sadd key members)

  unfoldable pub smembers : (key : String) → Method D (List String)
  unfolding traced start_span
  smembers key =
      traced (start_span db_index "SMembers" ("SMEMBERS " ++ key)) (λ _. [])
        "redis: smembers failed" (cmdable.call_smembers key)

  unfoldable pub sismember : (key : String) (member : V) → Method D Bool
  unfolding traced start_span
  sismember key member =
      traced (start_span db_index "SIsMember" ("SISMEMBER " ++ key)) (λ _. false)
        "redis: sismember failed" (cmdable.call_sismember key member)

  unfoldable pub srem : (key : String) (members : List V) → Method D ℤ
  unfolding traced start_span
  srem key members =
      traced (start_span db_index "SRem" ("SREM " ++ key)) (λ _. pos 0) "redis: srem failed"
        (cmdable.call_srem key members)

  -- `Health` at the time `now`, with DefaultHealthTimeout.
  unfoldable pub check_health : ℕ → Context → Traced D → Option Error × Traced D
  unfolding health start_span
  check_health now ctx =
      health (start_span db_index "Health" "PING") "redis: health check failed" now 5000000000
        cmdable.call_ping ctx

  -- `Close`, whose error is the driver's.
  unfoldable pub close_connection : Traced D → Option GoError × Traced D
  close_connection c = let (e, d) = cmdable.close c.driver in (e, record c { driver = d })
