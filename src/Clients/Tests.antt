-- ===== src/Clients/Tests.antt =====
-- Runs of the client packages at concrete configurations and drivers.
use stricklysoft_core.Prelude.{
  inl, ℕ, ◌+◌, ◌-◌, true, String, Option, some, none, [], ◌∷◌, ℤ, pos, ◌≡◌, ◌↔◌, refl, length,
  has_prefix,
}
use stricklysoft_core.Errors.{Error, plain}
use stricklysoft_core.Errors.Results.{ok}
use stricklysoft_core.Clients.System.{System}
use stricklysoft_core.Clients.Trace.{Traced}
use stricklysoft_core.Clients.Observed.{AllEnded, count_errors, failures, Answers}
use stricklysoft_core.Clients.Postgres.Config as Pg
use stricklysoft_core.Clients.Postgres.Valid.{IsValid, validate_structured_iff}
use stricklysoft_core.Clients.Postgres.Revalidate.{validate_twice}
use stricklysoft_core.Clients.Postgres.Tls.{X509, TlsConfig, tls_config}
use stricklysoft_core.Clients.Postgres.Trust.{Trusted, tls_config_lem, uri-unverified}
use stricklysoft_core.Clients.Postgres.Client.{Pgx, opened, new_client}
use stricklysoft_core.Clients.Redis.Commands.{Cmdable}
use stricklysoft_core.Clients.Redis.History.{
  do_get, run, asked, run-Answers, Session, opened as connected, commanded, Session-observed,
}
use stricklysoft_core.Clients.Neo4j.Client.{Driver, execute_read, execute_write, run_query}
use stricklysoft_core.Clients.Neo4j.Sessions.{CountsSessions, queries_close}

abbrev sys : System
sys = record { url_scheme = λ s. ok "postgres"; stat_error = λ s. none; duration_text = λ d. "1s" }

-- A configuration of which only what has no default is given.
abbrev given : Pg.Config
given = record {
  uri = "";
  host = "";
  port = pos 0;
  database = "orders";
  user = "app";
  password = "";
  ssl_mode = "";
  ssl_root_cert = "";
  max_conns = pos 0;
  min_conns = pos 0;
  max_conn_lifetime = pos 0;
  max_conn_idle_time = pos 0;
  health_check_period = pos 0;
  connect_timeout = pos 0;
  cloud_provider = "";
}

filled_in :
    Pg.validate sys given ≡ (record Pg.default_config { database = "orders"; user = "app" }, none)
unfolding Pg.validate Pg.default_config
filled_in = refl

-- The default of min_conns is larger than this limit.
small_pool :
    (Pg.validate sys (record given { max_conns = pos 3 })).1
    ≡ some (plain "postgres: config max_conns (3) must be >= min_conns (5)")
unfolding Pg.validate
small_pool = refl

validate_structured_iff_example :
    ((Pg.validate sys given).1 ≡ none) ↔ IsValid sys (Pg.validate sys given).0
validate_structured_iff_example = validate_structured_iff sys given refl

accepted : (Pg.validate sys given).1 ≡ none
unfolding Pg.validate
accepted = refl

validate_twice_example :
    Pg.validate sys (Pg.validate sys given).0 ≡ ((Pg.validate sys given).0, none)
validate_twice_example = validate_twice sys given accepted

abbrev x509 : X509 String String
x509 = record {
  read_file = λ path. ok "pem";
  parse_pem = λ pem. some pem;
  verify = λ roots others first. none;
}

abbrev by_uri : Pg.Config
by_uri = record given { uri = "postgres://db/orders?sslmode=verify-full"; ssl_root_cert = "ca.pem" }

tls_config_lem_example : Trusted x509 by_uri (tls_config x509 by_uri)
tls_config_lem_example = tls_config_lem x509 by_uri

uri-unverified_example :
    ((Pg.validate sys by_uri).1 ≡ none)
    × ((t : TlsConfig String String) × (tls_config x509 (Pg.validate sys by_uri).0 ≡ ok (some t))
        × (t.insecure_skip_verify ≡ true)
        × (t.verify_connection ≡ none))
uri-unverified_example =
    uri-unverified x509 sys by_uri "postgres" "pem" "pem" (cc) refl (inl refl) refl (cc) refl refl

abbrev pgx : Pgx ℕ String String String
pgx = record {
  url_text = λ u. u.path;
  url_path = λ uri. some "/orders";
  parse_config = λ s. ok s;
  new_with_config = λ settings. ok 0;
  ping = λ d. (none, d + 1);
  close = λ d. 0;
}

connects : new_client pgx x509 sys by_uri ≡ opened 1 (Pg.apply_pool_defaults by_uri) "orders"
unfolding new_client Pg.apply_pool_defaults has_prefix
connects = refl

-- A connection that answers every command, and knows no key.
abbrev cmdable : Cmdable ℕ String
cmdable = record {
  call_set = λ a b e d. ((tt, none), d + 1);
  call_get = λ a d. (("", some (plain "redis: nil")), d + 1);
  call_del = λ a d. ((pos 1, none), d + 1);
  call_exists = λ a d. ((pos 1, none), d + 1);
  call_expire = λ a b d. ((true, none), d + 1);
  call_ttl = λ a d. ((pos 1, none), d + 1);
  call_incr = λ a d. ((pos 1, none), d + 1);
  call_decr = λ a d. ((pos 1, none), d + 1);
  call_hset = λ a b d. ((pos 1, none), d + 1);
  call_hget = λ a b d. (("", none), d + 1);
  call_hgetall = λ a d. (([], none), d + 1);
  call_hdel = λ a b d. ((pos 1, none), d + 1);
  call_lpush = λ a b d. ((pos 1, none), d + 1);
  call_rpush = λ a b d. ((pos 1, none), d + 1);
  call_lrange = λ a b e d. (([], none), d + 1);
  call_llen = λ a d. ((pos 1, none), d + 1);
  call_sadd = λ a b d. ((pos 1, none), d + 1);
  call_smembers = λ a d. (([], none), d + 1);
  call_sismember = λ a b d. ((true, none), d + 1);
  call_srem = λ a b d. ((pos 1, none), d + 1);
  call_ping = λ a d. ((tt, none), d + 1);
  close = λ d. (none, 0);
}

abbrev start : Traced ℕ
start = record { driver = 0; spans = [] }

abbrev duration_text : ℤ → String
duration_text d = "1s"

abbrev looked_up : Option Error × Traced ℕ
looked_up = run cmdable (pos 0) duration_text (do_get "k") start

abbrev after_get :
    Session cmdable (pos 0) duration_text start (0 + 1) (0 + failures looked_up.0) looked_up.1
after_get = commanded connected (do_get "k")

Session-observed_example :
    (length looked_up.1.spans ≡ 0 + (0 + 1))
    × (count_errors looked_up.1.spans ≡ 0 + (0 + failures looked_up.0))
    × AllEnded looked_up.1.spans
Session-observed_example = Session-observed cmdable (pos 0) duration_text after_get tt

run-Answers_example :
    Answers start (asked cmdable (pos 0) duration_text (do_get "k") start.driver) looked_up
run-Answers_example = run-Answers cmdable (pos 0) duration_text (do_get "k") start

one_failed : failures looked_up.0 ≡ 1
unfolding run
one_failed = refl

abbrev driver : Driver ℕ String String String
driver = record {
  open_session = λ name d. d + 1;
  close_session = λ d. d - 1;
  tx_run = λ cypher params d. ((some cypher, none), d);
  collect = λ res d. (("r" ∷ [], none), d);
  session_run = λ cypher params d. ((none, some (plain "syntax error")), d);
  managed_read = λ work d. work d;
  managed_write = λ work d. work d;
  verify_connectivity = λ ctx d. ((tt, none), d);
  close = λ d. (none, 0);
}

counts : CountsSessions driver (λ d. d)
counts = record {
  opens = λ name d. refl;
  closes = λ d. refl;
  runs = λ cypher params d. refl;
  collects = λ res d. refl;
  session_runs = λ cypher params d. refl;
  reads = λ call keeps d. keeps d;
  writes = λ call keeps d. keeps d;
}

queries_close_example :
    ((execute_read driver "neo4j" "RETURN 1" "" start).1.driver ≡ 0)
    × ((execute_write driver "neo4j" "RETURN 1" "" start).1.driver ≡ 0)
    × ((run_query driver "neo4j" "RETURN 1" "" start).1.driver ≡ 0)
queries_close_example = queries_close driver (λ d. d) counts "neo4j" "RETURN 1" "" start
