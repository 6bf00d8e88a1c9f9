-- ===== src/Clients/Qdrant/Config.antt =====
-- pkg/clients/qdrant/config.go: the configuration, its defaults and its validation.
use Prim.Native.String.{◌++◌}
use stricklysoft_core.Prelude.{
  Bool, false, ◌||◌, String, Option, none, some, ◌==◌, if◌then◌else◌, ℤ, pos, lt_int, decimal,
  is_zero_int, ◌≡◌, ◌↔◌, ◌≢◌, refl, arith, eq_iff, ◌≤ℤ◌, lt_int-false_iff, Bool-cases, inl, inr,
}
use stricklysoft_core.Errors.{GoError, plain}
use stricklysoft_core.Clients.Text.{Secret}
use stricklysoft_core.Clients.Guards.{last_iff, range_iff}
use stricklysoft_core.Clients.System.{System, or_default, or_text}

abbrev pub default_host : String
default_host = "qdrant.databases.svc.cluster.local"

abbrev pub default_grpc_port : ℤ
default_grpc_port = pos 6334

abbrev pub default_health_timeout : ℤ
default_health_timeout = pos 5000000000

pub record Config : Type 0 where
  pub host : String
  pub grpc_port : ℤ
  pub api_key : Secret
  pub use_tls : Bool
  pub health_timeout : ℤ

unfoldable pub default_config : Config
default_config = record {
  host = default_host;
  grpc_port = default_grpc_port;
  api_key = "";
  use_tls = false;
  health_timeout = default_health_timeout;
}

unfoldable pub port_error : Config → Option GoError
unfolding decimal
port_error c =
    if lt_int c.grpc_port (pos 1) || lt_int (pos 65535) c.grpc_port
    then some (
        plain ("qdrant: config grpc_port must be between 1 and 65535, got " ++ decimal c.grpc_port))
    else none

unfoldable pub timeout_error : System → Config → Option GoError
timeout_error sys c =
    if lt_int c.health_timeout (pos 0)
    then some (
        plain (
          "qdrant: config health_timeout must not be negative, got "
          ++ sys.duration_text c.health_timeout))
    else none

-- The timeout gets its default behind the test of the port.
abbrev pub validated : System → Config → Option GoError → Config × Option GoError
validated sys c (some e) = (c, some e)
validated sys c none =
    let c' = record c { health_timeout = or_default default_health_timeout c.health_timeout } in
    (c', timeout_error sys c')

-- `Config.Validate`, which writes the defaults into its receiver.
unfoldable pub validate : System → Config → Config × Option GoError
unfolding port_error timeout_error
validate sys c =
    let addressed = record c {
      host = or_text default_host c.host;
      grpc_port = or_default default_grpc_port c.grpc_port;
    } in
    validated sys addressed (port_error addressed)

-- `GRPCAddress`
unfoldable pub grpc_address : Config → String
unfolding decimal
grpc_address c = c.host ++ ":" ++ decimal c.grpc_port

-- The host is given, the port is one, and the timeout is positive.
abbrev pub IsValid : Config → Type 0
IsValid c =
    (c.host ≢ "")
    × (((pos 1 ≤ℤ c.grpc_port) × (c.grpc_port ≤ℤ pos 65535)) × (pos 1 ≤ℤ c.health_timeout))

positive : (n : ℤ) → pos 0 ≤ℤ n → is_zero_int n ≡ false → pos 1 ≤ℤ n
positive (pos n) h z = ground arith
positive n h z = absurd h

host_given : (s : String) → or_text default_host s ≢ ""
host_given s = elim (Bool-cases (s == "")) [
  | inl e ↦ rw e (cc)
  | inr e ↦ rw e (ground (arith, eq_iff s ""))
]

timeout_given : (n : ℤ) → is_zero_int (or_default default_health_timeout n) ≡ false
timeout_given n = ground arith

module _ (sys : System) where
  accepted :
      (c : Config) (o : Option GoError)
      → (o ≡ none) ↔ ((pos 1 ≤ℤ c.grpc_port) × (c.grpc_port ≤ℤ pos 65535))
      → c.host ≢ ""
      → ((validated sys c o).1 ≡ none) ↔ IsValid (validated sys c o).0
  unfolding timeout_error
  accepted c (some e) port host = (λ h. absurd (cc), λ h. absurd (cc (port.1 h.1.0)))
  accepted c none port host =
      let t = or_default default_health_timeout c.health_timeout in
      let timeout = last_iff (lt_int t (pos 0)) _ (lt_int-false_iff t (pos 0)) in
      (
        λ h. (host, (port.0 refl, positive t (timeout.0 h) (timeout_given c.health_timeout))),
        λ h. timeout.1 (weaker t h.1.1),
      )
    where
      weaker : (n : ℤ) → pos 1 ≤ℤ n → pos 0 ≤ℤ n
      weaker (pos n) h = omega arith
      weaker n h = absurd h

  -- Validate accepts a Qdrant configuration exactly when, with the defaults that it has written into it,
  -- the host is given, the port lies between 1 and 65535 and the health timeout is positive.
  pub validate_iff : (c : Config) → ((validate sys c).1 ≡ none) ↔ IsValid (validate sys c).0
  unfolding validate
  validate_iff c =
      let addressed = record c {
        host = or_text default_host c.host;
        grpc_port = or_default default_grpc_port c.grpc_port;
      } in
      accepted addressed (port_error addressed)
        (last_iff _ _ (range_iff (pos 1) (pos 65535) addressed.grpc_port)) (host_given c.host)
