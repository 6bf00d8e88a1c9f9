-- ===== src/Lib.antt =====
-- Verification of the core library for agents (Go, packages pkg/errors, pkg/auth, pkg/lifecycle,
-- pkg/models, pkg/config and pkg/clients).
--
-- The program's parts. pkg/errors gives every other package its error type: a code, a message, a
-- cause and details, with the checks that search an error tree. pkg/auth turns tokens into
-- identities with permissions: the claims of a token are turned into permissions, identities and
-- permission sets answer whether an action is granted, validated identities are cached, and a
-- call chain records who called whom. pkg/lifecycle runs an agent through its states; an agent is
-- made by a builder, calls its hooks outside its lock and its state handlers inside it.
-- pkg/models is the record of one execution. pkg/config fills a configuration struct from
-- defaults, a file and the environment. Each package under pkg/clients has a configuration with
-- its validation and a client that puts a tracing span and a platform error around every call of
-- a database driver.
--
-- The files. Each component has a module with its state as a record and one function per
-- operation, child modules with its theorems, and a Tests module with concrete runs.
--  Prelude and its children: shared library names, Boolean tests, lists over native numbers,
--       Go maps as association lists and sets as key lists, what is used of Go's strings
--       package.
--  Value: Go's `any` as JSON gives it (pkg/auth/rbac.go, pkg/errors/types.go).
--  Errors, Errors/Codes, Errors/Checks: pkg/errors/types.go and constructors.go, codes.go,
--       checks.go. Errors/Results is the pair of a value and an error that Go functions
--       return.
--  Auth/Permission, Auth/Identity, Auth/CallChain: pkg/auth/identity.go. Auth/Permission has
--       the parsers of pkg/auth/rbac.go, too.
--  Auth/PermissionSet, Auth/Claims: pkg/auth/rbac.go.
--  Auth/TokenCache: the token cache of pkg/auth/jwt.go.
--  Lifecycle/State, Lifecycle/Capability, Lifecycle/Builder: state.go, capability.go and
--       agent_builder.go of pkg/lifecycle.
--  Lifecycle/Agent: pkg/lifecycle/agent.go, each method run alone; Lifecycle/Interleaving: the
--       same methods as critical sections of many goroutines. A hook returns, with or without
--       an error, and leaves its own agent as it is: agent.go promises hooks only the methods
--       that read, and panics of hooks are not modelled.
--  Auth/Jwt/Config, Auth/Jwt/Classify, Auth/Jwt/Keys, Auth/Jwt/Validator, Auth/Jwt/Identities,
--       Auth/Jwt/Providers, Auth/Jwt/Validate: the rest of pkg/auth/jwt.go, from the
--       configuration to Validate. The JWT package, the HTTP client, JSON decoding, SHA-256
--       and the clock are the records JwtPackage and Remote of functions.
--  Auth/Jwt/Kubernetes: the service account claims of pkg/auth/k8s.go.
--  Auth/Jwt/ServiceAccount: the service account's own token, of the same file.
--  Auth/Context: pkg/auth/context.go.
--  Auth/Middleware: the server's side of pkg/auth/http.go and pkg/auth/grpc.go, with what it
--       uses of pkg/auth/propagation.go.
--  Auth/Propagation: the headers of pkg/auth/propagation.go, with JSON as the record Json of
--       functions; Prelude/Base64 and Prelude/Encoding are the unpadded base64url coding.
--  Auth/Outgoing: the client's side of pkg/auth/http.go and grpc.go.
--  Models/Execution: pkg/models/execution.go.
--  Config, Config/Parse, Config/Fields, Config/Sources, Config/Loader: pkg/config/loader.go
--       and validation.go. A configuration struct is the list of its fields, each with its
--       tags and its value or its own fields, as reflection shows it. The integers and truth
--       values of Go's strconv are written out; the environment, the file, time.ParseDuration
--       and the decoders of YAML and JSON are the record Host of functions.
--  Config/Numerals, Config/RoundTrip, Config/Layers, Config/Required, Config/Failures,
--       Config/Reports, Config/Load: what the loader's steps do, apart and together.
--  Clients/Text, Clients/System, Clients/Trace: what the five client packages under
--       pkg/clients have in common (secrets, truncated statements, defaults, spans and wrapped
--       errors); each package has its own copy with the same body, and those of
--       pkg/clients/postgres stand for them.
--  Clients/Postgres, Clients/Redis, Clients/Neo4j, Clients/Qdrant, Clients/Minio: config.go
--       and client.go of the packages. A driver is a record of functions on a state of its
--       own, and a client's state is that of its driver and the spans that it has ended.
--       Clients/Postgres/Tls is the connection string and the TLS settings, Redis/Open and
--       Neo4j/Open are the constructors.
--  Clients/Guards, Clients/Observed: lemmas on chains of tests, and on the spans that calls
--       leave behind.
--
-- Correspondence. Go names in snake case are the names here (ParsePermissionString is
-- parse_permission_string). A method on a shared object takes the object and gives the changed
-- one back. A nil map or slice and an empty one are the same list where the code treats them
-- alike. Times and durations are nanoseconds as natural numbers, and each reading of the clock is
-- an argument. All loops run over a list or a text, so there is no fuel, except that the digits
-- of a number are printed on as much fuel as the number and one more, where each digit needs one.
-- Integers with a sign are ℤ, and the tests of a field's size are written out. Error messages are
-- written out, with the %q verb as quotes around the escaped text.
--
-- Not modelled: locks other than those of an agent, since calls of the validator and its caches
-- run one at a time here; loggers, and the tracing spans of agents, which only observe; printing
-- of errors by Format; the accessors of the clients' drivers; packages that are placeholders
-- (pkg/nexus, pkg/observability, pkg/clients/mongo, pkg/clients/retry, pkg/config/watcher.go);
-- mocks, fixtures and examples.
pub mod Auth
pub mod Clients
pub mod Config
pub mod Errors
pub mod Lifecycle
pub mod Models
pub mod Prelude
pub mod Value
