-- ===== src/Clients/Minio/Client.antt =====
-- pkg/clients/minio/client.go: the client on an object store, which is a record of functions on a state
-- of the driver.
use Prim.Native.String.{◌++◌}
use stricklysoft_core.Prelude.{
  ℕ, Bool, true, false, String, Option, none, some, [], ◌∷◌, ◌==◌, if◌then◌else◌, ℤ,
}
use stricklysoft_core.Errors.{GoError, Error, error, platform, caused_by}
use stricklysoft_core.Errors.Codes.{
  code_validation, code_internal_database, code_unavailable_dependency,
}
use stricklysoft_core.Errors.Results.{Result, ok, err}
use stricklysoft_core.Clients.Text.{truncate, value}
use stricklysoft_core.Clients.Trace.{
  string_value, Span, started, Call, Traced, traced, appended, Context, health,
}
use stricklysoft_core.Clients.Minio.Config.{Config, validate}

-- The interface `ObjectStore`; the options of its methods are of one type. A listing is a channel.
pub record ObjectStore (D Reader Opts Info Object Params Address Listing : Type 0) : Type 0 where
  pub call_put_object : String → String → Reader → ℕ → Opts → Call D Info
  pub call_get_object : String → String → Opts → Call D (Option Object)
  pub call_remove_object : String → String → Opts → Call D (Unit {0})
  pub call_stat_object : String → String → Opts → Call D Info
  pub call_bucket_exists : String → Call D Bool
  pub call_make_bucket : String → Opts → Call D (Unit {0})
  pub call_remove_bucket : String → Call D (Unit {0})
  pub call_presigned_get_object : String → String → ℤ → Params → Call D (Option Address)
  pub call_presigned_put_object : String → String → ℤ → Call D (Option Address)
  pub call_list_objects : String → Opts → D → Listing × D
  pub list_prefix : Opts → String

unfoldable pub start_span : String → String → String → Span
unfolding truncate
start_span operation_name bucket_name statement = started ("minio." ++ operation_name) (
    ("db.system", string_value "minio")
    ∷ ("db.name", string_value bucket_name)
    ∷ ("db.statement", string_value (truncate statement))
    ∷ [])

abbrev pub health_bucket_of : Config → String
health_bucket_of c = if c.health_bucket == "" then "health-check-probe" else c.health_bucket

module _ {D Reader Opts Info Object Params Address Listing : Type 0}
    (store : ObjectStore D Reader Opts Info Object Params Address Listing) where
  unfoldable pub put_object :
      (bucket object : String) (reader : Reader) (size : ℕ) (opts : Opts)
      → Traced D
      → (Info × Option Error) × Traced D
  unfolding traced start_span
  put_object bucket object reader size opts =
      traced (start_span "PutObject" bucket ("PUT " ++ bucket ++ "/" ++ object)) (λ info. info)
        "minio: put object failed" (store.call_put_object bucket object reader size opts)

  unfoldable pub get_object :
      (bucket object : String) (opts : Opts) → Traced D → (Option Object × Option Error) × Traced D
  unfolding traced start_span
  get_object bucket object opts =
      traced (start_span "GetObject" bucket ("GET " ++ bucket ++ "/" ++ object)) (λ _. none)
        "minio: get object failed" (store.call_get_object bucket object opts)

  unfoldable pub remove_object :
      (bucket object : String) (opts : Opts) → Traced D → (Unit {0} × Option Error) × Traced D
  unfolding traced start_span
  remove_object bucket object opts =
      traced (start_span "RemoveObject" bucket ("DELETE " ++ bucket ++ "/" ++ object)) (λ _. tt)
        "minio: remove object failed" (store.call_remove_object bucket object opts)

  unfoldable pub stat_object :
      (bucket object : String) (opts : Opts) → Traced D → (Info × Option Error) × Traced D
  unfolding traced start_span
  stat_object bucket object opts =
      traced (start_span "StatObject" bucket ("STAT " ++ bucket ++ "/" ++ object)) (λ info. info)
        "minio: stat object failed" (store.call_stat_object bucket object opts)

  unfoldable pub bucket_exists : (bucket : String) → Traced D → (Bool × Option Error) × Traced D
  unfolding traced start_span
  bucket_exists bucket =
      traced (start_span "BucketExists" bucket ("HEAD " ++ bucket)) (λ _. false)
        "minio: bucket exists check failed" (store.call_bucket_exists bucket)

  unfoldable pub make_bucket :
      (bucket : String) (opts : Opts) → Traced D → (Unit {0} × Option Error) × Traced D
  unfolding traced start_span
  make_bucket bucket opts =
      traced (start_span "MakeBucket" bucket ("MAKE " ++ bucket)) (λ _. tt)
        "minio: make bucket failed" (store.call_make_bucket bucket opts)

  unfoldable pub remove_bucket : (bucket : String) → Traced D → (Unit {0} × Option Error) × Traced D
  unfolding traced start_span
  remove_bucket bucket =
      traced (start_span "RemoveBucket" bucket ("REMOVE " ++ bucket)) (λ _. tt)
        "minio: remove bucket failed" (store.call_remove_bucket bucket)

  unfoldable pub presigned_get_object :
      (bucket object : String) (expires : ℤ) (params : Params)
      → Traced D
      → (Option Address × Option Error) × Traced D
  unfolding traced start_span
  presigned_get_object bucket object expires params =
      traced (start_span "PresignedGetObject" bucket ("PRESIGN GET " ++ bucket ++ "/" ++ object))
        (λ _. none) "minio: presigned get object failed"
        (store.call_presigned_get_object bucket object expires params)

  unfoldable pub presigned_put_object :
      (bucket object : String) (expires : ℤ) → Traced D → (Option Address × Option Error) × Traced D
  unfolding traced start_span
  presigned_put_object bucket object expires =
      traced (start_span "PresignedPutObject" bucket ("PRESIGN PUT " ++ bucket ++ "/" ++ object))
        (λ _. none) "minio: presigned put object failed"
        (store.call_presigned_put_object bucket object expires)

  -- The span ends with no status: errors come through the channel.
  unfoldable pub list_objects : String → Opts → Traced D → Listing × Traced D
  unfolding start_span
  list_objects bucket opts c =
      let (listing, d) = store.call_list_objects bucket opts c.driver in
      let span =
        start_span "ListObjects" bucket
          ("LIST " ++ bucket ++ " prefix=" ++ store.list_prefix opts) in
      (listing, record { driver = d; spans = appended c.spans (record span { ended = true }) })

  -- The call of BucketExists, of which the health check reads the error.
  abbrev probe : (Context → String → Call D Bool) → String → Context → Call D (Unit {0})
  probe call bucket ctx d = let ((there, e), d') = call ctx bucket d in ((tt, e), d')

  -- `Health` of a client with that configuration, at the time `now`; the call takes the context.
  unfoldable pub check_health :
      (Context → String → Call D Bool) → Config → ℕ → Context → Traced D → Option Error × Traced D
  unfolding health start_span
  check_health bucket_exists_in config now ctx =
      health (start_span "Health" "" "BucketExists health-check-probe") "minio: health check failed"
        now 5000000000 (probe bucket_exists_in (health_bucket_of config)) ctx

-- The options that `NewClient` gives the library.
pub record Options : Type 0 where
  pub endpoint : String
  pub access_key : String
  pub secret_key : String
  pub secure : Bool
  pub region : String

module _ {D : Type 0} (new_minio : Options → Result D)
    (bucket_exists_error : String → D → Option GoError × D) where
  abbrev pub probed : Config → Option GoError × D → Result (D × Config)
  probed c (none, d) = ok (d, c)
  probed c (some e, d) = err (
      platform
        (error code_unavailable_dependency "minio: failed to connect to server" (caused_by e) []))

  abbrev pub made : Config → Result D → Result (D × Config)
  made c (err e) =
      err
        (platform (error code_internal_database "minio: failed to create client" (caused_by e) []))
  made c (ok d) = probed c (bucket_exists_error (health_bucket_of c) d)

  abbrev pub configured : Config × Option GoError → Result (D × Config)
  configured (c, some e) =
      err (platform (error code_validation "minio: invalid configuration" (caused_by e) []))
  configured (c, none) = made c (
      new_minio (record {
        endpoint = c.endpoint;
        access_key = c.access_key;
        secret_key = value c.secret_key;
        secure = c.use_ssl;
        region = c.region;
      }))

  -- `NewClient`, given the configuration by value.
  unfoldable pub new_client : Config → Result (D × Config)
  unfolding validate
  new_client cfg = configured (validate cfg)

-- The configuration behind a pointer, or the zero value for nil.
abbrev pub given_config : Option Config → Config
given_config (some c) = c
given_config none = record {
  endpoint = "";
  access_key = "";
  secret_key = "";
  region = "";
  use_ssl = false;
  health_bucket = "";
}

-- `NewFromStore`
unfoldable pub new_from_store : {D : Type 0} → D → Option Config → D × Config
new_from_store d cfg = let c = given_config cfg in (d, c)
