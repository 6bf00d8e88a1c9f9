-- ===== src/Clients/Qdrant/Client.antt =====
-- pkg/clients/qdrant/client.go: the client on a vector database, which is a record of functions on a
-- state of the driver. Requests are of one type, with the getters that the client uses.
use Prim.Native.String.{◌++◌}
use stricklysoft_core.Prelude.{
  ℕ, Bool, false, leb, ◌&&◌, String, Option, none, some, List, [], ◌∷◌, ◌==◌, if◌then◌else◌, ℤ, pos,
  magnitude, lt_int, decimal,
}
use stricklysoft_core.Errors.{GoError, Error, wrap}
use stricklysoft_core.Errors.Chains.{is_error}
use stricklysoft_core.Errors.Codes.{
  code_timeout_database, code_internal_database, code_validation, code_unavailable_dependency,
}
use stricklysoft_core.Errors.Results.{Result, ok, err}
use stricklysoft_core.Clients.Text.{truncate, value}
use stricklysoft_core.Clients.System.{System}
use stricklysoft_core.Clients.Trace.{
  Attribute, string_value, Span, started, Call, Traced, appended, finish_span, Context,
  with_timeout, health,
}
use stricklysoft_core.Clients.Qdrant.Config.{Config, default_health_timeout, validate}

-- The interface `VectorDB`, and the code of `status.FromError` of an error that has one.
pub record VectorDb (D R Info Update Scored Retrieved : Type 0) : Type 0 where
  pub collection_name : R → String
  pub point_count : R → ℕ
  pub grpc_code : GoError → Option ℕ
  pub call_create_collection : R → Call D (Unit {0})
  pub call_delete_collection : String → Call D (Unit {0})
  pub call_list_collections : Call D (List String)
  pub call_get_collection_info : String → Call D (Option Info)
  pub call_upsert : R → Call D (Option Update)
  pub call_query : R → Call D (List Scored)
  pub call_get : R → Call D (List Retrieved)
  pub call_delete : R → Call D (Option Update)
  pub call_scroll : R → Call D (List Retrieved)
  pub call_health_check : Context → Call D (Unit {0})
  pub close : D → Option GoError × D

-- `codes.DeadlineExceeded` of gRPC is 4.
abbrev pub is_deadline : Option ℕ → Bool
is_deadline none = false
is_deadline (some code) = leb code 4 && leb 4 code

-- `wrapError`, given the gRPC code of an error.
unfoldable pub wrap_error : (GoError → Option ℕ) → Option GoError → String → Option Error
unfolding is_error wrap
wrap_error grpc_code none message = none
wrap_error grpc_code (some e) message =
    if is_error "context.DeadlineExceeded" e
    then wrap (some e) code_timeout_database message
    else if is_deadline (grpc_code e)
    then wrap (some e) code_timeout_database message
    else wrap (some e) code_internal_database message

abbrev pub name_attribute : String → List (String × Attribute)
name_attribute collection_name =
    if collection_name == "" then [] else ("db.name", string_value collection_name) ∷ []

unfoldable pub start_span : String → String → String → Span
unfolding truncate
start_span operation_name statement collection_name = started ("qdrant." ++ operation_name) (
    ("db.system", string_value "qdrant")
    ∷ ("db.statement", string_value (truncate statement))
    ∷ name_attribute collection_name)

abbrev pub answer :
    {T : Type 0} → (GoError → Option ℕ) → T → String → T × Option GoError → T × Option Error
answer grpc_code zero message (v, none) = (v, none)
answer grpc_code zero message (v, some e) = (zero, wrap_error grpc_code (some e) message)

module _ {D R Info Update Scored Retrieved : Type 0}
    (db : VectorDb D R Info Update Scored Retrieved) where
  -- Start a span, call the driver, finish the span with the error, return.
  unfoldable pub observed :
      {T : Type 0} → Span → T → String → Call D T → Traced D → (T × Option Error) × Traced D
  unfolding wrap_error finish_span
  observed span zero message call c =
      let (result, d) = call c.driver in
      (
        answer db.grpc_code zero message result,
        record { driver = d; spans = appended c.spans (finish_span span result.1) },
      )

  unfoldable pub create_collection : R → Traced D → (Unit {0} × Option Error) × Traced D
  unfolding observed start_span
  create_collection req =
      let name = db.collection_name req in
      observed (start_span "CreateCollection" ("CreateCollection " ++ name) name) tt
        "qdrant: create collection failed" (db.call_create_collection req)

  unfoldable pub delete_collection : String → Traced D → (Unit {0} × Option Error) × Traced D
  unfolding observed start_span
  delete_collection name =
      observed (start_span "DeleteCollection" ("DeleteCollection " ++ name) name) tt
        "qdrant: delete collection failed" (db.call_delete_collection name)

  unfoldable pub list_collections : Traced D → (List String × Option Error) × Traced D
  unfolding observed start_span
  list_collections =
      observed (start_span "ListCollections" "ListCollections" "") []
        "qdrant: list collections failed" db.call_list_collections

  unfoldable pub collection_info : String → Traced D → (Option Info × Option Error) × Traced D
  unfolding observed start_span
  collection_info name =
      observed (start_span "CollectionInfo" ("GetCollectionInfo " ++ name) name) none
        "qdrant: get collection info failed" (db.call_get_collection_info name)

  unfoldable pub upsert : R → Traced D → (Option Update × Option Error) × Traced D
  unfolding observed start_span
  upsert req =
      let name = db.collection_name req in
      observed
        (start_span "Upsert"
          ("Upsert " ++ name ++ " (" ++ decimal (pos (db.point_count req)) ++ " points)") name)
        none "qdrant: upsert failed" (db.call_upsert req)

  unfoldable pub search_points : R → Traced D → (List Scored × Option Error) × Traced D
  unfolding observed start_span
  search_points req =
      let name = db.collection_name req in
      observed (start_span "Search" ("Query " ++ name) name) [] "qdrant: search failed"
        (db.call_query req)

  unfoldable pub get_points : R → Traced D → (List Retrieved × Option Error) × Traced D
  unfolding observed start_span
  get_points req =
      let name = db.collection_name req in
      observed (start_span "Get" ("GetPoints " ++ name) name) [] "qdrant: get points failed"
        (db.call_get req)

  unfoldable pub delete_points : R → Traced D → (Option Update × Option Error) × Traced D
  unfolding observed start_span
  delete_points req =
      let name = db.collection_name req in
      observed (start_span "Delete" ("Delete " ++ name) name) none "qdrant: delete points failed"
        (db.call_delete req)

  unfoldable pub scroll : R → Traced D → (List Retrieved × Option Error) × Traced D
  unfolding observed start_span
  scroll req =
      let name = db.collection_name req in
      observed (start_span "Scroll" ("Scroll " ++ name) name) [] "qdrant: scroll failed"
        (db.call_scroll req)

  -- The timeout of the configuration, if there is one that is positive.
  abbrev pub health_timeout : Option Config → ℤ
  health_timeout none = default_health_timeout
  health_timeout (some config) =
      if lt_int (pos 0) config.health_timeout then config.health_timeout else default_health_timeout

  -- `Health` of a client with that configuration, at the time `now`.
  unfoldable pub check_health : Option Config → ℕ → Context → Traced D → Option Error × Traced D
  unfolding health start_span
  check_health config now ctx =
      health (start_span "Health" "HealthCheck" "") "qdrant: health check failed" now
        (magnitude (health_timeout config)) db.call_health_check ctx

  -- `Close`, whose error is the driver's.
  unfoldable pub close_connection : Traced D → Option GoError × Traced D
  close_connection c = let (e, d) = db.close c.driver in (e, record c { driver = d })

-- What `NewClient` gives the library.
pub record PbConfig : Type 0 where
  pub host : String
  pub port : ℤ
  pub api_key : String
  pub use_tls : Bool

-- The functions of the library that NewClient uses.
pub record Library (D : Type 0) : Type 0 where
  pub new_client : PbConfig → Result D
  pub health_check : Context → D → Option GoError × D
  pub close : D → D

-- A client, or an error: one that left no connection open, or one after which it was closed.
pub data Opened (D : Type 0) : Type 0 where
  opened : D → Config → Opened D
  refused : Option Error → Opened D
  closed : Option Error → D → Opened D

module _ {D : Type 0} (lib : Library D) (sys : System) (now : ℕ) (ctx : Context) where
  abbrev pub checked : Config → Option GoError × D → Opened D
  checked c (none, d) = opened d c
  checked c (some e, d) =
      closed (wrap (some e) code_unavailable_dependency "qdrant: failed to connect to server")
        (lib.close d)

  abbrev pub made : Config → Result D → Opened D
  made c (err e) =
      refused (wrap (some e) code_unavailable_dependency "qdrant: failed to create gRPC client")
  made c (ok d) = checked c (lib.health_check (with_timeout now (magnitude c.health_timeout) ctx) d)

  abbrev pub configured : Config × Option GoError → Opened D
  configured (c, some e) = refused (wrap (some e) code_validation "qdrant: invalid configuration")
  configured (c, none) = made c (
      lib.new_client (record {
        host = c.host;
        port = c.grpc_port;
        api_key = value c.api_key;
        use_tls = c.use_tls;
      }))

  -- `NewClient`, given the configuration by value.
  unfoldable pub new_client : Config → Opened D
  unfolding validate wrap
  new_client cfg = configured (validate sys cfg)

-- The configuration behind a pointer, or the zero value for nil.
abbrev pub given_config : Option Config → Config
given_config (some c) = c
given_config none = record {
  host = "";
  grpc_port = pos 0;
  api_key = "";
  use_tls = false;
  health_timeout = pos 0;
}

-- `NewFromVectorDB`
unfoldable pub new_from_vector_db : {D : Type 0} → D → Option Config → Opened D
new_from_vector_db d cfg = let c = given_config cfg in opened d c
