-- ===== src/Clients/Neo4j/Client.antt =====
-- pkg/clients/neo4j/client.go: the client on a driver, which is a record of functions on its state. A
-- session is a state of the driver that holds one open session.
use Prim.Native.String.{◌++◌}
use stricklysoft_core.Prelude.{ℕ, String, Option, none, some, List, [], ◌∷◌}
use stricklysoft_core.Errors.{GoError, Error, plain, wrap}
use stricklysoft_core.Errors.Codes.{code_internal_database}
use stricklysoft_core.Clients.Text.{truncate}
use stricklysoft_core.Clients.Trace.{
  string_value, Span, started, Call, Traced, traced, appended, Context, health, finish_span,
  wrap_error,
}

-- A value of type `any` that a managed transaction returns: a list of records, or another, by its type.
pub data Returned (Rec : Type 0) : Type 0 where
  records : List Rec → Returned Rec
  foreign : String → Returned Rec

-- Sessions, and what is done in them. A managed transaction calls its work once or again.
pub record Driver (D Params Res Rec : Type 0) : Type 0 where
  pub open_session : String → D → D
  pub close_session : D → D
  pub tx_run : String → Params → Call D (Option Res)
  pub collect : Option Res → Call D (List Rec)
  pub session_run : String → Params → Call D (Option Res)
  pub managed_read : Call D (Returned Rec) → Call D (Returned Rec)
  pub managed_write : Call D (Returned Rec) → Call D (Returned Rec)
  pub verify_connectivity : Context → Call D (Unit {0})
  pub close : D → Option GoError × D

unfoldable pub start_span : String → String → String → Span
unfolding truncate
start_span database_name operation_name cypher = started ("neo4j." ++ operation_name) (
    ("db.system", string_value "neo4j")
    ∷ ("db.name", string_value database_name)
    ∷ ("db.statement", string_value (truncate cypher))
    ∷ [])

module _ {D Params Res Rec : Type 0} (driver : Driver D Params Res Rec)
    (database_name : String) where
  abbrev pub collected : (Option Res × Option GoError) × D → (Returned Rec × Option GoError) × D
  collected ((res, some e), d) = ((foreign "<nil>", some e), d)
  collected ((res, none), d) = let ((list, e), d') = driver.collect res d in ((records list, e), d')

  -- The work of a managed transaction.
  abbrev pub work : String → Params → Call D (Returned Rec)
  work cypher params d = collected (driver.tx_run cypher params d)

  -- A call in a session that is closed behind it.
  abbrev pub in_session : {T : Type 0} → Call D T → Call D T
  in_session call d =
      let (result, d') = call (driver.open_session database_name d) in
      (result, driver.close_session d')

  -- The assertion of the type of the result.
  abbrev pub asserted :
      String → (Returned Rec × Option Error) × Traced D → (List Rec × Option Error) × Traced D
  asserted kind ((v, some e), c) = (([], some e), c)
  asserted kind ((records list, none), c) = ((list, none), c)
  asserted kind ((foreign type, none), c) = (
    (
      [],
      wrap (some (plain ("unexpected result type " ++ type ++ " from " ++ kind ++ " transaction")))
          code_internal_database ("neo4j: " ++ kind ++ " transaction returned unexpected type"),
    ),
    c,
  )

  unfoldable pub execute_read : String → Params → Traced D → (List Rec × Option Error) × Traced D
  unfolding traced start_span wrap
  execute_read cypher params c = asserted "read" (
      traced (start_span database_name "ExecuteRead" cypher) (λ v. v)
        "neo4j: read transaction failed" (in_session (driver.managed_read (work cypher params))) c)

  unfoldable pub execute_write : String → Params → Traced D → (List Rec × Option Error) × Traced D
  unfolding traced start_span wrap
  execute_write cypher params c = asserted "write" (
      traced (start_span database_name "ExecuteWrite" cypher) (λ v. v)
        "neo4j: write transaction failed" (in_session (driver.managed_write (work cypher params)))
        c)

  abbrev pub ran :
      Span → List Span → (Option Res × Option GoError) × D → (List Rec × Option Error) × Traced D
  ran span spans ((res, some e), d) = (
    ([], wrap_error (some e) "neo4j: auto-commit query failed"),
    record { driver = driver.close_session d; spans = appended spans (finish_span span (some e)) },
  )
  ran span spans ((res, none), d) =
      let ((list, e), d') = driver.collect res d in
      (
        collected_answer list e,
        record { driver = driver.close_session d'; spans = appended spans (finish_span span e) },
      )
    where
      collected_answer : List Rec → Option GoError → List Rec × Option Error
      collected_answer list none = (list, none)
      collected_answer list (some e) = ([], wrap_error (some e) "neo4j: failed to collect results")

  -- `Run`
  unfoldable pub run_query : String → Params → Traced D → (List Rec × Option Error) × Traced D
  unfolding start_span wrap_error finish_span
  run_query cypher params c =
      ran (start_span database_name "Run" cypher) c.spans
        (driver.session_run cypher params (driver.open_session database_name c.driver))

  -- `Session`
  unfoldable pub session : Traced D → Traced D
  session c = record c { driver = driver.open_session database_name c.driver }

  -- `Health` at the time `now`, with DefaultHealthTimeout.
  unfoldable pub check_health : ℕ → Context → Traced D → Option Error × Traced D
  unfolding health start_span
  check_health now ctx =
      health (start_span database_name "Health" "VERIFY CONNECTIVITY") "neo4j: health check failed"
        now 5000000000 driver.verify_connectivity ctx

  abbrev pub close_error : Option GoError → Option Error
  close_error none = none
  close_error (some e) = wrap (some e) code_internal_database "neo4j: failed to close driver"

  -- `Close`
  unfoldable pub close_driver : Traced D → Option Error × Traced D
  unfolding wrap
  close_driver c = let (e, d) = driver.close c.driver in (close_error e, record c { driver = d })
