-- ===== src/Clients/Neo4j/Sessions.antt =====
-- The sessions that the Neo4j client opens for a query are closed on every path.
use stricklysoft_core.Prelude.{
  ℕ, ◌+◌, ◌-◌, String, Option, none, some, ◌≡◌, refl, ap, ◌∙◌, arith, List,
}
use stricklysoft_core.Errors.{GoError, Error}
use stricklysoft_core.Clients.Trace.{Traced, Call, traced, Span}
use stricklysoft_core.Clients.Neo4j.Client.{
  Driver, Returned, records, foreign, collected, work, in_session, asserted, ran, execute_read,
  execute_write, run_query, start_span,
}

-- A call that leaves the number of open sessions as it is.
abbrev pub Keeps : {D T : Type 0} → (D → ℕ) → Call D T → Type 0
Keeps {D} sessions call = (d : D) → sessions (call d).1 ≡ sessions d

-- What the driver does with sessions, counted: to open and to close one counts, the calls in a session do
-- not, and a managed transaction, which calls its work any number of times, does as its work does.
pub record CountsSessions {D Params Res Rec : Type 0} (driver : Driver D Params Res Rec)
    (sessions : D → ℕ) : Type 0 where
  pub opens : (name : String) (d : D) → sessions (driver.open_session name d) ≡ sessions d + 1
  pub closes : (d : D) → sessions (driver.close_session d) ≡ sessions d - 1
  pub runs : (cypher : String) (params : Params) → Keeps sessions (driver.tx_run cypher params)
  pub collects : (res : Option Res) → Keeps sessions (driver.collect res)
  pub session_runs :
      (cypher : String) (params : Params) → Keeps sessions (driver.session_run cypher params)
  pub reads :
      (call : Call D (Returned Rec))
      → Keeps sessions call
      → Keeps sessions (driver.managed_read call)
  pub writes :
      (call : Call D (Returned Rec))
      → Keeps sessions call
      → Keeps sessions (driver.managed_write call)

module _ {D Params Res Rec : Type 0} (driver : Driver D Params Res Rec) (sessions : D → ℕ)
    (counts : CountsSessions driver sessions) (name : String) where
  collected_keeps :
      (r : (Option Res × Option GoError) × D) → sessions (collected driver name r).1 ≡ sessions r.1
  collected_keeps ((res, some e), d) = refl
  collected_keeps ((res, none), d) = counts.collects res d

  work-Keeps : (cypher : String) (params : Params) → Keeps sessions (work driver name cypher params)
  work-Keeps cypher params d =
      collected_keeps (driver.tx_run cypher params d) ∙ counts.runs cypher params d

  in_session-Keeps :
      {T : Type 0} (call : Call D T)
      → Keeps sessions call
      → Keeps sessions (in_session driver name call)
  in_session-Keeps call keeps d =
      let opened = driver.open_session name d in
      omega (arith, counts.opens name d, keeps opened, counts.closes (call opened).1)

  asserted_driver :
      (kind : String) (r : (Returned Rec × Option Error) × Traced D)
      → (asserted driver name kind r).1 ≡ r.1
  asserted_driver kind ((v, some e), c) = refl
  asserted_driver kind ((records list, none), c) = refl
  asserted_driver kind ((foreign type, none), c) = refl

  ran_keeps :
      (span : Span) (spans : List Span) (r : (Option Res × Option GoError) × D)
      → sessions (ran driver name span spans r).1.driver ≡ sessions r.1 - 1
  ran_keeps span spans ((res, some e), d) = counts.closes d
  ran_keeps span spans ((res, none), d) =
      omega (arith, counts.closes (driver.collect res d).1, counts.collects res d)

  -- Each of the three query methods closes the session that it opened, on every path: behind it as many
  -- sessions are open as before, if the driver counts sessions as documented.
  pub queries_close :
      (cypher : String) (params : Params) (c : Traced D)
      → (sessions (execute_read driver name cypher params c).1.driver ≡ sessions c.driver)
        × (sessions (execute_write driver name cypher params c).1.driver ≡ sessions c.driver)
        × (sessions (run_query driver name cypher params c).1.driver ≡ sessions c.driver)
  unfolding execute_read execute_write run_query traced
  queries_close cypher params c =
      let w = work driver name cypher params in
      let keeps = work-Keeps cypher params in
      let start = driver.open_session name c.driver in
      let read =
        traced (start_span name "ExecuteRead" cypher) (λ v. v) "neo4j: read transaction failed"
          (in_session driver name (driver.managed_read w)) c in
      let wrote =
        traced (start_span name "ExecuteWrite" cypher) (λ v. v) "neo4j: write transaction failed"
          (in_session driver name (driver.managed_write w)) c in
      (
        ap (λ x. sessions x.driver) (asserted_driver "read" read)
            ∙ in_session-Keeps (driver.managed_read w) (counts.reads w keeps) c.driver,
        ap (λ x. sessions x.driver) (asserted_driver "write" wrote)
            ∙ in_session-Keeps (driver.managed_write w) (counts.writes w keeps) c.driver,
        ran_keeps (start_span name "Run" cypher) c.spans (driver.session_run cypher params start)
            ∙ omega (arith, counts.session_runs cypher params start, counts.opens name c.driver),
      )
