-- ===== src/Clients/Neo4j.antt =====
-- pkg/clients/neo4j: its configuration (config.go) and its client (client.go).
pub mod Config
pub mod Valid
pub mod Client
pub mod Sessions
pub mod Open
