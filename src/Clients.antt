-- ===== src/Clients.antt =====
-- pkg/clients: what the packages postgres, redis, neo4j, minio and qdrant have in common.
pub mod Guards
pub mod Text
pub mod System
pub mod Truncate
pub mod Trace
pub mod Observed
pub mod Postgres
pub mod Redis
pub mod Neo4j
pub mod Qdrant
pub mod Minio
mod Tests
