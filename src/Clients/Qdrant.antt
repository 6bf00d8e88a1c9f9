-- ===== src/Clients/Qdrant.antt =====
-- pkg/clients/qdrant: its configuration (config.go) and its client (client.go).
pub mod Config
pub mod Client
