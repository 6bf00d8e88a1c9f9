-- ===== src/Clients/Minio.antt =====
-- pkg/clients/minio: its configuration (config.go) and its client (client.go).
pub mod Config
pub mod Client
