-- ===== src/Clients/Postgres.antt =====
-- pkg/clients/postgres: its configuration (config.go) and its client (client.go).
pub mod Config
pub mod Valid
pub mod Revalidate
pub mod Tls
pub mod Trust
pub mod Client
pub mod Settings
pub mod Opens
