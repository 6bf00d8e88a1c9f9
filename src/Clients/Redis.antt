-- ===== src/Clients/Redis.antt =====
-- pkg/clients/redis: its configuration (config.go) and its client (client.go).
pub mod Config
pub mod Valid
pub mod Commands
pub mod History
pub mod Open
