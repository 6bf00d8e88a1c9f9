-- ===== src/Auth/Jwt.antt =====
-- pkg/auth/jwt.go, but for its token cache, which is in Auth/TokenCache.
pub mod Config
pub mod Classify
pub mod Kubernetes
pub mod Keys
pub mod Validator
pub mod Identities
pub mod Providers
pub mod Validate
pub mod ServiceAccount
mod Tests
