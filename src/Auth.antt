-- ===== src/Auth.antt =====
-- pkg/auth
pub mod Permission
pub mod PermissionSet
pub mod Claims
pub mod Identity
pub mod CallChain
pub mod TokenCache
pub mod Context
pub mod Middleware
pub mod Propagation
pub mod Outgoing
pub mod Jwt
mod Tests
