-- ===== src/Auth.antt =====
-- Authentication (src/plugins/auth and the users table that it works on).
pub mod User
pub mod Store
pub mod Config
pub mod Areas
pub mod Password
pub mod Jwt
pub mod Lockout
pub mod Service
pub mod Session
pub mod Token
pub mod Reset
pub mod Fixtures
mod Tests
