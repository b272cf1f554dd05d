-- ===== src/JwtAuth.antt =====
-- src/plugins/jwt/jwt-auth.js: the authentication of a request, and its two caches.
pub mod Cache
pub mod Validate
mod Tests
