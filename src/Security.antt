-- ===== src/Security.antt =====
-- internal/security/security.go: the rate limiter and the ban manager.
pub mod Limiter
pub mod Bans
