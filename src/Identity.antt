-- ===== src/Identity.antt =====
-- internal/identity: what sign-ins run on.
pub mod Limiter
