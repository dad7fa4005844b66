-- ===== src/Deploy.antt =====
-- internal/deploy: what an app is composed with.
pub mod Ports
