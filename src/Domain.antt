-- ===== src/Domain.antt =====
-- The business rules of internal/domain, which import no infrastructure.
pub mod State
pub mod Reason
pub mod Slug
pub mod Config
pub mod Image
