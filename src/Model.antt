-- ===== src/Model.antt =====
-- The domain model (backend/internal/domain/model).
pub mod Status
pub mod Config
pub mod Entities
mod Examples
