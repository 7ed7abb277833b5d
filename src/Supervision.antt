-- ===== src/Supervision.antt =====
-- Services that look after runs out of band (backend/internal/domain/service): the orphan
-- reconciler, the guard watchdog and the timeout enforcer.
pub mod Idle
pub mod Orphans
pub mod Watchdog
pub mod Timeouts
