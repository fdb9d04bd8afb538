-- ===== src/Audit.antt =====
-- The audit component (backend/app/audit): events, their minimized metadata, the append-only store
-- and the bindings that the other components report through.
pub mod Event
pub mod Redaction
pub mod Record
pub mod Repository
pub mod Service
pub mod Bindings
