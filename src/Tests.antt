-- ===== src/Tests.antt =====
-- Concrete inputs, and each property applied to one of them.
pub mod Sample
pub mod History
mod DomainTests
mod LedgerTests
mod StateTests
mod AuditTests
mod ReconciliationTests
mod IdentityTests
