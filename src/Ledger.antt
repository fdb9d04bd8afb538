-- ===== src/Ledger.antt =====
-- The ledger's application layer (backend/app/ledger/application, adapters and ports) with the
-- idempotency store of backend/app/shared/idempotency.py.
pub mod Commands
pub mod Repository
pub mod Idempotency
pub mod Audit
pub mod Handlers
pub mod Reversal
pub mod Catalog
pub mod Growth
pub mod Calls
pub mod Replay
pub mod Projection
