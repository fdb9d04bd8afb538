-- ===== src/Ledger/Repository.antt =====
-- backend/app/ledger/adapters/repositories.py: `SqlAlchemyLedgerRepository`, by its three ports.
pub mod Catalog
pub mod Transactions
pub mod Growth
