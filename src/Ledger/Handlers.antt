-- ===== src/Ledger/Handlers.antt =====
-- backend/app/ledger/application/handlers.py: `FinancialCommandService`.
pub mod Support
pub mod Posting
pub mod Drafts
pub mod Movements
pub mod Growth
