-- ===== src/Domain.antt =====
-- The ledger's domain layer (backend/app/ledger/domain): pure values with validation.
pub mod Money
pub mod Description
pub mod Account
pub mod Entry
pub mod Transaction
pub mod Recipes
