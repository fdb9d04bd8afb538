-- ===== src/Storage.antt =====
-- The database and the unit of work: the tables of backend/app/shared/models_ledger.py and
-- models_control.py with their constraints and triggers, and actions over them.
pub mod Table
pub mod Json
pub mod CanonicalJson
pub mod Exec
pub mod Schema
pub mod World
