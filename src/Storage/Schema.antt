-- ===== src/Storage/Schema.antt =====
-- The rows of backend/app/shared/models_ledger.py, models_control.py and models_identity.py, and the
-- database: a table for each. Server-side timestamps that no modelled query reads are left out.
pub mod Statements
pub mod Triggers
pub mod Soundness
pub mod History
pub mod Updates
pub mod Others
pub mod IdentityRows
use personal_finance_public.Base.{String, ℕ, Option, Bool, true, false, List, [], ◌∷◌}
use personal_finance_public.Base.Int.{ℤ}
use personal_finance_public.Domain.Account.{Account, Category}
use personal_finance_public.Domain.Entry.{Entry}
use personal_finance_public.Domain.Transaction.{Date, TransactionKind, TransactionStatus}
use personal_finance_public.Storage.Json.{JsonValue}
use personal_finance_public.Storage.Table.{Keyed}

-- The values of the column `state`; `posting` is `_POSTING`, which no committed row keeps.
pub data RecordState : Type 0 where
  draft posting posted reconciled voided : RecordState

-- `state IN ('POSTED', 'RECONCILED', 'VOIDED')`
abbrev pub is_history : RecordState → Bool
is_history draft = false
is_history posting = false
is_history posted = true
is_history reconciled = true
is_history voided = true

-- An account or category row has the columns of the domain value.
pub record TransactionRecord : Type 0 where
  pub id : String
  pub space_id : String
  pub kind : TransactionKind
  pub state : RecordState
  pub economic_date : Date
  pub cash_date : Option Date
  pub description : Option String
  pub posted_at : Option ℕ

pub record EntryRecord : Type 0 where
  pub transaction_id : String
  pub entry : Entry
  pub open entry use *

-- `DraftDetails` of backend/app/ledger/ports/repositories.py
pub record DraftDetails : Type 0 where
  pub amount_cents : ℤ
  pub account_id : Option String
  pub category_id : Option String
  pub destination_account_id : Option String
  pub cash_date : Option Date
  pub replacement_of_transaction_id : Option String

pub record DraftDetailsRecord : Type 0 where
  pub transaction_id : String
  pub space_id : String
  pub details : DraftDetails

pub record ReversalRecord : Type 0 where
  pub id : String
  pub space_id : String
  pub original_transaction_id : String
  pub reversal_transaction_id : String

-- `result_json` holds the JSON value that its text spells.
pub record IdempotencyRecord : Type 0 where
  pub id : String
  pub space_id : String
  pub command_name : String
  pub idempotency_key : String
  pub payload_hash : String
  pub result_json : Option JsonValue
  pub completed_at : Option ℕ

pub record ReconciliationRecord : Type 0 where
  pub id : String
  pub space_id : String
  pub account_id : String
  pub cutoff_date : Date
  pub observed_balance_cents : ℤ
  pub completed_at : ℕ

pub record ReconciliationEntryRecord : Type 0 where
  pub reconciliation_id : String
  pub entry_id : String
  pub space_id : String

pub record AuditEventRecord : Type 0 where
  pub id : String
  pub space_id : Option String
  pub occurred_at : ℕ
  pub action : String
  pub outcome : String
  pub actor_id : Option String
  pub entity_type : Option String
  pub entity_id : Option String
  pub correlation_id : String
  pub details_json : Option String

-- Timestamps are instants in UTC, as numbers of a fixed unit.
pub record UserRecord : Type 0 where
  pub id : String
  pub username : String
  pub password_hash : String
  pub credential_version : ℕ
  pub created_at : ℕ

pub record SpaceRecord : Type 0 where
  pub id : String
  pub owner_user_id : String
  pub name : String
  pub created_at : ℕ

pub record SessionRecord : Type 0 where
  pub id : String
  pub user_id : String
  pub token_hash : String
  pub csrf_token_hash : String
  pub expires_at : ℕ
  pub created_at : ℕ
  pub revoked_at : Option ℕ

pub record Db : Type 0 where
  pub users : List UserRecord
  pub spaces : List SpaceRecord
  pub sessions : List SessionRecord
  pub accounts : List Account
  pub categories : List Category
  pub transactions : List TransactionRecord
  pub entries : List EntryRecord
  pub draft_details : List DraftDetailsRecord
  pub reversals : List ReversalRecord
  pub idempotency_records : List IdempotencyRecord
  pub reconciliations : List ReconciliationRecord
  pub reconciliation_entries : List ReconciliationEntryRecord
  pub audit_events : List AuditEventRecord

-- The database right after the migrations.
abbrev pub fresh : Db
fresh = record {
  users = [];
  spaces = [];
  sessions = [];
  accounts = [];
  categories = [];
  transactions = [];
  entries = [];
  draft_details = [];
  reversals = [];
  idempotency_records = [];
  reconciliations = [];
  reconciliation_entries = [];
  audit_events = [];
}

-- Primary keys.
instance abbrev pub account_keyed : Keyed Account
account_keyed = record { key = λ r. r.id }

instance abbrev pub category_keyed : Keyed Category
category_keyed = record { key = λ r. r.id }

instance abbrev pub transaction_keyed : Keyed TransactionRecord
transaction_keyed = record { key = λ r. r.id }

instance abbrev pub entry_keyed : Keyed EntryRecord
entry_keyed = record { key = λ r. r.entry.id }

instance abbrev pub draft_details_keyed : Keyed DraftDetailsRecord
draft_details_keyed = record { key = λ r. r.transaction_id }

instance abbrev pub reversal_keyed : Keyed ReversalRecord
reversal_keyed = record { key = λ r. r.id }

instance abbrev pub idempotency_keyed : Keyed IdempotencyRecord
idempotency_keyed = record { key = λ r. r.id }

instance abbrev pub reconciliation_keyed : Keyed ReconciliationRecord
reconciliation_keyed = record { key = λ r. r.id }

instance abbrev pub user_keyed : Keyed UserRecord
user_keyed = record { key = λ r. r.id }

instance abbrev pub space_keyed : Keyed SpaceRecord
space_keyed = record { key = λ r. r.id }

instance abbrev pub session_keyed : Keyed SessionRecord
session_keyed = record { key = λ r. r.id }

instance abbrev pub audit_event_keyed : Keyed AuditEventRecord
audit_event_keyed = record { key = λ r. r.id }
