-- ===== src/Storage/Schema/Statements.antt =====
-- The statements that the adapters issue, as functions on the database: each raises
-- `IntegrityError` where a constraint, a foreign key or a trigger of the schema refuses it.
use personal_finance_public.Base.{
  String, ℕ, Option, none, some, Bool, true, false, ◌&&◌, ◌||◌, not, is_some, ◌∷◌, any, nat_eq,
  ◌==◌, Result, ok, raise_if, ◌>>◌, integrity_error,
}
use personal_finance_public.Base.Int.{pos, leb_ℤ}
use personal_finance_public.Base.Text
use personal_finance_public.Domain.Account.{Account, Category}
use personal_finance_public.Domain.Transaction.{Date, TransactionKind}
use personal_finance_public.Domain.Entry.{eq_Bool}
use personal_finance_public.Storage.Table.{lookup, update, remove}
use personal_finance_public.Storage.Schema.{
  RecordState, is_history, TransactionRecord, EntryRecord, DraftDetailsRecord, ReversalRecord,
  IdempotencyRecord, ReconciliationRecord, ReconciliationEntryRecord, AuditEventRecord, Db,
  account_keyed, category_keyed, transaction_keyed, entry_keyed, draft_details_keyed,
  reversal_keyed, idempotency_keyed, reconciliation_keyed, audit_event_keyed,
}
use personal_finance_public.Storage.Schema.Triggers.{
  posting_guard, posted_entry_guard, allowed_move,
}

abbrev pub Statement : Type 0
Statement = Db → Result Db

abbrev pub has_space : String → Db → Bool
has_space space_id db = any (λ s. s.id == space_id) db.spaces

-- The foreign keys on (space_id, id).
abbrev pub has_transaction : String → String → Db → Bool
has_transaction space_id id db = elim (lookup id db.transactions) [
  | none ↦ false
  | some t ↦ t.space_id == space_id
]

unfoldable pub has_account : String → Option String → Db → Bool
has_account space_id none db = true
has_account space_id (some id) db = elim (lookup id db.accounts) [
  | none ↦ false
  | some a ↦ a.space_id == space_id
]

has_category : String → Option String → Db → Bool
has_category space_id none db = true
has_category space_id (some id) db = elim (lookup id db.categories) [
  | none ↦ false
  | some c ↦ c.space_id == space_id
]

has_entry : String → String → Db → Bool
has_entry space_id id db = elim (lookup id db.entries) [
  | none ↦ false
  | some e ↦ e.entry.space_id == space_id
]

has_reconciliation : String → String → Db → Bool
has_reconciliation space_id id db = elim (lookup id db.reconciliations) [
  | none ↦ false
  | some r ↦ r.space_id == space_id
]

-- UNIQUE (space_id, name); a row does not conflict with itself.
account_name_taken : Account → Db → Bool
account_name_taken a db =
    any (λ r. r.space_id == a.space_id && (r.name == a.name && not (r.id == a.id))) db.accounts

category_name_taken : Category → Db → Bool
category_name_taken c db =
    any (λ r. r.space_id == c.space_id && (r.name == c.name && not (r.id == c.id))) db.categories

unfoldable pub insert_account : Account → Statement
unfolding account_name_taken
insert_account a db = do
  raise_if (is_some (lookup a.id db.accounts)) integrity_error
  raise_if (account_name_taken a db) integrity_error
  raise_if (not (has_space a.space_id db)) integrity_error
  ok (record db { accounts = a ∷ db.accounts })

unfoldable pub update_account_row : Account → Statement
unfolding account_name_taken
update_account_row a db = do
  raise_if (account_name_taken a db) integrity_error
  ok (record db { accounts = update a db.accounts })

unfoldable pub insert_category : Category → Statement
unfolding category_name_taken
insert_category c db = do
  raise_if (is_some (lookup c.id db.categories)) integrity_error
  raise_if (category_name_taken c db) integrity_error
  raise_if (not (has_space c.space_id db)) integrity_error
  ok (record db { categories = c ∷ db.categories })

unfoldable pub update_category_row : Category → Statement
unfolding category_name_taken
update_category_row c db = do
  raise_if (category_name_taken c db) integrity_error
  ok (record db { categories = update c db.categories })

unfoldable pub insert_transaction : TransactionRecord → Statement
insert_transaction t db = do
  raise_if (is_some (lookup t.id db.transactions)) integrity_error
  raise_if (not (has_space t.space_id db)) integrity_error
  ok (record db { transactions = t ∷ db.transactions })

-- `UPDATE transactions SET …` of a row, with the triggers on that table.
unfoldable pub guarded_update : TransactionRecord → TransactionRecord → Statement
guarded_update old new db = do
  raise_if (posting_guard db.entries old new) integrity_error
  raise_if (not (allowed_move old.state new.state)) integrity_error
  ok (record db { transactions = update new db.transactions })

-- Only the columns `state` and `posted_at` are set.
unfoldable pub set_state : String → RecordState → Option ℕ → Statement
set_state id state posted_at db = elim (lookup id db.transactions) [
  | none ↦ ok db
  | some old ↦ guarded_update old (record old { state = state; posted_at = posted_at }) db
]

-- Columns of the snapshot are set too: guard_posted_transaction_snapshot_update.
unfoldable pub set_snapshot :
    String → TransactionKind → Date → Option Date → Option String → RecordState → Statement
set_snapshot id kind economic_date cash_date description state db =
    elim (lookup id db.transactions) [
      | none ↦ ok db
      | some old ↦
          raise_if (is_history old.state) integrity_error
          >> guarded_update old
              (record old {
                kind = kind;
                economic_date = economic_date;
                cash_date = cash_date;
                description = description;
                state = state;
              })
              db
    ]

-- guard_posted_transaction_delete, and the foreign keys: entries and reversals restrict, draft
-- details follow.
unfoldable pub delete_transaction : String → Statement
delete_transaction id db = do
  raise_if (elim (lookup id db.transactions) [ none ↦ false | some old ↦ is_history old.state ])
      integrity_error
  raise_if (any (λ e. e.transaction_id == id) db.entries) integrity_error
  raise_if
      (any (λ r. r.original_transaction_id == id || r.reversal_transaction_id == id) db.reversals)
      integrity_error
  ok (record db {
    transactions = remove id db.transactions;
    draft_details = remove id db.draft_details;
  })

unfoldable pub insert_entry : EntryRecord → Statement
unfolding has_account has_category
insert_entry e db = do
  raise_if (is_some (lookup e.entry.id db.entries)) integrity_error
  raise_if (not (has_transaction e.entry.space_id e.transaction_id db)) integrity_error
  raise_if (not (has_account e.entry.space_id e.entry.account_id db)) integrity_error
  raise_if (not (has_category e.entry.space_id e.entry.category_id db)) integrity_error
  raise_if (leb_ℤ e.entry.amount_cents (pos 0)) integrity_error
  raise_if (eq_Bool (is_some e.entry.account_id) (is_some e.entry.category_id)) integrity_error
  raise_if (posted_entry_guard db.transactions e) integrity_error
  ok (record db { entries = e ∷ db.entries })

unfoldable pub insert_draft_details : DraftDetailsRecord → Statement
insert_draft_details d db = do
  raise_if (is_some (lookup d.transaction_id db.draft_details)) integrity_error
  raise_if (leb_ℤ d.details.amount_cents (pos 0)) integrity_error
  raise_if (not (has_transaction d.space_id d.transaction_id db)) integrity_error
  ok (record db { draft_details = d ∷ db.draft_details })

unfoldable pub update_draft_details : DraftDetailsRecord → Statement
update_draft_details d db = do
  raise_if (leb_ℤ d.details.amount_cents (pos 0)) integrity_error
  ok (record db { draft_details = update d db.draft_details })

unfoldable pub delete_draft_details : String → Statement
delete_draft_details transaction_id db =
    ok (record db { draft_details = remove transaction_id db.draft_details })

unfoldable pub insert_reversal : ReversalRecord → Statement
insert_reversal r db = do
  raise_if (is_some (lookup r.id db.reversals)) integrity_error
  raise_if (any (λ x. x.original_transaction_id == r.original_transaction_id) db.reversals)
      integrity_error
  raise_if (any (λ x. x.reversal_transaction_id == r.reversal_transaction_id) db.reversals)
      integrity_error
  raise_if (r.original_transaction_id == r.reversal_transaction_id) integrity_error
  raise_if (not (has_transaction r.space_id r.original_transaction_id db)) integrity_error
  raise_if (not (has_transaction r.space_id r.reversal_transaction_id db)) integrity_error
  ok (record db { reversals = r ∷ db.reversals })

-- The columns of UNIQUE (space_id, idempotency_key).
abbrev pub has_key : String → String → IdempotencyRecord → Bool
has_key space_id idempotency_key r = r.space_id == space_id && r.idempotency_key == idempotency_key

unfoldable pub insert_idempotency_record : IdempotencyRecord → Statement
insert_idempotency_record r db = do
  raise_if (is_some (lookup r.id db.idempotency_records)) integrity_error
  raise_if (any (has_key r.space_id r.idempotency_key) db.idempotency_records) integrity_error
  raise_if (not (nat_eq (Text.length r.payload_hash) 64)) integrity_error
  raise_if (not (has_space r.space_id db)) integrity_error
  ok (record db { idempotency_records = r ∷ db.idempotency_records })

unfoldable pub update_idempotency_record : IdempotencyRecord → Statement
update_idempotency_record r db =
    ok (record db { idempotency_records = update r db.idempotency_records })

unfoldable pub insert_reconciliation : ReconciliationRecord → Statement
unfolding has_account
insert_reconciliation r db = do
  raise_if (is_some (lookup r.id db.reconciliations)) integrity_error
  raise_if (not (has_account r.space_id (some r.account_id) db)) integrity_error
  ok (record db { reconciliations = r ∷ db.reconciliations })

-- The unique index uq_completed_reconciliation_entry; every row that is written is completed.
unfoldable pub insert_reconciliation_entry : ReconciliationEntryRecord → Statement
unfolding has_entry has_reconciliation
insert_reconciliation_entry r db = do
  raise_if (any (λ x. x.entry_id == r.entry_id) db.reconciliation_entries) integrity_error
  raise_if (not (has_reconciliation r.space_id r.reconciliation_id db)) integrity_error
  raise_if (not (has_entry r.space_id r.entry_id db)) integrity_error
  ok (record db { reconciliation_entries = r ∷ db.reconciliation_entries })

-- Updates and deletes of this table are always aborted, so it has no other statement.
unfoldable pub insert_audit_event : AuditEventRecord → Statement
insert_audit_event r db = do
  raise_if (is_some (lookup r.id db.audit_events)) integrity_error
  raise_if (elim r.space_id [ none ↦ false | some space_id ↦ not (has_space space_id db) ])
      integrity_error
  ok (record db { audit_events = r ∷ db.audit_events })
