-- ===== src/Storage/Schema/Others.antt =====
-- The statements on the other tables, and the rules for all statements together.
use personal_finance_public.Base.{String, ℕ, ◌≡◌, Option, false, true, arith}
use personal_finance_public.Domain.Account.{Account, Category}
use personal_finance_public.Domain.Transaction.{Date, TransactionKind}
use personal_finance_public.Storage.Schema.{
  RecordState, posted, is_history, TransactionRecord, EntryRecord, DraftDetailsRecord,
  ReversalRecord, IdempotencyRecord, ReconciliationRecord, ReconciliationEntryRecord,
  AuditEventRecord, Db,
}
use personal_finance_public.Storage.Schema.Statements.{
  Statement, insert_account, update_account_row, insert_category, update_category_row,
  insert_transaction, set_state, set_snapshot, delete_transaction, insert_entry,
  insert_draft_details, update_draft_details, delete_draft_details, insert_reversal,
  insert_idempotency_record, update_idempotency_record, insert_reconciliation,
  insert_reconciliation_entry, insert_audit_event,
}
use personal_finance_public.Storage.Schema.Soundness.{Grows, Grows-refl, Grows-trans, Grows-same}
use personal_finance_public.Storage.Schema.History.{
  insert_transaction-Grows, delete_transaction-Grows, insert_entry-Grows,
}
use personal_finance_public.Storage.Schema.Updates.{
  enters_posted, set_state-Grows, set_snapshot-Grows,
}
use personal_finance_public.Storage.World.Rules.{Preorder, Accepts}

pub Grows-preorder : Preorder Grows
Grows-preorder = record { reflexive = Grows-refl; transitive = Grows-trans }

-- Both tables of the ledger are as they were.
pub record SameLedger (db db' : Db) : Type 0 where
  pub same_transactions : db'.transactions ≡ db.transactions
  pub same_entries : db'.entries ≡ db.entries

pub SameLedger-Grows :
    (statement : Statement) → Accepts SameLedger statement → Accepts Grows statement
SameLedger-Grows statement a = record {
  accepts = λ db db' h.
      let s = a.accepts db db' h in Grows-same db db' s.same_transactions s.same_entries;
}

pub insert_account-SameLedger : (a : Account) → Accepts SameLedger (insert_account a)
unfolding insert_account
insert_account-SameLedger a = record { accepts = λ db db' h. ground arith }

pub update_account_row-SameLedger : (a : Account) → Accepts SameLedger (update_account_row a)
unfolding update_account_row
update_account_row-SameLedger a = record { accepts = λ db db' h. ground arith }

pub insert_category-SameLedger : (c : Category) → Accepts SameLedger (insert_category c)
unfolding insert_category
insert_category-SameLedger c = record { accepts = λ db db' h. ground arith }

pub update_category_row-SameLedger : (c : Category) → Accepts SameLedger (update_category_row c)
unfolding update_category_row
update_category_row-SameLedger c = record { accepts = λ db db' h. ground arith }

pub insert_draft_details-SameLedger :
    (d : DraftDetailsRecord) → Accepts SameLedger (insert_draft_details d)
unfolding insert_draft_details
insert_draft_details-SameLedger d = record { accepts = λ db db' h. ground arith }

pub update_draft_details-SameLedger :
    (d : DraftDetailsRecord) → Accepts SameLedger (update_draft_details d)
unfolding update_draft_details
update_draft_details-SameLedger d = record { accepts = λ db db' h. ground arith }

pub delete_draft_details-SameLedger : (id : String) → Accepts SameLedger (delete_draft_details id)
unfolding delete_draft_details
delete_draft_details-SameLedger id = record { accepts = λ db db' h. ground arith }

pub insert_reversal-SameLedger : (r : ReversalRecord) → Accepts SameLedger (insert_reversal r)
unfolding insert_reversal
insert_reversal-SameLedger r = record { accepts = λ db db' h. ground arith }

pub insert_idempotency_record-SameLedger :
    (r : IdempotencyRecord) → Accepts SameLedger (insert_idempotency_record r)
unfolding insert_idempotency_record
insert_idempotency_record-SameLedger r = record { accepts = λ db db' h. ground arith }

pub update_idempotency_record-SameLedger :
    (r : IdempotencyRecord) → Accepts SameLedger (update_idempotency_record r)
unfolding update_idempotency_record
update_idempotency_record-SameLedger r = record { accepts = λ db db' h. ground arith }

pub insert_reconciliation-SameLedger :
    (r : ReconciliationRecord) → Accepts SameLedger (insert_reconciliation r)
unfolding insert_reconciliation
insert_reconciliation-SameLedger r = record { accepts = λ db db' h. ground arith }

pub insert_reconciliation_entry-SameLedger :
    (r : ReconciliationEntryRecord) → Accepts SameLedger (insert_reconciliation_entry r)
unfolding insert_reconciliation_entry
insert_reconciliation_entry-SameLedger r = record { accepts = λ db db' h. ground arith }

pub insert_audit_event-SameLedger :
    (r : AuditEventRecord) → Accepts SameLedger (insert_audit_event r)
unfolding insert_audit_event
insert_audit_event-SameLedger r = record { accepts = λ db db' h. ground arith }

pub insert_transaction-Accepts :
    (t : TransactionRecord) → is_history t.state ≡ false → Accepts Grows (insert_transaction t)
insert_transaction-Accepts t new = record {
  accepts = λ db db' h. insert_transaction-Grows t db db' new h;
}

enters_by_posting : (a : RecordState) → enters_posted a posted ≡ true
enters_by_posting a = ground arith

-- Posting is the one way into history, and its trigger checks the balance.
pub set_posted-Accepts :
    (id : String) (posted_at : Option ℕ) → Accepts Grows (set_state id posted posted_at)
set_posted-Accepts id posted_at = record {
  accepts = λ db db' h.
      set_state-Grows id posted posted_at db db' (λ old found. enters_by_posting old.state) h;
}

pub set_snapshot-Accepts :
    (id : String) (kind : TransactionKind) (economic_date : Date) (cash_date : Option Date)
    (description : Option String) (state : RecordState)
    → is_history state ≡ false
    → Accepts Grows (set_snapshot id kind economic_date cash_date description state)
set_snapshot-Accepts id kind economic_date cash_date description state ready = record {
  accepts = λ db db' h.
      set_snapshot-Grows id kind economic_date cash_date description state db db' ready h;
}

pub delete_transaction-Accepts : (id : String) → Accepts Grows (delete_transaction id)
delete_transaction-Accepts id = record { accepts = delete_transaction-Grows id }

pub insert_entry-Accepts : (e : EntryRecord) → Accepts Grows (insert_entry e)
insert_entry-Accepts e = record { accepts = insert_entry-Grows e }

pub ruleset same_ledger_rules = (
  insert_account-SameLedger, update_account_row-SameLedger, insert_category-SameLedger,
  update_category_row-SameLedger, insert_draft_details-SameLedger, update_draft_details-SameLedger,
  delete_draft_details-SameLedger, insert_reversal-SameLedger, insert_idempotency_record-SameLedger,
  update_idempotency_record-SameLedger, insert_reconciliation-SameLedger,
  insert_reconciliation_entry-SameLedger, insert_audit_event-SameLedger,
)

pub ruleset grows_rules = (
  same_ledger_rules, SameLedger-Grows, Grows-preorder, insert_transaction-Accepts,
  set_posted-Accepts, set_snapshot-Accepts, delete_transaction-Accepts, insert_entry-Accepts,
)
