-- ===== src/Reconciliation/Repository.antt =====
-- backend/app/reconciliation/adapters/repository.py: `SqlAlchemyReconciliationRepository`.
pub mod Candidates
pub mod Reads
use personal_finance_public.Base.{
  ⊤, String, ℕ, Bool, true, false, ◌&&◌, ◌||◌, not, Option, none, some, List, [], ◌∷◌, any, filter,
  map, sort_by, ◌==◌, ◌=?◌, leb, nat_eq, text_le, Result, ok, err, if◌then◌else◌,
  ineligible_account, duplicate_completed_membership, runtime_error, value_error,
}
use personal_finance_public.Base.{◌>>=◌ as then_result}
use personal_finance_public.Base.Int.{ℤ, sum}
use personal_finance_public.Domain.Account.{Account, is_equity, new_account}
use personal_finance_public.Domain.Entry.{Entry, signed_cents}
use personal_finance_public.Domain.Transaction.{Date, Transaction, TransactionStatus}
use personal_finance_public.Storage.Table.{lookup}
use personal_finance_public.Storage.Exec.{Exec, pure, lift, guard, or_raise, ◌>>=◌, ◌>>◌}
use personal_finance_public.Storage.Schema.{
  Db, RecordState, draft, posted, reconciled, voided, is_history, TransactionRecord, EntryRecord,
  ReconciliationRecord, ReconciliationEntryRecord, transaction_keyed, entry_keyed,
  reconciliation_keyed,
}
use personal_finance_public.Storage.Schema.Statements.{
  insert_reconciliation, insert_reconciliation_entry, set_state,
}
use personal_finance_public.Storage.World.{World, query, execute, or_integrity}
use personal_finance_public.Ledger.Repository.Catalog.{account_row, all_accounts}
use personal_finance_public.Ledger.Repository.Transactions.{
  transaction_row, entries, status_of, transaction_of,
}
use personal_finance_public.Reconciliation.{
  ReconciliationCandidate, ReconciliationStatus, completed, Reconciliation, date_of, mem, no_ids,
}

abbrev pub is_voided : RecordState → Bool
is_voided voided = true
is_voided _ = false

abbrev pub is_completed : ReconciliationStatus → Bool
is_completed completed = true
is_completed _ = false

unfoldable pub get_account : String → String → Exec World Account
get_account space_id account_id = do
  found ← query (account_row space_id account_id)
  r ← or_raise found ineligible_account
  account ← lift (new_account r)
  guard (account.is_archived || (not account.is_reconcilable || is_equity account.kind))
      ineligible_account
  pure account

-- The row of the transaction that an entry's row is joined with.
abbrev pub joined : EntryRecord → Db → Option TransactionRecord
joined e db = elim (lookup e.transaction_id db.transactions) [
  | none ↦ none
  | some t ↦ if t.space_id == e.entry.space_id then some t else none
]

abbrev pub date_of_row : TransactionRecord → Date
date_of_row t = date_of t.kind t.economic_date t.cash_date

-- `already_completed`; every membership that is stored is a completed one.
abbrev pub already_completed : String → Db → Bool
already_completed entry_id db = any (λ m. m.entry_id == entry_id) db.reconciliation_entries

abbrev pub candidate_row : String → EntryRecord → TransactionRecord → ReconciliationCandidate
candidate_row account_id e t = record {
  entry_id = e.entry.id;
  transaction_id = t.id;
  space_id = e.entry.space_id;
  account_id = account_id;
  description = t.description;
  kind = t.kind;
  eligibility_date = date_of_row t;
  signed_effect_cents = signed_cents e.entry;
}

abbrev pub is_open : String → String → Date → Db → EntryRecord → TransactionRecord → Bool
is_open space_id account_id cutoff_date db e t =
    e.entry.space_id == space_id
    && (e.entry.account_id =? account_id
        && (is_history t.state
            && (leb (date_of_row t) cutoff_date && not (already_completed e.entry.id db))))

abbrev pub candidate_at :
    String
    → String
    → Date
    → Db
    → EntryRecord
    → Option TransactionRecord
    → List ReconciliationCandidate
    → List ReconciliationCandidate
candidate_at space_id account_id cutoff_date db e none rest = rest
candidate_at space_id account_id cutoff_date db e (some t) rest =
    if is_open space_id account_id cutoff_date db e t
    then candidate_row account_id e t ∷ rest
    else rest

abbrev pub candidate_rows :
    String → String → Date → Db → List EntryRecord → List ReconciliationCandidate
candidate_rows space_id account_id cutoff_date db [] = []
candidate_rows space_id account_id cutoff_date db (e ∷ rows) =
    candidate_at space_id account_id cutoff_date db e (joined e db)
      (candidate_rows space_id account_id cutoff_date db rows)

-- `ORDER BY eligibility_date, entries.id`
abbrev pub candidate_le : ReconciliationCandidate → ReconciliationCandidate → Bool
candidate_le a b =
    if nat_eq a.eligibility_date b.eligibility_date
    then text_le a.entry_id b.entry_id
    else leb a.eligibility_date b.eligibility_date

unfoldable pub candidates_of : String → String → Date → Db → List ReconciliationCandidate
candidates_of space_id account_id cutoff_date db =
    sort_by candidate_le (candidate_rows space_id account_id cutoff_date db db.entries)

unfoldable pub list_candidates : String → String → Date → Exec World (List ReconciliationCandidate)
list_candidates space_id account_id cutoff_date = do
  _ ← get_account space_id account_id
  query (candidates_of space_id account_id cutoff_date)

-- The joins of `prior_completed_cents`: the reconciliation, the entry and its transaction.
abbrev pub entry_row : String → String → Db → Option EntryRecord
entry_row space_id entry_id db = elim (lookup entry_id db.entries) [
  | none ↦ none
  | some e ↦ if e.entry.space_id == space_id then some e else none
]

abbrev pub has_its_reconciliation : ReconciliationEntryRecord → Db → Bool
has_its_reconciliation m db = elim (lookup m.reconciliation_id db.reconciliations) [
  | none ↦ false
  | some r ↦ r.space_id == m.space_id
]

abbrev pub counted : String → Date → EntryRecord → Option TransactionRecord → Bool
counted account_id cutoff_date e none = false
counted account_id cutoff_date e (some t) =
    e.entry.account_id =? account_id && leb (date_of_row t) cutoff_date

abbrev pub completed_effect :
    String → String → Date → Db → ReconciliationEntryRecord → List ℤ → List ℤ
completed_effect space_id account_id cutoff_date db m rest =
    elim (entry_row m.space_id m.entry_id db) [
      | none ↦ rest
      | some e ↦
          if m.space_id == space_id
            && (has_its_reconciliation m db && counted account_id cutoff_date e (joined e db))
          then signed_cents e.entry ∷ rest
          else rest
    ]

abbrev pub completed_effects : String → String → Date → Db → List ReconciliationEntryRecord → List ℤ
completed_effects space_id account_id cutoff_date db [] = []
completed_effects space_id account_id cutoff_date db (m ∷ rows) =
    completed_effect space_id account_id cutoff_date db m
      (completed_effects space_id account_id cutoff_date db rows)

unfoldable pub prior_completed_cents : String → String → Date → Exec World ℤ
prior_completed_cents space_id account_id cutoff_date = do
  _ ← get_account space_id account_id
  query (λ db. sum (completed_effects space_id account_id cutoff_date db db.reconciliation_entries))

-- `add_all` of the memberships and their flush.
unfoldable pub add_memberships : String → String → List String → Exec World ⊤
add_memberships space_id reconciliation_id [] = pure tt
add_memberships space_id reconciliation_id (entry_id ∷ rest) = do
  execute (
      insert_reconciliation_entry (record {
        reconciliation_id = reconciliation_id;
        entry_id = entry_id;
        space_id = space_id;
      }))
  add_memberships space_id reconciliation_id rest

unfoldable pub add_completed : Reconciliation → ℕ → Exec World ⊤
add_completed r completed_at = do
  guard (not (is_completed r.status)) value_error
  duplicate ← query (λ db. any (λ entry_id. already_completed entry_id db) r.selection)
  guard duplicate duplicate_completed_membership
  execute (
      insert_reconciliation (record {
        id = r.id;
        space_id = r.space_id;
        account_id = r.account_id;
        cutoff_date = r.cutoff_date;
        observed_balance_cents = r.observed_balance_cents;
        completed_at = completed_at;
      }))
  or_integrity (add_memberships r.space_id r.id r.selection) duplicate_completed_membership

-- `SELECT DISTINCT`
unfoldable pub distinct_ids : List String → List String
distinct_ids [] = []
distinct_ids (i ∷ ids) = let rest = distinct_ids ids in if mem i rest then rest else i ∷ rest

unfoldable pub transaction_ids : String → List String → Db → List String
transaction_ids space_id entry_ids db = sort_by text_le (
    distinct_ids (
      map (λ e. e.transaction_id)
        (filter (λ e. e.entry.space_id == space_id && mem e.entry.id entry_ids) db.entries)))

-- `_transaction`
abbrev pub read_transaction : String → Db → Option TransactionRecord → Result Transaction
read_transaction space_id db none = err runtime_error
read_transaction space_id db (some r) =
    then_result (status_of r.state)
      λ status. ok (transaction_of r (entries space_id r.id db) status)

unfoldable pub read_transactions : String → Db → List String → Result (List Transaction)
read_transactions space_id db [] = ok []
read_transactions space_id db (i ∷ ids) =
    then_result (read_transaction space_id db (transaction_row space_id i db))
      λ t. then_result (read_transactions space_id db ids) λ rest. ok (t ∷ rest)

unfoldable pub transactions_for_entries : String → List String → Exec World (List Transaction)
transactions_for_entries space_id entry_ids = do
  found ← query (λ db. read_transactions space_id db (transaction_ids space_id entry_ids db))
  lift found

unfoldable pub reconcilable_accounts : String → Exec World (List Account)
reconcilable_accounts space_id = do
  rows ← query (λ db.
      sort_by (λ a b. text_le a.id b.id)
        (filter
          (λ a.
            a.space_id == space_id
            && (not a.is_archived && (a.is_reconcilable && not (is_equity a.kind))))
          db.accounts))
  lift (all_accounts rows)

abbrev pub is_entry_of : String → Option EntryRecord → Bool
is_entry_of transaction_id none = false
is_entry_of transaction_id (some e) = e.transaction_id == transaction_id

unfoldable pub completed_entry_ids : String → String → Db → List String
completed_entry_ids space_id transaction_id db =
    map (λ m. m.entry_id)
      (filter
        (λ m.
          m.space_id == space_id && is_entry_of transaction_id (entry_row m.space_id m.entry_id db))
        db.reconciliation_entries)

-- The value of a status in its column.
abbrev pub state_of : TransactionStatus → RecordState
state_of TransactionStatus.draft = draft
state_of TransactionStatus.posted = posted
state_of TransactionStatus.reconciled = reconciled
state_of TransactionStatus.voided = voided

-- What is flushed for a row that was found.
abbrev pub move_row : TransactionStatus → TransactionRecord → Exec World ⊤
move_row status r =
    if is_voided r.state then pure tt else execute (set_state r.id (state_of status) r.posted_at)

unfoldable pub set_transaction_state : String → String → TransactionStatus → Exec World ⊤
set_transaction_state space_id transaction_id status = do
  found ← query (transaction_row space_id transaction_id)
  r ← or_raise found runtime_error
  move_row status r
