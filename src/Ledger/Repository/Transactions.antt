-- ===== src/Ledger/Repository/Transactions.antt =====
-- Drafts, postings, reversal links and balances.
use personal_finance_public.Base.{
  ⊤, String, Bool, true, false, ◌&&◌, not, Option, none, some, List, [], ◌∷◌, filter, find?,
  sort_by, map, ◌==◌, ◌=?◌, text_le, Result, ok, err, if◌then◌else◌, entity_not_found,
  immutable_ledger, value_error,
}
use personal_finance_public.Base.Int.{ℤ, sum}
use personal_finance_public.Domain.Entry.{Entry, signed_cents}
use personal_finance_public.Domain.Transaction.{Transaction, TransactionStatus}
use personal_finance_public.Storage.Table.{lookup}
use personal_finance_public.Storage.Exec.{Exec, pure, lift, guard, or_raise, ◌>>=◌, ◌>>◌}
use personal_finance_public.Storage.Schema.{
  Db, RecordState, draft, posting, posted, reconciled, voided, is_history, TransactionRecord,
  EntryRecord, DraftDetails, DraftDetailsRecord, transaction_keyed, draft_details_keyed,
}
use personal_finance_public.Storage.Schema.Triggers.{entries_of}
use personal_finance_public.Storage.Schema.Statements.{
  insert_transaction, set_state, set_snapshot, delete_transaction, insert_entry,
  insert_draft_details, update_draft_details, delete_draft_details, insert_reversal,
}
use personal_finance_public.Storage.World.{Env, World, uuid4, utc_now, query, execute}

abbrev pub is_draft_state : RecordState → Bool
is_draft_state draft = true
is_draft_state _ = false

-- `POSTED` or `RECONCILED`
abbrev pub is_active_state : RecordState → Bool
is_active_state posted = true
is_active_state reconciled = true
is_active_state _ = false

-- `TransactionStatus(record.state)`
unfoldable pub status_of : RecordState → Result TransactionStatus
status_of draft = ok TransactionStatus.draft
status_of posting = err value_error
status_of posted = ok TransactionStatus.posted
status_of reconciled = ok TransactionStatus.reconciled
status_of voided = ok TransactionStatus.voided

unfoldable pub transaction_row : String → String → Db → Option TransactionRecord
transaction_row space_id transaction_id db = elim (lookup transaction_id db.transactions) [
  | none ↦ none
  | some r ↦ if r.space_id == space_id then some r else none
]

unfoldable pub draft_details_row : String → String → Db → Option DraftDetailsRecord
draft_details_row space_id transaction_id db = elim (lookup transaction_id db.draft_details) [
  | none ↦ none
  | some r ↦ if r.space_id == space_id then some r else none
]

-- `_transaction_record_for_update` and `_draft_details_record`
unfoldable pub transaction_record_for_update : String → String → Exec World TransactionRecord
transaction_record_for_update space_id transaction_id = do
  found ← query (transaction_row space_id transaction_id)
  or_raise found entity_not_found

unfoldable pub draft_details_record : String → String → Exec World DraftDetailsRecord
draft_details_record space_id transaction_id = do
  found ← query (draft_details_row space_id transaction_id)
  or_raise found entity_not_found

-- `_transaction_record`
unfoldable pub transaction_record : Transaction → RecordState → TransactionRecord
transaction_record t state = record {
  id = t.id;
  space_id = t.space_id;
  kind = t.kind;
  state = state;
  economic_date = t.economic_date;
  cash_date = t.cash_date;
  description = t.description;
  posted_at = none;
}

-- `_add_entries`: `add_all` and one flush, in the order of the entries.
unfoldable pub add_entries : String → List Entry → Exec World ⊤
add_entries transaction_id [] = pure tt
add_entries transaction_id (entry ∷ rest) = do
  execute (insert_entry (record { transaction_id = transaction_id; entry = entry }))
  add_entries transaction_id rest

-- `_entries`, ordered by identifier.
unfoldable pub entries : String → String → Db → List Entry
entries space_id transaction_id db =
    sort_by (λ a b. text_le a.id b.id)
      (map (λ r. r.entry) (entries_of transaction_id space_id db.entries))

unfoldable pub transaction_of : TransactionRecord → List Entry → TransactionStatus → Transaction
transaction_of r entries status = record {
  id = r.id;
  space_id = r.space_id;
  kind = r.kind;
  status = status;
  economic_date = r.economic_date;
  cash_date = r.cash_date;
  description = r.description;
  entries = entries;
}

unfoldable pub add_draft : Transaction → DraftDetails → Exec World ⊤
add_draft transaction details = do
  execute (insert_transaction (transaction_record transaction draft))
  execute (
      insert_draft_details (record {
        transaction_id = transaction.id;
        space_id = transaction.space_id;
        details = details;
      }))

unfoldable pub update_draft : Transaction → DraftDetails → Exec World ⊤
update_draft t details = do
  r ← transaction_record_for_update t.space_id t.id
  guard (not (is_draft_state r.state)) immutable_ledger
  d ← draft_details_record t.space_id t.id
  execute (set_snapshot t.id t.kind t.economic_date t.cash_date t.description draft)
  execute (update_draft_details (record d { details = details }))

unfoldable pub discard_draft : String → String → Exec World ⊤
discard_draft space_id transaction_id = do
  r ← transaction_record_for_update space_id transaction_id
  guard (not (is_draft_state r.state)) immutable_ledger
  execute (delete_transaction transaction_id)

unfoldable pub get_transaction : String → String → Exec World Transaction
get_transaction space_id transaction_id = do
  r ← transaction_record_for_update space_id transaction_id
  own ← query (entries space_id transaction_id)
  status ← lift (status_of r.state)
  pure (transaction_of r own status)

unfoldable pub get_draft_details : String → String → Exec World DraftDetails
get_draft_details space_id transaction_id = do
  r ← draft_details_record space_id transaction_id
  pure r.details

unfoldable pub mark_voided : String → String → Exec World ⊤
mark_voided space_id transaction_id = do
  r ← transaction_record_for_update space_id transaction_id
  guard (not (is_active_state r.state)) immutable_ledger
  execute (set_state transaction_id voided r.posted_at)

module _ (env : Env) where
  unfoldable pub add_posted : Transaction → Exec World ⊤
  add_posted transaction = do
    execute (insert_transaction (transaction_record transaction posting))
    add_entries transaction.id transaction.entries
    posted_at ← utc_now env
    execute (set_state transaction.id posted (some posted_at))

  unfoldable pub post_existing_draft : Transaction → Exec World ⊤
  post_existing_draft t = do
    r ← transaction_record_for_update t.space_id t.id
    guard (not (is_draft_state r.state)) immutable_ledger
    execute (set_snapshot t.id t.kind t.economic_date t.cash_date t.description posting)
    add_entries t.id t.entries
    posted_at ← utc_now env
    d ← draft_details_record t.space_id t.id
    execute (set_state t.id posted (some posted_at))
    execute (delete_draft_details d.transaction_id)

  unfoldable pub add_reversal_link : String → String → String → Exec World ⊤
  add_reversal_link space_id original_transaction_id reversal_transaction_id = do
    id ← uuid4 env
    execute (
        insert_reversal (record {
          id = id;
          space_id = space_id;
          original_transaction_id = original_transaction_id;
          reversal_transaction_id = reversal_transaction_id;
        }))

-- `account_balance_cents`: the entries of an account whose transaction is history.
abbrev pub counts_for : String → String → List TransactionRecord → EntryRecord → Bool
counts_for space_id account_id transactions e =
    e.entry.space_id == space_id
    && (e.entry.account_id =? account_id && elim (lookup e.transaction_id transactions) [
      | none ↦ false
      | some t ↦ is_history t.state
    ])

unfoldable pub account_balance_cents : String → String → Db → ℤ
account_balance_cents space_id account_id db = sum (
    map (λ e. signed_cents e.entry)
      (filter (counts_for space_id account_id db.transactions) db.entries))

unfoldable pub reversal_links : String → String → Db → Option String × Option String
reversal_links space_id transaction_id db = (
  elim (find? (λ r. r.space_id == space_id && r.reversal_transaction_id == transaction_id)
      db.reversals) [ none ↦ none | some r ↦ some r.original_transaction_id ],
  elim (find? (λ r. r.space_id == space_id && r.original_transaction_id == transaction_id)
      db.reversals) [ none ↦ none | some r ↦ some r.reversal_transaction_id ],
)

unfoldable pub replacement_links : String → String → Db → Option String × Option String
replacement_links space_id transaction_id db = (
  elim (draft_details_row space_id transaction_id db) [
    | none ↦ none
    | some r ↦ r.details.replacement_of_transaction_id
  ],
  elim (find?
      (λ r. r.space_id == space_id && r.details.replacement_of_transaction_id =? transaction_id)
      db.draft_details) [ none ↦ none | some r ↦ some r.transaction_id ],
)
