-- ===== src/Storage/Schema/Triggers.antt =====
-- The triggers of backend/alembic/versions/0001_initial.py and 0002_ledger_immutability.py, as the
-- condition under which each aborts a statement.
use personal_finance_public.Base.{
  String, none, some, Bool, true, false, ◌&&◌, ◌||◌, not, List, filter, length, map, ltb, ◌==◌,
}
use personal_finance_public.Base.Int.{ℤ, pos, sum, eq_ℤ}
use personal_finance_public.Domain.Entry.{signed_cents}
use personal_finance_public.Storage.Table.{lookup}
use personal_finance_public.Storage.Schema.{
  RecordState, draft, posting, posted, reconciled, voided, is_history, TransactionRecord,
  EntryRecord, transaction_keyed,
}

-- `WHERE transaction_id = … AND space_id = …`, in the table `entries`.
abbrev pub belongs_to : String → String → EntryRecord → Bool
belongs_to transaction_id space_id e =
    e.transaction_id == transaction_id && e.entry.space_id == space_id

abbrev pub entries_of : String → String → List EntryRecord → List EntryRecord
entries_of transaction_id space_id = filter (belongs_to transaction_id space_id)

abbrev pub signed_sum : List EntryRecord → ℤ
signed_sum rows = sum (map (λ e. signed_cents e.entry) rows)

abbrev pub becomes_posted : RecordState → RecordState → Bool
becomes_posted posted posted = false
becomes_posted _ posted = true
becomes_posted _ _ = false

-- guard_transaction_posting
unfoldable pub posting_guard : List EntryRecord → TransactionRecord → TransactionRecord → Bool
posting_guard entries old new =
    becomes_posted old.state new.state
    && (let own = entries_of new.id new.space_id entries in
        ltb (length own) 2 || not (eq_ℤ (signed_sum own) (pos 0)))

-- guard_posted_transaction_lifecycle
abbrev pub allowed_move : RecordState → RecordState → Bool
allowed_move posted posted = true
allowed_move posted reconciled = true
allowed_move posted voided = true
allowed_move reconciled reconciled = true
allowed_move reconciled voided = true
allowed_move voided voided = true
allowed_move draft _ = true
allowed_move posting _ = true
allowed_move _ _ = false

-- guard_posted_entry_insert: the transaction of the entry is already history.
unfoldable pub posted_entry_guard : List TransactionRecord → EntryRecord → Bool
posted_entry_guard transactions e = elim (lookup e.transaction_id transactions) [
  | none ↦ false
  | some t ↦ t.space_id == e.entry.space_id && is_history t.state
]
