-- ===== src/Domain/Transaction.antt =====
-- backend/app/ledger/domain/transaction.py: the transaction and its lifecycle.
pub mod Lifecycle
pub mod Posting
use personal_finance_public.Base.{
  String, ℕ, Option, none, Bool, true, false, ◌&&◌, ◌||◌, not, is_some, List, [], any, length, map,
  ltb, ◌==◌, Result, ok, err, raise_if, ◌>>=◌, ◌>>◌, if◌then◌else◌, invalid_lifecycle, ownership,
  unbalanced_transaction,
}
use personal_finance_public.Base.Int.{pos, sum, eq_ℤ}
use personal_finance_public.Domain.Entry.{Entry, signed_cents}

-- `datetime.date`, as its ordinal.
abbrev pub Date : Type 0
Date = ℕ

pub data TransactionKind : Type 0 where
  opening income expense transfer reversal : TransactionKind

pub data TransactionStatus : Type 0 where
  draft posted reconciled voided : TransactionStatus

abbrev pub is_opening : TransactionKind → Bool
is_opening opening = true
is_opening _ = false

abbrev pub is_reversal : TransactionKind → Bool
is_reversal reversal = true
is_reversal _ = false

abbrev pub is_draft : TransactionStatus → Bool
is_draft draft = true
is_draft _ = false

-- The two states of history that is not voided.
abbrev pub is_posted : TransactionStatus → Bool
is_posted posted = true
is_posted _ = false

abbrev pub is_active : TransactionStatus → Bool
is_active posted = true
is_active reconciled = true
is_active _ = false

pub record Transaction : Type 0 where
  pub id : String
  pub space_id : String
  pub kind : TransactionKind
  pub status : TransactionStatus
  pub economic_date : Date
  pub cash_date : Option Date
  pub description : Option String
  pub entries : List Entry

-- `Transaction.draft`
unfoldable pub new_draft : String → String → TransactionKind → Date → Option String → Transaction
new_draft transaction_id space_id kind economic_date description = record {
  id = transaction_id;
  space_id = space_id;
  kind = kind;
  status = draft;
  economic_date = economic_date;
  cash_date = none;
  description = description;
  entries = [];
}

unfoldable pub validate_posting : String → List Entry → Result (List Entry)
validate_posting space_id entries = do
  raise_if (ltb (length entries) 2 || not (eq_ℤ (sum (map signed_cents entries)) (pos 0)))
      unbalanced_transaction
  raise_if (any (λ entry. not (entry.space_id == space_id)) entries) ownership
  ok entries

-- `Transaction.posted`
unfoldable pub new_posted :
    String
    → String
    → TransactionKind
    → Date
    → Option Date
    → Option String
    → List Entry
    → Result Transaction
new_posted transaction_id space_id kind economic_date cash_date description entries = do
  _ ← validate_posting space_id entries
  raise_if (is_opening kind && is_some cash_date) invalid_lifecycle
  raise_if (not (is_opening kind || is_reversal kind) && not (is_some cash_date)) invalid_lifecycle
  ok (record {
    id = transaction_id;
    space_id = space_id;
    kind = kind;
    status = posted;
    economic_date = economic_date;
    cash_date = cash_date;
    description = description;
    entries = entries;
  })

unfoldable pub revise : Transaction → Date → Option String → Result Transaction
revise t economic_date description = do
  raise_if (not (is_draft t.status)) invalid_lifecycle
  ok (record t { economic_date = economic_date; description = description })

unfoldable pub reconcile : Transaction → Result Transaction
reconcile t = do
  raise_if (not (is_posted t.status)) invalid_lifecycle
  ok (record t { status = reconciled })

unfoldable pub void : Transaction → Result Transaction
void t = do raise_if (not (is_active t.status)) invalid_lifecycle; ok (record t { status = voided })
