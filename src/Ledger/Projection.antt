-- ===== src/Ledger/Projection.antt =====
-- backend/app/ledger/application/state_projection.py: the state that completed reconciliations imply.
pub mod Progress
use personal_finance_public.Base.{
  String, Bool, true, false, ◌&&◌, not, Option, none, some, List, [], ◌∷◌, any, all, filter, map,
  ◌==◌, ◌=?◌, if◌then◌else◌,
}
use personal_finance_public.Domain.Account.{Account, is_equity}
use personal_finance_public.Domain.Entry.{Entry}
use personal_finance_public.Domain.Transaction.{
  Transaction, TransactionStatus, draft, posted, reconciled, voided, is_active,
}

-- `value in collection`
abbrev pub mem : String → List String → Bool
mem x xs = any (λ y. y == x) xs

-- `eligible_account_ids`, as the accounts with these identifiers; every account kind but equity is an
-- asset or a liability.
abbrev pub is_eligible_account : Transaction → Account → Bool
is_eligible_account t a =
    a.space_id == t.space_id && (not a.is_archived && (a.is_reconcilable && not (is_equity a.kind)))

abbrev pub moves_eligible : Transaction → List Account → Entry → Bool
moves_eligible t accounts e = any (λ a. is_eligible_account t a && e.account_id =? a.id) accounts

-- `reconcilable_entry_ids`
unfoldable pub reconcilable_entry_ids : Transaction → List Account → List String
reconcilable_entry_ids t accounts = map (λ e. e.id) (filter (moves_eligible t accounts) t.entries)

-- What the identifiers say: none to check, all checked, or some left.
abbrev pub by_ids : TransactionStatus → List String → List String → TransactionStatus
by_ids status [] completed_entry_ids = status
by_ids status (i ∷ ids) completed_entry_ids =
    if all (λ j. mem j completed_entry_ids) (i ∷ ids) then reconciled else posted

unfoldable pub project_transaction_state :
    Transaction → List Account → List String → TransactionStatus
project_transaction_state t accounts completed_entry_ids =
    if is_active t.status
    then by_ids t.status (reconcilable_entry_ids t accounts) completed_entry_ids
    else t.status
