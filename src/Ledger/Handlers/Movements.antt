-- ===== src/Ledger/Handlers/Movements.antt =====
-- The four direct commands: an opening balance, an income, an expense and a transfer.
use personal_finance_public.Base.{
  String, false, none, some, or_else, not, List, Result, invalid_lifecycle,
}
use personal_finance_public.Base.Int.{ℤ}
use personal_finance_public.Domain.Account.{CategoryKind, eq_category_kind}
use personal_finance_public.Domain.Description.{normalize_required_description}
use personal_finance_public.Domain.Entry.{Entry}
use personal_finance_public.Domain.Transaction.{Transaction, TransactionKind, new_posted}
use personal_finance_public.Domain.Recipes.{
  opening_entries, income_entries, expense_entries, transfer_entries,
}
use personal_finance_public.Storage.Exec.{Exec, lift, guard, ◌>>=◌, ◌>>◌}
use personal_finance_public.Storage.World.{Env, World, uuid4}
use personal_finance_public.Ledger.Commands.{
  OpeningCommand, CategoryCommand, TransferCommand, CommandResult,
}
use personal_finance_public.Ledger.Audit.{FinancialAuditSink}
use personal_finance_public.Ledger.Handlers.Support.{
  active_account, active_category, ensure_equity, opening_payload, category_payload,
  transfer_payload,
}
use personal_finance_public.Ledger.Handlers.Posting.{post_idempotently}

-- Which of the two kinds `_create_category_movement` is called with.
abbrev pub movement_kind : CategoryKind → TransactionKind
movement_kind CategoryKind.income = TransactionKind.income
movement_kind CategoryKind.expense = TransactionKind.expense

abbrev pub movement_entries :
    CategoryKind → String → String → String → String → String → ℤ → Result (List Entry)
movement_entries CategoryKind.income = income_entries
movement_entries CategoryKind.expense = expense_entries

-- `f"create_{kind.value.lower()}"`
abbrev pub movement_name : CategoryKind → String
movement_name CategoryKind.income = "create_income"
movement_name CategoryKind.expense = "create_expense"

module _ (env : Env) where
  unfoldable pub build_opening : OpeningCommand → Exec World Transaction
  build_opening c = do
    account ← active_account c.space_id c.account_id
    equity ← ensure_equity c.space_id
    id ← uuid4 env
    e1 ← uuid4 env
    e2 ← uuid4 env
    entries ←
        lift (opening_entries e1 e2 c.space_id account.id account.kind equity.id c.amount_cents)
    lift (
        new_posted id c.space_id TransactionKind.opening c.economic_date none (some c.description)
          entries)

  unfoldable pub build_movement : CategoryKind → CategoryCommand → Exec World Transaction
  build_movement kind c = do
    _ ← active_account c.space_id c.account_id
    category ← active_category c.space_id c.category_id
    guard (not (eq_category_kind category.kind kind)) invalid_lifecycle
    id ← uuid4 env
    e1 ← uuid4 env
    e2 ← uuid4 env
    entries ←
        lift (movement_entries kind e1 e2 c.space_id c.account_id c.category_id c.amount_cents)
    lift (
        new_posted id c.space_id (movement_kind kind) c.economic_date
          (some (or_else c.cash_date c.economic_date)) (some c.description) entries)

  unfoldable pub build_transfer : TransferCommand → Exec World Transaction
  build_transfer c = do
    _ ← active_account c.space_id c.source_account_id
    _ ← active_account c.space_id c.destination_account_id
    id ← uuid4 env
    e1 ← uuid4 env
    e2 ← uuid4 env
    entries ← lift (
        transfer_entries e1 e2 c.space_id c.source_account_id c.destination_account_id
          c.amount_cents)
    lift (
        new_posted id c.space_id TransactionKind.transfer c.economic_date
          (some (or_else c.cash_date c.economic_date)) (some c.description) entries)

  module _ (sink : FinancialAuditSink) where
    unfoldable pub create_opening : OpeningCommand → Exec World CommandResult
    create_opening command = do
      description ← lift (normalize_required_description (some command.description))
      let c : OpeningCommand = record command { description = description }
      post_idempotently env sink c.space_id "create_opening" c.idempotency_key
          (opening_payload env c) (build_opening c) false

    -- `create_income` and `create_expense`, by the kind.
    unfoldable pub create_category_movement :
        CategoryKind → CategoryCommand → Exec World CommandResult
    create_category_movement kind command = do
      description ← lift (normalize_required_description (some command.description))
      let c : CategoryCommand = record command { description = description }
      post_idempotently env sink c.space_id (movement_name kind) c.idempotency_key
          (category_payload env c) (build_movement kind c) false

    unfoldable pub create_transfer : TransferCommand → Exec World CommandResult
    create_transfer command = do
      description ← lift (normalize_required_description (some command.description))
      let c : TransferCommand = record command { description = description }
      post_idempotently env sink c.space_id "create_transfer" c.idempotency_key
          (transfer_payload env c) (build_transfer c) false
