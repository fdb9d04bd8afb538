-- ===== src/Ledger/Handlers/Drafts.antt =====
-- Drafts: `create_draft`, `update_draft`, `discard_draft`, and how a draft becomes a posting.
use personal_finance_public.Base.{⊤, String, true, Option, none, some, or_else, invalid_lifecycle}
use personal_finance_public.Domain.Description.{normalize_required_description}
use personal_finance_public.Domain.Transaction.{
  Transaction, TransactionKind, Date, opening, income, expense, transfer, reversal, new_draft,
  new_posted,
}
use personal_finance_public.Domain.Recipes.{
  opening_entries, income_entries, expense_entries, transfer_entries,
}
use personal_finance_public.Domain.Entry.{Entry}
use personal_finance_public.Base.{List}
use personal_finance_public.Storage.Exec.{Exec, pure, raise, lift, ◌>>=◌, ◌>>◌}
use personal_finance_public.Storage.Schema.{DraftDetails}
use personal_finance_public.Storage.World.{Env, World, committed, uuid4, unit_of_work}
use personal_finance_public.Ledger.Commands.{DraftCommand, PostDraft, CommandResult}
use personal_finance_public.Ledger.Repository.Transactions.{
  add_draft, update_draft, discard_draft, get_transaction, get_draft_details,
}
use personal_finance_public.Ledger.Handlers.Support.{
  details_of, validate_draft, validate_selections, active_account, ensure_equity, required,
  post_draft_payload,
}
use personal_finance_public.Ledger.Audit.{FinancialAuditSink}
use personal_finance_public.Ledger.Handlers.Posting.{post_idempotently}

-- `replace(command, description=normalize_required_description(command.description))`
unfoldable pub normalized_draft : DraftCommand → Exec World DraftCommand
normalized_draft c = do
  description ← lift (normalize_required_description (some c.description))
  pure (record c { description = description })

unfoldable pub create_draft_handler : Env → DraftCommand → Exec World Transaction
create_draft_handler env command = do
  c ← normalized_draft command
  validate_draft c
  id ← uuid4 env
  let made : Transaction = new_draft id c.space_id c.kind c.economic_date (some c.description)
  unit_of_work do validate_selections c; add_draft made (details_of c); pure (committed made)

unfoldable pub update_draft_handler : String → DraftCommand → Exec World Transaction
update_draft_handler transaction_id command = do
  c ← normalized_draft command
  validate_draft c
  unit_of_work do
    current ← get_transaction c.space_id transaction_id
    let revised : Transaction =
        new_draft current.id current.space_id c.kind c.economic_date (some c.description)
    validate_selections c
    update_draft revised (details_of c)
    pure (committed revised)

unfoldable pub discard_draft_handler : String → String → Exec World ⊤
discard_draft_handler space_id transaction_id =
    unit_of_work do discard_draft space_id transaction_id; pure (committed tt)

-- The entries of `_posted_from_draft`, and the cash date that it settles on.
unfoldable pub entries_from_draft :
    String
    → String
    → TransactionKind
    → DraftCommand
    → String
    → Option Date
    → Exec World (List Entry × Option Date)
entries_from_draft e1 e2 opening c account_id cash_date = do
  account ← active_account c.space_id account_id
  equity ← ensure_equity c.space_id
  entries ← lift (opening_entries e1 e2 c.space_id account.id account.kind equity.id c.amount_cents)
  pure (entries, none)
entries_from_draft e1 e2 income c account_id cash_date = do
  category_id ← required c.category_id
  entries ← lift (income_entries e1 e2 c.space_id account_id category_id c.amount_cents)
  pure (entries, cash_date)
entries_from_draft e1 e2 expense c account_id cash_date = do
  category_id ← required c.category_id
  entries ← lift (expense_entries e1 e2 c.space_id account_id category_id c.amount_cents)
  pure (entries, cash_date)
entries_from_draft e1 e2 transfer c account_id cash_date = do
  destination ← required c.destination_account_id
  entries ← lift (transfer_entries e1 e2 c.space_id account_id destination c.amount_cents)
  pure (entries, cash_date)
entries_from_draft e1 e2 reversal c account_id cash_date = raise invalid_lifecycle

-- `_posted_from_draft`
unfoldable pub posted_from_draft : Env → String → DraftCommand → Exec World Transaction
posted_from_draft env transaction_id c = do
  account_id ← required c.account_id
  e1 ← uuid4 env
  e2 ← uuid4 env
  (entries, cash_date) ←
      entries_from_draft e1 e2 c.kind c account_id (some (or_else c.cash_date c.economic_date))
  lift (
      new_posted transaction_id c.space_id c.kind c.economic_date cash_date (some c.description)
        entries)

-- The command that a stored draft stands for when it is posted.
unfoldable pub draft_command : Transaction → DraftDetails → String → Option Date → DraftCommand
draft_command t details description cash_date = record {
  space_id = t.space_id;
  kind = t.kind;
  economic_date = t.economic_date;
  description = description;
  amount_cents = details.amount_cents;
  account_id = details.account_id;
  category_id = details.category_id;
  destination_account_id = details.destination_account_id;
  cash_date = elim cash_date [ none ↦ details.cash_date | some d ↦ some d ];
}

-- `build` of `post_draft`
unfoldable pub build_from_draft : Env → PostDraft → Exec World Transaction
build_from_draft env command = do
  stored ← get_transaction command.space_id command.transaction_id
  details ← get_draft_details command.space_id command.transaction_id
  description ← lift (normalize_required_description stored.description)
  let c : DraftCommand = draft_command stored details description command.cash_date
  validate_selections c
  posted_from_draft env stored.id c

unfoldable pub post_draft : Env → FinancialAuditSink → PostDraft → Exec World CommandResult
post_draft env sink command =
    post_idempotently env sink command.space_id "post_draft" command.idempotency_key
      (post_draft_payload env command) (build_from_draft env command) true
