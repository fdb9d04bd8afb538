-- ===== src/Ledger/Reversal.antt =====
-- backend/app/ledger/application/reversal.py: `ReversalService`.
use personal_finance_public.Base.{
  String, ℕ, false, Option, none, some, not, ◌==◌, Result, ok, err, invalid_lifecycle,
}
use personal_finance_public.Base.Int.{pos, leb_ℤ}
use personal_finance_public.Base.Text
use personal_finance_public.Domain.Description.{
  normalize_required_description, reversal_description,
}
use personal_finance_public.Domain.Recipes.{reversal_entries}
use personal_finance_public.Domain.Transaction.{
  Transaction, TransactionKind, Date, opening, income, expense, transfer, reversal, is_active,
  new_draft, new_posted,
}
use personal_finance_public.Storage.Json.{JsonValue, null, str, int, dict, field, end, opt_str}
use personal_finance_public.Storage.CanonicalJson.{decimal}
use personal_finance_public.Storage.Exec.{Exec, pure, lift, guard, ◌>>=◌, ◌>>◌}
use personal_finance_public.Storage.Schema.{DraftDetails}
use personal_finance_public.Storage.World.{
  Env, World, Exit, committed, returned, uuid4, local_today, unit_of_work, on_exception,
}
use personal_finance_public.Ledger.Commands.{DraftCommand, ReverseCommand, CommandResult, as_json}
use personal_finance_public.Ledger.Audit.{FinancialAuditSink, success}
use personal_finance_public.Ledger.Idempotency.{IdempotencyReservation, reserve, complete}
use personal_finance_public.Ledger.Repository.Transactions.{
  add_draft, get_transaction, add_posted, mark_voided, add_reversal_link,
}
use personal_finance_public.Ledger.Handlers.Support.{opt_date}
use personal_finance_public.Ledger.Handlers.Posting.{replay, record_failure, status_value}

abbrev pub kind_value : TransactionKind → String
kind_value opening = "OPENING"
kind_value income = "INCOME"
kind_value expense = "EXPENSE"
kind_value transfer = "TRANSFER"
kind_value reversal = "REVERSAL"

abbrev replacement_payload : Env → Option DraftCommand → JsonValue
replacement_payload env none = null
replacement_payload env (some c) = dict (
    field "space_id" (str c.space_id) (
      field "kind" (str (kind_value c.kind)) (
        field "economic_date" (str (env.isoformat c.economic_date)) (
          field "description" (str c.description) (
            field "amount_cents" (int c.amount_cents) (
              field "account_id" (opt_str c.account_id) (
                field "category_id" (opt_str c.category_id) (
                  field "destination_account_id" (opt_str c.destination_account_id)
                    (field "cash_date" (opt_date env c.cash_date) end)))))))))

-- The details of a replacement: those of its command, and the transaction that it replaces.
unfoldable pub replacement_details : String → DraftCommand → DraftDetails
replacement_details original_transaction_id c = record {
  amount_cents = c.amount_cents;
  account_id = c.account_id;
  category_id = c.category_id;
  destination_account_id = c.destination_account_id;
  cash_date = c.cash_date;
  replacement_of_transaction_id = some original_transaction_id;
}

-- The identifiers of the reversing entries: `f"{prefix}-{index}"`.
abbrev pub entry_id : String → ℕ → String
entry_id prefix index = Text.append prefix (Text.append "-" (decimal index))

-- `command` with the description of its replacement normalized.
unfoldable pub normalized_replacement : Option DraftCommand → Result (Option DraftCommand)
normalized_replacement none = ok none
normalized_replacement (some c) = elim (normalize_required_description (some c.description)) [
  | ok description ↦ ok (some (record c { description = description }))
  | err e ↦ err e
]

module _ (env : Env) where
  -- `_payload`
  unfoldable pub reverse_payload : ReverseCommand → JsonValue
  reverse_payload c = dict (
      field "original_transaction_id" (str c.original_transaction_id) (
        field "economic_date" (opt_date env c.economic_date) (
          field "cash_date" (opt_date env c.cash_date)
            (field "replacement" (replacement_payload env c.replacement) end))))

  -- `_add_replacement`
  unfoldable pub add_replacement :
      String → String → Option DraftCommand → Exec World (Option String)
  add_replacement space_id original_transaction_id none = pure none
  add_replacement space_id original_transaction_id (some c) = do
    guard (not (c.space_id == space_id)) invalid_lifecycle
    guard (leb_ℤ c.amount_cents (pos 0)) invalid_lifecycle
    id ← uuid4 env
    add_draft (new_draft id c.space_id c.kind c.economic_date (some c.description))
        (replacement_details original_transaction_id c)
    pure (some id)

  -- `given or self._today()`
  unfoldable pub date_or_today : Option Date → Exec World Date
  date_or_today none = local_today env
  date_or_today (some d) = pure d

  unfoldable pub cash_date_of_reversal : Option Date → Option Date → Exec World (Option Date)
  cash_date_of_reversal none given = pure none
  cash_date_of_reversal (some original) given = do d ← date_or_today given; pure (some d)

  -- The reversing transaction.
  unfoldable pub build_reversal : ReverseCommand → Transaction → Exec World Transaction
  build_reversal command original = do
    guard (not (is_active original.status)) invalid_lifecycle
    reversal_date ← date_or_today command.economic_date
    reversal_cash_date ← cash_date_of_reversal original.cash_date command.cash_date
    id ← uuid4 env
    prefix ← uuid4 env
    entries ← lift (reversal_entries (entry_id prefix) original.entries)
    lift (
        new_posted id command.space_id reversal reversal_date reversal_cash_date
          (some (reversal_description original.description)) entries)

  -- Post the reversal, void the original, link the two and add the replacement.
  unfoldable pub apply_reversal : ReverseCommand → Exec World CommandResult
  apply_reversal command = do
    original ← get_transaction command.space_id command.original_transaction_id
    made ← build_reversal command original
    add_posted env made
    mark_voided command.space_id original.id
    add_reversal_link env command.space_id original.id made.id
    replacement_id ←
        add_replacement command.space_id command.original_transaction_id command.replacement
    pure (record {
      transaction_id = made.id;
      status = status_value made.status;
      replayed = false;
      replacement_transaction_id = replacement_id;
    })

  module _ (sink : FinancialAuditSink) where
    unfoldable pub reverse_once :
        ReverseCommand
        → IdempotencyReservation
        → Option CommandResult
        → Exec World (Exit CommandResult)
    reverse_once command reservation (some r) = pure (returned r)
    reverse_once command reservation none = do
      result ← apply_reversal command
      complete env reservation (as_json result)
      sink.record_outcome "reverse_transaction" success command.space_id
          (some result.transaction_id) command.idempotency_key
      pure (committed result)

    unfoldable pub reverse : ReverseCommand → Exec World CommandResult
    reverse given = do
      replacement ← lift (normalized_replacement given.replacement)
      let command : ReverseCommand = record given { replacement = replacement }
      on_exception
          (unit_of_work do
            reservation ←
                reserve env command.space_id "reverse_transaction" command.idempotency_key
                  (reverse_payload command)
            replayed ← lift (replay reservation)
            reverse_once command reservation replayed)
          (record_failure env sink command.space_id "reverse_transaction" command.idempotency_key)
